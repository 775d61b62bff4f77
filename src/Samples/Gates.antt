-- ===== src/Samples/Gates.antt =====
-- The sample graph under a gate that stops every commit, and under one that stops every dispatch.
use perpetua_core.Prelude.{◌≡◌, refl, none, some, [], All}
use perpetua_core.Value.{text, null}
use perpetua_core.Exec.{pure}
use perpetua_core.Gate.{Gate, GateDecision, allow, stop, decided}
use perpetua_core.Scheduler.{Invocation}
use perpetua_core.Scheduler.Loop.{observe}
use perpetua_core.Scheduler.Trace.Withheld.{IsUnpublished, Withholds}
use perpetua_core.Scheduler.Trace.Unpublished.Contract.{observe-IsUnpublished}
use perpetua_core.Scheduler.Loop.Denied.{Denies}
use perpetua_core.Scheduler.Loop.Denied.Contract.{observe-denied}
use perpetua_core.Samples.{World, Fields, fresh, diamond, ungated, dict_model}

abbrev allowed : GateDecision
allowed = record { verdict = allow; reason = null }

abbrev refused : GateDecision
refused = record { verdict = stop; reason = text "no" }

abbrev withholding : Gate World
withholding = record {
  before_dispatch = λ request. pure (decided allowed);
  before_commit = λ request. pure (decided refused);
  before_start = none;
  after_commit = none;
}

abbrev denying : Gate World
denying = record {
  before_dispatch = λ request. pure (decided refused);
  before_commit = λ request. pure (decided allowed);
  before_start = none;
  after_commit = none;
}

stop-allow : ¬ (stop ≡ allow)
stop-allow h = cc

withholding-Withholds : Withholds withholding
withholding-Withholds request = record { at = λ w u. stop-allow }

-- The world is the log of the nodes that ran.
abbrev IsIdle : World → Type 0
IsIdle w = w ≡ []

denying-Denies : Denies IsIdle denying
denying-Denies request = record { at = λ w p. (stop-allow, p) }

abbrev under : Gate World → Invocation Fields World
under gate = record (ungated diamond) { gate = some gate }

observe-IsUnpublished_example :
    All (IsUnpublished dict_model fresh) (observe (under withholding) fresh []).1.trace
observe-IsUnpublished_example =
    observe-IsUnpublished (under withholding) withholding refl withholding-Withholds fresh []

observe-denied_example : (observe (under denying) fresh []).1.world ≡ []
observe-denied_example =
    observe-denied (under denying) IsIdle (λ o w p. p) denying refl denying-Denies fresh [] refl
