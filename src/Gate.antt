-- ===== src/Gate.antt =====
-- graph/gate.py: the decisions of a dispatch gate, the requests it sees, and the gate's interface.
use perpetua_core.Prelude.{
  ℕ, String, Bool, true, false, Option, none, some, List, ◌==◌, not, if◌then◌else◌, ◌≡◌, ◌≢◌, refl,
  sym,
}
use perpetua_core.Value.{Value, null, text}
use perpetua_core.Errors.{
  value_error, type_error, gate_refused, Result, ok, err, ok-injective, ◌>>=◌, ◌>>◌, guard,
}
use perpetua_core.Exec.{Exec}

pub data Verdict : Type 0 where
  allow refuse stop : Verdict

-- A decision as `__post_init__` lets it be built. The reason of an allow is None.
pub record GateDecision : Type 0 where
  pub verdict : Verdict
  pub reason : Value

-- `verdict in _VERDICTS`
verdict_named : String → Result Verdict
verdict_named s =
    if s == "allow"
    then ok allow
    else if s == "refuse"
    then ok refuse
    else if s == "stop"
    then ok stop
    else err value_error

is_none : Value → Bool
is_none null = true
is_none _ = false

-- `isinstance(reason, str) and reason`
is_code : Value → Bool
is_code (text s) = not (s == "")
is_code _ = false

-- The check on the reason, by verdict.
reason_fits : Verdict → Value → Bool
unfolding is_none is_code
reason_fits allow reason = is_none reason
reason_fits refuse reason = is_code reason
reason_fits stop reason = is_code reason

-- `GateDecision(verdict, reason)`
unfoldable pub gate_decision : String → Value → Result GateDecision
unfolding verdict_named reason_fits
gate_decision name reason = do
  verdict ← verdict_named name
  guard (reason_fits verdict reason) value_error
  ok (record { verdict = verdict; reason = reason })

pub data DispatchBoundary : Type 0 where
  node router fanout join reducer : DispatchBoundary

pub data CommitBoundary : Type 0 where
  node region : CommitBoundary

pub record DispatchRequest : Type 0 where
  pub boundary : DispatchBoundary
  pub nodes : List String
  pub steps : ℕ
  pub source : Option String
  pub batch_id : Option String

pub record CommitRequest : Type 0 where
  pub boundary : CommitBoundary
  pub nodes : List String
  pub steps : ℕ
  pub source : Option String
  pub result_digest : String
  pub batch_id : Option String

-- What a gate's coroutine gives back: a decision, or some other object.
pub data Answer : Type 0 where
  decided : GateDecision → Answer
  foreign : Answer

-- What an optional hook gives back: an awaitable that then finished, or something else.
pub data Hooked : Type 0 where
  awaited not_awaitable : Hooked

-- `DispatchGate`, with the optional methods `before_start` and `after_commit`. `W` is all that the
-- callbacks may read and change.
pub record Gate (W : Type 0) : Type 0 where
  pub before_dispatch : DispatchRequest → Exec W Answer
  pub before_commit : CommitRequest → Exec W Answer
  pub before_start : Option (DispatchRequest → Exec W Hooked)
  pub after_commit : Option (CommitRequest → Exec W Hooked)

-- `checked`: anything that is not a decision fails.
unfoldable pub checked : Answer → Result GateDecision
checked (decided d) = ok d
checked foreign = err type_error

abbrev pub dispatch_name : DispatchBoundary → String
dispatch_name DispatchBoundary.node = "node"
dispatch_name router = "router"
dispatch_name fanout = "fanout"
dispatch_name join = "join"
dispatch_name reducer = "reducer"

abbrev pub commit_name : CommitBoundary → String
commit_name CommitBoundary.node = "node"
commit_name region = "region"

-- `_enforce` of engine.py on the decision's verdict: a stop is handed on, a refusal raises.
enforce_verdict : Verdict → GateDecision → String → List String → Result (Option GateDecision)
enforce_verdict allow d boundary nodes = ok none
enforce_verdict stop d boundary nodes = ok (some d)
enforce_verdict refuse d boundary nodes =
    err (gate_refused (record { boundary = boundary; nodes = nodes; reason = d.reason }))

unfoldable pub enforce : GateDecision → String → List String → Result (Option GateDecision)
unfolding enforce_verdict
enforce d boundary nodes = enforce_verdict d.verdict d boundary nodes

enforce_verdict-some :
    (v : Verdict) (d : GateDecision) (boundary : String) (nodes : List String)
    (o : Option GateDecision)
    → v ≢ allow
    → enforce_verdict v d boundary nodes ≡ ok o
    → o ≡ some d
unfolding enforce_verdict
enforce_verdict-some allow d boundary nodes o h e = absurd (h refl)
enforce_verdict-some stop d boundary nodes o h e = sym (ok-injective e)
enforce_verdict-some refuse d boundary nodes o h e = cc e

-- A decision that does not allow is handed on, if it does not raise.
pub enforce-some :
    (d : GateDecision) (boundary : String) (nodes : List String) (o : Option GateDecision)
    → d.verdict ≢ allow
    → enforce d boundary nodes ≡ ok o
    → o ≡ some d
unfolding enforce
enforce-some d boundary nodes o h e = enforce_verdict-some d.verdict d boundary nodes o h e
