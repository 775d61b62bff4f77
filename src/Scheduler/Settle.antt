-- ===== src/Scheduler/Settle.antt =====
-- `_settle` and `_settle_gated` of graph/engine.py: the branches of a region as tasks that the event
-- loop interleaves at their calls of outside code. A branch that raises a CancelledError or another
-- BaseException, which no handler here catches, is left out.
pub mod Order
use perpetua_core.Prelude.{
  ℕ, zero, suc, Bool, true, false, String, Option, none, some, List, [], ◌∷◌, map, lookup,
}
use perpetua_core.Errors.{Exception, type_error, key_error, Result, ok, err}
use perpetua_core.Exec.{Exec, pure, attempt, ◌>>=◌}
use perpetua_core.Gate.{Gate, GateDecision, DispatchBoundary, DispatchRequest}
use perpetua_core.Graph.{NodeDelta, Returned, delta, not_dict}
use perpetua_core.Scheduler.{Invocation}
use perpetua_core.Scheduler.Boundary.{dispatch, before_start}

-- `_Settled` without the branch's name: a delta, or an error by the class that wraps it.
pub data Outcome : Type 0 where
  published : NodeDelta → Outcome
  failed : Exception → Outcome
  -- `_BranchAdmissionFailed`
  admission_failed : Exception → Outcome
  -- `_BranchStopped`
  branch_stopped : GateDecision → Outcome
  -- `_StartCallbackFailed`
  start_failed : Exception → Outcome

abbrev pub Settled : Type 0
Settled = String × Outcome

-- Where the task of a branch stands: before its dispatch, before its start marker, before its
-- callable, or done.
pub data Phase : Type 0 where
  waiting : Phase
  admitted : Option DispatchRequest → Phase
  started : Phase
  settled : Outcome → Phase

abbrev pub Task : Type 0
Task = String × Phase

unfoldable pub after_dispatch : Result (Option GateDecision × Option DispatchRequest) → Phase
after_dispatch (ok (none, request)) = admitted request
after_dispatch (ok (some decision, request)) = settled (branch_stopped decision)
after_dispatch (err e) = settled (admission_failed e)

unfoldable pub after_start : Result (Unit {0}) → Phase
after_start (ok u) = started
after_start (err e) = settled (start_failed e)

unfoldable pub after_call : Result Returned → Outcome
after_call (ok (delta d)) = published d
after_call (ok not_dict) = failed type_error
after_call (err e) = failed e

-- `getattr(gate, "before_start", None) is not None`
abbrev pub marks_start : {W : Type 0} → Option (Gate W) → Bool
marks_start none = false
marks_start (some gate) = elim gate.before_start [ none ↦ false | some callback ↦ true ]

abbrev pub new_tasks : List String → List Task
new_tasks names = map (λ name. (name, waiting)) names

module _ {S W : Type 0} (run : Invocation S W) (snapshot : S) (steps : ℕ)
    (source batch_id : String) where
  abbrev pub branch_request : String → DispatchRequest
  branch_request name = record {
    boundary = DispatchBoundary.node;
    nodes = name ∷ [];
    steps = steps;
    source = some source;
    batch_id = some batch_id;
  }

  -- The callable of `name`, on its own copy of the snapshot.
  unfoldable pub call_branch : String → Exec W Outcome
  call_branch name = elim (lookup name run.graph.nodes) [
    | none ↦ pure (failed key_error)
    | some fn ↦ do
      result ← attempt (fn (run.model.model_copy snapshot []))
      pure (after_call result)
  ]

  -- The task of `name` up to its next call of outside code, and that call.
  unfoldable pub advance : String → Phase → Exec W Phase
  advance name waiting = elim (marks_start run.gate) [
    | true ↦ do
      result ← attempt (dispatch {S = S} run.gate none (branch_request name))
      pure (after_dispatch result)
    | false ↦ do outcome ← call_branch name; pure (settled outcome)
  ]
  advance name (admitted request) = do
    result ← attempt (before_start run.gate request)
    pure (after_start result)
  advance name started = do outcome ← call_branch name; pure (settled outcome)
  advance name (settled outcome) = pure (settled outcome)

  unfoldable pub finish_started : String → Phase → Exec W Outcome
  finish_started name (settled outcome) = pure outcome
  finish_started name _ = call_branch name

  unfoldable pub finish_admitted : String → Phase → Exec W Outcome
  finish_admitted name (admitted request) = do
    phase ← advance name (admitted request)
    finish_started name phase
  finish_admitted name phase = finish_started name phase

  -- The rest of the task of `name`.
  unfoldable pub finish : String → Phase → Exec W Outcome
  finish name waiting = do phase ← advance name waiting; finish_admitted name phase
  finish name phase = finish_admitted name phase

  -- The event loop resumes the task at a position; there may be none.
  unfoldable pub resume : ℕ → List Task → Exec W (List Task)
  resume i [] = pure []
  resume zero ((name, phase) ∷ tasks) = do next ← advance name phase; pure ((name, next) ∷ tasks)
  resume (suc i) (task ∷ tasks) = do rest ← resume i tasks; pure (task ∷ rest)

  unfoldable pub interleave : List ℕ → List Task → Exec W (List Task)
  interleave [] tasks = pure tasks
  interleave (i ∷ schedule) tasks = do tasks' ← resume i tasks; interleave schedule tasks'

  unfoldable pub finish_all : List Task → Exec W (List Settled)
  finish_all [] = pure []
  finish_all ((name, phase) ∷ tasks) = do
    outcome ← finish name phase
    rest ← finish_all tasks
    pure ((name, outcome) ∷ rest)

  -- The task group: every branch settles, and the results come in the order of the branches.
  unfoldable pub settle : List String → Exec W (List Settled)
  settle branches w =
      (do tasks ← interleave (run.host.schedule branches w) (new_tasks branches); finish_all tasks)
        w
