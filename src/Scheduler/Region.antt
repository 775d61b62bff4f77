-- ===== src/Scheduler/Region.antt =====
-- `_run_region` of graph/engine.py: one fan-out region inside the scheduler's loop.
use perpetua_core.Prelude.{
  ℕ, String, Bool, true, false, ◌||◌, ◌+◌, Option, none, some, List, [], ◌∷◌, map, leb, length,
  ◌==◌,
}
use perpetua_core.Value.{Value}
use perpetua_core.Errors.{
  Exception, gate_refused, max_steps_exceeded, value_error, exception_group, to_exceptions, Result,
  ok, err, guard,
}
use perpetua_core.Exec.{Exec, pure, raise, lift, attempt, ◌>>=◌, ◌>>◌}
use perpetua_core.State.{merge}
use perpetua_core.Gate.{GateDecision, DispatchBoundary, CommitBoundary, DispatchRequest}
use perpetua_core.Graph.{
  end_node, Join, custom, FanOut, EventKind, TerminalReason, event_at, observation,
}
use perpetua_core.Scheduler.{Invocation, Scheduled, call, emit, emit_all}
use perpetua_core.Scheduler.States.{
  interrupt_of, visit, interrupted_state, stopped, is_node, nodes_for,
}
use perpetua_core.Scheduler.Boundary.{dispatch, before_start, commit, after_commit}
use perpetua_core.Scheduler.Settle.{
  failed, admission_failed, branch_stopped, start_failed, Settled, settle,
}
use perpetua_core.Scheduler.Admit.{Finished, Admitted, finished, successes, admitted_names, admit}
use perpetua_core.Scheduler.Fold.{Folded, FoldResult, folded, boundary_stopped, fold}

-- How a part of the run leaves the scheduler: at a terminal event, or with a state and the completed
-- steps.
pub data Turn (S : Type 0) : Type 0 where
  ended : Turn S
  onward : S → ℕ → Turn S

-- The first error, stop or interrupt of a class among the settled branches.
unfoldable pub first_admission_failure : List Settled → Option Exception
first_admission_failure [] = none
first_admission_failure ((name, admission_failed e) ∷ rest) = some e
first_admission_failure ((name, _) ∷ rest) = first_admission_failure rest

unfoldable pub start_failures : List Settled → List Exception
start_failures [] = []
start_failures ((name, start_failed e) ∷ rest) = e ∷ start_failures rest
start_failures ((name, _) ∷ rest) = start_failures rest

unfoldable pub first_refusal : List Exception → Option Exception
first_refusal [] = none
first_refusal (gate_refused r ∷ rest) = some (gate_refused r)
first_refusal (e ∷ rest) = first_refusal rest

-- What the start failures raise: the first refusal, or a group of them all.
unfoldable pub start_error : List Exception → Option Exception
start_error [] = none
start_error (e ∷ es) = elim (first_refusal (e ∷ es)) [
  | some refused ↦ some refused
  | none ↦ some (exception_group (to_exceptions (e ∷ es)))
]

unfoldable pub first_stop : List Settled → Option GateDecision
first_stop [] = none
first_stop ((name, branch_stopped d) ∷ rest) = some d
first_stop ((name, _) ∷ rest) = first_stop rest

-- `_is_interrupt` on a branch's error; a wrapper's type is not named Interrupt.
unfoldable pub first_interrupt : List Settled → Option (String × Value × Value)
first_interrupt [] = none
first_interrupt ((name, failed e) ∷ rest) = elim (interrupt_of e) [
  | some (prompt, payload) ↦ some (name, prompt, payload)
  | none ↦ first_interrupt rest
]
first_interrupt ((name, _) ∷ rest) = first_interrupt rest

-- What the settled branches decide, in the order in which the region looks.
pub data Judgement : Type 0 where
  raises : Exception → Judgement
  stops : GateDecision → Judgement
  interrupts : String → Value × Value → Judgement
  completes : Judgement

unfoldable pub judge_interrupt : Option (String × Value × Value) → Judgement
judge_interrupt none = completes
judge_interrupt (some (name, prompt, payload)) = interrupts name (prompt, payload)

unfoldable pub judge : List Settled → Judgement
judge results = elim (first_admission_failure results) [
  | some e ↦ raises e
  | none ↦ elim (start_error (start_failures results)) [
    | some e ↦ raises e
    | none ↦ elim (first_stop results) [
      | some d ↦ stops d
      | none ↦ judge_interrupt (first_interrupt results)
    ]
  ]
]

-- `settlement_error` is raised after the publication was observed.
unfoldable pub reraise : {R A : Type 0} → Result (Unit {0}) → A → Exec R A
reraise (ok u) a = pure a
reraise (err e) a = raise e

abbrev pub is_custom_join : {W : Type 0} → Join W → Bool
is_custom_join (custom fn) = true
is_custom_join _ = false

module _ {S W : Type 0} (run : Invocation S W) where
  -- A stop at a boundary: the terminal observation, and nothing more.
  unfoldable pub stop_at : S → String → ℕ → GateDecision → Scheduled S W (Turn S)
  stop_at s node steps decision = do
    o ← lift (stopped run.model s node steps decision)
    emit run.host o
    pure ended

  -- `if decision is not None: yield _stopped(...); return`
  unfoldable pub unless_stopped :
      Option GateDecision → S → String → ℕ → Scheduled S W (Turn S) → Scheduled S W (Turn S)
  unless_stopped none s node steps rest = rest
  unless_stopped (some decision) s node steps rest = stop_at s node steps decision

  module _ (source : String) (fan : FanOut W) (s snapshot : S) (steps : ℕ) (batch_id : String) where
    abbrev pub request_for : DispatchBoundary → List String → ℕ → DispatchRequest
    request_for boundary nodes n = record {
      boundary = boundary;
      nodes = nodes;
      steps = n;
      source = some source;
      batch_id = some batch_id;
    }

    -- Publication: the commit decision, the merge, the settlement hook, and the observations.
    unfoldable pub publish : List Admitted → ℕ → Folded → Scheduled S W (Turn S)
    publish admitted completed result = do
      asked ← call (
          commit run.host.digest run.gate CommitBoundary.region (admitted_names admitted) completed
            (some source) (some batch_id) result.merged)
      unless_stopped asked.0 s source steps (do
        let committed = merge run.model snapshot result.merged
        settlement ← attempt (call (after_commit run.gate asked.1))
        emit_all run.host (
            map
              (λ a. record (observation (event_at EventKind.node_end a.0 completed) committed) {
                delta = some a.1;
              })
              admitted)
        emit run.host (record {
          event = record {
            kind = EventKind.superstep_commit;
            node = some source;
            target = some fan.then_node;
            steps = completed;
            terminal_reason = none;
            branches = admitted_names admitted;
          };
          state = committed;
          delta = some result.merged;
          provenance = some result.provenance;
        })
        reraise settlement (onward committed completed))

    unfoldable pub after_fold : List Admitted → ℕ → FoldResult → Scheduled S W (Turn S)
    after_fold admitted completed (folded f) = publish admitted completed f
    after_fold admitted completed (boundary_stopped decision) = stop_at s source steps decision

    unfoldable pub fold_and_publish : List Admitted → ℕ → Scheduled S W (Turn S)
    fold_and_publish admitted completed = do
      asked ← call (
          dispatch {S = S} run.gate none
            (request_for DispatchBoundary.reducer (admitted_names admitted) completed))
      unless_stopped asked.0 s source steps (do
        result ← call (fold run snapshot admitted asked.1)
        after_fold admitted completed result)

    -- A custom join is a boundary of its own.
    unfoldable pub ask_join : List Finished → ℕ → Scheduled S W (Turn S) → Scheduled S W (Turn S)
    ask_join results completed rest = elim (is_custom_join fan.join) [
      | false ↦ rest
      | true ↦ do
        asked ← call (
            dispatch {S = S} run.gate none
              (request_for DispatchBoundary.join fan.branches completed))
        unless_stopped asked.0 s source steps (do call (before_start run.gate asked.1); rest)
    ]

    -- After every branch has completed or failed.
    unfoldable pub join_branches : List Finished → Scheduled S W (Turn S)
    join_branches results =
        let completed = steps + length (successes results) in
        ask_join results completed
          (do admitted ← call (admit fan.join results); fold_and_publish admitted completed)

    unfoldable pub conclude : List Settled → Judgement → Scheduled S W (Turn S)
    conclude results (raises e) = raise e
    conclude results (stops decision) = stop_at s source steps decision
    conclude results (interrupts name asked) = do
      interrupted ← lift (interrupted_state run.model snapshot name asked)
      emit run.host (
          observation
            (record (event_at EventKind.interrupt name steps) {
              terminal_reason = some TerminalReason.interrupted;
              branches = fan.branches;
            })
            interrupted)
      pure ended
    conclude results completes = join_branches (map finished results)

    -- One decision for the whole batch, and then the branches.
    unfoldable pub run_batch : Scheduled S W (Turn S)
    run_batch = do
      asked ←
          call (
            dispatch {S = S} run.gate none (request_for DispatchBoundary.fanout fan.branches steps))
      unless_stopped asked.0 s source steps (do
        results ← call (settle run snapshot steps source batch_id fan.branches)
        conclude results (judge results))

  unfoldable pub mint : Scheduled S W String
  mint = call (λ w. let (t, w') = run.host.token w in (ok t, w'))

  -- `_run_region`
  unfoldable pub run_region : String → FanOut W → S → ℕ → Scheduled S W (Turn S)
  run_region source fan s steps = do
    lift (
        guard (leb (steps + length fan.branches) run.graph.max_steps)
          (max_steps_exceeded steps source))
    lift (nodes_for run.graph fan.branches)
    lift (guard (fan.then_node == end_node || is_node run.graph fan.then_node) value_error)
    snapshot ← lift (visit run.model s fan.branches)
    emit run.host (
        observation
          (record {
            kind = EventKind.superstep_start;
            node = some source;
            target = some fan.then_node;
            steps = steps;
            terminal_reason = none;
            branches = fan.branches;
          })
          snapshot)
    emit_all run.host
        (map (λ name. observation (event_at EventKind.node_start name steps) snapshot) fan.branches)
    batch_id ← mint
    run_batch source fan s snapshot steps batch_id
