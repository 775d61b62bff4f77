-- ===== src/Scheduler/Loop.antt =====
-- `_run` of graph/engine.py, the one scheduler, with the views `aobserve`, `asteps` and `ainvoke`.
pub mod Routing
pub mod Denied
use perpetua_core.Prelude.{
  ℕ, zero, suc, String, true, false, not, Option, none, some, List, [], ◌∷◌, map, leb, ◌==◌, lookup,
}
use perpetua_core.Value.{Value, text}
use perpetua_core.Errors.{Exception, type_error, max_steps_exceeded, Result, ok, err, guard}
use perpetua_core.Exec.{Exec, pure, raise, lift, attempt, ◌>>=◌, ◌>>◌}
use perpetua_core.State.{merge}
use perpetua_core.Gate.{DispatchBoundary, CommitBoundary, DispatchRequest}
use perpetua_core.Graph.{
  start_node, end_node, NodeDelta, Returned, delta, not_dict, Edge, static, router, conditional,
  fan_out, EventKind, GraphEvent, GraphObservation, TerminalReason, event_at, observation,
}
use perpetua_core.Scheduler.{Invocation, Run, Scheduled, call, emit}
use perpetua_core.Scheduler.States.{interrupt_of, visit, interrupted_state, node_for, check_target}
use perpetua_core.Scheduler.Boundary.{dispatch, before_start, commit, after_commit}
use perpetua_core.Scheduler.Region.{
  Turn, ended, onward, reraise, stop_at, unless_stopped, run_region,
}

-- How the loop ends: at a terminal event, or cut off by the model's fuel.
pub data Finish : Type 0 where
  terminal out_of_fuel : Finish

-- The next node, or a stop of the gate.
pub data Route (S : Type 0) : Type 0 where
  stopped_route : Route S
  target : String → Route S

-- The call of the edge in `_resolve_edge`. A fan-out region is neither callable nor a name.
unfoldable pub edge_value : {S W : Type 0} → Edge S W → S → Exec W Value
edge_value (static name) s = pure (text name)
edge_value (router fn) s = fn s
edge_value (conditional fn targets) s = fn s
edge_value (fan_out fan) s = raise type_error

-- After its region a fan-out edge is a static edge to the region's target.
unfoldable pub after_region : {S W : Type 0} → Edge S W → Edge S W
after_region (fan_out fan) = static fan.then_node
after_region edge = edge

abbrev pub last_state : {S : Type 0} → S → List (GraphObservation S) → S
last_state s [] = s
last_state s (o ∷ os) = last_state o.state os

-- What `ainvoke` makes of the end of the iteration.
abbrev pub final_state : {S : Type 0} → S → Result Finish → List (GraphObservation S) → Result S
final_state s (ok finish) trace = ok (last_state s trace)
final_state s (err e) trace = err e

module _ {S W : Type 0} (run : Invocation S W) where
  abbrev pub request_at : DispatchBoundary → String → ℕ → Option String → DispatchRequest
  request_at boundary node steps source = record {
    boundary = boundary;
    nodes = node ∷ [];
    steps = steps;
    source = source;
    batch_id = none;
  }

  -- `_resolve_edge`
  unfoldable pub resolve_edge : Edge S W → S → Exec W String
  resolve_edge edge s = do value ← edge_value edge s; lift (check_target run.graph value)

  -- The gate before a router, the router, and the event of the selected edge.
  unfoldable pub route : Edge S W → S → String → ℕ → Scheduled S W (Route S)
  route edge s source steps = do
    asked ← call (
        dispatch run.gate (some edge)
          (request_at DispatchBoundary.router source steps (some source)))
    elim asked.0 [
      | some decision ↦ do stop_at run s source steps decision; pure stopped_route
      | none ↦ do
        call (before_start run.gate asked.1)
        next ← call (resolve_edge edge s)
        emit run.host (
            observation
              (record (event_at EventKind.edge_selected source steps) { target = some next }) s)
        pure (target next)
    ]

  -- What a node's exception does: an interrupt ends the run, any other goes on.
  unfoldable pub on_exception : S → String → ℕ → Exception → Scheduled S W (Turn S)
  on_exception s node steps e = elim (interrupt_of e) [
    | none ↦ raise e
    | some asked ↦ do
      interrupted ← lift (interrupted_state run.model s node asked)
      emit run.host (
          observation
            (record (event_at EventKind.interrupt node steps) {
              terminal_reason = some TerminalReason.interrupted;
            })
            interrupted)
      pure ended
  ]

  -- Publication of a node's delta.
  unfoldable pub publish_delta : S → String → ℕ → NodeDelta → Scheduled S W (Turn S)
  publish_delta s node steps d = do
    asked ← call (commit run.host.digest run.gate CommitBoundary.node (node ∷ []) steps none none d)
    unless_stopped run asked.0 s node steps (do
      let published = merge run.model s d
      settlement ← attempt (call (after_commit run.gate asked.1))
      emit run.host (record (observation (event_at EventKind.node_end node (suc steps)) published) {
        delta = some d;
      })
      reraise settlement (onward published (suc steps)))

  unfoldable pub on_returned : S → String → ℕ → Result Returned → Scheduled S W (Turn S)
  on_returned s node steps (err e) = on_exception s node steps e
  on_returned s node steps (ok not_dict) = raise type_error
  on_returned s node steps (ok (delta d)) = publish_delta s node steps d

  -- One node of the loop: from the step check to its `node.end`.
  unfoldable pub run_node : String → S → ℕ → String → Scheduled S W (Turn S)
  run_node node s steps last = do
    lift (guard (not (leb run.graph.max_steps steps)) (max_steps_exceeded steps last))
    fn ← lift (node_for run.graph node)
    entered ← lift (visit run.model s (node ∷ []))
    emit run.host (observation (event_at EventKind.node_start node steps) entered)
    asked ← call (dispatch {S = S} run.gate none (request_at DispatchBoundary.node node steps none))
    unless_stopped run asked.0 entered node steps (do
      call (before_start run.gate asked.1)
      result ← attempt (call (fn entered))
      on_returned entered node steps result)

  -- `self._edges.get(node, END)`
  unfoldable pub edge_from : String → Edge S W
  edge_from node = elim (lookup node run.graph.edges) [ none ↦ static end_node | some edge ↦ edge ]

  -- A fan-out edge runs its region and goes on at the region's target.
  unfoldable pub pass_region : String → Edge S W → S → ℕ → Scheduled S W (Turn S)
  pass_region node (fan_out fan) s steps = run_region run node fan s steps
  pass_region node _ s steps = pure (onward s steps)

  -- `state.merge({"status": "done"})` and the event `done`
  unfoldable pub finish_run : S → ℕ → Scheduled S W Finish
  finish_run s steps = do
    emit run.host (
        observation
          (record {
            kind = EventKind.done;
            node = none;
            target = none;
            steps = steps;
            terminal_reason = some TerminalReason.done;
            branches = [];
          })
          (merge run.model s (("status", text "done") ∷ [])))
    pure terminal

  -- `while node != END`, on fuel.
  unfoldable pub loop : ℕ → String → S → ℕ → String → Scheduled S W Finish
  loop zero node s steps last = pure out_of_fuel
  loop (suc fuel) node s steps last = elim (node == end_node) [
    | true ↦ finish_run s steps
    | false ↦ do
      turn ← run_node node s steps last
      elim turn [
        | ended ↦ pure terminal
        | onward s₁ n₁ ↦ do
          passed ← pass_region node (edge_from node) s₁ n₁
          elim passed [
            | ended ↦ pure terminal
            | onward s₂ n₂ ↦ do
              next ← route (after_region (edge_from node)) s₂ node n₂
              elim next [ stopped_route ↦ pure terminal | target name ↦ loop fuel name s₂ n₂ node ]
          ]
      ]
  ]

  -- `_run`, with fuel for every allowed step and the check that follows the last.
  unfoldable pub run_graph : S → Scheduled S W Finish
  run_graph s = do
    next ← route (edge_from start_node) s start_node 0
    elim next [
      | stopped_route ↦ pure terminal
      | target name ↦ loop (suc (suc run.graph.max_steps)) name s 0 start_node
    ]

  -- The observations of `aobserve`, and how the run ended.
  unfoldable pub observe : S → W → Result Finish × Run S W
  observe s w = run_graph s (record { world = w; trace = [] })

  -- `asteps`: the events alone.
  unfoldable pub steps_of : S → W → List GraphEvent
  steps_of s w = map (λ o. o.event) (observe s w).1.trace

  -- `ainvoke`: the state of the last observation, or the exception.
  unfoldable pub invoke : S → W → Result S
  invoke s w = final_state s (observe s w).0 (observe s w).1.trace
