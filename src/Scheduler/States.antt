-- ===== src/Scheduler/States.antt =====
-- graph/engine.py: the states that the scheduler makes, and how it looks up nodes and targets.
pub mod Terminal
use perpetua_core.Prelude.{
  ℕ, String, Bool, ◌||◌, Option, none, some, List, [], ◌∷◌, ◌++◌, map, ◌==◌, not, keys, contains,
  Dict, lookup, update,
}
use perpetua_core.Value.{Value, text, list, dict, to_items, to_fields, iterate, mapping}
use perpetua_core.Errors.{
  Exception, interrupt, value_error, type_error, key_error, Result, ok, err, ◌>>=◌, ◌>>◌, guard,
}
use perpetua_core.State.{StateModel, merge, attr}
use perpetua_core.Gate.{GateDecision}
use perpetua_core.Graph.{
  end_node, NodeFn, Graph, GraphObservation, TerminalReason, EventKind, event_at, observation,
}

-- `_is_interrupt`, with the prompt and the payload that `_interrupted_state` reads
unfoldable pub interrupt_of : Exception → Option (Value × Value)
interrupt_of (interrupt prompt payload) = some (prompt, payload)
interrupt_of _ = none

unfoldable pub or_type_error : {A : Type 0} → Option A → Result A
or_type_error none = err type_error
or_type_error (some a) = ok a

module _ {S : Type 0} (model : StateModel S) where
  -- `state.merge({"nodes_visited": [*state.nodes_visited, *names]})`
  unfoldable pub visit : S → List String → Result S
  visit s names = do
    visited ← attr model s "nodes_visited"
    before ← or_type_error (iterate visited)
    ok (merge model s (("nodes_visited", list (to_items (before ++ map text names))) ∷ []))

  -- `{"status": status, "metadata": {**state.metadata, **extra}}` merged in
  unfoldable pub mark : S → String → Dict Value → Result S
  mark s status extra = do
    metadata ← attr model s "metadata"
    before ← or_type_error (mapping metadata)
    ok (
        merge model s
          (("status", text status) ∷ ("metadata", dict (to_fields (update before extra))) ∷ []))

  -- `_interrupted_state`
  unfoldable pub interrupted_state : S → String → Value × Value → Result S
  interrupted_state s node (prompt, payload) = mark s "interrupted" (
      ("interrupt_node", text node)
      ∷ ("interrupt_prompt", prompt)
      ∷ ("interrupt_payload", payload)
      ∷ [])

  -- `_stopped`
  unfoldable pub stopped : S → String → ℕ → GateDecision → Result (GraphObservation S)
  stopped s node steps decision = do
    marked ← mark s "stopped" (("stop_node", text node) ∷ ("stop_reason", decision.reason) ∷ [])
    ok (
        observation
          (record (event_at EventKind.stopped node steps) {
            terminal_reason = some TerminalReason.stopped;
          })
          marked)

module _ {S W : Type 0} (graph : Graph S W) where
  -- `name in self._nodes`
  unfoldable pub is_node : String → Bool
  is_node name = contains name (keys graph.nodes)

  -- `_node_for`
  unfoldable pub node_for : String → Result (NodeFn S W)
  node_for name = elim (lookup name graph.nodes) [ none ↦ err key_error | some fn ↦ ok fn ]

  -- `for name in branches: self._node_for(name)`
  unfoldable pub nodes_for : List String → Result (Unit {0})
  nodes_for [] = ok tt
  nodes_for (name ∷ names) = node_for name >> nodes_for names

  -- The checks of `_resolve_edge` on what the edge gave.
  unfoldable pub check_target : Value → Result String
  check_target (text target) = do
    guard (not (target == "")) value_error
    guard (target == end_node || is_node target) value_error
    ok target
  check_target _ = err type_error
