-- ===== src/Describe.antt =====
-- `_describe_topology` of graph/engine.py, and the builder's `describe`, `validate` and
-- `compile_validated`: a graph's description, made without running its code.
pub mod Edges
pub mod Create
pub mod Sound
pub mod Runnable
use perpetua_core.Prelude.{
  ℕ, String, Bool, true, false, ◌||◌, Option, none, some, List, [], ◌∷◌, ◌++◌, if◌then◌else◌, Dict,
}
use Prim.Native.String
use package.text.Mathlib.Text.{find?}
use perpetua_core.Value.{Value, null, text, int, pos, dict, end}
use perpetua_core.Errors.{Result, ok, err, ◌>>=◌, ◌>>◌}
use perpetua_core.Graph.{NodeFn, EdgeFn, JoinAdmitFn, Join, FanOut, Edge, Graph}
use perpetua_core.Graph.Builder.{MiniGraph, compile}
use perpetua_core.Reducers.{Reducer, CustomReducerFn}
use perpetua_core.Spec.Json.{Encoding}
use perpetua_core.Spec.Records.{
  NodeSpec, EdgeSpec, ReducerSpec, JoinSpec, node_spec, edge_spec, reducer_spec, join_spec,
  quorum_or_null, is_given,
}
use perpetua_core.Spec.Canonical.{GraphSpec, create}
use perpetua_core.Lint.Issue.{GraphValidationReport}
use perpetua_core.Lint.Report.{lint_graph_spec, validate_graph_spec}

-- `__module__` and `__qualname__` of the program's callables, null where there is none.
pub record Names (S W : Type 0) : Type 0 where
  pub of_node : NodeFn S W → Value × Value
  pub of_edge : EdgeFn S W → Value × Value
  pub of_join : JoinAdmitFn W → Value × Value
  pub of_reducer : CustomReducerFn W → Value × Value

-- `part in whole`
abbrev occurs_in : String → String → Bool
occurs_in part whole = is_given (find? whole part)

-- `stable_callable_ref`
unfoldable pub stable_callable_ref : Value × Value → Option String
stable_callable_ref (text m, text name) =
    if occurs_in "<locals>" name || occurs_in "<lambda>" name
    then none
    else some (String.◌++◌ m (String.◌++◌ ":" name))
stable_callable_ref _ = none

-- `join.kind` and `join.quorum`
abbrev join_kind_value : {W : Type 0} → Join W → Value
join_kind_value Join.all = text "all"
join_kind_value Join.any_ok = text "any"
join_kind_value Join.first_success = text "first_success"
join_kind_value (Join.quorum q) = text "quorum"
join_kind_value (Join.custom fn) = text "custom"

abbrev join_quorum_value : {W : Type 0} → Join W → Value
join_quorum_value (Join.quorum q) = int (pos q)
join_quorum_value _ = null

abbrev reducer_kind_value : {W : Type 0} → Reducer W → Value
reducer_kind_value Reducer.reject_conflict = text "reject_conflict"
reducer_kind_value Reducer.first = text "first"
reducer_kind_value Reducer.last = text "last"
reducer_kind_value Reducer.concat = text "concat"
reducer_kind_value Reducer.union = text "union"
reducer_kind_value (Reducer.custom fn) = text "custom"

module _ {S W : Type 0} (names : Names S W) where
  unfoldable pub describe_nodes : Dict (NodeFn S W) → Result (List NodeSpec)
  describe_nodes [] = ok []
  describe_nodes ((name, fn) ∷ nodes) = do
    n ← node_spec name (stable_callable_ref (names.of_node fn)) (dict end)
    ns ← describe_nodes nodes
    ok (n ∷ ns)

  unfoldable pub describe_edge : String → Edge S W → Result EdgeSpec
  describe_edge source (Edge.static target) =
      edge_spec source (text "static") (some target) none [] (dict end)
  describe_edge source (Edge.fan_out fan) =
      edge_spec source (text "fanout") (some fan.then_node) none fan.branches (dict end)
  describe_edge source (Edge.conditional fn declared) =
      edge_spec source (text "conditional") none (stable_callable_ref (names.of_edge fn)) declared
        (dict end)
  describe_edge source (Edge.router fn) =
      edge_spec source (text "conditional") none (stable_callable_ref (names.of_edge fn)) []
        (dict end)

  abbrev join_ref : Join W → Option String
  join_ref (Join.custom fn) = stable_callable_ref (names.of_join fn)
  join_ref _ = none

  -- A region also declares its join.
  unfoldable pub describe_join : String → Edge S W → Result (List JoinSpec)
  describe_join source (Edge.fan_out fan) = do
    j ← join_spec source (join_kind_value fan.join) (join_quorum_value fan.join) (join_ref fan.join)
    ok (j ∷ [])
  describe_join source _ = ok []

  unfoldable pub describe_edges : Dict (Edge S W) → Result (List EdgeSpec × List JoinSpec)
  describe_edges [] = ok ([], [])
  describe_edges ((source, edge) ∷ edges) = do
    e ← describe_edge source edge
    js ← describe_join source edge
    rest ← describe_edges edges
    ok (e ∷ rest.0, js ++ rest.1)

  abbrev reducer_ref : Reducer W → Option String
  reducer_ref (Reducer.custom fn) = stable_callable_ref (names.of_reducer fn)
  reducer_ref _ = none

  unfoldable pub describe_reducers : Dict (Reducer W) → Result (List ReducerSpec)
  describe_reducers [] = ok []
  describe_reducers ((field, r) ∷ reducers) = do
    spec ← reducer_spec field (reducer_kind_value r) (reducer_ref r)
    specs ← describe_reducers reducers
    ok (spec ∷ specs)

  module _ (enc : Encoding) where
    -- `describe`
    unfoldable pub describe : Graph S W → Result GraphSpec
    describe g = do
      nodes ← describe_nodes g.nodes
      edges ← describe_edges g.edges
      reducers ← describe_reducers g.reducers
      create enc (pos g.max_steps) nodes edges.0 null none reducers edges.1

    -- `validate`
    unfoldable pub validate : Graph S W → Result GraphValidationReport
    validate g = do spec ← describe g; ok (lint_graph_spec enc spec)

    -- `compile_validated`
    unfoldable pub compile_validated : MiniGraph S W → Result (Graph S W)
    compile_validated g = do
      spec ← describe (compile g)
      validate_graph_spec enc spec
      ok (compile g)
