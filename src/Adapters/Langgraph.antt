-- ===== src/Adapters/Langgraph.antt =====
-- graph/adapters/langgraph_adapter.py: the topology of a graph, given to a LangGraph builder.
-- LangGraph is not in this repository; it is the record StateGraph of the calls that are made.
pub mod Routes
pub mod Calls
use perpetua_core.Prelude.{
  String, Option, none, some, List, [], ◌∷◌, ◌++◌, ◌==◌, map, if◌then◌else◌, Dict, keys, update,
}
use perpetua_core.Value.{Value, text, value_eq}
use perpetua_core.Errors.{not_implemented_error, Result, ok, err}
use perpetua_core.Exec.{Exec, pure, lift, ◌>>=◌, ◌>>◌}
use perpetua_core.Graph.{
  start_node, end_node, NodeFn, EdgeFn, Edge, static, router, conditional, fan_out, Graph,
}

-- `StateGraph`, with `B` the builder under way and `C` what it compiles to.
pub record StateGraph (S W B C : Type 0) : Type 0 where
  -- `START` and `END`
  pub lg_start : String
  pub lg_end : String
  pub add_node : String → NodeFn S W → Exec B Unit
  pub add_edge : String → String → Exec B Unit
  -- the source, the function that routes, and its path map, if there is one
  pub add_conditional_edges : String → EdgeFn S W → Option (Dict String) → Exec B Unit
  pub compile : Exec B C

-- An edge as LangGraph takes it.
pub data Exported (S W : Type 0) : Type 0 where
  direct : String → Exported S W
  branching : EdgeFn S W → Option (Dict String) → Exported S W

module _ {S W B C : Type 0} (lg : StateGraph S W B C) where
  -- `LG_END if target == END else target`
  unfoldable pub lg_target : String → String
  lg_target name = if name == end_node then lg.lg_end else name

  -- `LG_START if source == START else source`
  unfoldable pub lg_source : String → String
  lg_source name = if name == start_node then lg.lg_start else name

  -- `_route`
  unfoldable pub routed : EdgeFn S W → EdgeFn S W
  routed edge s = do
    target ← edge s
    pure (if value_eq target (text end_node) then text lg.lg_end else target)

  -- The dict comprehension over `(*compiled.nodes, END)`.
  unfoldable pub path_map : Graph S W → Dict String
  path_map graph =
      update [] (map (λ name. (lg_target name, lg_target name)) (keys graph.nodes ++ end_node ∷ []))

  -- What an edge becomes.
  unfoldable pub exported : Graph S W → Edge S W → Result (Exported S W)
  exported graph (static target) = ok (direct (lg_target target))
  exported graph (fan_out fan) = err not_implemented_error
  exported graph (router edge) = ok (branching (routed edge) none)
  exported graph (conditional edge []) = ok (branching (routed edge) none)
  exported graph (conditional edge (t ∷ ts)) = ok (branching (routed edge) (some (path_map graph)))

  unfoldable pub add_nodes : Dict (NodeFn S W) → Exec B Unit
  add_nodes [] = pure tt
  add_nodes ((name, fn) ∷ nodes) = lg.add_node name fn >> add_nodes nodes

  unfoldable pub add_exported : String → Exported S W → Exec B Unit
  add_exported source (direct target) = lg.add_edge source target
  add_exported source (branching route targets) = lg.add_conditional_edges source route targets

  unfoldable pub add_edges : Graph S W → Dict (Edge S W) → Exec B Unit
  add_edges graph [] = pure tt
  add_edges graph ((source, edge) ∷ edges) = do
    given ← lift (exported graph edge)
    add_exported (lg_source source) given
    add_edges graph edges

  -- `to_langgraph`, from the builder that `StateGraph(state_schema)` makes.
  unfoldable pub to_langgraph : Graph S W → Exec B C
  to_langgraph graph = do add_nodes graph.nodes; add_edges graph graph.edges; lg.compile
