-- ===== src/Samples/Exports.antt =====
-- A graph with a conditional edge, exported to a builder that counts its calls.
use perpetua_core.Prelude.{
  ◌≡◌, refl, suc, ℕ, some, [], ◌∷◌, lookup, update, assign, List, map, length, Member,
}
use perpetua_core.Value.{text, value_eq}
use perpetua_core.Errors.{ok}
use perpetua_core.Exec.{pure, ◌>>=◌}
use perpetua_core.Exec.Laws.{perform}
use perpetua_core.Graph.{start_node, end_node, Edge, static, conditional, Graph}
use perpetua_core.Scheduler.States.{is_node, check_target}
use perpetua_core.Scheduler.Loop.{edge_value, resolve_edge}
use perpetua_core.Adapters.Langgraph.{
  StateGraph, lg_target, lg_source, routed, path_map, exported, add_nodes, add_exported, add_edges,
  to_langgraph,
}
use perpetua_core.Adapters.Langgraph.Calls.{
  EdgeCall, apply, node_calls, Leads, to_langgraph_contract,
}
use perpetua_core.Samples.{World, Fields, fresh, ungated, writes}

abbrev finishing : Edge Fields World
finishing = conditional (λ s. pure (text end_node)) ("a" ∷ [])

abbrev branching_graph : Graph Fields World
branching_graph = record {
  nodes = ("a", writes "a" "plan") ∷ [];
  edges = (start_node, static "a") ∷ ("a", finishing) ∷ [];
  max_steps = 4;
  reducers = [];
}

abbrev counting : StateGraph Fields World ℕ ℕ
counting = record {
  lg_start = "start";
  lg_end = "end";
  add_node = λ name fn n. (ok tt, suc n);
  add_edge = λ source target n. (ok tt, suc n);
  add_conditional_edges = λ source route targets n. (ok tt, suc n);
  compile = λ n. (ok n, n);
}

exporting : Unit {0}
unfolding lg_target lg_source routed path_map exported add_nodes add_exported add_edges to_langgraph
    lookup update assign edge_value resolve_edge is_node check_target value_eq ◌>>=◌
exporting = tt

to_langgraph-branching : to_langgraph counting branching_graph 0 ≡ (ok 3, 3)
unfolding exporting
to_langgraph-branching = refl

finishing_found : lookup "a" branching_graph.edges ≡ some finishing
unfolding exporting
finishing_found = refl

resolve_edge-finishing :
    resolve_edge (ungated branching_graph) finishing fresh [] ≡ (ok end_node, [])
unfolding exporting
resolve_edge-finishing = refl

to_langgraph_contract_example :
    (calls : List (EdgeCall Fields World)) × (b₁ : ℕ) × (b₂ : ℕ) × (perform
        (node_calls counting branching_graph.nodes)
        0
      ≡ (ok tt, b₁))
    × (perform (map (apply counting) calls) b₁ ≡ (ok tt, b₂))
    × (counting.compile b₂ ≡ (ok 3, 3))
    × (length calls ≡ 2)
    × ((call : EdgeCall Fields World) × Member call calls
        × Leads counting "a" end_node fresh [] [] call)
to_langgraph_contract_example =
    to_langgraph_contract counting (ungated branching_graph) 0 3 3 "a" end_node finishing fresh []
      [] to_langgraph-branching finishing_found resolve_edge-finishing
