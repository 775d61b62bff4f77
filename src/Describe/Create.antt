-- ===== src/Describe/Create.antt =====
-- What `GraphSpec.create` keeps of the nodes and edges it is given.
use perpetua_core.Prelude.{
  String, ◌≡◌, subst, ◌∙◌, Bool, Option, List, All, any, sort_by, any-sort_by, All-of_sort_by, Dict,
}
use perpetua_core.Value.{Value, ℤ}
use perpetua_core.Errors.{ok, >>=-ok, ok-injective}
use perpetua_core.Spec.Json.{Encoding, as_dict, freeze_metadata}
use perpetua_core.Spec.Records.{NodeSpec, EdgeSpec, ReducerSpec, JoinSpec}
use perpetua_core.Spec.Canonical.{
  GraphSpec, graph_spec, create_frozen, create, node_order, edge_order, reducer_order,
  given_metadata, join_order, declared_joins, fanout_sources, check_version, uses_r3,
}

-- The nodes and edges of a description are those given, sorted.
abbrev pub Keeps : List NodeSpec → List EdgeSpec → GraphSpec → Type 1
Keeps nodes edges spec =
    ((test : NodeSpec → Bool) → any test spec.nodes ≡ any test nodes)
    × ((test : EdgeSpec → Bool) → any test spec.edges ≡ any test edges)
    × ((P : EdgeSpec → Type 0) → All P spec.edges → All P edges)

module _ (enc : Encoding) where
  graph_spec-Keeps :
      (version id : String) (steps : ℤ) (nodes : List NodeSpec) (edges : List EdgeSpec)
      (metadata : Dict Value) (reducers : List ReducerSpec) (joins : List JoinSpec)
      (spec : GraphSpec)
      → graph_spec enc version id steps nodes edges metadata reducers joins ≡ ok spec
      → Keeps nodes edges spec
  unfolding graph_spec
  graph_spec-Keeps version id steps nodes edges metadata reducers joins spec h =
      let (frozen, made, f) = >>=-ok (freeze_metadata metadata) h in
      subst (Keeps nodes edges) (ok-injective made) (
        λ test. any-sort_by (node_order enc) test nodes,
        λ test. any-sort_by (edge_order enc) test edges,
        λ P all. All-of_sort_by (edge_order enc) P edges all,
      )

  pub create-Keeps :
      (steps : ℤ) (nodes : List NodeSpec) (edges : List EdgeSpec) (metadata : Value)
      (version : Option String) (reducers : List ReducerSpec) (joins : List JoinSpec)
      (spec : GraphSpec)
      → create enc steps nodes edges metadata version reducers joins ≡ ok spec
      → Keeps nodes edges spec
  unfolding create create_frozen
  create-Keeps steps nodes edges metadata version reducers joins spec h =
      let (d, one, f) = >>=-ok (as_dict (given_metadata metadata)) h in
      let (frozen, two, g) = >>=-ok (freeze_metadata d) one in
      let edges' = sort_by (edge_order enc) edges in
      let joins' = sort_by join_order (declared_joins (fanout_sources edges') joins) in
      let (version', three, v) =
        >>=-ok (check_version version (uses_r3 edges' (sort_by reducer_order reducers) joins'))
          two in
      let kept =
        graph_spec-Keeps version' _ steps (sort_by (node_order enc) nodes) edges' frozen
          (sort_by reducer_order reducers) joins' spec three in
      (
        λ test. kept.0 test ∙ any-sort_by (node_order enc) test nodes,
        λ test. kept.1 test ∙ any-sort_by (edge_order enc) test edges,
        λ P all. All-of_sort_by (edge_order enc) P edges (kept.2 P all),
      )
