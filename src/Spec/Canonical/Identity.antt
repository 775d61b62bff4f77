-- ===== src/Spec/Canonical/Identity.antt =====
-- The identity of what `GraphSpec.create` gives.
use perpetua_core.Prelude.{
  String, ◌≡◌, refl, sym, ◌∙◌, subst, List, Dict, sort_by, lex, IsDual, sort_by-sort_by,
  compare_text-IsDual, lex-IsDual, Option,
}
use Prim.Native.String.{compare}
use perpetua_core.Value.{Value, ℤ}
use perpetua_core.Errors.{ok, >>=-ok, ok-injective}
use perpetua_core.Spec.Json.{Encoding, freeze_metadata, as_dict}
use perpetua_core.Spec.Json.Frozen.{freeze_metadata-freeze_metadata}
use perpetua_core.Spec.Records.{NodeSpec, EdgeSpec, ReducerSpec, JoinSpec}
use perpetua_core.Spec.Canonical.{
  GraphSpec, graph_spec, create, create_frozen, given_metadata, check_version, uses_r3,
  declared_joins, fanout_sources, canonical_graph_payload, canonical_payload, compute_graph_id,
  r3_payload, node_order, edge_order, reducer_order, source_order, join_order, edge_sort_key,
  node_sort_key,
}

module _ (enc : Encoding) where
  pub node_order-IsDual : IsDual (node_order enc)
  node_order-IsDual a b =
      lex-IsDual compare compare_text-IsDual (node_sort_key enc a) (node_sort_key enc b)

  pub edge_order-IsDual : IsDual (edge_order enc)
  edge_order-IsDual a b =
      lex-IsDual (lex compare) (lex-IsDual compare compare_text-IsDual) (edge_sort_key enc a)
        (edge_sort_key enc b)

  -- What a description is that `create` gives.
  pub record IsCanonical (spec : GraphSpec) : Type 0 where
    pub is_identified : spec.graph_id ≡ compute_graph_id enc (canonical_payload enc spec)
    pub is_frozen : freeze_metadata spec.metadata ≡ ok spec.metadata
    pub are_nodes_sorted : sort_by (node_order enc) spec.nodes ≡ spec.nodes
    pub are_edges_sorted : sort_by (edge_order enc) spec.edges ≡ spec.edges
    pub are_reducers_sorted : sort_by reducer_order spec.reducers ≡ spec.reducers
    pub are_joins_sorted : sort_by source_order spec.joins ≡ spec.joins

  graph_spec-IsCanonical :
      (version : String) (steps : ℤ) (nodes : List NodeSpec) (edges : List EdgeSpec)
      (metadata : Dict Value) (reducers : List ReducerSpec) (joins : List JoinSpec)
      (spec : GraphSpec)
      → freeze_metadata metadata ≡ ok metadata
      → graph_spec enc version
          (compute_graph_id enc
            (canonical_graph_payload enc version steps nodes edges metadata reducers joins))
          steps
          nodes
          edges
          metadata
          reducers
          joins
        ≡ ok spec
      → IsCanonical spec
  unfolding graph_spec canonical_payload canonical_graph_payload r3_payload
  graph_spec-IsCanonical version steps nodes edges metadata reducers joins spec frozen h =
      let (again, made, f) = >>=-ok (freeze_metadata metadata) h in
      let same : again ≡ metadata = ok-injective (sym f ∙ frozen) in
      let in_nodes = sort_by-sort_by (node_order enc) node_order-IsDual nodes in
      let in_edges = sort_by-sort_by (edge_order enc) edge_order-IsDual edges in
      let in_reducers =
        sort_by-sort_by reducer_order (λ a b. compare_text-IsDual a.field b.field) reducers in
      let in_joins =
        sort_by-sort_by source_order (λ a b. compare_text-IsDual a.source b.source) joins in
      subst IsCanonical (ok-injective made) (record {
        is_identified = rw (same, in_nodes, in_edges, in_reducers, in_joins) refl;
        is_frozen = rw same frozen;
        are_nodes_sorted = in_nodes;
        are_edges_sorted = in_edges;
        are_reducers_sorted = in_reducers;
        are_joins_sorted = in_joins;
      })

  -- What `create` gives is canonical: its nodes, edges, reducers and joins are in the order of their keys,
  -- its metadata is frozen, and its graph_id is the digest of its own canonical payload, so that the
  -- lint does not find an identity that differs from the content.
  pub create-IsCanonical :
      (steps : ℤ) (nodes : List NodeSpec) (edges : List EdgeSpec) (metadata : Value)
      (version : Option String) (reducers : List ReducerSpec) (joins : List JoinSpec)
      (spec : GraphSpec)
      → create enc steps nodes edges metadata version reducers joins ≡ ok spec
      → IsCanonical spec
  unfolding create create_frozen
  create-IsCanonical steps nodes edges metadata version reducers joins spec h =
      let (d, one, f) = >>=-ok (as_dict (given_metadata metadata)) h in
      let (frozen, two, g) = >>=-ok (freeze_metadata d) one in
      let edges' = sort_by (edge_order enc) edges in
      let joins' = sort_by join_order (declared_joins (fanout_sources edges') joins) in
      let (version', three, v) =
        >>=-ok (check_version version (uses_r3 edges' (sort_by reducer_order reducers) joins'))
          two in
      graph_spec-IsCanonical version' steps (sort_by (node_order enc) nodes) edges' frozen
        (sort_by reducer_order reducers) joins' spec (freeze_metadata-freeze_metadata d frozen g)
        three
