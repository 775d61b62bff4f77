-- ===== src/Spec/Reading/RoundTrip.antt =====
-- `GraphSpec.from_dict` on what `to_dict` gives.
use perpetua_core.Prelude.{
  String, ◌≡◌, refl, ap, true, Bool-cases, inl, inr, ◌==◌, Option, some, List, [], ◌∷◌, Dict, keys,
  lookup, map, All, eq_refl, All-weaken,
}
use perpetua_core.Value.{
  Value, dict, list, text, int, nil, end, ℤ, to_fields, of_items, of_items-to_items,
  of_fields-to_fields,
}
use perpetua_core.Errors.{Result, ok}
use perpetua_core.Spec.Json.{Encoding, thaw_metadata}
use perpetua_core.Spec.Records.{
  NodeSpec, EdgeSpec, ReducerSpec, JoinSpec, node_dict, edge_dict, reducer_dict, join_dict,
  node_spec, edge_spec, reducer_spec, join_spec,
}
use perpetua_core.Spec.Canonical.{
  GraphSpec, create, canonical_payload, canonical_graph_payload, r3_payload, to_dict, dicts,
  is_supported, schema_version_1,
}
use perpetua_core.Spec.Canonical.Identity.{IsCanonical, create-IsCanonical}
use perpetua_core.Spec.Canonical.Plain.{IsPlain, create-IsPlain}
use perpetua_core.Spec.Canonical.Again.{create-again}
use perpetua_core.Spec.Canonical.Parts.{create-HasParts}
use perpetua_core.Spec.Reading.Records.{
  read_node-node_dict, read_edge-edge_dict, read_reducer-reducer_dict, read_join-join_dict,
}
use perpetua_core.Spec.Reading.{
  from_dict, from_fields, check_identity, check_record_fields, check_records, as_object, as_list,
  as_int, item_at, item_or, each, read_node, read_edge, read_reducer, read_join, graph_fields,
  node_fields, edge_fields, reducer_fields, join_fields, all_in,
}

module _ {A : Type 0} (to_dict : A → Dict Value) where
  abbrev objects : List A → List Value
  objects xs = map (λ x. dict (to_fields (to_dict x))) xs

  as_list-dicts : (xs : List A) → as_list (dicts to_dict xs) ≡ ok (objects xs)
  unfolding as_list
  as_list-dicts xs = ap ok (of_items-to_items (objects xs))

  check_records-objects :
      (allowed : List String) (xs : List A)
      → ((x : A) → all_in allowed (keys (to_dict x)) ≡ true)
      → check_records allowed (objects xs) ≡ ok (map to_dict xs)
  unfolding check_records check_record_fields as_object
  check_records-objects allowed [] known = refl
  check_records-objects allowed (x ∷ xs) known =
      rw (of_fields-to_fields (to_dict x), known x, check_records-objects allowed xs known) refl

  each-map :
      (read : Dict Value → Result A) (xs : List A)
      → All (λ x. read (to_dict x) ≡ ok x) xs
      → each read (map to_dict xs) ≡ ok xs
  unfolding each
  each-map read [] h = refl
  each-map read (x ∷ xs) h = rw (h.0, each-map read xs h.1) refl

module _ (enc : Encoding) (spec : GraphSpec) (plain : IsPlain spec)
    (canonical : IsCanonical enc spec) where
  known_fields : all_in graph_fields (keys (to_dict enc spec)) ≡ true
  unfolding to_dict canonical_payload canonical_graph_payload r3_payload
  known_fields = elim (Bool-cases (spec.schema_version == schema_version_1)) [
    | inl e ↦ rw e refl
    | inr e ↦ rw e refl
  ]

  reducers_of :
      as_list (item_or "reducers" (list nil) (to_dict enc spec))
      ≡ ok (objects reducer_dict spec.reducers)
  unfolding to_dict canonical_payload canonical_graph_payload r3_payload item_or lookup as_list
      of_items
  reducers_of = elim (Bool-cases (spec.schema_version == schema_version_1)) [
    | inl e ↦ rw (e, (plain e).0) refl
    | inr e ↦ rw (e, canonical.are_reducers_sorted) (as_list-dicts reducer_dict spec.reducers)
  ]

  joins_of :
      as_list (item_or "joins" (list nil) (to_dict enc spec)) ≡ ok (objects join_dict spec.joins)
  unfolding to_dict canonical_payload canonical_graph_payload r3_payload item_or lookup as_list
      of_items
  joins_of = elim (Bool-cases (spec.schema_version == schema_version_1)) [
    | inl e ↦ rw (e, (plain e).1) refl
    | inr e ↦ rw (e, canonical.are_joins_sorted) (as_list-dicts join_dict spec.joins)
  ]

  nodes_of :
      as_list (item_or "nodes" (list nil) (to_dict enc spec)) ≡ ok (objects node_dict spec.nodes)
  unfolding to_dict canonical_payload canonical_graph_payload item_or lookup
  nodes_of = rw canonical.are_nodes_sorted (as_list-dicts node_dict spec.nodes)

  edges_of :
      as_list (item_or "edges" (list nil) (to_dict enc spec)) ≡ ok (objects edge_dict spec.edges)
  unfolding to_dict canonical_payload canonical_graph_payload item_or lookup
  edges_of = rw canonical.are_edges_sorted (as_list-dicts edge_dict spec.edges)

  version_of : item_or "schema_version" (text "") (to_dict enc spec) ≡ text spec.schema_version
  unfolding to_dict canonical_payload canonical_graph_payload item_or lookup
  version_of = refl

  max_steps_of : item_at "max_steps" (to_dict enc spec) ≡ ok (int spec.max_steps)
  unfolding to_dict canonical_payload canonical_graph_payload item_at lookup
  max_steps_of = refl

  metadata_of : item_or "metadata" (dict end) (to_dict enc spec) ≡ thaw_metadata spec.metadata
  unfolding to_dict canonical_payload canonical_graph_payload item_or lookup
  metadata_of = refl

  identity_of : lookup "graph_id" (to_dict enc spec) ≡ some (text spec.graph_id)
  unfolding to_dict lookup
  identity_of = refl

  -- The parts are read back, where the records are.
  from_fields-to_dict :
      is_supported spec.schema_version ≡ true
      → All (λ n. read_node enc (node_dict n) ≡ ok n) spec.nodes
      → All (λ e. read_edge enc (edge_dict e) ≡ ok e) spec.edges
      → All (λ r. read_reducer enc (reducer_dict r) ≡ ok r) spec.reducers
      → All (λ j. read_join enc (join_dict j) ≡ ok j) spec.joins
      → create enc spec.max_steps spec.nodes spec.edges
          (thaw_metadata spec.metadata)
          (some spec.schema_version)
          spec.reducers
          spec.joins
        ≡ ok spec
      → from_fields enc (to_dict enc spec) ≡ ok spec
  unfolding from_fields as_int check_identity node_dict edge_dict reducer_dict join_dict
  from_fields-to_dict supported nodes edges reducers joins made =
      rw
        (
          version_of,
          enc.show-text spec.schema_version,
          supported,
          nodes_of,
          edges_of,
          check_records-objects node_dict node_fields spec.nodes (λ n. refl),
          check_records-objects edge_dict edge_fields spec.edges (λ e. refl),
          each-map node_dict (read_node enc) spec.nodes nodes,
          each-map edge_dict (read_edge enc) spec.edges edges,
          reducers_of,
          joins_of,
          check_records-objects reducer_dict reducer_fields spec.reducers (λ r. refl),
          check_records-objects join_dict join_fields spec.joins (λ j. refl),
          each-map reducer_dict (read_reducer enc) spec.reducers reducers,
          each-map join_dict (read_join enc) spec.joins joins,
          max_steps_of,
          metadata_of,
          made,
          identity_of,
          eq_refl spec.graph_id,
        )
        refl

-- What the four classes accept.
abbrev pub IsNode : NodeSpec → Type 0
IsNode n =
    (name : String) × (ref : Option String) × (metadata : Value) × (node_spec name ref metadata
      ≡ ok n)

abbrev pub IsEdge : EdgeSpec → Type 0
IsEdge e =
    (source : String) × (kind : Value) × (target : Option String) × (router : Option String)
    × (declared : List String) × (metadata : Value) × (edge_spec source kind target router declared
          metadata
        ≡ ok e)

abbrev pub IsReducer : ReducerSpec → Type 0
IsReducer r =
    (field : String) × (kind : Value) × (ref : Option String) × (reducer_spec field kind ref ≡ ok r)

abbrev pub IsJoin : JoinSpec → Type 0
IsJoin j =
    (source : String) × (kind : Value) × (count : Value) × (ref : Option String) × (join_spec source
        kind count ref
      ≡ ok j)

module _ (enc : Encoding) where
  -- A description of a supported schema version that `create` made of what the four classes accept is read
  -- back: `from_dict` on its `to_dict` verifies its identity and gives the same description.
  pub from_dict-to_dict :
      (steps : ℤ) (nodes : List NodeSpec) (edges : List EdgeSpec) (metadata : Value)
      (version : Option String) (reducers : List ReducerSpec) (joins : List JoinSpec)
      (spec : GraphSpec)
      → All IsNode nodes
      → All IsEdge edges
      → All IsReducer reducers
      → All IsJoin joins
      → create enc steps nodes edges metadata version reducers joins ≡ ok spec
      → is_supported spec.schema_version ≡ true
      → from_dict enc (dict (to_fields (to_dict enc spec))) ≡ ok spec
  unfolding from_dict check_record_fields as_object
  from_dict-to_dict steps nodes edges metadata version reducers joins spec ns es rs js made
        supported =
      let plain = create-IsPlain enc steps nodes edges metadata version reducers joins spec made in
      let canonical =
        create-IsCanonical enc steps nodes edges metadata version reducers joins spec made in
      let again = create-again enc steps nodes edges metadata version reducers joins spec made in
      let parts =
        create-HasParts enc IsNode IsEdge IsReducer IsJoin steps nodes edges metadata version
          reducers joins spec ns es rs js made in
      rw (of_fields-to_fields (to_dict enc spec), known_fields enc spec plain canonical)
        (from_fields-to_dict enc spec plain canonical supported
          (All-weaken spec.nodes (λ n (name, ref, m, e). read_node-node_dict enc name ref m n e)
            parts.0)
          (All-weaken spec.edges
            (λ e (s, k, t, r, d, m, h). read_edge-edge_dict enc s k t r d m e h) parts.1)
          (All-weaken spec.reducers (λ r (f, k, ref, e). read_reducer-reducer_dict enc f k ref r e)
            parts.2)
          (All-weaken spec.joins (λ j (s, k, c, ref, e). read_join-join_dict enc s k c ref j e)
            parts.3)
          again)
