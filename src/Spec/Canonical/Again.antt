-- ===== src/Spec/Canonical/Again.antt =====
-- `create`, given the parts of what it made.
use perpetua_core.Prelude.{
  String, ◌≡◌, refl, sym, ◌∙◌, subst, Bool, true, false, Bool-cases, inl, inr, ◌&&◌, ◌==◌, not,
  Option, none, some, List, Dict, sort_by, sort_by-sort_by, compare_text-IsDual,
}
use perpetua_core.Value.{Value, dict, ℤ, Fields, end, field, to_fields}
use perpetua_core.Errors.{ok, err, value_error, >>=-ok, ok-injective, ◌>>=◌}
use perpetua_core.Spec.Json.{Encoding, freeze_metadata, as_dict, thaw_metadata, thaw}
use perpetua_core.Spec.Json.Frozen.{freeze_metadata-freeze_metadata}
use perpetua_core.Spec.Json.RoundTrip.{thaw_metadata-freeze_metadata}
use perpetua_core.Spec.Records.{NodeSpec, EdgeSpec, ReducerSpec, JoinSpec}
use perpetua_core.Spec.Canonical.{
  GraphSpec, graph_spec, create, create_frozen, given_metadata, check_version, uses_r3,
  declared_joins, fanout_sources, canonical_graph_payload, compute_graph_id, node_order, edge_order,
  reducer_order, source_order, join_order, schema_version_1, schema_version_r3,
}
use perpetua_core.Spec.Canonical.Identity.{node_order-IsDual, edge_order-IsDual}
use perpetua_core.Spec.Canonical.Joins.{
  declared_joins-declared_joins, source_order-join_order, join_order-IsDual,
}

check_version-given :
    (version : String) (r3 : Bool) (chosen : String)
    → check_version (some version) r3 ≡ ok chosen
    → version ≡ chosen
unfolding check_version
check_version-given version r3 chosen h = elim (Bool-cases (version == schema_version_1 && r3)) [
  | inl e ↦ let no : err value_error ≡ ok chosen = rw e at h in cc
  | inr e ↦ elim (Bool-cases (version == schema_version_r3 && not r3)) [
    | inl f ↦ let no : err value_error ≡ ok chosen = rw (e, f) at h in cc
    | inr f ↦ ok-injective (rw (e, f) at h)
  ]
]

-- The version that was chosen, or checked, passes the check.
pub check_version-again :
    (version : Option String) (r3 : Bool) (chosen : String)
    → check_version version r3 ≡ ok chosen
    → check_version (some chosen) r3 ≡ ok chosen
unfolding check_version
check_version-again none true chosen h = rw (sym (ok-injective h)) refl
check_version-again none false chosen h = rw (sym (ok-injective h)) refl
check_version-again (some version) r3 chosen h =
    subst (λ v. check_version (some v) r3 ≡ ok chosen) (check_version-given version r3 chosen h) h

given_metadata-dict : (d : Fields) → given_metadata (dict d) ≡ dict d
unfolding to_fields
given_metadata-dict end = refl
given_metadata-dict (field k v d) = refl

given_metadata-thaw : (d : Dict Value) → given_metadata (thaw_metadata d) ≡ thaw_metadata d
unfolding thaw_metadata thaw
given_metadata-thaw d = given_metadata-dict _

module _ (enc : Encoding) where
  -- The parts of a description, in order, make it.
  create-sorted :
      (version : String) (steps : ℤ) (nodes : List NodeSpec) (edges : List EdgeSpec)
      (metadata : Dict Value) (reducers : List ReducerSpec) (joins : List JoinSpec)
      → sort_by (node_order enc) nodes ≡ nodes
      → sort_by (edge_order enc) edges ≡ edges
      → sort_by reducer_order reducers ≡ reducers
      → declared_joins (fanout_sources edges) joins ≡ joins
      → sort_by join_order joins ≡ joins
      → sort_by source_order joins ≡ joins
      → freeze_metadata metadata ≡ ok metadata
      → (as_dict (thaw_metadata metadata) >>= freeze_metadata) ≡ ok metadata
      → check_version (some version) (uses_r3 edges reducers joins) ≡ ok version
      → create enc steps nodes edges (thaw_metadata metadata) (some version) reducers joins
        ≡ ok (record {
          schema_version = version;
          graph_id =
              compute_graph_id enc
                (canonical_graph_payload enc version steps nodes edges metadata reducers joins);
          max_steps = steps;
          nodes = nodes;
          edges = edges;
          metadata = metadata;
          reducers = reducers;
          joins = joins;
        })
  unfolding create create_frozen graph_spec
  create-sorted version steps nodes edges metadata reducers joins n e r d j s f t v =
      let (again, frozen, read) = >>=-ok (as_dict (thaw_metadata metadata)) t in
      rw (given_metadata-thaw metadata, read, frozen, n, e, r, d, j, v, f, n, e, r, s) refl

  graph_spec-sorted :
      (version id : String) (steps : ℤ) (nodes : List NodeSpec) (edges : List EdgeSpec)
      (metadata : Dict Value) (reducers : List ReducerSpec) (joins : List JoinSpec)
      → sort_by (node_order enc) nodes ≡ nodes
      → sort_by (edge_order enc) edges ≡ edges
      → sort_by reducer_order reducers ≡ reducers
      → sort_by source_order joins ≡ joins
      → freeze_metadata metadata ≡ ok metadata
      → graph_spec enc version id steps nodes edges metadata reducers joins
        ≡ ok (record {
          schema_version = version;
          graph_id = id;
          max_steps = steps;
          nodes = nodes;
          edges = edges;
          metadata = metadata;
          reducers = reducers;
          joins = joins;
        })
  unfolding graph_spec
  graph_spec-sorted version id steps nodes edges metadata reducers joins n e r s f =
      rw (f, n, e, r, s) refl

  -- A description that `create` made is what `create` makes of its parts: of its nodes, edges, reducers
  -- and joins, its thawed metadata and its schema version.
  pub create-again :
      (steps : ℤ) (nodes : List NodeSpec) (edges : List EdgeSpec) (metadata : Value)
      (version : Option String) (reducers : List ReducerSpec) (joins : List JoinSpec)
      (spec : GraphSpec)
      → create enc steps nodes edges metadata version reducers joins ≡ ok spec
      → create enc spec.max_steps spec.nodes spec.edges
          (thaw_metadata spec.metadata)
          (some spec.schema_version)
          spec.reducers
          spec.joins
        ≡ ok spec
  unfolding create create_frozen
  create-again steps nodes edges metadata version reducers joins spec h =
      let (d, one, f) = >>=-ok (as_dict (given_metadata metadata)) h in
      let (frozen, two, g) = >>=-ok (freeze_metadata d) one in
      let nodes' = sort_by (node_order enc) nodes in
      let edges' = sort_by (edge_order enc) edges in
      let reducers' = sort_by reducer_order reducers in
      let joins' = sort_by join_order (declared_joins (fanout_sources edges') joins) in
      let (version', three, v) =
        >>=-ok (check_version version (uses_r3 edges' reducers' joins')) two in
      let by_name = sort_by-sort_by (node_order enc) (node_order-IsDual enc) nodes in
      let by_source = sort_by-sort_by (edge_order enc) (edge_order-IsDual enc) edges in
      let by_field =
        sort_by-sort_by reducer_order (λ a b. compare_text-IsDual a.field b.field) reducers in
      let by_origin = source_order-join_order (declared_joins (fanout_sources edges') joins) in
      let idle = freeze_metadata-freeze_metadata d frozen g in
      let made =
        sym (
          graph_spec-sorted version' _ steps nodes' edges' frozen reducers' joins' by_name by_source
            by_field by_origin idle)
        ∙ three in
      subst
        (λ (spec : GraphSpec).
          create enc spec.max_steps spec.nodes spec.edges (thaw_metadata spec.metadata)
            (some spec.schema_version) spec.reducers spec.joins
          ≡ ok spec)
        (ok-injective made)
        (create-sorted version' steps nodes' edges' frozen reducers' joins' by_name by_source
          by_field (declared_joins-declared_joins (fanout_sources edges') joins join_order)
          (sort_by-sort_by join_order join_order-IsDual
            (declared_joins (fanout_sources edges') joins))
          by_origin idle (thaw_metadata-freeze_metadata d frozen g)
          (check_version-again version (uses_r3 edges' reducers' joins') version' v))
