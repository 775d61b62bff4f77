-- ===== src/Spec/Reading/Verified.antt =====
-- What `from_dict` has verified of what it gives.
use perpetua_core.Prelude.{
  String, ◌≡◌, refl, ap, ◌∙◌, true, Option, none, some, List, Dict, lookup, keys, ◌==◌, eq_iff,
  subst,
}
use perpetua_core.Value.{Value, null, boolean, int, text, list, tuple, dict, atom, nil, end}
use perpetua_core.Errors.{
  ok, value_error, guard, guard-ok, >>=-ok, ok-injective, ◌>>=◌, Holds, >>=-Holds,
}
use perpetua_core.Spec.Json.{Encoding}
use perpetua_core.Spec.Canonical.{GraphSpec, create, is_supported}
use perpetua_core.Spec.Canonical.Identity.{IsCanonical, create-IsCanonical}
use perpetua_core.Spec.Reading.{
  from_dict, from_fields, check_identity, check_record_fields, check_records, as_object, as_list,
  as_int, item_at, item_or, each, read_node, read_edge, read_reducer, read_join, graph_fields,
  node_fields, edge_fields, reducer_fields, join_fields, all_in, ℤ, NodeSpec, EdgeSpec, ReducerSpec,
  JoinSpec,
}

module _ (enc : Encoding) where
  check_identity-ok :
      (supplied : Option Value) (spec result : GraphSpec)
      → check_identity enc supplied spec ≡ ok result
      → (spec ≡ result) × (supplied ≡ some (text spec.graph_id))
  unfolding check_identity
  check_identity-ok none spec result h = cc
  check_identity-ok (some (text s)) spec result h =
      let (u, made, g) = >>=-ok (guard (s == spec.graph_id) value_error) h in
      (ok-injective made, rw ((eq_iff s spec.graph_id).0 (guard-ok _ value_error u g)) refl)
  check_identity-ok (some null) spec result h = cc
  check_identity-ok (some (boolean b)) spec result h = cc
  check_identity-ok (some (int n)) spec result h = cc
  check_identity-ok (some (list xs)) spec result h = cc
  check_identity-ok (some (tuple xs)) spec result h = cc
  check_identity-ok (some (dict d)) spec result h = cc
  check_identity-ok (some (atom t i)) spec result h = cc

  -- A payload that was read.
  pub record IsVerified (d : Dict Value) (spec : GraphSpec) : Type 0 where
    pub is_known : all_in graph_fields (keys d) ≡ true
    pub is_canonical : IsCanonical enc spec
    pub is_supplied : lookup "graph_id" d ≡ some (text spec.graph_id)

  -- The last steps of `from_dict`: the description is made, and its identity checked.
  made_and_checked :
      (d : Dict Value) (version : String) (steps : ℤ) (nodes : List NodeSpec)
      (edges : List EdgeSpec) (reducers : List ReducerSpec) (joins : List JoinSpec)
      → all_in graph_fields (keys d) ≡ true
      → Holds (IsVerified d) (
          create enc steps nodes edges
            (item_or "metadata" (dict end) d)
            (some version)
            reducers
            joins
          >>= λ spec. check_identity enc (lookup "graph_id" d) spec)
  made_and_checked d version steps nodes edges reducers joins known spec h =
      let metadata = item_or "metadata" (dict end) d in
      let (made, checked, created) =
        >>=-ok (create enc steps nodes edges metadata (some version) reducers joins) h in
      let (same, supplied) = check_identity-ok (lookup "graph_id" d) made spec checked in
      let canonical =
        create-IsCanonical enc steps nodes edges metadata (some version) reducers joins made
          created in
      record {
        is_known = known;
        is_canonical = subst (IsCanonical enc) same canonical;
        is_supplied = supplied ∙ ap (λ (s : GraphSpec). some (text s.graph_id)) same;
      }

  from_fields-IsVerified :
      (d : Dict Value)
      → all_in graph_fields (keys d) ≡ true
      → Holds (IsVerified d) (from_fields enc d)
  unfolding from_fields
  from_fields-IsVerified d known =
      let version = enc.show (item_or "schema_version" (text "") d) in
      let P = IsVerified d in
      >>=-Holds P (guard (is_supported version) value_error) (λ u e.
        >>=-Holds P (as_list (item_or "nodes" (list nil) d)) (λ raw_nodes e.
          >>=-Holds P (as_list (item_or "edges" (list nil) d)) (λ raw_edges e.
            >>=-Holds P (check_records node_fields raw_nodes) (λ node_dicts e.
              >>=-Holds P (check_records edge_fields raw_edges) (λ edge_dicts e.
                >>=-Holds P (each (read_node enc) node_dicts) (λ nodes e.
                  >>=-Holds P (each (read_edge enc) edge_dicts) (λ edges e.
                    >>=-Holds P (as_list (item_or "reducers" (list nil) d)) (λ raw_reducers e.
                      >>=-Holds P (as_list (item_or "joins" (list nil) d)) (λ raw_joins e.
                        >>=-Holds P (check_records reducer_fields raw_reducers) (λ reducer_dicts e.
                          >>=-Holds P (check_records join_fields raw_joins) (λ join_dicts e.
                            >>=-Holds P (each (read_reducer enc) reducer_dicts) (λ reducers e.
                              >>=-Holds P (each (read_join enc) join_dicts) (λ joins e.
                                >>=-Holds P (item_at "max_steps" d) (λ raw_steps e.
                                  >>=-Holds P (as_int enc raw_steps) (λ steps e.
                                    made_and_checked d version steps nodes edges reducers joins
                                      known)))))))))))))))

  -- A description that `from_dict` gives was read from an object whose fields are all known; it is
  -- canonical, its graph_id is the digest of its content, and that is the graph_id that the object supplies.
  pub from_dict-IsVerified :
      (payload : Value) (spec : GraphSpec)
      → from_dict enc payload ≡ ok spec
      → (d : Dict Value) × (as_object payload ≡ ok d) × IsVerified d spec
  unfolding from_dict check_record_fields
  from_dict-IsVerified payload spec h =
      let (d, one, checked) = >>=-ok (check_record_fields graph_fields payload) h in
      let (e, two, object) = >>=-ok (as_object payload) checked in
      let (u, three, known) = >>=-ok (guard (all_in graph_fields (keys e)) value_error) two in
      let all_known = guard-ok (all_in graph_fields (keys e)) value_error u known in
      (
        e,
        object,
        from_fields-IsVerified e all_known spec (ap (from_fields enc) (ok-injective three) ∙ one),
      )
