-- ===== src/Spec/Canonical/Plain.antt =====
-- A description of schema version "1" has no reducers and no joins.
use perpetua_core.Prelude.{
  String, ◌≡◌, refl, ap, subst, Bool, true, false, ◌==◌, Option, some, List, [], ◌∷◌, Dict, sort_by,
  arith,
}
use perpetua_core.Value.{Value, ℤ}
use perpetua_core.Errors.{ok, err, value_error, >>=-ok, ok-injective}
use perpetua_core.Spec.Json.{Encoding, freeze_metadata, as_dict}
use perpetua_core.Spec.Records.{NodeSpec, EdgeSpec, ReducerSpec, JoinSpec}
use perpetua_core.Spec.Canonical.{
  GraphSpec, graph_spec, create, create_frozen, given_metadata, check_version, uses_r3,
  declared_joins, fanout_sources, is_nonempty, node_order, edge_order, reducer_order, source_order,
  join_order, schema_version_1,
}
use perpetua_core.Spec.Canonical.Again.{check_version-again}

check_version-plain :
    (version : String) (r3 : Bool)
    → check_version (some version) r3 ≡ ok version
    → (version == schema_version_1) ≡ true
    → r3 ≡ false
unfolding check_version
check_version-plain version true h e = let no : err value_error ≡ ok version = rw e at h in cc
check_version-plain version false h e = refl

empty : {A : Type 0} (xs : List A) → is_nonempty xs ≡ false → xs ≡ []
empty [] h = refl
empty (x ∷ xs) h = ground arith

abbrev pub IsPlain : GraphSpec → Type 0
IsPlain spec =
    (spec.schema_version == schema_version_1) ≡ true → (spec.reducers ≡ []) × (spec.joins ≡ [])

module _ (enc : Encoding) where
  graph_spec-IsPlain :
      (version id : String) (steps : ℤ) (nodes : List NodeSpec) (edges : List EdgeSpec)
      (metadata : Dict Value) (reducers : List ReducerSpec) (joins : List JoinSpec)
      (spec : GraphSpec)
      → check_version (some version) (uses_r3 edges reducers joins) ≡ ok version
      → graph_spec enc version id steps nodes edges metadata reducers joins ≡ ok spec
      → IsPlain spec
  unfolding graph_spec sort_by
  graph_spec-IsPlain version id steps nodes edges metadata reducers joins spec checked h =
      let (frozen, made, f) = >>=-ok (freeze_metadata metadata) h in
      subst IsPlain (ok-injective made) (λ plain.
        let unused = check_version-plain version (uses_r3 edges reducers joins) checked plain in
        (
          ap (sort_by reducer_order) (empty reducers (ground arith)),
          ap (sort_by source_order) (empty joins (ground arith)),
        ))

  pub create-IsPlain :
      (steps : ℤ) (nodes : List NodeSpec) (edges : List EdgeSpec) (metadata : Value)
      (version : Option String) (reducers : List ReducerSpec) (joins : List JoinSpec)
      (spec : GraphSpec)
      → create enc steps nodes edges metadata version reducers joins ≡ ok spec
      → IsPlain spec
  unfolding create create_frozen
  create-IsPlain steps nodes edges metadata version reducers joins spec h =
      let (d, one, f) = >>=-ok (as_dict (given_metadata metadata)) h in
      let (frozen, two, g) = >>=-ok (freeze_metadata d) one in
      let edges' = sort_by (edge_order enc) edges in
      let reducers' = sort_by reducer_order reducers in
      let joins' = sort_by join_order (declared_joins (fanout_sources edges') joins) in
      let r3 = uses_r3 edges' reducers' joins' in
      let (version', three, v) = >>=-ok (check_version version r3) two in
      graph_spec-IsPlain version' _ steps (sort_by (node_order enc) nodes) edges' frozen reducers'
        joins' spec (check_version-again version r3 version' v) three
