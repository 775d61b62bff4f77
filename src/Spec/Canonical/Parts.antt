-- ===== src/Spec/Canonical/Parts.antt =====
-- What holds of all the parts given to `create` holds of those of the description.
use perpetua_core.Prelude.{
  ◌≡◌, Bool, Bool-cases, inl, inr, String, Option, List, [], ◌∷◌, All, All-sort_by, subst, sort_by,
  keep,
}
use perpetua_core.Value.{Value, ℤ}
use perpetua_core.Errors.{ok, >>=-ok, ok-injective}
use perpetua_core.Spec.Json.{Encoding, freeze_metadata, as_dict}
use perpetua_core.Spec.Records.{NodeSpec, EdgeSpec, ReducerSpec, JoinSpec}
use perpetua_core.Spec.Canonical.{
  GraphSpec, graph_spec, create, create_frozen, given_metadata, check_version, uses_r3,
  declared_joins, fanout_sources, node_order, edge_order, reducer_order, source_order, join_order,
}

All-keep_some :
    {A : Type 0} (P : A → Type 0) (test : A → Bool) (xs : List A) → All P xs → All P (keep test xs)
All-keep_some P test [] h = tt
All-keep_some P test (x ∷ xs) h = elim (Bool-cases (test x)) [
  | inl e ↦ rw e (h.0, All-keep_some P test xs h.1)
  | inr e ↦ rw e (All-keep_some P test xs h.1)
]

module _ (enc : Encoding) (OfNode : NodeSpec → Type 0) (OfEdge : EdgeSpec → Type 0)
    (OfReducer : ReducerSpec → Type 0) (OfJoin : JoinSpec → Type 0) where
  abbrev pub HasParts : GraphSpec → Type 0
  HasParts spec =
      All OfNode spec.nodes
      × All OfEdge spec.edges
      × All OfReducer spec.reducers
      × All OfJoin spec.joins

  pub create-HasParts :
      (steps : ℤ) (nodes : List NodeSpec) (edges : List EdgeSpec) (metadata : Value)
      (version : Option String) (reducers : List ReducerSpec) (joins : List JoinSpec)
      (spec : GraphSpec)
      → All OfNode nodes
      → All OfEdge edges
      → All OfReducer reducers
      → All OfJoin joins
      → create enc steps nodes edges metadata version reducers joins ≡ ok spec
      → HasParts spec
  unfolding create create_frozen graph_spec declared_joins
  create-HasParts steps nodes edges metadata version reducers joins spec ns es rs js h =
      let (d, one, f) = >>=-ok (as_dict (given_metadata metadata)) h in
      let (frozen, two, g) = >>=-ok (freeze_metadata d) one in
      let edges' = sort_by (edge_order enc) edges in
      let reducers' = sort_by reducer_order reducers in
      let kept = declared_joins (fanout_sources edges') joins in
      let joins' = sort_by join_order kept in
      let (version', three, v) =
        >>=-ok (check_version version (uses_r3 edges' reducers' joins')) two in
      let (again, made, k) = >>=-ok (freeze_metadata frozen) three in
      subst HasParts (ok-injective made) (
        All-sort_by (node_order enc) OfNode _ (All-sort_by (node_order enc) OfNode nodes ns),
        All-sort_by (edge_order enc) OfEdge _ (All-sort_by (edge_order enc) OfEdge edges es),
        All-sort_by reducer_order OfReducer _ (All-sort_by reducer_order OfReducer reducers rs),
        All-sort_by source_order OfJoin joins'
            (All-sort_by join_order OfJoin kept (All-keep_some OfJoin _ joins js)),
      )
