-- ===== src/Describe/Edges.antt =====
-- What `_describe_topology` keeps of an edge.
use perpetua_core.Prelude.{
  String, ◌≡◌, refl, subst, ◌∙◌, inl, inr, true, Bool-cases, List, [], ◌∷◌, contains, All, arith,
  eq_iff, sorted, contains-sorted, ◌==◌, eq_refl,
}
use perpetua_core.Spec.Records.{distinct}
use perpetua_core.Spec.Records.Declared.{contains-distinct}

-- What holds of all the texts holds of each that is there, and the other way round.
All-contains :
    (P : String → Type 0) (xs : List String) (k : String) → All P xs → contains k xs ≡ true → P k
All-contains P [] k h c = ground arith
All-contains P (x ∷ xs) k h c = elim (Bool-cases (x == k)) [
  | inl same ↦ subst P ((eq_iff x k).0 same) h.0
  | inr other ↦ All-contains P xs k h.1 (ground arith)
]

contains-All :
    (P : String → Type 0) (xs : List String)
    → ((k : String) → contains k xs ≡ true → P k)
    → All P xs
contains-All P [] h = tt
contains-All P (x ∷ xs) h =
    (h x (rw (eq_refl x) refl), contains-All P xs (λ k there. h k (ground arith)))

pub All-of_declared :
    (P : String → Type 0) (xs : List String) → All P (sorted (distinct xs)) → All P xs
All-of_declared P xs h = contains-All P xs (λ k there.
    All-contains P (sorted (distinct xs)) k h
      (contains-sorted k (distinct xs) ∙ contains-distinct k xs ∙ there))
