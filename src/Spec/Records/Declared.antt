-- ===== src/Spec/Records/Declared.antt =====
-- `tuple(sorted(set(...)))` of an edge's declared targets.
use perpetua_core.Prelude.{
  eq_sym, String, ◌≡◌, refl, ap, subst, ◌∙◌, inl, inr, true, false, Bool-cases, ◌||◌, List, [], ◌∷◌,
  contains, arith, eq_iff, sorted, contains-sorted, insert_sorted, insert_by, sort_by,
  sort_by-sort_by, compare_text-IsDual, length, ◌==◌, suc, text_le, contains-insert_sorted,
}
use Prim.Native.String.{compare}
use perpetua_core.Graph.{has_repeats}
use perpetua_core.Spec.Records.{distinct}

pub contains-distinct : (k : String) (xs : List String) → contains k (distinct xs) ≡ contains k xs
unfolding distinct
contains-distinct k [] = refl
contains-distinct k (x ∷ xs) = elim (Bool-cases (contains x xs)) [
  | inl e ↦ rw e (elim (Bool-cases (x == k)) [
    | inl same ↦
        let there : contains k xs ≡ true =
          subst (λ y. contains y xs ≡ true) ((eq_iff x k).0 same) e in
        rw same (contains-distinct k xs ∙ there)
    | inr other ↦ rw other (contains-distinct k xs)
  ])
  | inr e ↦ rw (e, contains-distinct k xs) refl
]

has_repeats-distinct : (xs : List String) → has_repeats (distinct xs) ≡ false
unfolding has_repeats distinct
has_repeats-distinct [] = refl
has_repeats-distinct (x ∷ xs) = elim (Bool-cases (contains x xs)) [
  | inl e ↦ rw e (has_repeats-distinct xs)
  | inr e ↦ rw (e, contains-distinct x xs, e) (has_repeats-distinct xs)
]

distinct-of_no_repeats : (xs : List String) → has_repeats xs ≡ false → distinct xs ≡ xs
unfolding has_repeats distinct
distinct-of_no_repeats [] h = refl
distinct-of_no_repeats (x ∷ xs) h = elim (Bool-cases (contains x xs)) [
  | inl e ↦ ground arith
  | inr e ↦ rw (e, distinct-of_no_repeats xs (ground arith)) refl
]

insert_sorted-is_insert_by :
    (s : String) (ts : List String) → insert_sorted s ts ≡ insert_by compare s ts
unfolding insert_sorted insert_by
insert_sorted-is_insert_by s [] = refl
insert_sorted-is_insert_by s (t ∷ ts) = rw (insert_sorted-is_insert_by s ts) refl

sorted-is_sort_by : (ts : List String) → sorted ts ≡ sort_by compare ts
unfolding sorted sort_by
sorted-is_sort_by [] = refl
sorted-is_sort_by (t ∷ ts) =
    rw (sorted-is_sort_by ts) (insert_sorted-is_insert_by t (sort_by compare ts))

sorted-sorted : (ts : List String) → sorted (sorted ts) ≡ sorted ts
sorted-sorted ts =
    rw (sorted-is_sort_by ts, sorted-is_sort_by (sort_by compare ts))
      (sort_by-sort_by compare compare_text-IsDual ts)

has_repeats-insert_sorted :
    (s : String) (ts : List String)
    → has_repeats (insert_sorted s ts) ≡ (contains s ts || has_repeats ts)
unfolding has_repeats insert_sorted
has_repeats-insert_sorted s [] = refl
has_repeats-insert_sorted s (t ∷ ts) = elim (Bool-cases (text_le s t)) [
  | inl e ↦ rw e (ground arith)
  | inr e ↦
      rw (e, contains-insert_sorted t s ts, has_repeats-insert_sorted s ts)
        (ground (arith, eq_sym s t))
]

has_repeats-sorted : (ts : List String) → has_repeats (sorted ts) ≡ has_repeats ts
unfolding has_repeats sorted
has_repeats-sorted [] = refl
has_repeats-sorted (t ∷ ts) =
    ground
      (arith, has_repeats-insert_sorted t (sorted ts), contains-sorted t ts, has_repeats-sorted ts)

length-insert_sorted :
    (s : String) (ts : List String) → length (insert_sorted s ts) ≡ suc (length ts)
unfolding insert_sorted
length-insert_sorted s [] = refl
length-insert_sorted s (t ∷ ts) = ground (arith, length-insert_sorted s ts)

pub length-sorted : (ts : List String) → length (sorted ts) ≡ length ts
unfolding sorted
length-sorted [] = refl
length-sorted (t ∷ ts) = length-insert_sorted t (sorted ts) ∙ ap suc (length-sorted ts)

-- The form that is stored has no repeats, and is its own form.
pub has_repeats-declared : (xs : List String) → has_repeats (sorted (distinct xs)) ≡ false
has_repeats-declared xs = has_repeats-sorted (distinct xs) ∙ has_repeats-distinct xs

pub declared-declared :
    (xs : List String) → sorted (distinct (sorted (distinct xs))) ≡ sorted (distinct xs)
declared-declared xs =
    ap sorted (distinct-of_no_repeats (sorted (distinct xs)) (has_repeats-declared xs))
    ∙ sorted-sorted (distinct xs)

pub length-declared :
    (xs : List String) → has_repeats xs ≡ false → length (sorted (distinct xs)) ≡ length xs
length-declared xs h = length-sorted (distinct xs) ∙ ap length (distinct-of_no_repeats xs h)
