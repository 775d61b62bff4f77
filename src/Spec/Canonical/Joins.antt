-- ===== src/Spec/Canonical/Joins.antt =====
-- The joins that `create` keeps: of those it keeps, it keeps all.
use perpetua_core.Prelude.{
  IsDual, suc, String, ◌≡◌, refl, ap, ◌∙◌, inl, inr, Bool, true, Bool-cases, not, List, [], ◌∷◌,
  contains, arith, eq_iff, ◌==◌, keep, All, All-weaken, All-always, All-sort_by, sort_by, insert_by,
  if◌then◌else◌, IsAscending-coarser, is_le-then_by, sort_by-of_IsAscending, sort_by-IsAscending,
  lex-IsDual, compare_text-IsDual,
}
use Prim.Native.Nat.{Ordering}
use Prim.Native.String.{compare}
use perpetua_core.Spec.Records.{JoinSpec, join_kind_name, is_default}
use perpetua_core.Spec.Canonical.{join_count, is_implied, declared_joins, join_order, source_order}

module _ {A : Type 0} (test : A → Bool) where
  keep_everything : (xs : List A) → All (λ x. test x ≡ true) xs → keep test xs ≡ xs
  keep_everything [] h = refl
  keep_everything (x ∷ xs) h = rw (h.0, keep_everything xs h.1) refl

  All-kept : (xs : List A) → All (λ x. test x ≡ true) (keep test xs)
  All-kept [] = tt
  All-kept (x ∷ xs) = elim (Bool-cases (test x)) [
    | inl e ↦ rw e (e, All-kept xs)
    | inr e ↦ rw e (All-kept xs)
  ]

-- The joins of a source are counted, whatever else is left out.
join_count-keep :
    (s : String) (test : JoinSpec → Bool) (js : List JoinSpec)
    → All (λ j. (j.source == s) ≡ true → test j ≡ true) js
    → join_count s (keep test js) ≡ join_count s js
unfolding join_count
join_count-keep s test [] h = refl
join_count-keep s test (j ∷ js) h = elim (Bool-cases (test j)) [
  | inl e ↦ rw (e, join_count-keep s test js h.1) refl
  | inr e ↦ elim (Bool-cases (j.source == s)) [
    | inl same ↦ let kept = h.0 same in ground arith
    | inr other ↦ rw (e, other) (join_count-keep s test js h.1)
  ]
]

join_count-insert_by :
    (cmp : JoinSpec → JoinSpec → Ordering) (s : String) (j : JoinSpec) (js : List JoinSpec)
    → join_count s (insert_by cmp j js) ≡ join_count s (j ∷ js)
unfolding join_count insert_by
join_count-insert_by cmp s j [] = refl
join_count-insert_by cmp s j (i ∷ is) = ground (arith, join_count-insert_by cmp s j is)

join_count-sort_by :
    (cmp : JoinSpec → JoinSpec → Ordering) (s : String) (js : List JoinSpec)
    → join_count s (sort_by cmp js) ≡ join_count s js
unfolding join_count sort_by
join_count-sort_by cmp s [] = refl
join_count-sort_by cmp s (j ∷ js) =
    join_count-insert_by cmp s j (sort_by cmp js)
    ∙ ap (λ n. if j.source == s then suc n else n) (join_count-sort_by cmp s js)

module _ (sources : List String) (js : List JoinSpec) where
  abbrev is_kept : JoinSpec → Bool
  is_kept j = not (is_implied sources js j)

  -- A join that is kept does not become the sole one of its source.
  join_count-kept :
      (j : JoinSpec)
      → is_default j ≡ true
      → contains j.source sources ≡ true
      → is_kept j ≡ true
      → join_count j.source (keep is_kept js) ≡ join_count j.source js
  join_count-kept j d c h = join_count-keep j.source is_kept js (
      All-always js (λ i same.
        let sources_same = (eq_iff i.source j.source).0 same in rw sources_same (ground arith)))

  still_kept :
      (ks : List JoinSpec) (j : JoinSpec)
      → ((s : String) → join_count s ks ≡ join_count s (keep is_kept js))
      → is_kept j ≡ true
      → not (is_implied sources ks j) ≡ true
  still_kept ks j counts h = elim (Bool-cases (is_default j)) [
    | inr e ↦ rw e refl
    | inl d ↦ elim (Bool-cases (contains j.source sources)) [
      | inr e ↦ rw (d, e) refl
      | inl c ↦ rw (counts j.source, join_count-kept j d c h) h
    ]
  ]

  -- The joins that `create` keeps, in order: it keeps all of them.
  pub declared_joins-declared_joins :
      (cmp : JoinSpec → JoinSpec → Ordering)
      → declared_joins sources (sort_by cmp (declared_joins sources js))
        ≡ sort_by cmp (declared_joins sources js)
  unfolding declared_joins
  declared_joins-declared_joins cmp =
      let ks = keep is_kept js in
      keep_everything (λ j. not (is_implied sources (sort_by cmp ks) j)) (sort_by cmp ks)
        (All-weaken (sort_by cmp ks)
          (λ j h. still_kept (sort_by cmp ks) j (λ s. join_count-sort_by cmp s ks) h)
          (All-sort_by cmp (λ j. is_kept j ≡ true) ks (All-kept is_kept js)))

pub join_order-IsDual : IsDual join_order
join_order-IsDual a b =
    lex-IsDual compare compare_text-IsDual (a.source ∷ join_kind_name a.kind ∷ [])
      (b.source ∷ join_kind_name b.kind ∷ [])

-- In the order of source and kind, they are in the order of their sources.
pub source_order-join_order :
    (js : List JoinSpec) → sort_by source_order (sort_by join_order js) ≡ sort_by join_order js
source_order-join_order js = sort_by-of_IsAscending source_order (sort_by join_order js) (
    IsAscending-coarser join_order source_order
      (λ a b h. is_le-then_by (compare a.source b.source) _ h) (sort_by join_order js)
      (sort_by-IsAscending join_order join_order-IsDual js))
