-- ===== src/Reducers/Union.antt =====
-- `union` of lists.
use perpetua_core.Prelude.{
  String, ◌≡◌, refl, ap, sym, ◌∙◌, ◌⊎◌, inl, inr, true, false, Bool-cases, List, [], ◌∷◌, ◌++◌,
  append_assoc, append-nil, All, All-weaken, Member, Subsequence, subst,
}
use perpetua_core.Value.{Value, list, to_items, of_items-to_items, value_eq, is_in}
use perpetua_core.Errors.{ok}
use perpetua_core.Reducers.{
  union, require_list, base_list, add_new, union_all, union_lists, no_dicts, union_fold,
  reduce_field,
}
use perpetua_core.Reducers.Lists.{list_writes, flatten}

-- No added item equals one before it.
abbrev pub AreNew : List Value → List Value → Type 0
AreNew before [] = Unit
AreNew before (x ∷ xs) = (is_in x before ≡ false) × AreNew (before ++ x ∷ []) xs

-- The item equals one of the result, or is one.
abbrev pub IsCovered : List Value → Value → Type 0
IsCovered result v = (is_in v result ≡ true) ⊎ Member v result

is_in-append : (v : Value) (xs ys : List Value) → is_in v xs ≡ true → is_in v (xs ++ ys) ≡ true
unfolding is_in
is_in-append v [] ys h = cc
is_in-append v (x ∷ xs) ys h = elim (Bool-cases (value_eq x v)) [
  | inl e ↦ rw e refl
  | inr e ↦ rw e (is_in-append v xs ys (rw e at h))
]

Member-append : (v : Value) (xs ys : List Value) → Member v xs → Member v (xs ++ ys)
Member-append v [] ys h = absurd h
Member-append v (x ∷ xs) ys (inl e) = inl e
Member-append v (x ∷ xs) ys (inr m) = inr (Member-append v xs ys m)

Member-last : (v : Value) (xs : List Value) → Member v (xs ++ v ∷ [])
Member-last v [] = inl refl
Member-last v (x ∷ xs) = inr (Member-last v xs)

IsCovered-append : (v : Value) (xs ys : List Value) → IsCovered xs v → IsCovered (xs ++ ys) v
IsCovered-append v xs ys (inl e) = inl (is_in-append v xs ys e)
IsCovered-append v xs ys (inr m) = inr (Member-append v xs ys m)

-- `result` gains `added`, which the items supply in their order.
abbrev pub Extends : List Value → List Value → List Value → Type 0
Extends result added items =
    Subsequence added items × AreNew result added × All (IsCovered (result ++ added)) items

add_new-Extends :
    (result items : List Value)
    → (added : List Value) × (add_new result items ≡ result ++ added) × Extends result added items
unfolding add_new
add_new-Extends result [] = ([], sym (append-nil result), (Subsequence.stop, tt, tt))
add_new-Extends result (item ∷ items) = elim (Bool-cases (is_in item result)) [
  | inl e ↦
      let (added, grown, (part, fresh, covered)) = add_new-Extends result items in
      (
        added,
        rw e grown,
        (Subsequence.skip part, fresh, (IsCovered-append item result added (inl e), covered)),
      )
  | inr e ↦
      let (added, grown, (part, fresh, covered)) = add_new-Extends (result ++ item ∷ []) items in
      let regroup : (result ++ item ∷ []) ++ added ≡ result ++ item ∷ added =
        append_assoc result (item ∷ []) added in
      (
        item ∷ added,
        rw e (grown ∙ regroup),
        (
          Subsequence.take part,
          (e, fresh),
          subst (λ r. IsCovered r item × All (IsCovered r) items) regroup
              (
                IsCovered-append item (result ++ item ∷ []) added (inr (Member-last item result)),
                covered,
              ),
        ),
      )
]

Subsequence-append :
    {cs bs xs ys : List Value}
    → Subsequence cs xs
    → Subsequence bs ys
    → Subsequence (cs ++ bs) (xs ++ ys)
Subsequence-append Subsequence.stop t = t
Subsequence-append (Subsequence.skip s) t = Subsequence.skip (Subsequence-append s t)
Subsequence-append (Subsequence.take s) t = Subsequence.take (Subsequence-append s t)

AreNew-append :
    (before xs ys : List Value)
    → AreNew before xs
    → AreNew (before ++ xs) ys
    → AreNew before (xs ++ ys)
AreNew-append before [] ys h k = subst (λ b. AreNew b ys) (append-nil before) k
AreNew-append before (x ∷ xs) ys h k = (
  h.0,
  AreNew-append (before ++ x ∷ []) xs ys h.1
      (subst (λ b. AreNew b ys) (sym (append_assoc before (x ∷ []) xs)) k),
)

All-append : (P : Value → Type 0) (xs ys : List Value) → All P xs → All P ys → All P (xs ++ ys)
All-append P [] ys h k = k
All-append P (x ∷ xs) ys h k = (h.0, All-append P xs ys h.1 k)

union_all-Extends :
    (result : List Value) (ws : List (String × List Value))
    → (added : List Value) × (union_all result (list_writes ws) ≡ ok (result ++ added))
      × Extends result added (flatten ws)
unfolding union_all require_list
union_all-Extends result [] = ([], ap ok (sym (append-nil result)), (Subsequence.stop, tt, tt))
union_all-Extends result ((name, items) ∷ ws) =
    let (first, grown, (part, fresh, covered)) = add_new-Extends result items in
    let (rest, done, (part', fresh', covered')) = union_all-Extends (result ++ first) ws in
    let regroup : (result ++ first) ++ rest ≡ result ++ (first ++ rest) =
      append_assoc result first rest in
    (
      first ++ rest,
      rw (of_items-to_items, grown) (done ∙ ap ok regroup),
      (
        Subsequence-append part part',
        AreNew-append result first rest fresh fresh',
        subst (λ r. All (IsCovered r) (items ++ flatten ws)) regroup
            (All-append _ items (flatten ws)
              (All-weaken items (λ v. IsCovered-append v (result ++ first) rest) covered) covered'),
      ),
    )

no_dicts-list_writes : (ws : List (String × List Value)) → no_dicts (list_writes ws) ≡ true
no_dicts-list_writes [] = refl
no_dicts-list_writes (w ∷ ws) = no_dicts-list_writes ws

-- `union` on list writes keeps the base, and adds some of the branches' items behind it, in the order
-- of the branches: none that equals an item before it, and, of every item that was written, an equal
-- one or itself is in the result.
pub union_contract :
    {W : Type 0} (field name : String) (base items : List Value) (ws : List (String × List Value))
    (w : W)
    → (added : List Value) × (reduce_field field union
          (list (to_items base))
          (list_writes ((name, items) ∷ ws))
          w
        ≡ (ok (list (to_items (base ++ added))), w))
      × Extends base added (items ++ flatten ws)
unfolding reduce_field union_fold union_lists base_list require_list
union_contract field name base items ws w =
    let (added, done, extends) = union_all-Extends base ((name, items) ∷ ws) in
    (added, rw (no_dicts-list_writes ws, of_items-to_items, done) refl, extends)
