-- ===== src/Spec/Json/RoundTrip.antt =====
-- A frozen value is what its thawed form freezes to.
use perpetua_core.Prelude.{
  String, ◌≡◌, refl, ap, sym, ◌∙◌, All, Dict, sort_by, by_key, subst, compare_text-IsDual,
  IsAscending, Heads, sort_by-IsAscending, sort_by-of_IsAscending,
}
use Prim.Native.String.{compare}
use Prim.Native.Nat.{Ordering}
use perpetua_core.Value.{
  Value, null, boolean, int, text, list, tuple, dict, atom, Items, nil, cons, Fields, end, field,
  of_fields, to_fields, of_fields-to_fields,
}
use perpetua_core.Errors.{ok, >>=-ok, ok-injective, ◌>>=◌}
use perpetua_core.Spec.Json.{
  freeze, freeze_items, freeze_fields, sort_dict, sort_fields, freeze_metadata, thaw, thaw_items,
  thaw_fields, thaw_metadata, as_dict,
}
use perpetua_core.Spec.Json.Frozen.{IsFrozen, IsFrozen-freeze_fields, sorted_IsFrozen}

abbrev key_order : String × Value → String × Value → Ordering
key_order = by_key compare (λ p. p.0)

to_fields-of_fields : (d : Fields) → to_fields (of_fields d) ≡ d
unfolding to_fields of_fields
to_fields-of_fields end = refl
to_fields-of_fields (field k v d) = ap (field k v) (to_fields-of_fields d)

-- Thawing keeps the keys, and their order.
thaw_fields-Heads :
    (k : String) (v w : Value) (d : Fields)
    → Heads key_order (k, v) (of_fields d)
    → Heads key_order (k, w) (of_fields (thaw_fields d))
unfolding of_fields thaw_fields
thaw_fields-Heads k v w end h = tt
thaw_fields-Heads k v w (field j u d) h = h

thaw_fields-IsAscending :
    (d : Fields)
    → IsAscending key_order (of_fields d)
    → IsAscending key_order (of_fields (thaw_fields d))
unfolding of_fields thaw_fields
thaw_fields-IsAscending end h = tt
thaw_fields-IsAscending (field k v d) h =
    (thaw_fields-Heads k v (thaw v) d h.0, thaw_fields-IsAscending d h.1)

sort_fields-of_IsAscending : (d : Fields) → IsAscending key_order (of_fields d) → sort_fields d ≡ d
unfolding sort_fields sort_dict sort_by
sort_fields-of_IsAscending d h =
    ap to_fields (sort_by-of_IsAscending key_order (of_fields d) h) ∙ to_fields-of_fields d

dict-injective : {a b : Fields} → dict a ≡ dict b → a ≡ b
dict-injective h = cc

tuple_items : {a b : Items} → ok (tuple a) ≡ ok (tuple b) → ok a ≡ ok b
tuple_items h = cc

cons_head : {x y : Value} {xs ys : Items} → cons x xs ≡ cons y ys → x ≡ y
cons_head h = cc

cons_tail : {x y : Value} {xs ys : Items} → cons x xs ≡ cons y ys → xs ≡ ys
cons_tail h = cc

-- The entries of a frozen mapping are in order, and frozen.
entries_in_order :
    (d : Fields)
    → freeze (dict d) ≡ ok (dict d)
    → IsAscending key_order (of_fields d) × All IsFrozen (of_fields d)
unfolding freeze sort_fields sort_dict sort_by
entries_in_order d h =
    let (e, made, f) = >>=-ok (freeze_fields d) h in
    let same : to_fields (sort_dict (of_fields e)) ≡ d = dict-injective (ok-injective made) in
    let entries : sort_dict (of_fields e) ≡ of_fields d =
      sym (of_fields-to_fields (sort_dict (of_fields e))) ∙ ap of_fields same in
    (
      subst (IsAscending key_order) entries
          (sort_by-IsAscending key_order (λ p q. compare_text-IsDual p.0 q.0) (of_fields e)),
      subst (All IsFrozen) entries (sorted_IsFrozen (of_fields e) (IsFrozen-freeze_fields d e f)),
    )

mutual
  unfolding freeze freeze_items freeze_fields of_fields thaw thaw_items thaw_fields

  -- A frozen value is what its thawed form freezes to.
  pub freeze-thaw : (v : Value) → freeze v ≡ ok v → freeze (thaw v) ≡ ok v
  freeze-thaw null h = refl
  freeze-thaw (boolean b) h = refl
  freeze-thaw (int n) h = refl
  freeze-thaw (text s) h = refl
  freeze-thaw (list xs) h = let (ys, made, f) = >>=-ok (freeze_items xs) h in cc
  freeze-thaw (tuple xs) h =
      let (ys, made, f) = >>=-ok (freeze_items xs) h in
      rw (freeze_items-thaw_items xs (f ∙ tuple_items made)) refl
  freeze-thaw (dict d) h =
      let (sorted, frozen) = entries_in_order d h in
      rw
        (
          sort_fields-of_IsAscending (thaw_fields d) (thaw_fields-IsAscending d sorted),
          freeze_fields-thaw_fields d frozen,
          sort_fields-of_IsAscending d sorted,
        )
        refl
  freeze-thaw (atom t i) h = cc

  freeze_items-thaw_items :
      (xs : Items) → freeze_items xs ≡ ok xs → freeze_items (thaw_items xs) ≡ ok xs
  freeze_items-thaw_items nil h = refl
  freeze_items-thaw_items (cons x xs) h =
      let (y, one, f) = >>=-ok (freeze x) h in
      let (ys, made, g) = >>=-ok (freeze_items xs) one in
      let same : cons y ys ≡ cons x xs = ok-injective made in
      rw
        (
          freeze-thaw x (f ∙ ap ok (cons_head same)),
          freeze_items-thaw_items xs (g ∙ ap ok (cons_tail same)),
        )
        refl

  pub freeze_fields-thaw_fields :
      (d : Fields) → All IsFrozen (of_fields d) → freeze_fields (thaw_fields d) ≡ ok d
  freeze_fields-thaw_fields end h = refl
  freeze_fields-thaw_fields (field k v d) h =
      rw (freeze-thaw v h.0, freeze_fields-thaw_fields d h.1) refl

metadata_in_order :
    (d e : Dict Value) → freeze_metadata d ≡ ok e → IsAscending key_order e × All IsFrozen e
unfolding freeze_metadata sort_dict sort_by
metadata_in_order d e h =
    let (fields, made, f) = >>=-ok (freeze_fields (to_fields d)) h in
    let same = ok-injective made in
    (
      subst (IsAscending key_order) same
          (sort_by-IsAscending key_order (λ p q. compare_text-IsDual p.0 q.0) (of_fields fields)),
      subst (All IsFrozen) same
          (sorted_IsFrozen (of_fields fields) (IsFrozen-freeze_fields (to_fields d) fields f)),
    )

refreeze :
    (e : Dict Value)
    → IsAscending key_order e
    → All IsFrozen e
    → freeze_metadata (of_fields (thaw_fields (to_fields e))) ≡ ok e
unfolding freeze_metadata sort_dict sort_by
refreeze e sorted frozen =
    rw
      (
        to_fields-of_fields (thaw_fields (to_fields e)),
        freeze_fields-thaw_fields (to_fields e) (rw (of_fields-to_fields e) frozen),
        of_fields-to_fields e,
        sort_by-of_IsAscending key_order e sorted,
      )
      refl

-- A frozen metadata is what it is read back from: thawed, given to `dict`, and frozen again.
pub thaw_metadata-freeze_metadata :
    (d e : Dict Value)
    → freeze_metadata d ≡ ok e
    → (as_dict (thaw_metadata e) >>= freeze_metadata) ≡ ok e
unfolding thaw_metadata thaw as_dict
thaw_metadata-freeze_metadata d e h =
    let (sorted, frozen) = metadata_in_order d e h in
    rw
      (sort_fields-of_IsAscending (thaw_fields (to_fields e))
        (thaw_fields-IsAscending (to_fields e) (rw (of_fields-to_fields e) sorted)))
      (refreeze e sorted frozen)
