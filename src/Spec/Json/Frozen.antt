-- ===== src/Spec/Json/Frozen.antt =====
-- A frozen value is frozen already: `_freeze_json` twice is `_freeze_json` once.
use perpetua_core.Prelude.{
  String, ◌≡◌, refl, sym, [], ◌∷◌, All, Dict, sort_by, by_key, sort_by-sort_by, All-sort_by,
  compare_text-IsDual,
}
use Prim.Native.String.{compare}
use perpetua_core.Value.{
  Value, null, boolean, int, text, list, tuple, dict, atom, Items, nil, cons, Fields, end, field,
  of_fields, to_fields, of_fields-to_fields,
}
use perpetua_core.Errors.{ok, >>=-ok, ok-injective}
use perpetua_core.Spec.Json.{
  freeze, freeze_items, freeze_fields, sort_dict, sort_fields, freeze_metadata,
}

abbrev pub IsFrozen : String × Value → Type 0
IsFrozen p = freeze p.1 ≡ ok p.1

freeze_fields-IsFrozen :
    (d : Dict Value) → All IsFrozen d → freeze_fields (to_fields d) ≡ ok (to_fields d)
unfolding freeze_fields to_fields
freeze_fields-IsFrozen [] h = refl
freeze_fields-IsFrozen ((k, v) ∷ d) h = rw (h.0, freeze_fields-IsFrozen d h.1) refl

pub sort_dict-sort_dict : (d : Dict Value) → sort_dict (sort_dict d) ≡ sort_dict d
unfolding sort_dict sort_by
sort_dict-sort_dict d =
    sort_by-sort_by (by_key compare (λ (p : String × Value). p.0))
      (λ p q. compare_text-IsDual p.0 q.0) d

pub sorted_IsFrozen : (d : Dict Value) → All IsFrozen d → All IsFrozen (sort_dict d)
unfolding sort_dict sort_by
sorted_IsFrozen d h = All-sort_by (by_key compare (λ (p : String × Value). p.0)) IsFrozen d h

mutual
  unfolding freeze freeze_items freeze_fields of_fields sort_fields

  pub freeze-freeze : (v w : Value) → freeze v ≡ ok w → freeze w ≡ ok w
  freeze-freeze null w h = rw (sym (ok-injective h)) refl
  freeze-freeze (boolean b) w h = rw (sym (ok-injective h)) refl
  freeze-freeze (int n) w h = rw (sym (ok-injective h)) refl
  freeze-freeze (text s) w h = rw (sym (ok-injective h)) refl
  freeze-freeze (list xs) w h =
      let (ys, made, f) = >>=-ok (freeze_items xs) h in
      rw (sym (ok-injective made), freeze_items-freeze_items xs ys f) refl
  freeze-freeze (tuple xs) w h =
      let (ys, made, f) = >>=-ok (freeze_items xs) h in
      rw (sym (ok-injective made), freeze_items-freeze_items xs ys f) refl
  freeze-freeze (dict d) w h =
      let (e, made, f) = >>=-ok (freeze_fields d) h in
      let frozen = sorted_IsFrozen (of_fields e) (IsFrozen-freeze_fields d e f) in
      rw
        (
          sym (ok-injective made),
          freeze_fields-IsFrozen (sort_dict (of_fields e)) frozen,
          of_fields-to_fields (sort_dict (of_fields e)),
          sort_dict-sort_dict (of_fields e),
        )
        refl
  freeze-freeze (atom t i) w h = cc

  freeze_items-freeze_items : (xs ys : Items) → freeze_items xs ≡ ok ys → freeze_items ys ≡ ok ys
  freeze_items-freeze_items nil ys h = rw (sym (ok-injective h)) refl
  freeze_items-freeze_items (cons x xs) ys h =
      let (y, one, f) = >>=-ok (freeze x) h in
      let (zs, made, g) = >>=-ok (freeze_items xs) one in
      rw (sym (ok-injective made), freeze-freeze x y f, freeze_items-freeze_items xs zs g) refl

  pub IsFrozen-freeze_fields : (d e : Fields) → freeze_fields d ≡ ok e → All IsFrozen (of_fields e)
  IsFrozen-freeze_fields end e h = rw (sym (ok-injective h)) tt
  IsFrozen-freeze_fields (field k v d) e h =
      let (w, one, f) = >>=-ok (freeze v) h in
      let (rest, made, g) = >>=-ok (freeze_fields d) one in
      rw (sym (ok-injective made)) (freeze-freeze v w f, IsFrozen-freeze_fields d rest g)

pub freeze_metadata-freeze_metadata :
    (d e : Dict Value) → freeze_metadata d ≡ ok e → freeze_metadata e ≡ ok e
unfolding freeze_metadata
freeze_metadata-freeze_metadata d e h =
    let (fields, made, f) = >>=-ok (freeze_fields (to_fields d)) h in
    let frozen =
      sorted_IsFrozen (of_fields fields) (IsFrozen-freeze_fields (to_fields d) fields f) in
    rw
      (
        sym (ok-injective made),
        freeze_fields-IsFrozen (sort_dict (of_fields fields)) frozen,
        of_fields-to_fields (sort_dict (of_fields fields)),
        sort_dict-sort_dict (of_fields fields),
      )
      refl
