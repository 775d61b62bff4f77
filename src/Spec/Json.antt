-- ===== src/Spec/Json.antt =====
-- `_freeze_json`, `_thaw_json`, and the encodings of the standard library that spec.py calls.
pub mod Frozen
pub mod RoundTrip
use perpetua_core.Prelude.{
  String, ◌≡◌, Option, none, some, List, [], ◌∷◌, Dict, assign, sort_by, by_key,
}
use Prim.Native.String.{compare}
use perpetua_core.Value.{
  Value, null, boolean, int, text, list, tuple, dict, atom, Items, nil, cons, Fields, end, field, ℤ,
  of_fields, to_fields, iterate, is_hashable,
}
use perpetua_core.Errors.{type_error, value_error, Result, ok, err, guard, ◌>>=◌, ◌>>◌}

-- `json.dumps` with sorted keys, `hashlib.sha256(...).hexdigest()`, `str`, and `int` on a text, where
-- `none` is a ValueError. Only that `str` leaves a text as it is is assumed.
pub record Encoding : Type 0 where
  pub dumps : Value → String
  pub sha256 : String → String
  pub show : Value → String
  pub show-text : (s : String) → show (text s) ≡ s
  pub parse_int : String → Option ℤ

-- The entries in ascending order of their keys.
abbrev pub sort_dict : Dict Value → Dict Value
unfolding sort_by
sort_dict d = sort_by (by_key compare (λ p. p.0)) d

unfoldable pub sort_fields : Fields → Fields
sort_fields d = to_fields (sort_dict (of_fields d))

-- `_freeze_json`: a frozen list is a tuple, and a frozen mapping has its keys in order.
unfoldable mutual
  unfolding sort_fields

  pub freeze : Value → Result Value
  freeze null = ok null
  freeze (boolean b) = ok (boolean b)
  freeze (int n) = ok (int n)
  freeze (text s) = ok (text s)
  freeze (list xs) = do ys ← freeze_items xs; ok (tuple ys)
  freeze (tuple xs) = do ys ← freeze_items xs; ok (tuple ys)
  freeze (dict d) = do e ← freeze_fields d; ok (dict (sort_fields e))
  freeze (atom t i) = err type_error

  pub freeze_items : Items → Result Items
  freeze_items nil = ok nil
  freeze_items (cons x xs) = do y ← freeze x; ys ← freeze_items xs; ok (cons y ys)

  pub freeze_fields : Fields → Result Fields
  freeze_fields end = ok end
  freeze_fields (field k v d) = do w ← freeze v; e ← freeze_fields d; ok (field k w e)

-- `_thaw_json`
unfoldable mutual
  unfolding sort_fields

  pub thaw : Value → Value
  thaw null = null
  thaw (boolean b) = boolean b
  thaw (int n) = int n
  thaw (text s) = text s
  thaw (list xs) = list xs
  thaw (tuple xs) = list (thaw_items xs)
  thaw (dict d) = dict (sort_fields (thaw_fields d))
  thaw (atom t i) = atom t i

  pub thaw_items : Items → Items
  thaw_items nil = nil
  thaw_items (cons x xs) = cons (thaw x) (thaw_items xs)

  pub thaw_fields : Fields → Fields
  thaw_fields end = end
  thaw_fields (field k v d) = field k (thaw v) (thaw_fields d)

-- One element of the iterable that `dict` is given: a pair with a key that can be hashed.
abbrev pair_of_items : List Value → Result (Value × Value)
pair_of_items (k ∷ v ∷ []) = do guard (is_hashable k) type_error; ok (k, v)
pair_of_items _ = err value_error

abbrev pair_of : Value → Result (Value × Value)
pair_of v = elim (iterate v) [ none ↦ err type_error | some items ↦ pair_of_items items ]

abbrev pairs_of : List Value → Result (List (Value × Value))
pairs_of [] = ok []
pairs_of (v ∷ vs) = do p ← pair_of v; ps ← pairs_of vs; ok (p ∷ ps)

-- Keys that are no texts do not pass the freezing that follows.
abbrev with_text_keys : Dict Value → List (Value × Value) → Result (Dict Value)
with_text_keys d [] = ok d
with_text_keys d ((text k, v) ∷ ps) = with_text_keys (assign k v d) ps
with_text_keys d (p ∷ ps) = err type_error

-- `dict(v)`, where it is frozen next.
unfoldable pub as_dict : Value → Result (Dict Value)
unfolding iterate
as_dict (dict d) = ok (of_fields d)
as_dict v = elim (iterate v) [
  | none ↦ err type_error
  | some items ↦ do ps ← pairs_of items; with_text_keys [] ps
]

-- `_freeze_json(dict(d))`
unfoldable pub freeze_metadata : Dict Value → Result (Dict Value)
freeze_metadata d = do e ← freeze_fields (to_fields d); ok (sort_dict (of_fields e))

-- `_thaw_json(metadata)`
unfoldable pub thaw_metadata : Dict Value → Value
thaw_metadata d = thaw (dict (to_fields d))
