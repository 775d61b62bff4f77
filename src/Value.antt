-- ===== src/Value.antt =====
-- Python values as graph state and node deltas hold them: what JSON has, tuples, and objects that
-- are compared by identity. Floats are left out.
use perpetua_core.Prelude.{
  ℕ, suc, String, ◌≡◌, refl, ap, Bool, true, false, ◌&&◌, Option, none, some, List, [], ◌∷◌, ◌==◌,
  eqb, if◌then◌else◌, Dict, not,
}

-- `negsuc n` is -(n + 1).
pub data ℤ : Type 0 where
  pos : ℕ → ℤ
  negsuc : ℕ → ℤ

mutual
  -- `atom` is an object that `copy.deepcopy` returns as it is, such as a function or a class, by its
  -- type's name and its identity.
  pub data Value : Type 0 where
    null : Value
    boolean : Bool → Value
    int : ℤ → Value
    text : String → Value
    list : Items → Value
    tuple : Items → Value
    dict : Fields → Value
    atom : String → ℕ → Value

  pub data Fields : Type 0 where
    end : Fields
    field : String → Value → Fields → Fields

  pub data Items : Type 0 where
    nil : Items
    cons : Value → Items → Items

unfoldable pub to_items : List Value → Items
to_items [] = nil
to_items (x ∷ xs) = cons x (to_items xs)

unfoldable pub of_items : Items → List Value
of_items nil = []
of_items (cons x xs) = x ∷ of_items xs

unfoldable pub to_fields : Dict Value → Fields
to_fields [] = end
to_fields ((k, v) ∷ d) = field k v (to_fields d)

unfoldable pub of_fields : Fields → Dict Value
of_fields end = []
of_fields (field k v d) = (k, v) ∷ of_fields d

pub of_items-to_items : (xs : List Value) → of_items (to_items xs) ≡ xs
unfolding of_items to_items
of_items-to_items [] = refl
of_items-to_items (x ∷ xs) = ap (λ ys. x ∷ ys) (of_items-to_items xs)

pub of_fields-to_fields : (d : Dict Value) → of_fields (to_fields d) ≡ d
unfolding of_fields to_fields
of_fields-to_fields [] = refl
of_fields-to_fields ((k, v) ∷ d) = ap (λ e. (k, v) ∷ e) (of_fields-to_fields d)

abbrev eq_ℤ : ℤ → ℤ → Bool
eq_ℤ (pos m) (pos n) = eqb m n
eq_ℤ (negsuc m) (negsuc n) = eqb m n
eq_ℤ _ _ = false

-- `True == 1` holds in Python: a `bool` is an `int`.
abbrev bool_number : Bool → ℤ
bool_number true = pos 1
bool_number false = pos 0

abbrev is_number : ℤ → Value → Bool
is_number n (boolean b) = eq_ℤ n (bool_number b)
is_number n (int m) = eq_ℤ n m
is_number n _ = false

abbrev is_text : String → Value → Bool
is_text s (text t) = s == t
is_text s _ = false

abbrev is_null : Value → Bool
is_null null = true
is_null _ = false

abbrev is_atom : ℕ → Value → Bool
is_atom i (atom t j) = eqb i j
is_atom i _ = false

abbrev list_of : Value → Option Items
list_of (list xs) = some xs
list_of _ = none

abbrev tuple_of : Value → Option Items
tuple_of (tuple xs) = some xs
tuple_of _ = none

abbrev pub dict_of : Value → Option Fields
dict_of (dict d) = some d
dict_of _ = none

abbrev pub is_dict : Value → Bool
is_dict (dict d) = true
is_dict _ = false

field_lookup : String → Fields → Option Value
field_lookup k end = none
field_lookup k (field j v d) = if j == k then some v else field_lookup k d

field_count : Fields → ℕ
field_count end = 0
field_count (field k v d) = suc (field_count d)

-- Python's `==`. Two dicts are equal whatever the order of their keys.
unfoldable mutual
  unfolding field_lookup field_count

  pub value_eq : Value → Value → Bool
  value_eq null v = is_null v
  value_eq (boolean b) v = is_number (bool_number b) v
  value_eq (int n) v = is_number n v
  value_eq (text s) v = is_text s v
  value_eq (list xs) v = elim (list_of v) [ none ↦ false | some ys ↦ items_eq xs ys ]
  value_eq (tuple xs) v = elim (tuple_of v) [ none ↦ false | some ys ↦ items_eq xs ys ]
  value_eq (dict d) v = elim (dict_of v) [
    | none ↦ false
    | some e ↦ eqb (field_count d) (field_count e) && fields_eq d e
  ]
  value_eq (atom t i) v = is_atom i v

  pub items_eq : Items → Items → Bool
  items_eq nil nil = true
  items_eq nil (cons y ys) = false
  items_eq (cons x xs) nil = false
  items_eq (cons x xs) (cons y ys) = value_eq x y && items_eq xs ys

  pub fields_eq : Fields → Fields → Bool
  fields_eq end e = true
  fields_eq (field k v d) e = elim (field_lookup k e) [
    | none ↦ false
    | some w ↦ value_eq v w && fields_eq d e
  ]

-- `v in vs`
unfoldable pub is_in : Value → List Value → Bool
is_in v [] = false
is_in v (w ∷ ws) = if value_eq w v then true else is_in v ws

characters : String → List Value
characters String.[] = []
characters (String.◌∷◌ c s) = text (String.◌∷◌ c String.[]) ∷ characters s

key_values : Fields → List Value
key_values end = []
key_values (field k v d) = text k ∷ key_values d

-- `[*v]`: a list of what iterating over `v` gives; `none` where `v` is not iterable.
unfoldable pub iterate : Value → Option (List Value)
unfolding characters key_values
iterate (list xs) = some (of_items xs)
iterate (tuple xs) = some (of_items xs)
iterate (text s) = some (characters s)
iterate (dict d) = some (key_values d)
iterate _ = none

-- `{**v}`: the items of a mapping; `none` where `v` is none.
unfoldable pub mapping : Value → Option (Dict Value)
mapping (dict d) = some (of_fields d)
mapping _ = none

-- What `json.dumps` accepts.
unfoldable mutual
  pub is_json : Value → Bool
  is_json (list xs) = items_json xs
  is_json (tuple xs) = items_json xs
  is_json (dict d) = fields_json d
  is_json (atom t i) = false
  is_json null = true
  is_json (boolean b) = true
  is_json (int n) = true
  is_json (text s) = true

  pub items_json : Items → Bool
  items_json nil = true
  items_json (cons x xs) = is_json x && items_json xs

  pub fields_json : Fields → Bool
  fields_json end = true
  fields_json (field k v d) = is_json v && fields_json d

-- Whether `hash` takes the value: lists and dicts are refused, also inside tuples.
unfoldable mutual
  pub is_hashable : Value → Bool
  is_hashable null = true
  is_hashable (boolean b) = true
  is_hashable (int n) = true
  is_hashable (text s) = true
  is_hashable (list xs) = false
  is_hashable (tuple xs) = all_hashable xs
  is_hashable (dict d) = false
  is_hashable (atom t i) = true

  pub all_hashable : Items → Bool
  all_hashable nil = true
  all_hashable (cons x xs) = is_hashable x && all_hashable xs

-- `bool(v)`
abbrev pub is_truthy : Value → Bool
is_truthy null = false
is_truthy (boolean b) = b
is_truthy (int n) = not (eq_ℤ n (pos 0))
is_truthy (text s) = not (s == "")
is_truthy (list nil) = false
is_truthy (tuple nil) = false
is_truthy (dict end) = false
is_truthy _ = true

dicts_unordered :
    value_eq
      (dict (field "a" null (field "b" (int (pos 1)) end)))
      (dict (field "b" (boolean true) (field "a" null end)))
    ≡ true
unfolding value_eq
dicts_unordered = refl
