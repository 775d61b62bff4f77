-- ===== src/Reducers.antt =====
-- graph/reducers.py: the folds of concurrent branch writes to one state field.
pub mod Agreement
pub mod Lists
pub mod Union
use perpetua_core.Prelude.{
  String, ◌≡◌, Bool, true, false, ◌&&◌, Option, none, some, List, [], ◌∷◌, ◌++◌, ◌==◌, not, map,
  if◌then◌else◌, Dict, lookup, assign,
}
use perpetua_core.Value.{
  Value, null, list, tuple, dict, Items, Fields, to_items, of_items, to_fields, of_fields, value_eq,
  is_in, is_dict,
}
use perpetua_core.Errors.{
  Exception, value_error, type_error, index_error, reducer_conflict, Result, ok, err, ◌>>=◌,
}
use perpetua_core.Exec.{Exec, lift}

-- One branch's write to the field: the branch's name and the value.
abbrev pub Contribution : Type 0
Contribution = String × Value

-- `CustomReducerFn`, which may have effects and may raise.
abbrev pub CustomReducerFn : Type 0 → Type 0
CustomReducerFn W = Value → List Value → Exec W Value

-- `Reducer`: what its `__post_init__` lets be built.
pub data Reducer (W : Type 0) : Type 0 where
  reject_conflict first last concat union : Reducer W
  custom : CustomReducerFn W → Reducer W

module _ {W : Type 0} where
  -- A kind other than custom takes no function.
  plain : Reducer W → Option (CustomReducerFn W) → Result (Reducer W)
  plain r none = ok r
  plain r (some fn) = err value_error

  custom_with : Option (CustomReducerFn W) → Result (Reducer W)
  custom_with none = err value_error
  custom_with (some fn) = ok (custom fn)

  -- `Reducer(kind, fn)` with its `__post_init__`
  unfoldable pub make_reducer : String → Option (CustomReducerFn W) → Result (Reducer W)
  unfolding plain custom_with
  make_reducer kind fn =
      if kind == "reject_conflict"
      then plain reject_conflict fn
      else if kind == "first"
      then plain first fn
      else if kind == "last"
      then plain last fn
      else if kind == "concat"
      then plain concat fn
      else if kind == "union"
      then plain union fn
      else if kind == "custom"
      then custom_with fn
      else err value_error

abbrev pub default_reducer : {W : Type 0} → Reducer W
default_reducer = reject_conflict

abbrev pub names : List Contribution → List String
names cs = map (λ c. c.0) cs

abbrev pub values : List Contribution → List Value
values cs = map (λ c. c.1) cs

-- The loop of `reject_conflict` over the contributions after the first.
agree : Value → List Contribution → Bool
agree first_value [] = true
agree first_value ((name, value) ∷ rest) =
    let others = agree first_value rest in
    if not (value_eq value first_value) then false else others

unfoldable pub reject_different : String → List Contribution → Result Value
unfolding agree
reject_different field [] = err index_error
reject_different field ((name, value) ∷ rest) =
    if agree value rest
    then ok value
    else err (reducer_conflict field (names ((name, value) ∷ rest)))

-- `values[0]`
unfoldable pub first_value : List Contribution → Result Value
first_value [] = err index_error
first_value ((name, value) ∷ rest) = ok value

-- `values[-1]`
unfoldable pub last_value : List Contribution → Result Value
last_value [] = err index_error
last_value ((name, value) ∷ []) = ok value
last_value (c ∷ d ∷ rest) = last_value (d ∷ rest)

-- `_require_list`
unfoldable pub require_list : Value → Result (List Value)
require_list (list xs) = ok (of_items xs)
require_list (tuple xs) = ok (of_items xs)
require_list _ = err type_error

-- `base if base is not None else []`
base_list : Value → Result (List Value)
unfolding require_list
base_list null = ok []
base_list base = require_list base

extend_all : List Value → List Contribution → Result (List Value)
unfolding require_list
extend_all result [] = ok result
extend_all result ((name, value) ∷ rest) = do
  more ← require_list value
  extend_all (result ++ more) rest

-- `_concat`
unfoldable pub concat_lists : Value → List Contribution → Result (List Value)
unfolding base_list extend_all
concat_lists base cs = do result ← base_list base; extend_all result cs

-- `if item not in result: result.append(item)` for each item
add_new : List Value → List Value → List Value
unfolding is_in
add_new result [] = result
add_new result (item ∷ items) =
    add_new (if is_in item result then result else result ++ item ∷ []) items

union_all : List Value → List Contribution → Result (List Value)
unfolding require_list add_new
union_all result [] = ok result
union_all result ((name, value) ∷ rest) = do
  items ← require_list value
  union_all (add_new result items) rest

-- `_union` on lists
unfoldable pub union_lists : Value → List Contribution → Result (List Value)
unfolding base_list union_all
union_lists base cs = do result ← base_list base; union_all result cs

-- `result` and `written` of `_union_dict`
pub record Writing : Type 0 where
  pub result : Dict Value
  pub written : Dict (String × Value)

-- One key of one branch: a different value under a written key is a conflict.
write_key : String → String → String → Value → Writing → Result Writing
write_key field name key item w = elim (lookup key w.written) [
  | none ↦
      ok (record { result = assign key item w.result; written = assign key (name, item) w.written })
  | some (writer, earlier) ↦
      if not (value_eq earlier item)
      then err (reducer_conflict field (writer ∷ name ∷ []))
      else ok (record w { result = assign key item w.result })
]

write_keys : String → String → Dict Value → Writing → Result Writing
unfolding write_key
write_keys field name [] w = ok w
write_keys field name ((key, item) ∷ items) w = do
  w' ← write_key field name key item w
  write_keys field name items w'

-- A contribution that is no dict has no `items`; `union_fold` lets none come here.
write_all : String → List Contribution → Writing → Result Writing
unfolding write_keys
write_all field [] w = ok w
write_all field ((name, dict d) ∷ rest) w = do
  w' ← write_keys field name (of_fields d) w
  write_all field rest w'
write_all field ((name, _) ∷ rest) w = err Exception.attribute_error

base_dict : Value → Result (Dict Value)
base_dict null = ok []
base_dict (dict d) = ok (of_fields d)
base_dict _ = err type_error

-- `_union_dict`
unfoldable pub union_dicts : String → Value → List Contribution → Result (Dict Value)
unfolding base_dict write_all
union_dicts field base cs = do
  start ← base_dict base
  done ← write_all field cs (record { result = start; written = [] })
  ok done.result

abbrev pub all_dicts : List Contribution → Bool
all_dicts [] = true
all_dicts ((name, value) ∷ rest) = is_dict value && all_dicts rest

abbrev pub no_dicts : List Contribution → Bool
no_dicts [] = true
no_dicts ((name, value) ∷ rest) = not (is_dict value) && no_dicts rest

-- `_union`: `kinds` is {True}, {False}, or neither (empty or mixed).
unfoldable pub union_fold : String → Value → List Contribution → Result Value
unfolding union_dicts union_lists
union_fold field base [] = err type_error
union_fold field base (c ∷ cs) =
    if all_dicts (c ∷ cs)
    then (do d ← union_dicts field base (c ∷ cs); ok (dict (to_fields d)))
    else if no_dicts (c ∷ cs)
    then (do xs ← union_lists base (c ∷ cs); ok (list (to_items xs)))
    else err type_error

-- `reduce_field`. Its `contribution_semantics` only words a message, and inputs prepared beforehand
-- are equal to those prepared here.
unfoldable pub reduce_field :
    {W : Type 0} → String → Reducer W → Value → List Contribution → Exec W Value
unfolding reject_different first_value last_value concat_lists union_fold
reduce_field field reject_conflict base cs = lift (reject_different field cs)
reduce_field field first base cs = lift (first_value cs)
reduce_field field last base cs = lift (last_value cs)
reduce_field field concat base cs = lift (do xs ← concat_lists base cs; ok (list (to_items xs)))
reduce_field field union base cs = lift (union_fold field base cs)
reduce_field field (custom fn) base cs = fn base (values cs)
