-- ===== src/State.antt =====
-- state.py: the state between nodes. pydantic's `model_copy` is not in this repository, so it is a
-- parameter: a record of what the code calls and of the documented effect of `update`.
use perpetua_core.Prelude.{
  String, ◌≡◌, Option, none, some, Dict, lookup, update, last_write, lookup-update,
}
use perpetua_core.Value.{Value}
use perpetua_core.Errors.{attribute_error, Result, ok, err}

-- `model_copy(update=d, deep=True)` returns a new model with the fields of `d` put in unvalidated,
-- and every other field as it was. Values are immutable here, so a deep copy is the value itself.
pub record StateModel (S : Type 0) : Type 0 where
  pub get_attr : S → String → Option Value
  pub model_copy : S → Dict Value → S
  pub get_attr-model_copy :
      (s : S) (d : Dict Value) (k : String)
      → get_attr (model_copy s d) k ≡ last_write k d (get_attr s k)

module _ {S : Type 0} (model : StateModel S) where
  -- `PerpetuaState.merge`
  unfoldable pub merge : S → Dict Value → S
  merge s delta = model.model_copy s delta

  -- `state.name`
  unfoldable pub attr : S → String → Result Value
  attr s k = elim (model.get_attr s k) [ none ↦ err attribute_error | some v ↦ ok v ]

  -- After a merge a field has the delta's value, and one that the delta lacks is as before.
  pub get_attr-merge :
      (s : S) (d : Dict Value) (k : String)
      → model.get_attr (merge s d) k ≡ last_write k d (model.get_attr s k)
  unfolding merge
  get_attr-merge s d k = model.get_attr-model_copy s d k

-- A state that is nothing but its fields meets what is assumed.
abbrev pub dict_model : StateModel (Dict Value)
dict_model = record {
  get_attr = λ s k. lookup k s;
  model_copy = update;
  get_attr-model_copy = λ s d k. lookup-update k s d;
}
