-- ===== src/Policy/Store.antt =====
-- policy.py: the store that a `HardwarePolicyResolver` is made from. The package agate, which builds
-- and loads stores, is not in this repository; it is the record Agate.
use perpetua_core.Prelude.{String, none, some, [], ◌∷◌, Dict, lookup, ◌⊎◌, inl, inr}
use perpetua_core.Value.{
  Value, null, text, list, tuple, dict, int, pos, nil, end, of_fields, to_items, iterate, mapping,
}
use perpetua_core.Errors.{attribute_error, Result, ok, err, ◌>>=◌}
use perpetua_core.Scheduler.States.{or_type_error}
use perpetua_core.Policy.{PolicyStore}

-- The arguments of `agate.ModelSpec`
pub record ModelFields : Type 0 where
  pub name : String
  pub mac : Value
  pub windows : Value
  pub shared : Value
  pub context : Value
  pub roles : Value
  pub notes : Value

pub record Agate (M : Type 0) : Type 0 where
  pub model_spec : ModelFields → Result M
  -- `agate.PolicyStore(version=..., models=..., routing=...)`
  pub policy_store : Value → Dict M → Dict Value → Result (PolicyStore M)
  pub load_policy : String → Result (PolicyStore M)

-- `d.get(key, default)`
abbrev pub get_default : String → Value → Dict Value → Value
get_default key default d = elim (lookup key d) [ none ↦ default | some v ↦ v ]

-- An object that has `get` and `items`: a dict.
unfoldable pub as_mapping : Value → Result (Dict Value)
as_mapping (dict d) = ok (of_fields d)
as_mapping _ = err attribute_error

abbrev pub never : Value
never = text "NEVER"

module _ {M : Type 0} (agate : Agate M) where
  -- One entry of `models`.
  unfoldable pub model_of : String → Value → Result M
  model_of name spec = do
    d ← as_mapping spec
    roles ← or_type_error (iterate (get_default "roles" (list nil) d))
    agate.model_spec (record {
      name = name;
      mac = get_default "mac" never d;
      windows = get_default "windows" never d;
      shared = get_default "shared" never d;
      context = get_default "context" null d;
      roles = tuple (to_items roles);
      notes = get_default "notes" null d;
    })

  unfoldable pub models_of : Dict Value → Result (Dict M)
  models_of [] = ok []
  models_of ((name, spec) ∷ rest) = do
    model ← model_of name spec
    models ← models_of rest
    ok ((name, model) ∷ models)

  -- `_normalize_store`: a store as it is, or one built of a raw mapping.
  unfoldable pub normalize_store : PolicyStore M ⊎ Dict Value → Result (PolicyStore M)
  normalize_store (inl store) = ok store
  normalize_store (inr raw) = do
    specs ← as_mapping (get_default "models" (dict end) raw)
    models ← models_of specs
    routing ← or_type_error (mapping (get_default "routing" (dict end) raw))
    agate.policy_store (get_default "version" (int (pos 1)) raw) models routing

  -- `from_file`
  unfoldable pub from_file : String → Result (PolicyStore M)
  from_file path = do store ← agate.load_policy path; normalize_store (inl store)
