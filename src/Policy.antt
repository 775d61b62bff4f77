-- ===== src/Policy.antt =====
-- policy.py: `HardwarePolicyResolver`, over a store of the package agate, which is a parameter.
pub mod Contract
pub mod Store
use perpetua_core.Prelude.{
  String, Bool, true, false, Option, none, some, List, [], ◌∷◌, ◌==◌, not, if◌then◌else◌, Dict,
  lookup,
}
use Prim.Native.String
use perpetua_core.Errors.{Exception, user, key_error, Result, ok, err, guard, ◌>>=◌, ◌>>◌}

-- `agate.PolicyStore`, whose models answer `verdict_for_tier`: a verdict, or an exception.
pub record PolicyStore (M : Type 0) : Type 0 where
  pub models : Dict M
  pub routing : Dict String
  pub verdict_for_tier : M → String → Result String

-- `HardwareAffinityError`
abbrev pub affinity_error : Exception
affinity_error = user "HardwareAffinityError" 0

-- `_TIERS`
abbrev pub tiers : List String
tiers = "mac" ∷ "windows" ∷ "shared" ∷ []

pub record HardwareDecision : Type 0 where
  pub provider : String
  pub hardware_tier : String
  pub model : String
  pub reason : String

abbrev either : Option String → Option String → Option String
either none o = o
either (some s) o = some s

abbrev decision : String → String → String → HardwareDecision
decision tier model reason = record {
  provider = tier;
  hardware_tier = tier;
  model = model;
  reason = reason;
}

-- `routing.get(key) or ...`: an empty name counts as none.
abbrev route_or : Option String → Result String → Result String
route_or none rest = rest
route_or (some name) rest = if name == "" then rest else ok name

abbrev pub given_hint : Option String → Option String
given_hint none = none
given_hint (some hint) = if hint == "" then none else some hint

-- The end of `resolve` with a hint, and by the routes.
abbrev pub hinted_decision : String → Option String → Result HardwareDecision
hinted_decision hint none = err affinity_error
hinted_decision hint (some t) = ok (decision t hint "explicit_model_hint")

abbrev pub routed_decision : String → String → Option String → HardwareDecision
routed_decision model reason none = decision "shared" model reason
routed_decision model reason (some t) = decision t model reason

module _ {M : Type 0} (store : PolicyStore M) where
  -- `check_affinity`
  unfoldable pub check_affinity : String → String → Result String
  check_affinity model target_tier = elim (lookup model store.models) [
    | none ↦ ok "ALLOW"
    | some spec ↦ do
      verdict ← store.verdict_for_tier spec target_tier
      guard (not (verdict == "NEVER")) affinity_error
      ok verdict
  ]

  -- `next(t for t in _TIERS if spec.verdict_for_tier(t) == wanted)`
  unfoldable pub first_tier : String → M → List String → Result (Option String)
  first_tier wanted spec [] = ok none
  first_tier wanted spec (t ∷ ts) =
      let rest = first_tier wanted spec ts in
      store.verdict_for_tier spec t >>= λ verdict. if verdict == wanted then ok (some t) else rest

  -- A preferred tier, else an allowed one; Python evaluates the default of `next` first.
  unfoldable pub available_tier : M → Result (Option String)
  available_tier spec = do
    allowed ← first_tier "ALLOW" spec tiers
    preferred ← first_tier "PREFER" spec tiers
    ok (either preferred allowed)

  -- The model of a task, by the routes from the most special to the default.
  unfoldable pub route_model : String → String → Result String
  route_model task_type optimize_for =
      route_or (lookup (String.◌++◌ task_type (String.◌++◌ ":" optimize_for)) store.routing) (
        route_or (lookup (String.◌++◌ task_type ":default") store.routing)
          (elim (lookup "default" store.routing) [ none ↦ err key_error | some name ↦ ok name ]))

  -- `resolve` with a hint
  unfoldable pub resolve_hint : String → Result HardwareDecision
  resolve_hint hint = elim (lookup hint store.models) [
    | none ↦ err affinity_error
    | some spec ↦ do tier ← available_tier spec; hinted_decision hint tier
  ]

  -- `resolve` by the routes
  unfoldable pub resolve_route : String → String → Result HardwareDecision
  resolve_route task_type optimize_for = do
    model ← route_model task_type optimize_for
    elim (lookup model store.models) [
      | none ↦ err key_error
      | some spec ↦ do
        tier ← available_tier spec
        let reason = String.◌++◌ "policy:" (String.◌++◌ task_type (String.◌++◌ ":" optimize_for))
        ok (routed_decision model reason tier)
    ]

  -- `resolve`
  unfoldable pub resolve : String → String → Option String → Result HardwareDecision
  resolve task_type optimize_for model_hint = elim (given_hint model_hint) [
    | some hint ↦ resolve_hint hint
    | none ↦ resolve_route task_type optimize_for
  ]
