-- ===== src/Samples/Policies.antt =====
-- Decisions of `resolve` on a small store.
use perpetua_core.Prelude.{
  String, ◌≡◌, refl, true, ◌⊎◌, none, some, [], ◌∷◌, ◌==◌, lookup, if◌then◌else◌,
}
use perpetua_core.Errors.{Result, ok}
use perpetua_core.Policy.{
  PolicyStore, HardwareDecision, check_affinity, first_tier, available_tier, route_model,
  resolve_hint, resolve_route, resolve, given_hint,
}
use perpetua_core.Policy.Contract.{Decides, resolve_contract, resolve-check_affinity}

-- A model is the name of its preferred tier; it allows `shared`, and no other.
abbrev verdict_of : String → String → Result String
verdict_of model tier =
    ok (if model == tier then "PREFER" else if tier == "shared" then "ALLOW" else "NEVER")

abbrev store : PolicyStore String
store = record {
  models = ("small", "mac") ∷ ("large", "windows") ∷ [];
  routing = ("code:default", "large") ∷ ("default", "small") ∷ [];
  verdict_for_tier = verdict_of;
}

abbrev hinted_small : HardwareDecision
hinted_small = record {
  provider = "mac";
  hardware_tier = "mac";
  model = "small";
  reason = "explicit_model_hint";
}

abbrev routed_large : HardwareDecision
routed_large = record {
  provider = "windows";
  hardware_tier = "windows";
  model = "large";
  reason = "policy:code:speed";
}

deciding : Unit {0}
unfolding check_affinity first_tier available_tier route_model resolve_hint resolve_route resolve
    lookup
deciding = tt

resolve-small : resolve store "code" "speed" (some "small") ≡ ok hinted_small
unfolding deciding
resolve-small = refl

resolve-large : resolve store "code" "speed" none ≡ ok routed_large
unfolding deciding
resolve-large = refl

check_affinity-unknown : check_affinity store "huge" "mac" ≡ ok "ALLOW"
unfolding deciding
check_affinity-unknown = refl

resolve_contract_example :
    Decides store true routed_large
    × ((hint : String) → given_hint none ≡ some hint → hint ≡ "large")
resolve_contract_example = resolve_contract store "code" "speed" none routed_large resolve-large

resolve-check_affinity_example :
    (check_affinity store "small" "mac" ≡ ok "PREFER")
    ⊎ (check_affinity store "small" "mac" ≡ ok "ALLOW")
resolve-check_affinity_example =
    resolve-check_affinity store "code" "speed" "small" hinted_small refl resolve-small
