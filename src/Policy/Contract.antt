-- ===== src/Policy/Contract.antt =====
-- What a decision of `resolve` keeps, and `check_affinity` on it.
use perpetua_core.Prelude.{
  String, ◌≡◌, refl, ap, sym, ◌∙◌, subst, ◌⊎◌, inl, inr, Bool, true, false, Bool-cases, Option,
  none, some, Option-cases, List, [], ◌∷◌, ◌==◌, eq_iff, not, All, lookup,
}
use perpetua_core.Errors.{ok, err, >>=-ok, ok-injective, key_error}
use perpetua_core.Spec.Records.{is_given}
use perpetua_core.Policy.{
  affinity_error, hinted_decision, routed_decision, PolicyStore, HardwareDecision, tiers,
  check_affinity, first_tier, available_tier, route_model, resolve_hint, resolve_route, resolve,
  given_hint, either,
}

module _ {M : Type 0} (store : PolicyStore M) where
  -- The model's verdict for the tier is none of the wanted one.
  abbrev pub Lacks : String → M → String → Type 0
  Lacks wanted spec t =
      (verdict : String) × (store.verdict_for_tier spec t ≡ ok verdict)
      × ((verdict == wanted) ≡ false)

  first_tier-some :
      (wanted : String) (spec : M) (ts : List String) (t : String)
      → first_tier store wanted spec ts ≡ ok (some t)
      → store.verdict_for_tier spec t ≡ ok wanted
  unfolding first_tier
  first_tier-some wanted spec [] t h = cc
  first_tier-some wanted spec (u ∷ us) t h =
      let (verdict, next, asked) = >>=-ok (store.verdict_for_tier spec u) h in
      elim (Bool-cases (verdict == wanted)) [
        | inl e ↦
            let same : some u ≡ some t = ok-injective (rw e at next) in
            let here : u ≡ t = cc in
            ap (store.verdict_for_tier spec) (sym here)
            ∙ asked
            ∙ ap ok ((eq_iff verdict wanted).0 e)
        | inr e ↦ first_tier-some wanted spec us t (rw e at next)
      ]

  first_tier-none :
      (wanted : String) (spec : M) (ts : List String)
      → first_tier store wanted spec ts ≡ ok none
      → All (Lacks wanted spec) ts
  unfolding first_tier
  first_tier-none wanted spec [] h = tt
  first_tier-none wanted spec (u ∷ us) h =
      let (verdict, next, asked) = >>=-ok (store.verdict_for_tier spec u) h in
      elim (Bool-cases (verdict == wanted)) [
        | inl e ↦ let no : ok (some u) ≡ ok none = rw e at next in cc
        | inr e ↦ ((verdict, asked, e), first_tier-none wanted spec us (rw e at next))
      ]

  -- The tier of a decision on a model: one that is preferred; or one that is allowed, where none is
  -- preferred; or, where `fallback` says so, `shared`, where none is either.
  abbrev pub Fits : Bool → M → String → Type 0
  Fits fallback spec tier =
      (store.verdict_for_tier spec tier ≡ ok "PREFER")
      ⊎ ((store.verdict_for_tier spec tier ≡ ok "ALLOW") × All (Lacks "PREFER" spec) tiers)
      ⊎ ((fallback ≡ true)
          × (tier ≡ "shared")
          × All (Lacks "PREFER" spec) tiers
          × All (Lacks "ALLOW" spec) tiers)

  -- What the search for a tier found.
  abbrev Found : M → Option String → Type 0
  Found spec (some t) = Fits false spec t
  Found spec none = All (Lacks "PREFER" spec) tiers × All (Lacks "ALLOW" spec) tiers

  either-Found :
      (spec : M) (preferred allowed : Option String)
      → first_tier store "PREFER" spec tiers ≡ ok preferred
      → first_tier store "ALLOW" spec tiers ≡ ok allowed
      → Found spec (either preferred allowed)
  either-Found spec (some t) allowed p a = inl (first_tier-some "PREFER" spec tiers t p)
  either-Found spec none (some t) p a =
      inr (inl (first_tier-some "ALLOW" spec tiers t a, first_tier-none "PREFER" spec tiers p))
  either-Found spec none none p a =
      (first_tier-none "PREFER" spec tiers p, first_tier-none "ALLOW" spec tiers a)

  available_tier-Found :
      (spec : M) (tier : Option String) → available_tier store spec ≡ ok tier → Found spec tier
  unfolding available_tier
  available_tier-Found spec tier h =
      let (allowed, one, a) = >>=-ok (first_tier store "ALLOW" spec tiers) h in
      let (preferred, two, p) = >>=-ok (first_tier store "PREFER" spec tiers) one in
      subst (Found spec) (ok-injective two) (either-Found spec preferred allowed p a)

  -- What is decided, where `fallback` says that `shared` may stand for no tier.
  abbrev pub Decides : Bool → HardwareDecision → Type 0
  Decides fallback d =
      (spec : M) × (lookup d.model store.models ≡ some spec) × Fits fallback spec d.hardware_tier

  Fits-fallback : (spec : M) (tier : String) → Fits false spec tier → Fits true spec tier
  Fits-fallback spec tier (inl p) = inl p
  Fits-fallback spec tier (inr (inl a)) = inr (inl a)
  Fits-fallback spec tier (inr (inr f)) = let no : false ≡ true = f.0 in cc

  -- A hint's decision, from the tier that was found.
  hinted :
      (hint : String) (d : HardwareDecision) (spec : M) (tier : Option String)
      → lookup hint store.models ≡ some spec
      → hinted_decision hint tier ≡ ok d
      → Found spec tier
      → Decides false d × (hint ≡ d.model)
  hinted hint d spec none e next found = cc
  hinted hint d spec (some t) e next found =
      subst (λ d. Decides false d × (hint ≡ d.model)) (ok-injective next) ((spec, e, found), refl)

  resolve_hint-Decides :
      (hint : String) (d : HardwareDecision)
      → resolve_hint store hint ≡ ok d
      → Decides false d × (hint ≡ d.model)
  unfolding resolve_hint
  resolve_hint-Decides hint d h = elim (Option-cases (lookup hint store.models)) [
    | inl e ↦ let no : err affinity_error ≡ ok d = rw (resolve_hint, e) at h in cc
    | inr (spec, e) ↦
        let (tier, next, found) = >>=-ok (available_tier store spec) (rw (resolve_hint, e) at h) in
        hinted hint d spec tier e next (available_tier-Found spec tier found)
  ]

  -- A route's decision, from the tier that was found.
  routed :
      (model reason : String) (d : HardwareDecision) (spec : M) (tier : Option String)
      → lookup model store.models ≡ some spec
      → ok (routed_decision model reason tier) ≡ ok d
      → Found spec tier
      → Decides true d
  routed model reason d spec none e next found =
      subst (Decides true) (ok-injective next) (spec, e, inr (inr (refl, refl, found.0, found.1)))
  routed model reason d spec (some t) e next found =
      subst (Decides true) (ok-injective next) (spec, e, Fits-fallback spec t found)

  resolve_route-Decides :
      (task_type optimize_for : String) (d : HardwareDecision)
      → resolve_route store task_type optimize_for ≡ ok d
      → Decides true d
  unfolding resolve_route
  resolve_route-Decides task_type optimize_for d h =
      let (model, one, r) = >>=-ok (route_model store task_type optimize_for) h in
      elim (Option-cases (lookup model store.models)) [
        | inl e ↦ let no : err key_error ≡ ok d = rw e at one in cc
        | inr (spec, e) ↦
            let (tier, next, found) = >>=-ok (available_tier store spec) (rw e at one) in
            routed model _ d spec tier e next (available_tier-Found spec tier found)
      ]

  -- `resolve` decides on a model that the store has: the hinted one, where there is a hint. The tier is
  -- one that the model prefers; or one that it allows, where it prefers none; or, without a hint alone,
  -- `shared`, where the model neither prefers nor allows any of the three.
  pub resolve_contract :
      (task_type optimize_for : String) (model_hint : Option String) (d : HardwareDecision)
      → resolve store task_type optimize_for model_hint ≡ ok d
      → Decides (not (is_given (given_hint model_hint))) d
        × ((hint : String) → given_hint model_hint ≡ some hint → hint ≡ d.model)
  unfolding resolve
  resolve_contract task_type optimize_for model_hint d h =
      elim (Option-cases (given_hint model_hint)) [
        | inl e ↦
            rw e
              (resolve_route-Decides task_type optimize_for d (rw (resolve, e) at h), λ hint no. cc)
        | inr (hint, e) ↦
            let (decides, same) = resolve_hint-Decides hint d (rw (resolve, e) at h) in
            rw e (decides, λ other given. let equal : hint ≡ other = cc in sym equal ∙ same)
      ]

  -- What `resolve` decides on a hint passes `check_affinity`, whose verdict is PREFER or ALLOW.
  pub resolve-check_affinity :
      (task_type optimize_for hint : String) (d : HardwareDecision)
      → (hint == "") ≡ false
      → resolve store task_type optimize_for (some hint) ≡ ok d
      → (check_affinity store d.model d.hardware_tier ≡ ok "PREFER")
        ⊎ (check_affinity store d.model d.hardware_tier ≡ ok "ALLOW")
  unfolding resolve check_affinity
  resolve-check_affinity task_type optimize_for hint d given h =
      let (decides, same) = resolve_hint-Decides hint d (rw (resolve, given) at h) in
      let (spec, there, fits) = decides in
      elim fits [
        | inl p ↦ inl (rw (check_affinity, there, p) refl)
        | inr (inl a) ↦ inr (rw (check_affinity, there, a.0) refl)
        | inr (inr f) ↦ let no : false ≡ true = f.0 in cc
      ]
