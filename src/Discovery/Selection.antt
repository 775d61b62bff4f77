-- ===== src/Discovery/Selection.antt =====
-- What `select_backend` promises.
use perpetua_core.Prelude.{
  String, ◌≡◌, refl, sym, ◌⊎◌, inl, inr, Bool, true, false, Bool-cases, ◌&&◌, Option, none, some,
  List, [], ◌∷◌, ◌==◌, not, keep, All, Member, first-cases, All-weaken, All-keep, Member-keep,
  All-always, All-both, ◌≢◌, eq_iff, subst, arith, any,
}
use perpetua_core.Discovery.{
  BackendKind, Backend, TaskType, Tier, BackendRegistry, is_kind, is_mirror, tier_pref,
  online_backends, has_model, by_hint, is_candidate, by_kind, select_backend, all, is_online,
  BackendHealth,
}

-- Whether the backend has the hinted model.
abbrev pub matches_hint : {T : Type 0} → Option String → Backend T → Bool
matches_hint none b = false
matches_hint (some hint) b = not (hint == "") && has_model hint b

-- Whether the backend stands on a host of the tier and is of a preferred kind.
abbrev pub fits_tier : {T : Type 0} → TaskType → Tier → Backend T → Bool
fits_tier task tier b =
    is_candidate tier b && any (λ kind. is_kind kind b.kind) (tier_pref tier task)

by_hint-cases :
    {T : Type 0} (hint : Option String) (backends : List (Backend T))
    → (by_hint hint backends ≡ none) × All (λ b. matches_hint hint b ≡ false) backends
      ⊎ ((b : Backend T) × (by_hint hint backends ≡ some b)
          × Member b backends
          × (matches_hint hint b ≡ true))
unfolding by_hint
by_hint-cases none backends = inl (refl, All-always backends (λ b. refl))
by_hint-cases (some hint) backends = elim (Bool-cases (hint == "")) [
  | inl e ↦ rw e (inl (refl, All-always backends (λ b. refl)))
  | inr e ↦ rw e (first-cases (has_model hint) backends)
]

abbrev is_preferred : {T : Type 0} → List BackendKind → Backend T → Bool
is_preferred kinds b = any (λ kind. is_kind kind b.kind) kinds

by_kind-cases :
    {T : Type 0} (kinds : List BackendKind) (candidates : List (Backend T))
    → (by_kind kinds candidates ≡ none) × All (λ b. is_preferred kinds b ≡ false) candidates
      ⊎ ((b : Backend T) × (by_kind kinds candidates ≡ some b)
          × Member b candidates
          × (is_preferred kinds b ≡ true))
unfolding by_kind
by_kind-cases [] candidates = inl (refl, All-always candidates (λ b. refl))
by_kind-cases (kind ∷ kinds) candidates = elim (first-cases (λ b. is_kind kind b.kind) candidates) [
  | inr (b, found, member, fits) ↦ inr (b, rw found refl, member, rw fits refl)
  | inl (missing, fails) ↦ elim (by_kind-cases kinds candidates) [
    | inr (b, found, member, fits) ↦ inr (b, rw missing found, member, ground (arith, fits))
    | inl (all_missing, all_fail) ↦ inl (
      rw missing all_missing,
      All-weaken candidates (λ b h. rw (h.0, h.1) refl) (All-both _ _ candidates fails all_fail),
    )
  ]
]

-- The backend chosen is online. One that has the hinted model comes first; where none does, one that
-- stands on a host of the tier and is of a preferred kind; and an error means that there is neither.
pub select_backend_contract :
    {T : Type 0} (hint : Option String) (task : TaskType) (tier : Tier)
    (registry : BackendRegistry T)
    → ((b : Backend T) × (select_backend hint task tier registry ≡ some b)
        × Member b (online_backends registry)
        × (matches_hint hint b ≡ true))
      ⊎ ((b : Backend T) × (select_backend hint task tier registry ≡ some b)
          × Member b (online_backends registry)
          × (fits_tier task tier b ≡ true)
          × All (λ c. matches_hint hint c ≡ false) (online_backends registry))
      ⊎ (select_backend hint task tier registry ≡ none)
        × All (λ c. matches_hint hint c ≡ false) (online_backends registry)
        × All (λ c. fits_tier task tier c ≡ false) (online_backends registry)
unfolding select_backend
select_backend_contract hint task tier registry =
    let online = online_backends registry in
    elim (by_hint-cases hint online) [
      | inr (b, found, member, matches) ↦ inl (b, rw found refl, member, matches)
      | inl (missing, unmatched) ↦
          elim (by_kind-cases (tier_pref tier task) (keep (is_candidate tier) online)) [
            | inr (b, found, member, fits) ↦
                let (is_there, candidate) = Member-keep (is_candidate tier) b online member in
                inr (inl (b, rw missing found, is_there, rw (candidate, fits) refl, unmatched))
            | inl (none_left, fails) ↦ inr (
                inr (
                  rw missing none_left,
                  unmatched,
                  All-keep (is_candidate tier) (is_preferred (tier_pref tier task)) online fails,
                ))
          ]
    ]

matches_hint-not_mirror :
    {T : Type 0} (hint : Option String) (b : Backend T)
    → matches_hint hint b ≡ true
    → is_mirror b.name ≡ false
matches_hint-not_mirror none b h = cc
matches_hint-not_mirror (some hint) b h = ground arith

fits_tier-not_mirror :
    {T : Type 0} (task : TaskType) (tier : Tier) (b : Backend T)
    → fits_tier task tier b ≡ true
    → is_mirror b.name ≡ false
fits_tier-not_mirror task tier b h = ground arith

is_online-health : (h : BackendHealth) → is_online h ≡ true → h ≡ BackendHealth.online
is_online-health BackendHealth.online e = refl
is_online-health BackendHealth.unknown e = cc
is_online-health BackendHealth.offline e = cc
is_online-health BackendHealth.degraded e = cc

online-Member :
    {T : Type 0} (registry : BackendRegistry T) (b : Backend T)
    → Member b (online_backends registry)
    → Member b (all registry) × (b.health ≡ BackendHealth.online)
unfolding online_backends
online-Member registry b h =
    let (member, is_up) = Member-keep (λ c. is_online c.health) b (all registry) h in
    (member, is_online-health b.health is_up)

-- Whatever the hint, the task and the tier, the backend chosen is one that was recorded and is online,
-- and never the mirror.
pub select_backend-safe :
    {T : Type 0} (hint : Option String) (task : TaskType) (tier : Tier)
    (registry : BackendRegistry T) (b : Backend T)
    → select_backend hint task tier registry ≡ some b
    → Member b (all registry) × (b.health ≡ BackendHealth.online) × (b.name ≢ "lmstudio-mac")
select_backend-safe hint task tier registry b h =
    elim (select_backend_contract hint task tier registry) [
      | inl (c, found, member, matches) ↦
          safe c found member (matches_hint-not_mirror hint c matches)
      | inr (inl (c, found, member, fits, unmatched)) ↦
          safe c found member (fits_tier-not_mirror task tier c fits)
      | inr (inr (missing, unmatched, fails)) ↦ cc (h, missing)
    ]
  where
    safe :
        (c : _)
        → select_backend hint task tier registry ≡ some c
        → Member c (online_backends registry)
        → is_mirror c.name ≡ false
        → Member b (all registry) × (b.health ≡ BackendHealth.online) × (b.name ≢ "lmstudio-mac")
    safe c found member original =
        let same : b ≡ c = cc (h, found) in
        let (recorded, is_up) = online-Member registry c member in
        subst
          (λ d.
            Member d (all registry) × (d.health ≡ BackendHealth.online) × (d.name ≢ "lmstudio-mac"))
          (sym same) (recorded, is_up, λ p. cc ((eq_iff c.name "lmstudio-mac").1 p, original))
