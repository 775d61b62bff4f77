-- ===== src/Samples/Backends.antt =====
-- The theorems on backends at a small registry.
use perpetua_core.Prelude.{
  ℕ, String, ◌≡◌, ◌≢◌, refl, ◌⊎◌, true, false, none, some, List, [], ◌∷◌, All, Member, ◌==◌,
}
use perpetua_core.Discovery.{
  Backend, BackendRegistry, BackendKind, BackendHealth, Tier, ollama, lmstudio, shared, coding, all,
  online_backends, observe_backend, with_health, select_backend, by_hint, by_kind,
}
use perpetua_core.Discovery.Selection.{
  matches_hint, fits_tier, select_backend_contract, select_backend-safe,
}
use perpetua_core.Discovery.Registry.{IsKeyed, observe_backend-revokes}

abbrev backend : String → BackendKind → List String → Backend ℕ
backend name kind models = record {
  name = name;
  base_url = "http://10.0.0.2";
  kind = kind;
  models = models;
  health = BackendHealth.online;
  last_seen = some 3;
}

abbrev mirror : Backend ℕ
mirror = backend "lmstudio-mac" lmstudio ("qwen" ∷ [])

abbrev local : Backend ℕ
local = backend "ollama-local" ollama ("llama" ∷ [])

abbrev win : Backend ℕ
win = backend "lmstudio-win" lmstudio ("qwen" ∷ [])

abbrev seen : BackendRegistry ℕ
seen = ("lmstudio-mac", mirror) ∷ ("ollama-local", local) ∷ ("lmstudio-win", win) ∷ []

select_backend-qwen : select_backend (some "qwen") coding Tier.mac seen ≡ some win
unfolding select_backend by_hint by_kind online_backends all
select_backend-qwen = refl

select_backend-shared : select_backend none coding shared seen ≡ some win
unfolding select_backend by_hint by_kind online_backends all
select_backend-shared = refl

select_backend-safe_example :
    Member win (all seen) × (win.health ≡ BackendHealth.online) × (win.name ≢ "lmstudio-mac")
select_backend-safe_example =
    select_backend-safe (some "qwen") coding Tier.mac seen win select_backend-qwen

select_backend_contract_example :
    ((b : Backend ℕ) × (select_backend none coding shared seen ≡ some b)
      × Member b (online_backends seen)
      × (matches_hint none b ≡ true))
    ⊎ ((b : Backend ℕ) × (select_backend none coding shared seen ≡ some b)
        × Member b (online_backends seen)
        × (fits_tier coding shared b ≡ true)
        × All (λ c. matches_hint none c ≡ false) (online_backends seen))
    ⊎ (select_backend none coding shared seen ≡ none)
      × All (λ c. matches_hint none c ≡ false) (online_backends seen)
      × All (λ c. fits_tier coding shared c ≡ false) (online_backends seen)
select_backend_contract_example = select_backend_contract none coding shared seen

seen-IsKeyed : IsKeyed seen
seen-IsKeyed = (refl, refl, (refl, refl, (refl, refl, tt)))

observe_backend-revokes_example :
    All
      (λ c. (c.name == "lmstudio-win") ≡ false)
      (online_backends (observe_backend (with_health BackendHealth.offline 4 win) seen))
unfolding with_health
observe_backend-revokes_example =
    observe_backend-revokes (with_health BackendHealth.offline 4 win) seen seen-IsKeyed refl
