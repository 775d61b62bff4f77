-- ===== src/Discovery.antt =====
-- discovery/: advisory observations of inference backends, and the choice of one.
pub mod Selection
pub mod Registry
use perpetua_core.Prelude.{
  String, Bool, true, false, ◌&&◌, ◌||◌, Option, none, some, List, [], ◌∷◌, ◌==◌, not, map, keep,
  first, contains, or_else, if◌then◌else◌, Dict, lookup, assign,
}

pub data BackendKind : Type 0 where
  ollama lmstudio openrouter : BackendKind

pub data BackendHealth : Type 0 where
  unknown online offline degraded : BackendHealth

pub data TaskType : Type 0 where
  coding reasoning research ops : TaskType

pub data Tier : Type 0 where
  mac windows shared : Tier

-- `Backend`; `T` is the type of the moments at which one was seen.
pub record Backend (T : Type 0) : Type 0 where
  pub name : String
  pub base_url : String
  pub kind : BackendKind
  pub models : List String
  pub health : BackendHealth
  pub last_seen : Option T

abbrev pub is_online : BackendHealth → Bool
is_online BackendHealth.online = true
is_online _ = false

-- `b.kind is kind`
abbrev pub is_kind : BackendKind → BackendKind → Bool
is_kind ollama ollama = true
is_kind lmstudio lmstudio = true
is_kind openrouter openrouter = true
is_kind _ _ = false

-- `BackendRegistry`: the observations by name.
abbrev pub BackendRegistry : Type 0 → Type 0
BackendRegistry T = Dict (Backend T)

-- `_MIRROR_BACKENDS`
abbrev pub is_mirror : String → Bool
is_mirror name = name == "lmstudio-mac"

-- `_TIER_HOSTS`: none for a tier that takes any host.
abbrev pub tier_hosts : Tier → List String
tier_hosts mac = "ollama-local" ∷ []
tier_hosts windows = "lmstudio-win" ∷ []
tier_hosts shared = []

-- `_TIER_PREF.get((tier, task), default)`
abbrev pub tier_pref : Tier → TaskType → List BackendKind
tier_pref mac coding = ollama ∷ []
tier_pref mac reasoning = ollama ∷ []
tier_pref windows coding = lmstudio ∷ []
tier_pref windows reasoning = lmstudio ∷ []
tier_pref shared coding = lmstudio ∷ ollama ∷ []
tier_pref shared reasoning = ollama ∷ lmstudio ∷ []
tier_pref shared research = lmstudio ∷ ollama ∷ []
tier_pref shared ops = ollama ∷ lmstudio ∷ []
tier_pref _ _ = ollama ∷ lmstudio ∷ []

abbrev pub is_empty : List String → Bool
is_empty [] = true
is_empty (x ∷ xs) = false

module _ {T : Type 0} where
  -- `with_health`
  unfoldable pub with_health : BackendHealth → T → Backend T → Backend T
  with_health health now b = record b { health = health; last_seen = some now }

  -- `all`
  unfoldable pub all : BackendRegistry T → List (Backend T)
  all registry = map (λ p. p.1) registry

  -- `online`
  unfoldable pub online_backends : BackendRegistry T → List (Backend T)
  unfolding all
  online_backends registry = keep (λ b. is_online b.health) (all registry)

  -- `find`
  unfoldable pub find : String → BackendRegistry T → Option (Backend T)
  find name registry = lookup name registry

  -- `record`: the last observation under a name counts.
  unfoldable pub observe_backend : Backend T → BackendRegistry T → BackendRegistry T
  observe_backend b registry = assign b.name b registry

  -- `model_hint in b.models and b.name not in _MIRROR_BACKENDS`
  abbrev pub has_model : String → Backend T → Bool
  has_model hint b = contains hint b.models && not (is_mirror b.name)

  -- The first step: a hint that is given, and not empty.
  unfoldable pub by_hint : Option String → List (Backend T) → Option (Backend T)
  by_hint none backends = none
  by_hint (some hint) backends = if hint == "" then none else first (has_model hint) backends

  -- The test of the second step.
  abbrev pub is_candidate : Tier → Backend T → Bool
  is_candidate tier b =
      (is_empty (tier_hosts tier) || contains b.name (tier_hosts tier)) && not (is_mirror b.name)

  -- The third step: the kinds in the order of preference, and the first candidate of each.
  unfoldable pub by_kind : List BackendKind → List (Backend T) → Option (Backend T)
  by_kind [] candidates = none
  by_kind (kind ∷ kinds) candidates =
      or_else (first (λ b. is_kind kind b.kind) candidates) (by_kind kinds candidates)

  -- `select_backend`: `none` is a NoBackendAvailableError.
  unfoldable pub select_backend :
      Option String → TaskType → Tier → BackendRegistry T → Option (Backend T)
  unfolding by_hint by_kind online_backends
  select_backend hint task tier registry =
      or_else (by_hint hint (online_backends registry))
        (by_kind (tier_pref tier task) (keep (is_candidate tier) (online_backends registry)))
