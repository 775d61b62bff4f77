-- ===== src/Discovery/Registry.antt =====
-- What recording an observation does to the registry.
use perpetua_core.Prelude.{
  String, ◌≡◌, refl, sym, ◌∙◌, inl, inr, false, Bool-cases, some, [], ◌∷◌, ◌==◌, ◌||◌, contains,
  All, if◌then◌else◌, arith, keys, assign, lookup-assign, eq_iff, subst,
}
use perpetua_core.Discovery.{
  Backend, BackendRegistry, is_online, all, online_backends, find, observe_backend, Dict,
}

-- Each backend stands once, under its own name.
abbrev pub IsKeyed : {T : Type 0} → BackendRegistry T → Type 0
IsKeyed [] = Unit
IsKeyed ((name, b) ∷ registry) =
    (b.name ≡ name) × (contains name (keys registry) ≡ false) × IsKeyed registry

contains-assign :
    {V : Type 0} (k j : String) (v : V) (d : Dict V)
    → contains k (keys (assign j v d)) ≡ (j == k || contains k (keys d))
unfolding assign
contains-assign k j v [] = ground arith
contains-assign k j v ((i, w) ∷ d) = ground (arith, eq_iff i j, contains-assign k j v d)

observe_backend-IsKeyed :
    {T : Type 0} (b : Backend T) (registry : BackendRegistry T)
    → IsKeyed registry
    → IsKeyed (observe_backend b registry)
unfolding observe_backend assign
observe_backend-IsKeyed b [] h = (refl, refl, tt)
observe_backend-IsKeyed b ((name, c) ∷ registry) (own, fresh, h) =
    elim (Bool-cases (name == b.name)) [
      | inl e ↦ rw e (sym ((eq_iff name b.name).0 e), fresh, h)
      | inr e ↦ rw e (
        own,
        contains-assign name b.name b registry
            ∙ rw fresh (ground (arith, eq_iff name b.name, eq_iff b.name name)),
        observe_backend-IsKeyed b registry h,
      )
    ]

-- No backend of another key has this name.
other_names :
    {T : Type 0} (name : String) (registry : BackendRegistry T)
    → IsKeyed registry
    → contains name (keys registry) ≡ false
    → All (λ c. (c.name == name) ≡ false) (online_backends registry)
unfolding online_backends all
other_names name [] h missing = tt
other_names name ((key, c) ∷ registry) (own, fresh, h) missing =
    let rest = other_names name registry h (ground (arith, missing)) in
    elim (Bool-cases (is_online c.health)) [
      | inl e ↦ rw e (rw own (ground (arith, missing)), rest)
      | inr e ↦ rw e rest
    ]

-- An observation that is not online revokes the name: no online backend has it any more.
pub observe_backend-revokes :
    {T : Type 0} (b : Backend T) (registry : BackendRegistry T)
    → IsKeyed registry
    → is_online b.health ≡ false
    → All (λ c. (c.name == b.name) ≡ false) (online_backends (observe_backend b registry))
unfolding online_backends all observe_backend assign
observe_backend-revokes b [] h down = rw down tt
observe_backend-revokes b ((name, c) ∷ registry) (own, fresh, h) down =
    elim (Bool-cases (name == b.name)) [
      | inl e ↦
          rw (e, down)
            (other_names b.name registry h
              (subst (λ k. contains k (keys registry) ≡ false) ((eq_iff name b.name).0 e) fresh))
      | inr e ↦ rw e (elim (Bool-cases (is_online c.health)) [
        | inl up ↦ rw up (rw own e, observe_backend-revokes b registry h down)
        | inr gone ↦ rw gone (observe_backend-revokes b registry h down)
      ])
    ]

-- Recording keeps each backend once and under its own name. What was recorded is found under its
-- name, in place of what stood there, and every other name finds what it found before.
pub observe_backend_contract :
    {T : Type 0} (b : Backend T) (registry : BackendRegistry T) (name : String)
    → IsKeyed registry
    → IsKeyed (observe_backend b registry)
      × (find name (observe_backend b registry)
          ≡ (if b.name == name then some b else find name registry))
unfolding find observe_backend
observe_backend_contract b registry name h =
    (observe_backend-IsKeyed b registry h, lookup-assign b.name name b registry)
