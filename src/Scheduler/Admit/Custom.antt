-- ===== src/Scheduler/Admit/Custom.antt =====
-- What a custom join of `_admit` promises.
use perpetua_core.Prelude.{
  String, ◌≡◌, ◌≢◌, refl, inl, inr, true, Bool-cases, List, [], ◌∷◌, map, contains, All, ◌==◌,
  if◌then◌else◌, ◌⊎◌, ◌↔◌, ◌∙◌, All-weaken, ap, sym, eq_iff,
}
use perpetua_core.Errors.{value_error, ok, err}
use perpetua_core.Exec.{◌>>=◌}
use perpetua_core.Graph.{custom, JoinAdmitFn}
use perpetua_core.Scheduler.Admit.{
  Admitted, Finished, successes, failures, refusal, admit_some, outcome_of, admitted_names,
  check_names, chosen, admit,
}
use perpetua_core.Scheduler.Admit.Contract.{admit_some-some, dec_nil, refusal-Refuses, Refuses}

abbrev AreSuccessful : List Finished → List String → Type 0
AreSuccessful results names =
    All (λ name. contains name (admitted_names (successes results)) ≡ true) names

check_names-cases :
    (good : List Admitted) (names : List String)
    → All (λ name. contains name (admitted_names good) ≡ true) names
        × (check_names good names ≡ ok tt)
      ⊎ (¬ All (λ name. contains name (admitted_names good) ≡ true) names)
        × (check_names good names ≡ err value_error)
unfolding check_names
check_names-cases good [] = inl (tt, refl)
check_names-cases good (name ∷ names) = elim (Bool-cases (contains name (admitted_names good))) [
  | inl e ↦ rw e (elim (check_names-cases good names) [
    | inl (h, passed) ↦ inl ((refl, h), passed)
    | inr (h, raised) ↦ inr (λ more. h more.1, raised)
  ])
  | inr e ↦ rw e (inr (λ more. cc more.0, refl))
]

admit_custom-cases :
    {W : Type 0} (fn : JoinAdmitFn W) (results : List Finished) (names : List String) (w w' : W)
    → fn (map outcome_of results) w ≡ (ok names, w')
    → AreSuccessful results names
        × (chosen names (successes results) ≢ [])
        × (admit (custom fn) results w ≡ (ok (chosen names (successes results)), w'))
      ⊎ AreSuccessful results names
        × (chosen names (successes results) ≡ [])
        × (admit (custom fn) results w ≡ (err (refusal (failures results)), w'))
      ⊎ (¬ AreSuccessful results names) × (admit (custom fn) results w ≡ (err value_error, w'))
unfolding admit ◌>>=◌ admit_some
admit_custom-cases fn results names w w' h = elim (check_names-cases (successes results) names) [
  | inl (sound, passed) ↦ elim (dec_nil (chosen names (successes results))) [
    | inl none_left ↦ inr (inl (sound, none_left, rw (h, passed, none_left)))
    | inr some_left ↦
        inl (sound, some_left, rw (h, passed) (rw (admit_some-some (failures results) _ some_left)))
  ]
  | inr (unsound, raised) ↦ inr (inr (unsound, rw (h, raised)))
]

-- The successful branches that are named, in the order of the branches.
abbrev pub named_in : List String → List Finished → List Admitted
named_in names [] = []
named_in names ((name, ok d) ∷ rest) =
    let more = named_in names rest in if contains name names then (name, d) ∷ more else more
named_in names ((name, err e) ∷ rest) = named_in names rest

-- The name is that of a branch which succeeded.
abbrev pub Succeeded : String → List Finished → Type 0
Succeeded name [] = ⊥
Succeeded name ((other, ok d) ∷ rest) = (other ≡ name) ⊎ Succeeded name rest
Succeeded name ((other, err e) ∷ rest) = Succeeded name rest

chosen_lem :
    (names : List String) (results : List Finished)
    → chosen names (successes results) ≡ named_in names results
unfolding chosen successes
chosen_lem names [] = refl
chosen_lem names ((name, ok d) ∷ rest) =
    ap (λ more. if contains name names then (name, d) ∷ more else more) (chosen_lem names rest)
chosen_lem names ((name, err e) ∷ rest) = chosen_lem names rest

Succeeded-iff-contains :
    (name : String) (results : List Finished)
    → (contains name (admitted_names (successes results)) ≡ true) ↔ Succeeded name results
unfolding successes
Succeeded-iff-contains name [] = (λ h. cc, λ h. absurd h)
Succeeded-iff-contains name ((other, ok d) ∷ rest) =
    let more = Succeeded-iff-contains name rest in
    elim (Bool-cases (other == name)) [
      | inl e ↦ (λ h. inl ((eq_iff other name).0 e), λ h. rw e refl)
      | inr e ↦ (
        λ h. inr (more.0 (rw e at h)),
        λ h. elim h [
          | inl same ↦ cc ((eq_iff other name).1 same, e)
          | inr there ↦ rw e (more.1 there)
        ],
      )
    ]
Succeeded-iff-contains name ((other, err e) ∷ rest) = Succeeded-iff-contains name rest

-- A custom join that names a branch which did not succeed is a ValueError. One that names successful
-- branches alone admits those, in the order of the branches, whatever the order and the repetitions
-- of the names; where it names none, it raises a group that holds just the exceptions of the failed
-- branches, or one ValueError where no branch failed.
pub admit_custom_contract :
    {W : Type 0} (fn : JoinAdmitFn W) (results : List Finished) (names : List String) (w w' : W)
    → fn (map outcome_of results) w ≡ (ok names, w')
    → All (λ name. Succeeded name results) names
        × (named_in names results ≢ [])
        × (admit (custom fn) results w ≡ (ok (named_in names results), w'))
      ⊎ All (λ name. Succeeded name results) names
        × (named_in names results ≡ [])
        × Refuses (custom fn) results w w'
      ⊎ (¬ All (λ name. Succeeded name results) names)
        × (admit (custom fn) results w ≡ (err value_error, w'))
admit_custom_contract fn results names w w' h =
    let same = chosen_lem names results in
    let sound : AreSuccessful results names → All (λ name. Succeeded name results) names =
      All-weaken names (λ name k. (Succeeded-iff-contains name results).0 k) in
    elim (admit_custom-cases fn results names w w' h) [
      | inl (good, some_left, e) ↦
          inl (sound good, (λ k. some_left (same ∙ k)), e ∙ ap (λ ds. (ok ds, w')) same)
      | inr (inl (good, none_left, e)) ↦
          inr (inl (sound good, sym same ∙ none_left, refusal-Refuses _ results w w' e))
      | inr (inr (bad, e)) ↦ inr (
          inr (
            λ k. bad (All-weaken names (λ name c. (Succeeded-iff-contains name results).1 c) k),
            e,
          ))
    ]
