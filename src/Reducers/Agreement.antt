-- ===== src/Reducers/Agreement.antt =====
-- `reject_conflict`: a field is written when its branches agree, and refused otherwise.
use perpetua_core.Prelude.{
  String, ◌≡◌, refl, true, false, Bool-cases, inl, inr, List, [], ◌∷◌, All, ◌⊎◌,
}
use perpetua_core.Value.{Value, value_eq}
use perpetua_core.Errors.{reducer_conflict, ok, err}
use perpetua_core.Reducers.{Contribution, reject_conflict, agree, names, reduce_field}

-- Every later value equals the first, by Python's `==`.
abbrev pub Agrees : Value → List Contribution → Type 0
Agrees value rest = All (λ c. value_eq c.1 value ≡ true) rest

agree-cases :
    (value : Value) (rest : List Contribution)
    → Agrees value rest × (agree value rest ≡ true)
      ⊎ (¬ Agrees value rest) × (agree value rest ≡ false)
unfolding agree
agree-cases value [] = inl (tt, refl)
agree-cases value ((name, v) ∷ rest) = elim (Bool-cases (value_eq v value)) [
  | inl e ↦ rw e (elim (agree-cases value rest) [
    | inl (h, all) ↦ inl ((refl, h), all)
    | inr (h, some_differ) ↦ inr (λ more. h more.1, some_differ)
  ])
  | inr e ↦ rw e (inr (λ more. cc more.0, refl))
]

-- The default reducer commits the first branch's value when every other branch's value equals it,
-- whatever the base is. Otherwise it raises a conflict that names the field and all the branches.
pub reject_conflict_contract :
    {W : Type 0} (field name : String) (base value : Value) (rest : List Contribution) (w : W)
    → Agrees value rest
        × (reduce_field field reject_conflict base ((name, value) ∷ rest) w ≡ (ok value, w))
      ⊎ (¬ Agrees value rest)
        × (reduce_field field reject_conflict base ((name, value) ∷ rest) w
            ≡ (err (reducer_conflict field (names ((name, value) ∷ rest))), w))
unfolding reduce_field
reject_conflict_contract field name base value rest w = elim (agree-cases value rest) [
  | inl (h, e) ↦ inl (h, rw e)
  | inr (h, e) ↦ inr (h, rw e)
]
