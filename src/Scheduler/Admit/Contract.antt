-- ===== src/Scheduler/Admit/Contract.antt =====
-- What the joins of `_admit` promise.
use perpetua_core.Prelude.{
  ◌+◌, ◌≤◌, ◌≡◌, ◌≢◌, refl, inl, inr, Bool-cases, List, [], ◌∷◌, leb, length, arith, Subsequence,
  Subsequence-refl, Subsequence-nil, keep-Subsequence, ◌⊎◌, ◌∙◌, ap,
}
use perpetua_core.Errors.{
  Exception, value_error, ok, err, Exceptions, to_exceptions, exception_group,
}
use perpetua_core.Exec.Triple.{Holds, Triple, Triple-bind, Triple-any}
use perpetua_core.Graph.{Join, all, any_ok, first_success, quorum, custom}
use perpetua_core.Scheduler.Admit.{
  Admitted, Finished, successes, failures, refusal, admit_some, admit_all, first_of_all, chosen,
  admit,
}

-- A successful branch has no exception and a failed one has no delta: nothing is lost.
pub successes-failures :
    (results : List Finished)
    → length (successes results) + length (failures results) ≡ length results
unfolding successes failures
successes-failures [] = omega arith
successes-failures ((name, ok d) ∷ rest) = omega (arith, successes-failures rest)
successes-failures ((name, err e) ∷ rest) = omega (arith, successes-failures rest)

-- When a built-in join lets the region commit, and what it then admits.
abbrev pub Accepts : {W : Type 0} → Join W → List Finished → Type 0
Accepts all results = failures results ≡ []
Accepts any_ok results = successes results ≢ []
Accepts first_success results = successes results ≢ []
Accepts (quorum q) results = q ≤ length (successes results)
Accepts (custom fn) results = ⊥

abbrev pub admits : {W : Type 0} → Join W → List Finished → List Admitted
admits first_success results = first_of_all (successes results)
admits _ results = successes results

abbrev pub IsBuiltIn : {W : Type 0} → Join W → Type 0
IsBuiltIn (custom fn) = ⊥
IsBuiltIn _ = Unit

pub admit_some-some :
    (errors : List Exception) (good : List Admitted) → good ≢ [] → admit_some errors good ≡ ok good
unfolding admit_some
admit_some-some errors [] h = absurd (h refl)
admit_some-some errors (a ∷ good) h = refl

first_of_all-ne : (good : List Admitted) → good ≢ [] → first_of_all good ≢ []
first_of_all-ne [] h = h
first_of_all-ne (a ∷ good) h = λ e. cc

module _ {W : Type 0} (results : List Finished) (w : W) where
  -- A join that accepts returns what it admits, and leaves the world alone.
  pub admit-Accepts :
      (join : Join W) → Accepts join results → admit join results w ≡ (ok (admits join results), w)
  unfolding admit admit_all
  admit-Accepts all h = rw h
  admit-Accepts any_ok h = rw (admit_some-some (failures results) (successes results) h)
  admit-Accepts first_success h =
      rw (admit_some-some (failures results) _ (first_of_all-ne (successes results) h))
  admit-Accepts (quorum q) h = ground arith
  admit-Accepts (custom fn) h = absurd h

  -- A built-in join that does not accept raises the group of all the failures.
  pub admit-not_Accepts :
      (join : Join W)
      → IsBuiltIn join
      → ¬ Accepts join results
      → admit join results w ≡ (err (refusal (failures results)), w)
  unfolding admit admit_all admit_some
  admit-not_Accepts all b h = ground arith
  admit-not_Accepts any_ok b h = ground arith
  admit-not_Accepts first_success b h = ground arith
  admit-not_Accepts (quorum q) b h = ground arith
  admit-not_Accepts (custom fn) b h = absurd b

pub dec_nil : {A : Type 0} (xs : List A) → (xs ≡ []) ⊎ (xs ≢ [])
dec_nil [] = inl refl
dec_nil (x ∷ xs) = inr (λ e. cc)

-- The deltas of the branches that succeeded, and the exceptions of the others, in their order.
abbrev pub deltas_in : List Finished → List Admitted
deltas_in [] = []
deltas_in ((name, ok d) ∷ rest) = (name, d) ∷ deltas_in rest
deltas_in ((name, err e) ∷ rest) = deltas_in rest

abbrev pub errors_in : List Finished → List Exception
errors_in [] = []
errors_in ((name, ok d) ∷ rest) = errors_in rest
errors_in ((name, err e) ∷ rest) = e ∷ errors_in rest

-- The exceptions of a group, as a list.
abbrev pub members : Exceptions → List Exception
members Exceptions.nil = []
members (Exceptions.cons e es) = e ∷ members es

-- What a group of failures holds: all of them, or one ValueError where there are none.
abbrev pub or_value_error : List Exception → List Exception
or_value_error [] = value_error ∷ []
or_value_error (e ∷ es) = e ∷ es

-- The join raises a group of all the branches' exceptions, in the order of the branches.
abbrev pub Refuses : {W : Type 0} → Join W → List Finished → W → W → Type 0
Refuses join results w w' =
    (group : Exceptions) × (admit join results w ≡ (err (exception_group group), w'))
    × (members group ≡ or_value_error (errors_in results))

-- The rule of a built-in join, and what the branches that it lets in are.
abbrev pub IsMet : {W : Type 0} → Join W → List Finished → Type 0
IsMet all results = errors_in results ≡ []
IsMet any_ok results = deltas_in results ≢ []
IsMet first_success results = deltas_in results ≢ []
IsMet (quorum q) results = q ≤ length (deltas_in results)
IsMet (custom fn) results = ⊥

abbrev pub let_in : {W : Type 0} → Join W → List Finished → List Admitted
let_in first_success results = first_of_all (deltas_in results)
let_in _ results = deltas_in results

failures_lem : (results : List Finished) → failures results ≡ errors_in results
unfolding failures
failures_lem [] = refl
failures_lem ((name, ok d) ∷ rest) = failures_lem rest
failures_lem ((name, err e) ∷ rest) = ap (λ es. e ∷ es) (failures_lem rest)

members-to_exceptions : (es : List Exception) → members (to_exceptions es) ≡ es
unfolding to_exceptions
members-to_exceptions [] = refl
members-to_exceptions (e ∷ es) = ap (λ more. e ∷ more) (members-to_exceptions es)

refusal-members :
    (es : List Exception)
    → (group : Exceptions) × (refusal es ≡ exception_group group)
      × (members group ≡ or_value_error es)
unfolding refusal
refusal-members [] = (_, refl, members-to_exceptions (value_error ∷ []))
refusal-members (e ∷ es) = (_, refl, members-to_exceptions (e ∷ es))

-- A join that raises the code's `refusal` refuses.
pub refusal-Refuses :
    {W : Type 0} (join : Join W) (results : List Finished) (w w' : W)
    → admit join results w ≡ (err (refusal (failures results)), w')
    → Refuses join results w w'
refusal-Refuses join results w w' h =
    let (group, e, m) = refusal-members (failures results) in
    (group, h ∙ ap (λ x. (err x, w')) e, m ∙ ap or_value_error (failures_lem results))

admit_some-Subsequence :
    (errors : List Exception) (chosen good : List Admitted)
    → Subsequence chosen good
    → {W : Type 0} (w : W)
    → Holds
        (λ admitted (w' : W). Subsequence admitted good)
        (λ e w'. Unit)
        (admit_some errors chosen, w)
unfolding admit_some
admit_some-Subsequence errors [] good s w = tt
admit_some-Subsequence errors (a ∷ chosen) good s w = s

admit_all-Subsequence :
    (errors : List Exception) (good : List Admitted) {W : Type 0} (w : W)
    → Holds
        (λ admitted (w' : W). Subsequence admitted good)
        (λ e w'. Unit)
        (admit_all errors good, w)
unfolding admit_all
admit_all-Subsequence [] good w = Subsequence-refl good
admit_all-Subsequence (e ∷ errors) good w = tt

first_of_all-Subsequence : (good : List Admitted) → Subsequence (first_of_all good) good
first_of_all-Subsequence [] = Subsequence.stop
first_of_all-Subsequence (a ∷ good) = Subsequence.take (Subsequence-nil good)

-- Whatever the join, what it admits are successful branches, in the order of the branches.
pub admit-Subsequence :
    {W : Type 0} (join : Join W) (results : List Finished)
    → Triple
        (λ w. Unit)
        (admit join results)
        (λ admitted w. Subsequence admitted (successes results))
        (λ e w. Unit)
unfolding admit chosen
admit-Subsequence all results = record {
  at = λ w u. admit_all-Subsequence (failures results) (successes results) w;
}
admit-Subsequence any_ok results = record {
  at =
      λ w u. admit_some-Subsequence (failures results) _ _ (Subsequence-refl (successes results)) w;
}
admit-Subsequence first_success results = record {
  at = λ w u.
      admit_some-Subsequence (failures results) _ _ (first_of_all-Subsequence (successes results))
        w;
}
admit-Subsequence (quorum q) results = record {
  at = λ w u. elim (Bool-cases (leb q (length (successes results)))) [
    | inl e ↦ rw e (Subsequence-refl (successes results))
    | inr e ↦ rw e tt
  ];
}
admit-Subsequence (custom fn) results = Triple-bind _ _ (Triple-any _) (λ names.
    Triple-bind _ _ (Triple-any _) (λ u. record {
      at = λ w v.
          admit_some-Subsequence (failures results) _ _ (keep-Subsequence _ (successes results)) w;
    }))
