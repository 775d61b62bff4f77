-- ===== src/Exec/Laws.antt =====
-- Sequencing of actions: associative, and determined by what the parts do from each state.
use perpetua_core.Prelude.{◌≡◌, refl, List, [], ◌∷◌, ◌++◌, ◌∙◌, sym, ap}
use perpetua_core.Errors.{Exception, Result, ok, err}
use perpetua_core.Exec.{Exec, pure, then_run, ◌>>=◌, ◌>>◌}

module _ {S A B : Type 0} where
  pub then_run-cong :
      (f g : A → Exec S B) (x : Result A × S)
      → ((a : A) (s : S) → f a s ≡ g a s)
      → then_run f x ≡ then_run g x
  then_run-cong f g (ok a, s) h = h a s
  then_run-cong f g (err e, s) h = refl

pub then_run_assoc :
    {S A B C : Type 0} (f : A → Exec S B) (g : B → Exec S C) (x : Result A × S)
    → then_run g (then_run f x) ≡ then_run (λ a. f a >>= g) x
unfolding ◌>>=◌
then_run_assoc f g (ok a, s) = refl
then_run_assoc f g (err e, s) = refl

-- Calls in their order; the first that raises is the last.
unfoldable pub perform : {S : Type 0} → List (Exec S Unit) → Exec S Unit
perform [] = pure tt
perform (c ∷ cs) = c >> perform cs

pub perform-++ :
    {S A : Type 0} (cs ds : List (Exec S Unit)) (m : Exec S A) (s : S)
    → (perform (cs ++ ds) >> m) s ≡ (perform cs >> (perform ds >> m)) s
unfolding perform ◌>>=◌
perform-++ [] ds m s = refl
perform-++ (c ∷ cs) ds m s =
    then_run_assoc (λ u. perform (cs ++ ds)) (λ u. m) (c s)
    ∙ then_run-cong _ _ (c s) (λ u s'. perform-++ cs ds m s')
    ∙ sym (then_run_assoc (λ u. perform cs) (λ u. perform ds >> m) (c s))

raised-not_ok : {A : Type 0} {e : Exception} {a : A} → err e ≡ ok a → ⊥
raised-not_ok h = cc

-- Inversion of a chain that returned.
pub then_run-ok :
    {S A B : Type 0} (f : A → Exec S B) (x : Result A × S) (b : B) (s : S)
    → then_run f x ≡ (ok b, s)
    → (a : A) × (s₁ : S) × (x ≡ (ok a, s₁)) × (f a s₁ ≡ (ok b, s))
then_run-ok f (ok a, s₁) b s h = (a, s₁, refl, h)
then_run-ok f (err e, s₁) b s h = absurd (raised-not_ok (ap (λ p. p.0) h))
