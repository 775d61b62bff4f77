-- ===== src/Exec/Triple.antt =====
-- Correctness of an action: from a state with `P` it returns into `Q` or raises into `E`.
use perpetua_core.Prelude.{◌≡◌, refl, Bool, true, false, Option, none, some, if◌then◌else◌}
use perpetua_core.Errors.{Exception, Result, ok, err}
use perpetua_core.Exec.{Exec, pure, raise, lift, then_run, ◌>>=◌}

abbrev pub Holds :
    {S A : Type 0} → (A → S → Type 0) → (Exception → S → Type 0) → Result A × S → Type 0
Holds Q E (ok a, s) = Q a s
Holds Q E (err e, s) = E e s

pub record Triple {S A : Type 0} (P : S → Type 0) (m : Exec S A) (Q : A → S → Type 0)
    (E : Exception → S → Type 0) : Type 0 where
  pub at : (s : S) → P s → Holds Q E (m s)

module _ {S A : Type 0} {P : S → Type 0} {Q : A → S → Type 0} {E : Exception → S → Type 0} where
  pub Triple-pure : (a : A) → ((s : S) → P s → Q a s) → Triple P (pure a) Q E
  Triple-pure a h = record { at = h }

  pub Triple-raise : (e : Exception) → ((s : S) → P s → E e s) → Triple P (raise e) Q E
  Triple-raise e h = record { at = h }

  pub Triple-elim_option :
      {B : Type 0} (o : Option B) (m : Exec S A) (f : B → Exec S A)
      → Triple P m Q E
      → ((b : B) → Triple P (f b) Q E)
      → Triple P (elim o [ none ↦ m | some b ↦ f b ]) Q E
  Triple-elim_option none m f hm hf = hm
  Triple-elim_option (some b) m f hm hf = hf b

  pub Triple-elim_bool :
      (b : Bool) (m n : Exec S A)
      → Triple P m Q E
      → Triple P n Q E
      → Triple P (elim b [ false ↦ m | true ↦ n ]) Q E
  Triple-elim_bool true m n hm hn = hn
  Triple-elim_bool false m n hm hn = hm

  pub Triple-if :
      (b : Bool) (m n : Exec S A)
      → (b ≡ true → Triple P m Q E)
      → (b ≡ false → Triple P n Q E)
      → Triple P (if b then m else n) Q E
  Triple-if true m n hm hn = hm refl
  Triple-if false m n hm hn = hn refl

module _ {S A B : Type 0} {R : A → S → Type 0} {Q : B → S → Type 0}
    {E : Exception → S → Type 0} where
  then_run-Holds :
      (f : A → Exec S B) (r : Result A) (s : S)
      → Holds R E (r, s)
      → ((a : A) → Triple (R a) (f a) Q E)
      → Holds Q E (then_run f (r, s))
  then_run-Holds f (ok a) s h k = (k a).at s h
  then_run-Holds f (err e) s h k = h

  pub Triple-bind :
      {P : S → Type 0} (m : Exec S A) (f : A → Exec S B)
      → Triple P m R E
      → ((a : A) → Triple (R a) (f a) Q E)
      → Triple P (m >>= f) Q E
  unfolding ◌>>=◌
  Triple-bind m f h k = record {
    at = λ s p. let (r, s') = m s in then_run-Holds f r s' (h.at s p) k;
  }

Holds-any :
    {S A : Type 0} (r : Result A) (s : S)
    → Holds (λ a (s' : S). Unit {0}) (λ e (s' : S). Unit {0}) (r, s)
Holds-any (ok a) s = tt
Holds-any (err e) s = tt

-- Nothing is known of the action, and nothing is claimed.
pub Triple-any :
    {S A : Type 0} {P : S → Type 0} (m : Exec S A) → Triple P m (λ a s. Unit) (λ e s. Unit)
Triple-any m = record { at = λ s p. let (r, s') = m s in Holds-any r s' }

pub Holds-weaken :
    {S A : Type 0} {Q Q' : A → S → Type 0} {E E' : Exception → S → Type 0} (r : Result A) (s : S)
    → ((a : A) (s : S) → Q a s → Q' a s)
    → ((e : Exception) (s : S) → E e s → E' e s)
    → Holds Q E (r, s)
    → Holds Q' E' (r, s)
Holds-weaken (ok a) s hq he h = hq a s h
Holds-weaken (err e) s hq he h = he e s h

pub Triple-weaken :
    {S A : Type 0} {P P' : S → Type 0} {Q Q' : A → S → Type 0} {E E' : Exception → S → Type 0}
    (m : Exec S A)
    → ((s : S) → P' s → P s)
    → ((a : A) (s : S) → Q a s → Q' a s)
    → ((e : Exception) (s : S) → E e s → E' e s)
    → Triple P m Q E
    → Triple P' m Q' E'
Triple-weaken m hp hq he t = record {
  at = λ s p. let (r, s') = m s in Holds-weaken r s' hq he (t.at s (hp s p));
}

-- A fact that the state does not appear in, taken out of the precondition.
pub Triple-given :
    {S A : Type 0} {F : Type 0} {P : S → Type 0} {m : Exec S A} {Q : A → S → Type 0}
    {E : Exception → S → Type 0}
    → (F → Triple P m Q E)
    → Triple (λ s. F × P s) m Q E
Triple-given h = record { at = λ s p. (h p.0).at s p.1 }

ran-Holds :
    {S A : Type 0} (m : Exec S A) (s : S) (x : Result A × S)
    → m s ≡ x
    → Holds (λ a s'. (s₁ : S) × (m s₁ ≡ (ok a, s'))) (λ e (s' : S). Unit {0}) x
ran-Holds m s (ok a, s') h = (s, h)
ran-Holds m s (err e, s') h = tt

-- What an action returned, it returned from some state.
pub Triple-ran :
    {S A : Type 0} {P : S → Type 0} (m : Exec S A)
    → Triple P m (λ a s'. (s : S) × (m s ≡ (ok a, s'))) (λ e s. Unit)
Triple-ran m = record { at = λ s p. ran-Holds m s (m s) refl }

-- A result that is lifted is known afterwards, and the state is as it was.
pub Triple-lift :
    {S A : Type 0} {P : S → Type 0} (x : Result A)
    → Triple P (lift x) (λ a s. (x ≡ ok a) × P s) (λ e s. P s)
Triple-lift (ok a) = record { at = λ s p. (refl, p) }
Triple-lift (err e) = record { at = λ s p. p }
