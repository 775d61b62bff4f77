-- ===== src/Exec/Returns.antt =====
-- Actions that always return: a `Triple` with no precondition and no exception.
use perpetua_core.Prelude.{Option, none, some, Bool, true, false}
use perpetua_core.Errors.{Result, ok, err}
use perpetua_core.Exec.{Exec, pure, captured, attempt, ◌>>=◌}
use perpetua_core.Exec.Triple.{Holds, Triple, Triple-bind, Triple-weaken}

abbrev pub Returns : {S A : Type 0} → Exec S A → (A → Type 0) → Type 0
Returns m Q = Triple (λ s. Unit) m (λ a s. Q a) (λ e s. ⊥)

module _ {S A : Type 0} {Q : A → Type 0} where
  pub Returns-pure : (a : A) → Q a → Returns {S = S} (pure a) Q
  Returns-pure a q = record { at = λ s u. q }

  pub Returns-option :
      {B : Type 0} (o : Option B) (m : Exec S A) (f : B → Exec S A)
      → Returns m Q
      → ((b : B) → Returns (f b) Q)
      → Returns (elim o [ none ↦ m | some b ↦ f b ]) Q
  Returns-option none m f hm hf = hm
  Returns-option (some b) m f hm hf = hf b

  pub Returns-true :
      (b : Bool) (m n : Exec S A)
      → Returns m Q
      → Returns n Q
      → Returns (elim b [ true ↦ m | false ↦ n ]) Q
  Returns-true true m n hm hn = hm
  Returns-true false m n hm hn = hn

  -- Only what the first part ensures reaches the second.
  pub Returns-bind :
      {B : Type 0} {R : B → Type 0} (m : Exec S B) (f : B → Exec S A)
      → Returns m R
      → ((b : B) → R b → Returns (f b) Q)
      → Returns (m >>= f) Q
  Returns-bind m f hm hf = Triple-bind m f hm (λ b. record { at = λ s r. (hf b r).at s tt })

-- The same where the first result is only passed on.
pub Returns-then :
    {S A B : Type 0} {Q : A → Type 0} (m : Exec S B) (f : B → Exec S A)
    → Returns m (λ b. Unit)
    → ((b : B) → Returns (f b) Q)
    → Returns (m >>= f) Q
Returns-then m f hm hf = Returns-bind m f hm (λ b u. hf b)

pub Returns-weaken :
    {S A : Type 0} {Q R : A → Type 0} {m : Exec S A}
    → ((a : A) → Q a → R a)
    → Returns m Q
    → Returns m R
Returns-weaken {m} h q = Triple-weaken m (λ s p. p) (λ a s. h a) (λ e s b. b) q

captured-Holds :
    {S A : Type 0} (r : Result A) (s : S)
    → Holds (λ (a : Result A) (s' : S). Unit {0}) (λ e s'. ⊥) (captured (r, s))
captured-Holds (ok a) s = tt
captured-Holds (err e) s = tt

-- A captured exception is a value.
pub Returns-attempt : {S A : Type 0} (m : Exec S A) → Returns (attempt m) (λ r. Unit)
unfolding attempt
Returns-attempt m = record { at = λ s u. let (r, s') = m s in captured-Holds r s' }

pub Returns-Triple :
    {S A : Type 0} {Q : A → Type 0} {m : Exec S A}
    → Returns m Q
    → Triple (λ s. Unit) m (λ a s. Q a) (λ e s. Unit)
Returns-Triple {m} t = Triple-weaken m (λ s p. p) (λ a s q. q) (λ e s b. tt) t
