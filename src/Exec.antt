-- ===== src/Exec.antt =====
-- Code with effects that may raise: a state goes in, and comes back beside the result. What was done
-- before an exception stays done.
pub mod Triple
pub mod Returns
pub mod Laws
use perpetua_core.Errors.{Exception, Result, ok, err}

abbrev pub Exec : Type 0 → Type 0 → Type 0
Exec S A = S → Result A × S

module _ {S A : Type 0} where
  abbrev pub pure : A → Exec S A
  pure a s = (ok a, s)

  abbrev pub raise : Exception → Exec S A
  raise e s = (err e, s)

  abbrev pub lift : Result A → Exec S A
  lift r s = (r, s)

  -- `try: m` with every exception caught and handed on as a value.
  abbrev pub captured : Result A × S → Result (Result A) × S
  captured (ok a, s) = (ok (ok a), s)
  captured (err e, s) = (ok (err e), s)

  unfoldable pub attempt : Exec S A → Exec S (Result A)
  attempt m s = captured (m s)

module _ {S A B : Type 0} where
  abbrev pub then_run : (A → Exec S B) → Result A × S → Result B × S
  then_run f (ok a, s) = f a s
  then_run f (err e, s) = (err e, s)

  infixl 5 ◌>>=◌ ◌>>◌
  unfoldable pub ◌>>=◌ : Exec S A → (A → Exec S B) → Exec S B
  ◌>>=◌ m f s = then_run f (m s)

  abbrev pub ◌>>◌ : Exec S A → Exec S B → Exec S B
  m >> k = m >>= λ _. k
