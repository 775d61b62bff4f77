-- ===== src/Errors.antt =====
-- The exceptions that the kernel raises or passes on, and results that may be one. They are those of
-- Python's class Exception: CancelledError and every other BaseException are left out.
-- Messages are left out; what a handler can read (type name, fields) is kept.
use perpetua_core.Prelude.{◌≡◌, refl, ℕ, String, Bool, true, false, List, [], ◌∷◌, ◌⊎◌, inl, inr}
use perpetua_core.Value.{Value}

-- What a gate was asked when it refused: gate.py's `DispatchRequest` or `CommitRequest`, by its
-- boundary's name and its nodes.
pub record Refused : Type 0 where
  pub boundary : String
  pub nodes : List String
  pub reason : Value

mutual
  pub data Exception : Type 0 where
    -- interrupts.py's `Interrupt`: the prompt and the payload
    interrupt : Value → Value → Exception
    -- an exception that user code raises, by its type's name and its identity
    user : String → ℕ → Exception
    type_error : Exception
    value_error : Exception
    key_error : Exception
    attribute_error : Exception
    index_error : Exception
    runtime_error : Exception
    not_implemented_error : Exception
    -- the completed steps and the last node
    max_steps_exceeded : ℕ → String → Exception
    -- the field and the branches
    reducer_conflict : String → List String → Exception
    gate_refused : Refused → Exception
    exception_group : Exceptions → Exception

  pub data Exceptions : Type 0 where
    nil : Exceptions
    cons : Exception → Exceptions → Exceptions

unfoldable pub to_exceptions : List Exception → Exceptions
to_exceptions [] = nil
to_exceptions (e ∷ es) = cons e (to_exceptions es)

-- `type(e).__name__`
unfoldable pub type_name : Exception → String
type_name (interrupt p v) = "Interrupt"
type_name (user t i) = t
type_name type_error = "TypeError"
type_name value_error = "ValueError"
type_name key_error = "KeyError"
type_name attribute_error = "AttributeError"
type_name index_error = "IndexError"
type_name runtime_error = "RuntimeError"
type_name not_implemented_error = "NotImplementedError"
type_name (max_steps_exceeded n l) = "MaxStepsExceeded"
type_name (reducer_conflict f b) = "ReducerConflict"
type_name (gate_refused r) = "GateRefused"
type_name (exception_group es) = "ExceptionGroup"

pub data Result {ℓ} (A : Type ℓ) : Type ℓ where
  ok : A → Result A
  err : Exception → Result A

infixl 5 ◌>>=◌ ◌>>◌
abbrev pub ◌>>=◌ {ℓ κ} : {A : Type ℓ} {B : Type κ} → Result A → (A → Result B) → Result B
ok a >>= f = f a
err e >>= f = err e

abbrev pub ◌>>◌ {ℓ κ} : {A : Type ℓ} {B : Type κ} → Result A → Result B → Result B
m >> k = m >>= λ _. k

abbrev pub guard : Bool → Exception → Result (Unit {0})
guard true e = ok tt
guard false e = err e

-- Inversion of a chain that did not raise.
pub >>=-ok {ℓ κ} :
    {A : Type ℓ} {B : Type κ} {next : A → Result B} {b : B} (r : Result A)
    → (r >>= next) ≡ ok b
    → (a : A) × (next a ≡ ok b) × (r ≡ ok a)
>>=-ok (ok a) returned = (a, returned, refl)
>>=-ok (err e) returned = cc

pub ok-injective {ℓ} : {A : Type ℓ} {a b : A} → ok a ≡ ok b → a ≡ b
ok-injective h = cc

pub guard-ok : (b : Bool) (e : Exception) (u : Unit {0}) → guard b e ≡ ok u → b ≡ true
guard-ok true e u h = refl
guard-ok false e u h = cc

pub Result-cases {ℓ} :
    {A : Type ℓ} (r : Result A) → ((a : A) × (r ≡ ok a)) ⊎ ((e : Exception) × (r ≡ err e))
Result-cases (ok a) = inl (a, refl)
Result-cases (err e) = inr (e, refl)

-- What holds of the value, where there is one; and of the value of a chain, if of that of its last part.
abbrev pub Holds {ℓ κ} : {A : Type ℓ} → (A → Type κ) → Result A → Type (ℓ ⊔ κ)
Holds {A} P r = (a : A) → r ≡ ok a → P a

pub >>=-Holds {ℓ κ μ} :
    {A : Type ℓ} {B : Type κ} {next : A → Result B} (P : B → Type μ) (r : Result A)
    → ((a : A) → r ≡ ok a → Holds P (next a))
    → Holds P (r >>= next)
>>=-Holds P (ok a) h = h a refl
>>=-Holds P (err e) h = λ b returned. cc
