-- ===== src/Prelude/Lists.antt =====
-- Lists measured by native numbers, with Boolean searches that run in tests.
use Prim.Native.Nat.{ℕ, suc, ◌+◌, ◌≤◌}
use Prim.Native.String.{String}
use text.Mathlib.Text.{◌==◌}
use mathlib.Core.Path.{◌≡◌, refl, ap, sym, ◌∙◌}
use mathlib.Core.Bool.{Bool, true, false, ◌||◌, ◌&&◌}
use mathlib.Core.Option.{Option, none, some}
use mathlib.Core.List.{List, [], ◌∷◌, ◌++◌, map}
use native.Mathlib.Omega.{arith}
use mathlib.Core.Logic.{inl, inr, ◌⊎◌}
use perpetua_core.Prelude.Tests.{if◌then◌else◌, Bool-cases}

module _ {ℓ} {A : Type ℓ} where
  abbrev pub length : List A → ℕ
  length [] = 0
  length (x ∷ xs) = suc (length xs)

  -- `[x for x in xs if test(x)]`
  abbrev pub keep : (A → Bool) → List A → List A
  keep test [] = []
  keep test (x ∷ xs) = let rest = keep test xs in if test x then x ∷ rest else rest

  abbrev pub any : (A → Bool) → List A → Bool
  any test [] = false
  any test (x ∷ xs) = test x || any test xs

  abbrev pub head? : List A → Option A
  head? [] = none
  head? (x ∷ xs) = some x

  -- A predicate on every element, which computes to a tuple.
  abbrev pub All {κ} : (A → Type κ) → List A → Type κ
  All P [] = Unit
  All P (x ∷ xs) = P x × All P xs

  pub length-append : (xs ys : List A) → length (xs ++ ys) ≡ length xs + length ys
  length-append [] ys = omega arith
  length-append (x ∷ xs) ys = omega (arith, length-append xs ys)

  pub All-snoc {κ} :
      (P : A → Type κ) (last : A) (xs : List A) → P last → All P xs → All P (xs ++ last ∷ [])
  All-snoc P last [] h hs = (h, tt)
  All-snoc P last (x ∷ xs) h hs = (hs.0, All-snoc P last xs h hs.1)

pub length-map {ℓ κ} :
    {A : Type ℓ} {B : Type κ} (f : A → B) (xs : List A) → length (map f xs) ≡ length xs
length-map f [] = refl
length-map f (x ∷ xs) = ap suc (length-map f xs)

-- `name in names`
abbrev pub contains : String → List String → Bool
contains k [] = false
contains k (x ∷ xs) = x == k || contains k xs

-- Some of the elements, in their order.
pub data Subsequence {A : Type 0} : List A → List A → Type 0 where
  stop : Subsequence [] []
  skip : {x : A} {xs ys : List A} → Subsequence xs ys → Subsequence xs (x ∷ ys)
  take : {x : A} {xs ys : List A} → Subsequence xs ys → Subsequence (x ∷ xs) (x ∷ ys)

module _ {A : Type 0} where
  pub Subsequence-refl : (xs : List A) → Subsequence xs xs
  Subsequence-refl [] = Subsequence.stop
  Subsequence-refl (x ∷ xs) = Subsequence.take (Subsequence-refl xs)

  pub Subsequence-nil : (xs : List A) → Subsequence [] xs
  Subsequence-nil [] = Subsequence.stop
  Subsequence-nil (x ∷ xs) = Subsequence.skip (Subsequence-nil xs)

  pub Subsequence-length : {xs ys : List A} → Subsequence xs ys → length xs ≤ length ys
  Subsequence-length Subsequence.stop = omega arith
  Subsequence-length (Subsequence.skip s) = omega (arith, Subsequence-length s)
  Subsequence-length (Subsequence.take s) = omega (arith, Subsequence-length s)

  pub keep-Subsequence : (test : A → Bool) (xs : List A) → Subsequence (keep test xs) xs
  keep-Subsequence test [] = Subsequence.stop
  keep-Subsequence test (x ∷ xs) =
      let rest = keep-Subsequence test xs in
      elim (Bool-cases (test x)) [
        | inl e ↦ rw e (Subsequence.take rest)
        | inr e ↦ rw e (Subsequence.skip rest)
      ]

-- `for x in xs: if test(x): return x`
abbrev pub first {ℓ} : {A : Type ℓ} → (A → Bool) → List A → Option A
first test [] = none
first test (x ∷ xs) = let rest = first test xs in if test x then some x else rest

abbrev pub Member : {A : Type 0} → A → List A → Type 0
Member x [] = ⊥
Member x (y ∷ ys) = (y ≡ x) ⊎ Member x ys

module _ {A : Type 0} where
  -- A search finds an element that passes, or none does.
  pub first-cases :
      (test : A → Bool) (xs : List A)
      → (first test xs ≡ none) × All (λ x. test x ≡ false) xs
        ⊎ ((x : A) × (first test xs ≡ some x) × Member x xs × (test x ≡ true))
  first-cases test [] = inl (refl, tt)
  first-cases test (x ∷ xs) = elim (Bool-cases (test x)) [
    | inl e ↦ inr (x, rw e refl, inl refl, e)
    | inr e ↦ rw e (elim (first-cases test xs) [
      | inl (missing, fails) ↦ inl (missing, (refl, fails))
      | inr (y, found, member, passes) ↦ inr (y, found, inr member, passes)
    ])
  ]

  pub All-weaken {κ μ} :
      {P : A → Type κ} {Q : A → Type μ} (xs : List A) → ((x : A) → P x → Q x) → All P xs → All Q xs
  All-weaken [] h ps = tt
  All-weaken (x ∷ xs) h ps = (h x ps.0, All-weaken xs h ps.1)

  pub All-always {κ} : {P : A → Type κ} (xs : List A) → ((x : A) → P x) → All P xs
  All-always [] h = tt
  All-always (x ∷ xs) h = (h x, All-always xs h)

  pub All-both {κ μ} :
      (P : A → Type κ) (Q : A → Type μ) (xs : List A)
      → All P xs
      → All Q xs
      → All (λ x. P x × Q x) xs
  All-both P Q [] ps qs = tt
  All-both P Q (x ∷ xs) ps qs = ((ps.0, qs.0), All-both P Q xs ps.1 qs.1)

  pub All-keep :
      (test other : A → Bool) (xs : List A)
      → All (λ x. other x ≡ false) (keep test xs)
      → All (λ x. test x && other x ≡ false) xs
  All-keep test other [] h = tt
  All-keep test other (x ∷ xs) h = elim (Bool-cases (test x)) [
    | inl e ↦ let fails = rw e at h in (rw (e, fails.0) refl, All-keep test other xs fails.1)
    | inr e ↦ (rw e refl, All-keep test other xs (rw e at h))
  ]

  pub All-of_keep {κ} :
      (P : A → Type κ) (test : A → Bool) (xs : List A)
      → All P (keep test xs)
      → All (λ x. test x ≡ true → P x) xs
  All-of_keep P test [] h = tt
  All-of_keep P test (x ∷ xs) h = elim (Bool-cases (test x)) [
    | inl e ↦ let all = rw e at h in (λ k. all.0, All-of_keep P test xs all.1)
    | inr e ↦ (λ k. ground arith, All-of_keep P test xs (rw e at h))
  ]

  pub Member-keep :
      (test : A → Bool) (x : A) (xs : List A)
      → Member x (keep test xs)
      → Member x xs × (test x ≡ true)
  Member-keep test x [] h = absurd h
  Member-keep test x (y ∷ ys) h = elim (Bool-cases (test y)) [
    | inl e ↦ elim (rw e at h) [
      | inl p ↦ (inl p, ap test (sym p) ∙ e)
      | inr m ↦ let (member, passes) = Member-keep test x ys m in (inr member, passes)
    ]
    | inr e ↦ let (member, passes) = Member-keep test x ys (rw e at h) in (inr member, passes)
  ]
