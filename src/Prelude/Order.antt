-- ===== src/Prelude/Order.antt =====
-- Comparisons that answer in an `Ordering`, and the stable sort by one: Python's `sorted` by a key.
use Prim.Native.Nat.{Ordering, compare as compare_ℕ}
use Prim.Native.Char.{code}
use Prim.Native.String.compare
use Prim.Native.String.{String, compare, then as then_by}
use text.Mathlib.Text.{is_le}
use mathlib.Core.Path.{◌≡◌, refl, sym, ap, ◌∙◌, subst}
use mathlib.Core.Bool.{Bool, true, false, ◌||◌}
use mathlib.Core.Logic.{inl, inr}
use mathlib.Core.List.{List, [], ◌∷◌, Perm}
use mathlib.Core.List.Perm
use native.Mathlib.Omega.{arith}
use perpetua_core.Prelude.Tests.{if◌then◌else◌, Bool-cases}
use perpetua_core.Prelude.Lists.{All, any}

abbrev pub flip : Ordering → Ordering
flip Ordering.lt = Ordering.gt
flip Ordering.eq = Ordering.eq
flip Ordering.gt = Ordering.lt

-- Two comparisons of one pair agree.
abbrev pub IsDual {ℓ} : {A : Type ℓ} → (A → A → Ordering) → Type ℓ
IsDual {A} cmp = (a b : A) → cmp b a ≡ flip (cmp a b)

flipped : (o : Ordering) → is_le o ≡ false → is_le (flip o) ≡ true
flipped Ordering.gt e = refl
flipped Ordering.lt e = cc
flipped Ordering.eq e = cc

flip-then_by : (o p : Ordering) → then_by (flip o) (flip p) ≡ flip (then_by o p)
flip-then_by Ordering.lt p = refl
flip-then_by Ordering.eq p = refl
flip-then_by Ordering.gt p = refl

compare_ℕ-IsDual : IsDual compare_ℕ
compare_ℕ-IsDual m n = ground arith

-- Python compares texts by their code points.
pub compare_text-IsDual : IsDual compare
compare_text-IsDual String.[] String.[] = refl
compare_text-IsDual String.[] (String.◌∷◌ d t) =
    compare.cons-nil d t ∙ ap flip (sym (compare.nil-cons d t))
compare_text-IsDual (String.◌∷◌ c s) String.[] =
    compare.nil-cons c s ∙ ap flip (sym (compare.cons-nil c s))
compare_text-IsDual (String.◌∷◌ c s) (String.◌∷◌ d t) =
    compare.cons-cons d c t s
    ∙ rw (compare_ℕ-IsDual (code c) (code d), compare_text-IsDual s t)
        (flip-then_by (compare_ℕ (code c) (code d)) (compare s t))
    ∙ ap flip (sym (compare.cons-cons c d s t))

-- Python compares tuples and lists by their first different items, and then by length.
abbrev pub lex {ℓ} : {A : Type ℓ} → (A → A → Ordering) → List A → List A → Ordering
lex cmp [] [] = Ordering.eq
lex cmp [] (y ∷ ys) = Ordering.lt
lex cmp (x ∷ xs) [] = Ordering.gt
lex cmp (x ∷ xs) (y ∷ ys) = then_by (cmp x y) (lex cmp xs ys)

pub lex-IsDual {ℓ} : {A : Type ℓ} (cmp : A → A → Ordering) → IsDual cmp → IsDual (lex cmp)
lex-IsDual cmp dual [] [] = refl
lex-IsDual cmp dual [] (y ∷ ys) = refl
lex-IsDual cmp dual (x ∷ xs) [] = refl
lex-IsDual cmp dual (x ∷ xs) (y ∷ ys) =
    rw (dual x y, lex-IsDual cmp dual xs ys) (flip-then_by (cmp x y) (lex cmp xs ys))

-- The order of keys, on the elements that have them.
abbrev pub by_key {ℓ κ} :
    {A : Type ℓ} {K : Type κ} → (K → K → Ordering) → (A → K) → A → A → Ordering
by_key cmp key a b = cmp (key a) (key b)

module _ {A : Type 0} (cmp : A → A → Ordering) where
  unfoldable pub insert_by : A → List A → List A
  insert_by x [] = x ∷ []
  insert_by x (y ∷ ys) =
      let rest = insert_by x ys in if is_le (cmp x y) then x ∷ y ∷ ys else y ∷ rest

  -- `sorted(xs, key=...)`: elements with equal keys keep their order.
  unfoldable pub sort_by : List A → List A
  unfolding insert_by
  sort_by [] = []
  sort_by (x ∷ xs) = insert_by x (sort_by xs)

  insert_by-perm : (x : A) (ys : List A) → Perm (insert_by x ys) (x ∷ ys)
  unfolding insert_by
  insert_by-perm x [] = Perm.refl _
  insert_by-perm x (y ∷ ys) = ground (
    arith,
    Perm.trans (Perm.cons y (insert_by-perm x ys)) (Perm.swap x y ys),
    Perm.refl (x ∷ y ∷ ys),
  )

  pub sort_by-perm : (xs : List A) → Perm (sort_by xs) xs
  unfolding sort_by
  sort_by-perm [] = Perm.refl []
  sort_by-perm (x ∷ xs) = Perm.trans (insert_by-perm x (sort_by xs)) (Perm.cons x (sort_by-perm xs))

  -- Each element is at most the next.
  abbrev pub Heads : A → List A → Type 0
  Heads x [] = Unit
  Heads x (y ∷ ys) = is_le (cmp x y) ≡ true

  abbrev pub IsAscending : List A → Type 0
  IsAscending [] = Unit
  IsAscending (x ∷ xs) = Heads x xs × IsAscending xs

  insert_by-Heads :
      (x y : A) (ys : List A) → Heads y ys → is_le (cmp y x) ≡ true → Heads y (insert_by x ys)
  unfolding insert_by
  insert_by-Heads x y [] h e = e
  insert_by-Heads x y (z ∷ zs) h e = elim (Bool-cases (is_le (cmp x z))) [
    | inl f ↦ rw f e
    | inr f ↦ rw f h
  ]

  insert_by-IsAscending :
      IsDual cmp → (x : A) (ys : List A) → IsAscending ys → IsAscending (insert_by x ys)
  unfolding insert_by
  insert_by-IsAscending dual x [] h = (tt, tt)
  insert_by-IsAscending dual x (y ∷ ys) h = elim (Bool-cases (is_le (cmp x y))) [
    | inl f ↦ rw f (f, h)
    | inr f ↦ rw f (
      insert_by-Heads x y ys h.0 (rw (dual x y) (flipped (cmp x y) f)),
      insert_by-IsAscending dual x ys h.1,
    )
  ]

  pub sort_by-IsAscending : IsDual cmp → (xs : List A) → IsAscending (sort_by xs)
  unfolding sort_by
  sort_by-IsAscending dual [] = tt
  sort_by-IsAscending dual (x ∷ xs) =
      insert_by-IsAscending dual x (sort_by xs) (sort_by-IsAscending dual xs)

  insert_by-front : (x : A) (ys : List A) → Heads x ys → insert_by x ys ≡ x ∷ ys
  unfolding insert_by
  insert_by-front x [] h = refl
  insert_by-front x (y ∷ ys) h = rw h refl

  -- What is in order stays as it is.
  pub sort_by-of_IsAscending : (xs : List A) → IsAscending xs → sort_by xs ≡ xs
  unfolding sort_by
  sort_by-of_IsAscending [] h = refl
  sort_by-of_IsAscending (x ∷ xs) h = rw (sort_by-of_IsAscending xs h.1) (insert_by-front x xs h.0)

module _ {A : Type 0} (cmp : A → A → Ordering) where
  any-insert_by :
      (test : A → Bool) (x : A) (ys : List A)
      → any test (insert_by cmp x ys) ≡ (test x || any test ys)
  unfolding insert_by
  any-insert_by test x [] = refl
  any-insert_by test x (y ∷ ys) = ground (arith, any-insert_by test x ys)

  -- Sorting does not change what is there.
  pub any-sort_by : (test : A → Bool) (xs : List A) → any test (sort_by cmp xs) ≡ any test xs
  unfolding sort_by
  any-sort_by test [] = refl
  any-sort_by test (x ∷ xs) =
      any-insert_by test x (sort_by cmp xs) ∙ ap (λ b. test x || b) (any-sort_by test xs)

  insert_by-here :
      (x y : A) (ys : List A) → is_le (cmp x y) ≡ true → insert_by cmp x (y ∷ ys) ≡ x ∷ y ∷ ys
  unfolding insert_by
  insert_by-here x y ys e = rw e refl

  insert_by-later :
      (x y : A) (ys : List A)
      → is_le (cmp x y) ≡ false
      → insert_by cmp x (y ∷ ys) ≡ y ∷ insert_by cmp x ys
  unfolding insert_by
  insert_by-later x y ys e = rw e refl

  All-of_insert_by :
      (P : A → Type 0) (x : A) (ys : List A) → All P (insert_by cmp x ys) → P x × All P ys
  unfolding insert_by
  All-of_insert_by P x [] h = h
  All-of_insert_by P x (y ∷ ys) h = elim (Bool-cases (is_le (cmp x y))) [
    | inl e ↦ subst (All P) (insert_by-here x y ys e) h
    | inr e ↦
        let tail = subst (All P) (insert_by-later x y ys e) h in
        let rest = All-of_insert_by P x ys tail.1 in (rest.0, (tail.0, rest.1))
  ]

  pub All-of_sort_by : (P : A → Type 0) (xs : List A) → All P (sort_by cmp xs) → All P xs
  unfolding sort_by
  All-of_sort_by P [] h = tt
  All-of_sort_by P (x ∷ xs) h =
      let rest = All-of_insert_by P x (sort_by cmp xs) h in (rest.0, All-of_sort_by P xs rest.1)

  All-insert_by :
      (P : A → Type 0) (x : A) (ys : List A) → P x → All P ys → All P (insert_by cmp x ys)
  unfolding insert_by
  All-insert_by P x [] p ps = (p, tt)
  All-insert_by P x (y ∷ ys) p ps = elim (Bool-cases (is_le (cmp x y))) [
    | inl e ↦ subst (All P) (sym (insert_by-here x y ys e)) (p, ps)
    | inr e ↦ subst (All P) (sym (insert_by-later x y ys e)) (ps.0, All-insert_by P x ys p ps.1)
  ]

  pub All-sort_by : (P : A → Type 0) (xs : List A) → All P xs → All P (sort_by cmp xs)
  unfolding sort_by
  All-sort_by P [] ps = tt
  All-sort_by P (x ∷ xs) ps = All-insert_by P x (sort_by cmp xs) ps.0 (All-sort_by P xs ps.1)

  -- Sorting again changes nothing.
  pub sort_by-sort_by : IsDual cmp → (xs : List A) → sort_by cmp (sort_by cmp xs) ≡ sort_by cmp xs
  sort_by-sort_by dual xs =
      sort_by-of_IsAscending cmp (sort_by cmp xs) (sort_by-IsAscending cmp dual xs)

pub is_le-then_by : (o p : Ordering) → is_le (then_by o p) ≡ true → is_le o ≡ true
is_le-then_by Ordering.lt p h = refl
is_le-then_by Ordering.eq p h = refl
is_le-then_by Ordering.gt p h = h

-- What is in order by a finer comparison is in order.
pub IsAscending-coarser :
    {A : Type 0} (cmp other : A → A → Ordering)
    → ((a b : A) → is_le (cmp a b) ≡ true → is_le (other a b) ≡ true)
    → (xs : List A) → IsAscending cmp xs
    → IsAscending other xs
IsAscending-coarser cmp other le [] h = tt
IsAscending-coarser cmp other le (x ∷ []) h = (tt, tt)
IsAscending-coarser cmp other le (x ∷ y ∷ ys) h =
    (le x y h.0, IsAscending-coarser cmp other le (y ∷ ys) h.1)
