-- ===== src/Lint/Paths/Reachable.antt =====
-- The search of `lint_graph_spec` finds just what the arcs reach.
use perpetua_core.Prelude.{
  ℕ, zero, suc, ◌+◌, ◌≤◌, ◌<◌, String, ◌≡◌, refl, sym, subst, ap, ◌∙◌, ◌⊎◌, ◌↔◌, inl, inr, Bool,
  true, false, Bool-cases, List, [], ◌∷◌, ◌==◌, map, if◌then◌else◌, contains, length, length-map,
  All, All-weaken, Member, eq_iff, arith,
}
use perpetua_core.Lint.Paths.{Arc, targets, Search, push_new, explore, reachable_from, push_unless}

-- There is a path of arcs from `start`: each step is one of the arcs.
pub data Reaches (arcs : List Arc) (start : String) : String → Type 0 where
  here : Reaches arcs start start
  step : {a b : String} → Reaches arcs start a → Member (a, b) arcs → Reaches arcs start b

abbrev pair_ends : {a b c d : String} → ◌≡◌ {A = Arc} (a, b) (c, d) → (a ≡ c) × (b ≡ d)
pair_ends e = (ap (λ (p : Arc). p.0) e, ap (λ (p : Arc). p.1) e)

-- The targets of a name are the ends of its arcs.
Member-targets : (a b : String) (arcs : List Arc) → Member b (targets a arcs) ↔ Member (a, b) arcs
unfolding targets
Member-targets a b [] = (λ h. h, λ h. h)
Member-targets a b ((source, target) ∷ arcs) =
    let more = Member-targets a b arcs in
    elim (Bool-cases (source == a)) [
      | inl e ↦
          let same = (eq_iff source a).0 e in
          rw e (
            λ h. elim h [
              | inl t ↦ inl (ap (λ x. (x, target)) same ∙ ap (λ y. (a, y)) t)
              | inr m ↦ inr (more.0 m)
            ],
            λ h. elim h [ inl p ↦ inl (pair_ends p).1 | inr m ↦ inr (more.1 m) ],
          )
      | inr e ↦ rw e (
        λ h. inr (more.0 h),
        λ h. elim h [ inl p ↦ cc ((eq_iff source a).1 (pair_ends p).0, e) | inr m ↦ more.1 m ],
      )
    ]

module _ (arcs : List Arc) (start : String) where
  -- Soundness: whatever is found or waits has a path.
  push_unless_sound :
      (known : Bool) (t : String) (s : Search)
      → Reaches arcs start t
      → All (Reaches arcs start) s.reachable × All (Reaches arcs start) s.frontier
      → All (Reaches arcs start) (push_unless known t s).reachable
        × All (Reaches arcs start) (push_unless known t s).frontier
  push_unless_sound true t s h found = found
  push_unless_sound false t s h found = ((h, found.0), (h, found.1))

  push_new_sound :
      (ts : List String) (s : Search)
      → All (Reaches arcs start) ts
      → All (Reaches arcs start) s.reachable × All (Reaches arcs start) s.frontier
      → All (Reaches arcs start) (push_new ts s).reachable
        × All (Reaches arcs start) (push_new ts s).frontier
  unfolding push_new
  push_new_sound [] s h found = found
  push_new_sound (t ∷ ts) s h found =
      push_new_sound ts _ h.1 (push_unless_sound (contains t s.reachable) t s h.0 found)

  All-targets :
      (a : String) (ts : List String)
      → Reaches arcs start a
      → ((t : String) → Member t ts → Member t (targets a arcs))
      → All (Reaches arcs start) ts
  All-targets a [] h m = tt
  All-targets a (t ∷ ts) h m = (
    step h ((Member-targets a t arcs).0 (m t (inl refl))),
    All-targets a ts h (λ u k. m u (inr k)),
  )

  explore_sound :
      (fuel : ℕ) (reachable frontier : List String)
      → All (Reaches arcs start) reachable
      → All (Reaches arcs start) frontier
      → All (Reaches arcs start) (explore fuel arcs reachable frontier)
  unfolding explore
  explore_sound zero reachable frontier r f = r
  explore_sound (suc fuel) reachable [] r f = r
  explore_sound (suc fuel) reachable (current ∷ rest) r f =
      let found =
        push_new_sound (targets current arcs) (record { reachable = reachable; frontier = rest })
          (All-targets current (targets current arcs) f.0 (λ t m. m)) (r, f.1) in
      explore_sound fuel _ _ found.0 found.1

contains-All :
    (P : String → Type 0) (name : String) (xs : List String)
    → All P xs
    → contains name xs ≡ true
    → P name
contains-All P name [] h e = cc
contains-All P name (x ∷ xs) h e = elim (Bool-cases (x == name)) [
  | inl f ↦ subst P ((eq_iff x name).0 f) h.0
  | inr f ↦ contains-All P name xs h.1 (rw f at e)
]

-- How many of the pool's entries were not seen.
abbrev unseen : List String → List String → ℕ
unseen [] seen = 0
unseen (x ∷ xs) seen = (if contains x seen then 0 else 1) + unseen xs seen

unseen-le : (t : String) (xs seen : List String) → unseen xs (t ∷ seen) ≤ unseen xs seen
unseen-le t [] seen = omega arith
unseen-le t (x ∷ xs) seen = ground (arith, unseen-le t xs seen)

unseen-lt :
    (t : String) (xs seen : List String)
    → contains t xs ≡ true
    → contains t seen ≡ false
    → unseen xs (t ∷ seen) < unseen xs seen
unseen-lt t [] seen h e = cc
unseen-lt t (x ∷ xs) seen h e = elim (Bool-cases (x == t)) [
  | inl f ↦
      let same = (eq_iff x t).0 f in
      ground (
        arith,
        unseen-le t xs seen,
        subst (λ y. contains y seen ≡ false) (sym same) e,
        (eq_iff t x).1 (sym same),
      )
  | inr f ↦ let less = unseen-lt t xs seen (rw f at h) e in ground (arith, less)
]

-- What one round of pushes does.
record Pushed (pool ts : List String) (s s' : Search) : Type 0 where
  grown : (x : String) → contains x s.reachable ≡ true → contains x s'.reachable ≡ true
  added : (t : String) → Member t ts → contains t s'.reachable ≡ true
  waits :
      (x : String)
      → contains x s'.reachable ≡ true
      → (contains x s.reachable ≡ true) ⊎ (contains x s'.frontier ≡ true)
  keeps : (x : String) → contains x s.frontier ≡ true → contains x s'.frontier ≡ true
  bounded :
      length s'.frontier + unseen pool s'.reachable ≤ length s.frontier + unseen pool s.reachable

push_unless-Pushed :
    (pool : List String) (known : Bool) (t : String) (s : Search)
    → contains t s.reachable ≡ known
    → contains t pool ≡ true
    → Pushed pool (t ∷ []) s (push_unless known t s)
push_unless-Pushed pool true t s e m = record {
  grown = λ x h. h;
  added =
      λ u k. elim k [ inl p ↦ subst (λ v. contains v s.reachable ≡ true) p e | inr n ↦ absurd n ];
  waits = λ x h. inl h;
  keeps = λ x h. h;
  bounded = omega arith;
}
push_unless-Pushed pool false t s e m = record {
  grown = λ x h. ground (arith, h);
  added = λ u k. elim k [ inl p ↦ rw ((eq_iff t u).1 p) refl | inr n ↦ absurd n ];
  waits = λ x h. elim (Bool-cases (t == x)) [ inl f ↦ inr (rw f refl) | inr f ↦ inl (rw f at h) ];
  keeps = λ x h. ground (arith, h);
  bounded = let less = unseen-lt t pool s.reachable m e in omega arith;
}

push_new-Pushed :
    (pool ts : List String) (s : Search)
    → All (λ t. contains t pool ≡ true) ts
    → Pushed pool ts s (push_new ts s)
unfolding push_new
push_new-Pushed pool [] s h = record {
  grown = λ x k. k;
  added = λ t k. absurd k;
  waits = λ x k. inl k;
  keeps = λ x k. k;
  bounded = omega arith;
}
push_new-Pushed pool (t ∷ ts) s h =
    let one = push_unless-Pushed pool (contains t s.reachable) t s refl h.0 in
    let rest = push_new-Pushed pool ts (push_unless (contains t s.reachable) t s) h.1 in
    record {
      grown = λ x k. rest.grown x (one.grown x k);
      added = λ u k. elim k [ inl p ↦ rest.grown u (one.added u (inl p)) | inr m ↦ rest.added u m ];
      waits = λ x k. elim (rest.waits x k) [
        | inr f ↦ inr f
        | inl r ↦ elim (one.waits x r) [ inl r' ↦ inl r' | inr f ↦ inr (rest.keeps x f) ]
      ];
      keeps = λ x k. rest.keeps x (one.keeps x k);
      bounded = let a = one.bounded in let b = rest.bounded in omega arith;
    }

-- Every target of a node that was found is found, or the node waits.
record IsSearched (arcs : List Arc) (reachable frontier : List String) : Type 0 where
  searched :
      (x t : String)
      → contains x reachable ≡ true
      → Member t (targets x arcs)
      → (contains x frontier ≡ true) ⊎ (contains t reachable ≡ true)

abbrev pool_of : List Arc → List String
pool_of arcs = map (λ a. a.1) arcs

targets-same :
    (current source t : String) (arcs : List Arc)
    → (source == current) ≡ true
    → targets current ((source, t) ∷ arcs) ≡ t ∷ targets current arcs
unfolding targets
targets-same current source t arcs e = rw e refl

targets-other :
    (current source t : String) (arcs : List Arc)
    → (source == current) ≡ false
    → targets current ((source, t) ∷ arcs) ≡ targets current arcs
unfolding targets
targets-other current source t arcs e = rw e refl

in_pool :
    (current : String) (arcs : List Arc)
    → All (λ t. contains t (pool_of arcs) ≡ true) (targets current arcs)
unfolding targets
in_pool current [] = tt
in_pool current ((source, t) ∷ arcs) =
    let rest =
      All-weaken (targets current arcs) (λ u h. ground (arith, h)) (in_pool current arcs) in
    elim (Bool-cases (source == current)) [
      | inl e ↦
          subst (All (λ u. contains u (t ∷ pool_of arcs) ≡ true))
            (sym (targets-same current source t arcs e)) (rw ((eq_iff t t).1 refl) refl, rest)
      | inr e ↦
          subst (All (λ u. contains u (t ∷ pool_of arcs) ≡ true))
            (sym (targets-other current source t arcs e)) rest
    ]

next_search-IsSearched :
    (arcs : List Arc) (current : String) (reachable rest : List String)
    → IsSearched arcs reachable (current ∷ rest)
    → (s : Search)
    → Pushed
        (pool_of arcs)
        (targets current arcs)
        (record { reachable = reachable; frontier = rest })
        s
    → IsSearched arcs s.reachable s.frontier
next_search-IsSearched arcs current reachable rest h s p = record {
  searched = λ x t found m. elim (p.waits x found) [
    | inr f ↦ inl f
    | inl old ↦ elim (h.searched x t old m) [
      | inr known ↦ inr (p.grown t known)
      | inl waiting ↦ elim (Bool-cases (current == x)) [
        | inl e ↦
            inr
              (p.added t (subst (λ y. Member t (targets y arcs)) (sym ((eq_iff current x).0 e)) m))
        | inr e ↦ inl (p.keeps x (rw e at waiting))
      ]
    ]
  ];
}

explore-IsSearched :
    (fuel : ℕ) (arcs : List Arc) (reachable frontier : List String)
    → length frontier + unseen (pool_of arcs) reachable < fuel
    → IsSearched arcs reachable frontier
    → IsSearched arcs (explore fuel arcs reachable frontier) []
unfolding explore
explore-IsSearched zero arcs reachable frontier f h = elim f [ ]
explore-IsSearched (suc fuel) arcs reachable [] f h = h
explore-IsSearched (suc fuel) arcs reachable (current ∷ rest) f h =
    let p =
      push_new-Pushed (pool_of arcs) (targets current arcs)
        (record { reachable = reachable; frontier = rest }) (in_pool current arcs) in
    explore-IsSearched fuel arcs _ _ (let b = p.bounded in omega arith)
      (next_search-IsSearched arcs current reachable rest h _ p)

Reaches-contains :
    (arcs : List Arc) (start : String) (found : List String)
    → contains start found ≡ true
    → IsSearched arcs found []
    → {name : String} → Reaches arcs start name
    → contains name found ≡ true
Reaches-contains arcs start found first h here = first
Reaches-contains arcs start found first h (step {a} {b} path m) =
    elim (h.searched a b (Reaches-contains arcs start found first h path)
      ((Member-targets a b arcs).1 m)) [ inl e ↦ cc e | inr e ↦ e ]

explore-grown :
    (fuel : ℕ) (arcs : List Arc) (reachable frontier : List String) (x : String)
    → contains x reachable ≡ true
    → contains x (explore fuel arcs reachable frontier) ≡ true
unfolding explore
explore-grown zero arcs reachable frontier x h = h
explore-grown (suc fuel) arcs reachable [] x h = h
explore-grown (suc fuel) arcs reachable (current ∷ rest) x h =
    let p =
      push_new-Pushed (pool_of arcs) (targets current arcs)
        (record { reachable = reachable; frontier = rest }) (in_pool current arcs) in
    explore-grown fuel arcs _ _ x (p.grown x h)

unseen-le-length : (xs seen : List String) → unseen xs seen ≤ length xs
unseen-le-length [] seen = omega arith
unseen-le-length (x ∷ xs) seen = ground (arith, unseen-le-length xs seen)

-- The search that lint makes over the arcs finds exactly the names to which a path of arcs leads from
-- the start, the start itself included.
pub reachable_from-iff-Reaches :
    (arcs : List Arc) (start name : String)
    → (contains name (reachable_from start arcs) ≡ true) ↔ Reaches arcs start name
unfolding reachable_from
reachable_from-iff-Reaches arcs start name =
    let self : (start == start) ≡ true = (eq_iff start start).1 refl in
    let fuel = suc (suc (length arcs)) in
    let first : contains start (start ∷ []) ≡ true = rw self refl in
    let enough : 1 + unseen (pool_of arcs) (start ∷ []) < fuel =
      omega
        (arith, unseen-le-length (pool_of arcs) (start ∷ []), length-map (λ (a : Arc). a.1) arcs) in
    let initial : IsSearched arcs (start ∷ []) (start ∷ []) = record {
      searched = λ x t h m. inl h;
    } in
    (
      contains-All (Reaches arcs start) name _
          (explore_sound arcs start fuel (start ∷ []) (start ∷ []) (here, tt) (here, tt)),
      Reaches-contains arcs start _ (explore-grown fuel arcs (start ∷ []) (start ∷ []) start first)
          (explore-IsSearched fuel arcs (start ∷ []) (start ∷ []) enough initial),
    )
