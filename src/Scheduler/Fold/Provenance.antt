-- ===== src/Scheduler/Fold/Provenance.antt =====
-- `_fold`: each field is folded from all the writes to it, and its provenance names their branches.
use perpetua_core.Exec.Triple.{Triple, Triple-bind, Triple-any, Triple-elim_option, Triple-weaken}
use perpetua_core.Errors.{ok-injective, err}
use perpetua_core.Prelude.{
  String, ◌≡◌, refl, ap, sym, ◌∙◌, Bool, true, false, Bool-cases, inl, inr, ◌||◌, Option, none,
  some, List, [], ◌∷◌, ◌++◌, append_assoc, append-nil, ◌==◌, if◌then◌else◌, contains,
  contains-sorted, arith, Dict, lookup, assign, lookup-assign, keys, sorted, Option-cases, eq_iff,
  subst,
}
use perpetua_core.Value.{Value}
use perpetua_core.Reducers.{Contribution, names}
use perpetua_core.Graph.{NodeDelta}
use perpetua_core.Scheduler.{Invocation, Result}
use perpetua_core.Scheduler.Admit.{Admitted}
use perpetua_core.Scheduler.Fold.{
  contribute, contribute_all, gather, contributions, Folded, FoldResult, folded, boundary_stopped,
  contributions_of, fold_keys, fold, ok, DispatchRequest, lift,
}

-- The writes to `key` of one branch, and of all of them in the order of the branches.
abbrev pub writes_of : String → String → NodeDelta → List Contribution
writes_of key name [] = []
writes_of key name ((j, value) ∷ delta) =
    let rest = writes_of key name delta in if j == key then (name, value) ∷ rest else rest

abbrev pub writes : String → List Admitted → List Contribution
writes key [] = []
writes key ((name, delta) ∷ admitted) = writes_of key name delta ++ writes key admitted

-- A key that nobody wrote has no entry.
abbrev pub entry : List Contribution → Option (List Contribution)
entry [] = none
entry (c ∷ cs) = some (c ∷ cs)

entry-snoc :
    (cs : List Contribution) (c : Contribution) → entry (cs ++ c ∷ []) ≡ some (cs ++ c ∷ [])
entry-snoc [] c = refl
entry-snoc (d ∷ cs) c = refl

module _ (key : String) where
  contribute-other :
      (j name : String) (value : Value) (cs : Dict (List Contribution))
      → (j == key) ≡ false
      → lookup key (contribute j name value cs) ≡ lookup key cs
  unfolding contribute
  contribute-other j name value cs other = elim (Option-cases (lookup j cs)) [
    | inl e ↦ rw (contribute, e, lookup-assign, other)
    | inr (earlier, e) ↦ rw (contribute, e, lookup-assign, other)
  ]

  contribute-same :
      (name : String) (value : Value) (cs : Dict (List Contribution)) (ws : List Contribution)
      → lookup key cs ≡ entry ws
      → lookup key (contribute key name value cs) ≡ some (ws ++ (name, value) ∷ [])
  unfolding contribute
  contribute-same name value cs [] h = rw (contribute, h, lookup-assign, (eq_iff key key).1 refl)
  contribute-same name value cs (c ∷ ws) h =
      rw (contribute, h, lookup-assign, (eq_iff key key).1 refl)

  contribute_all-entry :
      (name : String) (delta : NodeDelta) (cs : Dict (List Contribution)) (ws : List Contribution)
      → lookup key cs ≡ entry ws
      → lookup key (contribute_all name delta cs) ≡ entry (ws ++ writes_of key name delta)
  unfolding contribute_all
  contribute_all-entry name [] cs ws h = rw append-nil h
  contribute_all-entry name ((j, value) ∷ delta) cs ws h = elim (Bool-cases (j == key)) [
    | inl e ↦ rw e (
        contribute_all-entry name delta (contribute j name value cs) (ws ++ (name, value) ∷ []) (
          subst (λ k. lookup key (contribute k name value cs) ≡ entry (ws ++ (name, value) ∷ []))
            (sym ((eq_iff j key).0 e))
            (contribute-same name value cs ws h ∙ sym (entry-snoc ws (name, value))))
        ∙ ap entry (append_assoc ws ((name, value) ∷ []) (writes_of key name delta)))
    | inr e ↦ rw e (
        contribute_all-entry name delta (contribute j name value cs) ws
          (contribute-other j name value cs e ∙ h))
  ]

  gather-entry :
      (admitted : List Admitted) (cs : Dict (List Contribution)) (ws : List Contribution)
      → lookup key cs ≡ entry ws
      → lookup key (gather admitted cs) ≡ entry (ws ++ writes key admitted)
  unfolding gather
  gather-entry [] cs ws h = rw append-nil h
  gather-entry ((name, delta) ∷ admitted) cs ws h =
      gather-entry admitted (contribute_all name delta cs) (ws ++ writes_of key name delta)
        (contribute_all-entry name delta cs ws h)
      ∙ ap entry (append_assoc ws (writes_of key name delta) (writes key admitted))

-- The first loop of the fold finds, for every field, all the admitted writes to it in the order of
-- the branches, and has no entry for a field that nobody wrote.
pub contributions-entry :
    (key : String) (admitted : List Admitted)
    → lookup key (contributions admitted) ≡ entry (writes key admitted)
unfolding contributions lookup
contributions-entry key admitted = gather-entry key admitted [] [] refl

abbrev pub writers : Option (List Contribution) → Option (List String)
writers none = none
writers (some cs) = some (names cs)

abbrev pub is_some : {A : Type 0} → Option A → Bool
is_some none = false
is_some (some a) = true

-- A fold that went through gives the field `key` the provenance `o`, and merges a value into the
-- field just where there is one.
abbrev pub Attributes : String → Option (List String) → FoldResult → Type 0
Attributes key o (folded f) =
    (lookup key f.provenance ≡ o) × (is_some (lookup key f.merged) ≡ is_some o)
Attributes key o (boundary_stopped decision) = Unit

Attributes-same :
    (key : String) (o o' : Option (List String)) (r : FoldResult)
    → o ≡ o'
    → Attributes key o r
    → Attributes key o' r
Attributes-same key o o' r e h = subst (λ x. Attributes key x r) e h

pub contributions_of-some :
    {S W : Type 0} (run : Invocation S W) (snapshot : S) (key : String)
    (cs : Dict (List Contribution)) (written : List Contribution)
    → contributions_of run snapshot key cs ≡ ok written
    → lookup key cs ≡ some written
unfolding contributions_of
contributions_of-some run snapshot key cs written h = elim (Option-cases (lookup key cs)) [
  | inl e ↦ cc (rw (contributions_of, e) at h)
  | inr (c, e) ↦ e ∙ ap some (ok-injective (rw (contributions_of, e) at h))
]

-- A key of the loop comes out with its writers, whether it is the next one or a later one.
reordered :
    (now later : Bool) (all given before : Option (List String))
    → (now ≡ true → all ≡ given)
    → (if later then all else if now then given else before)
      ≡ (if now || later then all else before)
reordered true true all given before h = refl
reordered true false all given before h = sym (h refl)
reordered false true all given before h = refl
reordered false false all given before h = refl

aligned :
    (key j : String) (value : Value) (written : List String) (done : Folded)
    → is_some (lookup key done.merged) ≡ is_some (lookup key done.provenance)
    → is_some (lookup key (assign j value done.merged))
      ≡ is_some (lookup key (assign j written done.provenance))
aligned key j value written done h = elim (Bool-cases (j == key)) [
  | inl e ↦ rw (lookup-assign, lookup-assign, e) refl
  | inr e ↦ rw (lookup-assign, lookup-assign, e) h
]

lookup-not_contains :
    (key : String) (cs : Dict (List Contribution))
    → contains key (keys cs) ≡ false
    → lookup key cs ≡ none
unfolding lookup
lookup-not_contains key [] h = refl
lookup-not_contains key ((j, c) ∷ cs) h = ground (arith, lookup-not_contains key cs)

pub lift-known :
    {W A : Type 0} (x : Result A)
    → Triple (λ (w : W). Unit) (lift x) (λ a w. x ≡ ok a) (λ e w. Unit)
lift-known (ok a) = record { at = λ w u. refl }
lift-known (err e) = record { at = λ w u. tt }

module _ {S W : Type 0} (run : Invocation S W) (snapshot : S) (key : String)
    (cs : Dict (List Contribution)) (request : Option DispatchRequest) where
  fold_keys-Attributes :
      (rest : List String) (done : Folded)
      → is_some (lookup key done.merged) ≡ is_some (lookup key done.provenance)
      → Triple
          (λ w. Unit)
          (fold_keys run snapshot rest cs request done)
          (λ r w.
            Attributes key
              (if contains key rest then writers (lookup key cs) else lookup key done.provenance)
              r)
          (λ e w. Unit)
  unfolding fold_keys
  fold_keys-Attributes [] done h = record { at = λ w u. (refl, h) }
  fold_keys-Attributes (j ∷ rest) done h = Triple-bind _ _ (Triple-any _) (λ stop.
      Triple-elim_option stop _ _
        (Triple-bind _ _ (lift-known (contributions_of run snapshot j cs)) (λ written. record {
          at = λ w found.
              (Triple-bind {P = λ w. Unit} _ _ (Triple-any _) (λ value.
                  Triple-weaken _ (λ w u. u)
                    (λ r w. Attributes-same key _ _ r (
                      ap (λ o. if contains key rest then writers (lookup key cs) else o)
                        (lookup-assign j key (names written) done.provenance)
                      ∙ reordered (j == key) (contains key rest) (writers (lookup key cs))
                          (some (names written)) (lookup key done.provenance)
                          (λ e. ap writers (
                            subst (λ k. lookup k cs ≡ some written) ((eq_iff j key).0 e)
                              (contributions_of-some run snapshot j cs written found)))))
                    (λ e w u. u)
                    (fold_keys-Attributes rest _ (aligned key j value (names written) done h)))).at
                w tt;
        }))
        (λ decision. record { at = λ w u. tt }))

-- Where the fold goes through, every field is merged just where an admitted branch wrote it, and its
-- provenance lists the branches of all the writes to it, in the order of the branches.
pub fold_contract :
    {S W : Type 0} (run : Invocation S W) (snapshot : S) (admitted : List Admitted)
    (request : Option DispatchRequest) (key : String)
    → Triple
        (λ w. Unit)
        (fold run snapshot admitted request)
        (λ r w. Attributes key (writers (entry (writes key admitted))) r)
        (λ e w. Unit)
unfolding fold lookup
fold_contract run snapshot admitted request key =
    let cs = contributions admitted in
    Triple-weaken _ (λ w u. u)
      (λ r w. Attributes-same key _ _ r (elim (Bool-cases (contains key (keys cs))) [
        | inl e ↦ rw (contains-sorted, e) (ap writers (contributions-entry key admitted))
        | inr e ↦
            rw (contains-sorted, e)
              (ap writers (sym (lookup-not_contains key cs e) ∙ contributions-entry key admitted))
      ]))
      (λ e w u. u)
      (fold_keys-Attributes run snapshot key cs request (sorted (keys cs))
        (record { merged = []; provenance = [] }) refl)
