-- ===== src/Scheduler/Fold/Values.antt =====
-- `_fold`: the value of a merged field is what its reducer made of all the writes to it.
use perpetua_core.Prelude.{
  String, ◌≡◌, refl, ap, sym, ◌∙◌, subst, Bool-cases, inl, inr, Option, none, some, List, [], ◌∷◌,
  ◌==◌, eq_iff, if◌then◌else◌, Dict, lookup, assign, lookup-assign, keys, sorted,
}
use perpetua_core.Value.{Value, null}
use perpetua_core.Errors.{ok}
use perpetua_core.Exec.Triple.{Triple, Triple-bind, Triple-any, Triple-ran, Triple-elim_option}
use perpetua_core.Reducers.{Contribution, Reducer, reject_conflict, reduce_field}
use perpetua_core.Scheduler.{Invocation}
use perpetua_core.Scheduler.Admit.{Admitted}
use perpetua_core.Scheduler.Fold.{
  contributions, Folded, FoldResult, folded, boundary_stopped, contributions_of, fold_field,
  declared_or_default, or_null, fold_keys, fold, DispatchRequest,
}
use perpetua_core.Scheduler.Fold.Provenance.{
  writes, entry, contributions-entry, contributions_of-some, lift-known,
}

some-injective : {A : Type 0} {a b : A} → some a ≡ some b → a ≡ b
some-injective h = cc

entry-some : (ws written : List Contribution) → entry ws ≡ some written → ws ≡ written
entry-some [] written h = cc h
entry-some (c ∷ ws) written h = some-injective h

module _ {S W : Type 0} (run : Invocation S W) (snapshot : S) (key : String)
    (ws : List Contribution) where
  -- The reducer of the field: the declared one, or the one that rejects different writes.
  abbrev pub reducer_of : Reducer W
  reducer_of = elim (lookup key run.graph.reducers) [ none ↦ reject_conflict | some r ↦ r ]

  -- The value of the field in the snapshot, or null where it has none.
  abbrev pub base_of : Value
  base_of = elim (run.model.get_attr snapshot key) [ none ↦ null | some v ↦ v ]

  -- The field's reducer gave the value for the snapshot's value and the writes, in some world.
  abbrev pub Reduces : Value → Type 0
  Reduces v = (w : W) × (w' : W) × (reduce_field key reducer_of base_of ws w ≡ (ok v, w'))

  declared_lem :
      (o : Option (Reducer W))
      → declared_or_default o ≡ elim o [ none ↦ reject_conflict | some r ↦ r ]
  declared_lem none = refl
  declared_lem (some r) = refl

  or_null_lem : (o : Option Value) → or_null o ≡ elim o [ none ↦ null | some v ↦ v ]
  or_null_lem none = refl
  or_null_lem (some v) = refl

  fold_field-reduce_field :
      (w : W) → fold_field run snapshot key ws w ≡ reduce_field key reducer_of base_of ws w
  unfolding fold_field
  fold_field-reduce_field w =
      ap (λ r. reduce_field key r (or_null (run.model.get_attr snapshot key)) ws w)
        (declared_lem (lookup key run.graph.reducers))
      ∙ ap (λ b. reduce_field key reducer_of b ws w) (or_null_lem (run.model.get_attr snapshot key))

  -- The value that a fold merged into the field, if it did, is one that its reducer gave.
  abbrev pub Merges : FoldResult → Type 0
  Merges (folded f) = (v : Value) → lookup key f.merged ≡ some v → Reduces v
  Merges (boundary_stopped decision) = Unit

  Merges-assign :
      (j : String) (value v : Value) (done : Folded)
      → (j ≡ key → Reduces value)
      → Merges (folded done)
      → lookup key (assign j value done.merged) ≡ some v
      → Reduces v
  Merges-assign j value v done reduced before found =
      let looked : (if j == key then some value else lookup key done.merged) ≡ some v =
        sym (lookup-assign j key value done.merged) ∙ found in
      elim (Bool-cases (j == key)) [
        | inl e ↦ subst Reduces (some-injective (rw e at looked)) (reduced ((eq_iff j key).0 e))
        | inr e ↦ before v (rw e at looked)
      ]

  module _ (cs : Dict (List Contribution)) (known : lookup key cs ≡ entry ws)
      (request : Option DispatchRequest) where
    reduced_here :
        (j : String) (written : List Contribution) (value : Value) (w w' : W)
        → contributions_of run snapshot j cs ≡ ok written
        → fold_field run snapshot j written w ≡ (ok value, w')
        → j ≡ key
        → Reduces value
    reduced_here j written value w w' found made same =
        let here : ws ≡ written = entry-some ws written (
          sym known
          ∙ subst (λ k. lookup k cs ≡ some written) same
              (contributions_of-some run snapshot j cs written found)) in
        (
          w,
          w',
          sym (fold_field-reduce_field w)
              ∙ ap (λ u. fold_field run snapshot key u w) here
              ∙ subst (λ k. fold_field run snapshot k written w ≡ (ok value, w')) same made,
        )

    fold_keys-Merges :
        (rest : List String) (done : Folded)
        → Merges (folded done)
        → Triple
            (λ w. Unit)
            (fold_keys run snapshot rest cs request done)
            (λ r w. Merges r)
            (λ e w. Unit)
    unfolding fold_keys
    fold_keys-Merges [] done h = record { at = λ w u. h }
    fold_keys-Merges (j ∷ rest) done h = Triple-bind _ _ (Triple-any _) (λ stop.
        Triple-elim_option stop _ _
          (Triple-bind _ _ (lift-known (contributions_of run snapshot j cs)) (λ written. record {
            at = λ w found.
                (Triple-bind {P = λ w. Unit} _ _ (Triple-ran (fold_field run snapshot j written))
                    (λ value. record {
                      at = λ w₁ made.
                          (fold_keys-Merges rest _ (λ v.
                              Merges-assign j value v done
                                (reduced_here j written value made.0 w₁ found made.1) h)).at
                            w₁ tt;
                    })).at
                  w tt;
          }))
          (λ decision. record { at = λ w u. tt }))

-- Where the fold goes through, the value of every merged field is one that the field's declared
-- reducer, or `reject_conflict` where none is declared, returned for the snapshot's value of the field
-- (null where it has none) and all the admitted writes to the field in the order of the branches.
pub fold-Merges :
    {S W : Type 0} (run : Invocation S W) (snapshot : S) (admitted : List Admitted)
    (request : Option DispatchRequest) (key : String)
    → Triple
        (λ w. Unit)
        (fold run snapshot admitted request)
        (λ r w. Merges run snapshot key (writes key admitted) r)
        (λ e w. Unit)
unfolding fold lookup
fold-Merges run snapshot admitted request key =
    let cs = contributions admitted in
    fold_keys-Merges run snapshot key (writes key admitted) cs (contributions-entry key admitted)
      request (sorted (keys cs)) (record { merged = []; provenance = [] }) (λ v h. cc h)
