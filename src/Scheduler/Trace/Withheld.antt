-- ===== src/Scheduler/Trace/Withheld.antt =====
-- What a run publishes under a gate that allows no commit: nothing.
use perpetua_core.Prelude.{
  ℕ, String, ◌≡◌, ◌≢◌, refl, Bool, true, false, Option, none, some, List, [], ◌∷◌, subst, sym, ap,
  ◌∙◌, ◌==◌, Dict,
}
use perpetua_core.Errors.{Exception, Result, ok, err, ok-injective, >>=-ok}
use perpetua_core.Exec.{Exec, lift}
use perpetua_core.Exec.Triple.{Triple, Triple-bind, Triple-any}
use perpetua_core.Gate.{
  Gate, GateDecision, allow, Answer, decided, foreign, CommitRequest, CommitBoundary, checked,
  enforce, enforce-some,
}
use perpetua_core.Graph.{EventKind, NodeDelta, GraphObservation}
use perpetua_core.Scheduler.Boundary.{commit}
use perpetua_core.State.{StateModel, merge, attr, get_attr-merge}
use perpetua_core.Value.{Value, text, iterate, mapping}
use perpetua_core.Scheduler.States.{visit, mark, interrupted_state, or_type_error}

-- The events that report a published result.
abbrev pub is_publication : EventKind → Bool
is_publication EventKind.node_end = true
is_publication EventKind.superstep_commit = true
is_publication _ = false

module _ {S : Type 0} (model : StateModel S) (initial : S) where
  -- The state differs from the initial one in what the scheduler itself records, at most: every other
  -- field is as it was.
  abbrev pub IsUntouched : S → Type 0
  IsUntouched s =
      (name : String)
      → ("status" == name) ≡ false
      → ("metadata" == name) ≡ false
      → ("nodes_visited" == name) ≡ false
      → model.get_attr s name ≡ model.get_attr initial name

  -- The observation reports no result: by its kind, its delta, its provenance and its state.
  pub record IsUnpublished (o : GraphObservation S) : Type 0 where
    pub quiet : is_publication o.event.kind ≡ false
    pub no_delta : o.delta ≡ none
    pub no_provenance : o.provenance ≡ none
    pub untouched : IsUntouched o.state

  pub IsUntouched-visit :
      (s s' : S) (names : List String)
      → visit model s names ≡ ok s'
      → IsUntouched s
      → IsUntouched s'
  unfolding visit
  IsUntouched-visit s s' names h u name n₁ n₂ n₃ =
      let (visited, h₁, e₁) = >>=-ok (attr model s "nodes_visited") h in
      let (before, made, e₂) = >>=-ok (or_type_error (iterate visited)) h₁ in
      ap (λ t. model.get_attr t name) (sym (ok-injective made))
      ∙ rw (get_attr-merge, n₃) refl
      ∙ u name n₁ n₂ n₃

  pub IsUntouched-mark :
      (s s' : S) (status : String) (extra : Dict Value)
      → mark model s status extra ≡ ok s'
      → IsUntouched s
      → IsUntouched s'
  unfolding mark
  IsUntouched-mark s s' status extra h u name n₁ n₂ n₃ =
      let (metadata, h₁, e₁) = >>=-ok (attr model s "metadata") h in
      let (before, made, e₂) = >>=-ok (or_type_error (mapping metadata)) h₁ in
      ap (λ t. model.get_attr t name) (sym (ok-injective made))
      ∙ rw (get_attr-merge, n₁, n₂) refl
      ∙ u name n₁ n₂ n₃

  pub IsUntouched-interrupted_state :
      (s s' : S) (node : String) (asked : Value × Value)
      → interrupted_state model s node asked ≡ ok s'
      → IsUntouched s
      → IsUntouched s'
  unfolding interrupted_state
  IsUntouched-interrupted_state s s' node asked h u = IsUntouched-mark s s' "interrupted" _ h u

  pub IsUntouched-done :
      (s : S) → IsUntouched s → IsUntouched (merge model s (("status", text "done") ∷ []))
  IsUntouched-done s u name n₁ n₂ n₃ = rw (get_attr-merge, n₁) refl ∙ u name n₁ n₂ n₃

-- An answer that does not let a commit through.
abbrev pub IsNoAllow : Answer → Type 0
IsNoAllow (decided d) = d.verdict ≢ allow
IsNoAllow foreign = Unit

-- A gate that lets no commit through, whatever it is asked and in whatever world.
abbrev pub Withholds : {W : Type 0} → Gate W → Type 0
Withholds gate =
    (request : CommitRequest)
    → Triple (λ w. Unit) (gate.before_commit request) (λ answer w. IsNoAllow answer) (λ e w. Unit)

abbrev pub IsStop : Option GateDecision → Type 0
IsStop none = ⊥
IsStop (some d) = Unit

-- A fact that the state does not appear in.
Triple-fact :
    {S A F : Type 0} {m : Exec S A} {Q : A → S → Type 0} {E : Exception → S → Type 0}
    → (F → Triple (λ s. Unit {0}) m Q E)
    → Triple (λ s. F) m Q E
Triple-fact h = record { at = λ s f. (h f).at s tt }

module _ {W A : Type 0} where
  lift_where :
      {P : W → Type 0} (Q : A → Type 0) (x : Result A)
      → ((a : A) → x ≡ ok a → Q a)
      → Triple P (lift x) (λ a w. Q a) (λ e w. Unit)
  lift_where Q (ok a) h = record { at = λ w p. h a refl }
  lift_where Q (err e) h = record { at = λ w p. tt }

-- The decision of such an answer.
pub enforced :
    (answer : Answer)
    → IsNoAllow answer
    → (d : GateDecision) → checked answer ≡ ok d
    → d.verdict ≢ allow
unfolding checked
enforced (decided c) h d e = subst (λ x. x.verdict ≢ allow) (ok-injective e) h
enforced foreign h d e = cc e

module _ {W : Type 0} (gate : Gate W) (withholds : Withholds gate) where
  -- The commit of any boundary stops, or raises.
  pub commit-IsStop :
      (digest : NodeDelta → String) (boundary : CommitBoundary) (nodes : List String) (steps : ℕ)
      (source batch_id : Option String) (delta : NodeDelta)
      → Triple
          (λ w. Unit)
          (commit digest (some gate) boundary nodes steps source batch_id delta)
          (λ asked w. IsStop asked.0)
          (λ e w. Unit)
  unfolding commit
  commit-IsStop digest boundary nodes steps source batch_id delta =
      Triple-bind {R = λ a w. Unit} _ _ (Triple-any _) (λ result_digest.
        Triple-bind _ _ (withholds _) (λ answer. Triple-fact (λ no.
          Triple-bind _ _
            (lift_where (λ d. d.verdict ≢ allow) (checked answer) (enforced answer no))
            (λ d. Triple-fact (λ h.
              Triple-bind _ _
                (lift_where IsStop (enforce d _ nodes)
                  (λ o e. subst IsStop (sym (enforce-some d _ nodes o h e)) tt))
                (λ o. record { at = λ w stops. stops }))))))
