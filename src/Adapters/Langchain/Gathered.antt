-- ===== src/Adapters/Langchain/Gathered.antt =====
-- Every batch ends with an answer, whatever order the event loop takes.
use perpetua_core.Prelude.{
  ℕ, zero, suc, ◌+◌, ◌≤◌, ◌≡◌, refl, Option, none, some, List, [], ◌∷◌, map, length, arith, All,
  ◌⊎◌, inl, inr, ap, sym, ◌∙◌, subst, Option-cases,
}
use perpetua_core.Errors.{Exception, Result, ok, err}
use perpetua_core.Adapters.Langchain.Batch.{
  Phase, waiting, running, done, Task, Batch, taken, resume_at, resume_any, play, complete, opened,
  and_then, answer_of, answers, outcome, gathered,
}
use perpetua_core.Adapters.Langchain.Progress.{
  turns_left, work, active, inputs_of, Balanced, Raises, Good, Moved, resume_at-Moved,
  resume_any-Moved, resume_any-none,
}

-- A semaphore is made with at least one permit.
abbrev pub IsPositive : Option ℕ → Type 0
IsPositive none = Unit
IsPositive (some n) = 1 ≤ n

Balanced-trans :
    (p p₁ p₂ : Option ℕ) (m m₁ m₂ : ℕ)
    → Balanced p m p₁ m₁
    → Balanced p₁ m₁ p₂ m₂
    → Balanced p m p₂ m₂
Balanced-trans none p₁ p₂ m m₁ m₂ h k = subst (λ q. Balanced q m₁ p₂ m₂) h k
Balanced-trans (some n) p₁ p₂ m m₁ m₂ (n₁, e, h) k =
    let (n₂, f, g) = subst (λ q. Balanced q m₁ p₂ m₂) e k in (n₂, f, omega (arith, h, g))

some-injective : {B : Type 0} {a b : B} → some a ≡ some b → a ≡ b
some-injective h = cc

Balanced-stuck :
    (p p₁ : Option ℕ) (m : ℕ) → IsPositive p → Balanced p 0 p₁ m → m ≡ 0 → ¬ (p₁ ≡ some 0)
Balanced-stuck none p₁ m positive h idle empty = cc (h, empty)
Balanced-stuck (some n) p₁ m positive (n₁, e, h) idle empty =
    let none_left : n₁ ≡ 0 = some-injective (sym e ∙ empty) in
    absurd (omega (arith, positive, h, idle, none_left))

module _ {A S : Type 0} (answer : A → Result S) (bound : Option ℕ) (inputs : List A) where
  record Valid (b : Batch A S) : Type 0 where
    left : work b.tasks ≤ length inputs + length inputs
    same : inputs_of b.tasks ≡ inputs
    balanced : Balanced bound 0 b.permits (active b.tasks)
    blamed : (b.failed ≡ none) ⊎ ((e : Exception) × (b.failed ≡ some e) × Raises answer e inputs)
    clean : b.failed ≡ none → All (Good answer) b.tasks

  Moved-Valid : (b c : Batch A S) → Valid b → Moved answer b.tasks b.permits b.failed c → Valid c
  Moved-Valid b c v m = record {
    left = omega (arith, v.left, m.worked);
    same = m.same ∙ v.same;
    balanced =
        Balanced-trans bound b.permits c.permits 0 (active b.tasks) (active c.tasks) v.balanced
          m.balanced;
    blamed = elim m.blamed [
      | inl e ↦
          subst (λ f. (f ≡ none) ⊎ ((x : Exception) × (f ≡ some x) × Raises answer x inputs))
            (sym e) v.blamed
      | inr (x, e, r) ↦ inr (x, e, subst (Raises answer x) v.same r)
    ];
    clean = λ fresh. let (before, good) = m.clean fresh in good (v.clean before);
  }

  taken-Valid :
      (o : Option (Batch A S)) (b : Batch A S)
      → ((c : Batch A S) → o ≡ some c → Moved answer b.tasks b.permits b.failed c)
      → Valid b
      → Valid (taken o b)
  taken-Valid none b h v = v
  taken-Valid (some c) b h v = Moved-Valid b c v (h c refl)

  play-Valid : (schedule : List ℕ) (b : Batch A S) → Valid b → Valid (play answer schedule b)
  unfolding play
  play-Valid [] b v = v
  play-Valid (i ∷ is) b v = play-Valid is _ (
      taken-Valid (resume_at answer i b.tasks b.permits b.failed) b
        (resume_at-Moved answer i b.tasks b.permits b.failed) v)

  -- With a permit in the semaphore the batch is not stuck.
  not_stuck :
      (b : Batch A S) → IsPositive bound → Valid b → active b.tasks ≡ 0 → ¬ (b.permits ≡ some 0)
  not_stuck b positive v idle empty =
      Balanced-stuck bound b.permits (active b.tasks) positive v.balanced idle empty

  abbrev Completed : ℕ → Batch A S → Type 0
  Completed fuel b = Valid (complete answer fuel b) × (work (complete answer fuel b).tasks ≡ 0)

  complete-done :
      (fuel : ℕ) (b : Batch A S)
      → IsPositive bound
      → work b.tasks ≤ fuel
      → Valid b
      → Completed fuel b
  unfolding complete
  complete-done zero b positive enough v = (v, omega (arith, enough))
  complete-done (suc fuel) b positive enough v =
      elim (Option-cases (resume_any answer b.tasks b.permits b.failed)) [
        | inl h ↦
            let (idle, waits) = resume_any-none answer b.tasks b.permits b.failed h in
            let over : work b.tasks ≡ 0 = elim waits [
              | inl e ↦ e
              | inr e ↦ absurd (not_stuck b positive v idle e)
            ] in
            subst (λ o. Completed fuel (taken o b)) (sym h)
              (complete-done fuel b positive (omega (arith, over)) v)
        | inr (c, h) ↦
            let moved = resume_any-Moved answer b.tasks b.permits b.failed c h in
            subst (λ o. Completed fuel (taken o b)) (sym h)
              (complete-done fuel c positive (omega (arith, moved.worked, enough))
                (Moved-Valid b c v moved))
      ]

  opened-Balanced : (o : Option ℕ) → Balanced o 0 o 0
  opened-Balanced none = refl
  opened-Balanced (some n) = (n, refl, refl)

module _ {A S : Type 0} (answer : A → Result S) where
  opened-work :
      (bound : Option ℕ) (inputs : List A)
      → work (opened answer bound inputs).tasks ≡ length inputs + length inputs
  opened-work bound [] = refl
  opened-work bound (a ∷ inputs) = omega (arith, opened-work bound inputs)

  opened-active :
      (bound : Option ℕ) (inputs : List A) → active (opened answer bound inputs).tasks ≡ 0
  opened-active bound [] = refl
  opened-active bound (a ∷ inputs) = omega (arith, opened-active bound inputs)

  opened-inputs :
      (bound : Option ℕ) (inputs : List A) → inputs_of (opened answer bound inputs).tasks ≡ inputs
  opened-inputs bound [] = refl
  opened-inputs bound (a ∷ inputs) = ap (λ rest. a ∷ rest) (opened-inputs bound inputs)

  opened-Good :
      (bound : Option ℕ) (inputs : List A) → All (Good answer) (opened answer bound inputs).tasks
  opened-Good bound [] = tt
  opened-Good bound (a ∷ inputs) = (λ r p. cc p, opened-Good bound inputs)

  opened-Valid :
      (bound : Option ℕ) (inputs : List A) → Valid answer bound inputs (opened answer bound inputs)
  opened-Valid bound inputs = record {
    left = omega (arith, opened-work bound inputs);
    same = opened-inputs bound inputs;
    balanced =
        subst (λ m. Balanced bound 0 bound m) (sym (opened-active bound inputs))
          (opened-Balanced answer bound inputs bound);
    blamed = inl refl;
    clean = λ h. opened-Good bound inputs;
  }

  phase-done : (p : Phase S) → turns_left p ≡ 0 → (r : Result S) × (p ≡ done r)
  phase-done waiting h = absurd (omega (arith, h))
  phase-done running h = absurd (omega (arith, h))
  phase-done (done r) h = (r, refl)

  -- Tasks that are all done, each with a state, in the order of their inputs.
  answers-Good :
      (tasks : List (Task A S))
      → work tasks ≡ 0
      → All (Good answer) tasks
      → (states : List S) × (map answer (inputs_of tasks) ≡ map (λ s. ok s) states)
        × (answers answer tasks ≡ ok states)
  unfolding answers
  answers-Good [] over good = ([], refl, refl)
  answers-Good (t ∷ ts) over good =
      let (r, at) = phase-done t.phase (omega (arith, over)) in
      let (s, is_ok, found) = good.0 r at in
      let (states, all, given) = answers-Good ts (omega (arith, over)) good.1 in
      (
        s ∷ states,
        ap (λ x. x ∷ map answer (inputs_of ts)) found ∙ ap (λ rest. ok s ∷ rest) all,
        ap (λ p. and_then answer (answer_of answer p) (answers answer ts))
              (at ∙ ap (λ x. done x) is_ok)
            ∙ ap (λ x. and_then answer (ok s) x) given,
      )

  -- The end of a batch: all states in order, or an exception of one of the inputs.
  abbrev pub Answered : List A → Result (List S) → Type 0
  Answered inputs result =
      ((states : List S) × (map answer inputs ≡ map (λ s. ok s) states) × (result ≡ ok states))
      ⊎ ((e : Exception) × Raises answer e inputs × (result ≡ err e))

  outcome-Answered :
      (bound : Option ℕ) (inputs : List A) (b : Batch A S)
      → Valid answer bound inputs b
      → work b.tasks ≡ 0
      → Answered inputs (outcome answer b.failed b.tasks)
  outcome-Answered bound inputs b v over = elim v.blamed [
    | inl fresh ↦
        let (states, all, given) = answers-Good b.tasks over (v.clean fresh) in
        inl (
          states,
          ap (map answer) (sym v.same) ∙ all,
          ap (λ f. outcome answer f b.tasks) fresh ∙ given,
        )
    | inr (e, failed, raised) ↦ inr (e, raised, ap (λ f. outcome answer f b.tasks) failed)
  ]

  -- Whatever order the event loop takes, a batch whose semaphore has a permit ends: with the state of
  -- every input, in the order of the inputs, or with an exception that one of them raised.
  pub gathered-Answered :
      (schedule : List ℕ) (bound : Option ℕ) (inputs : List A)
      → IsPositive bound
      → Answered inputs (gathered answer schedule bound inputs)
  unfolding gathered
  gathered-Answered schedule bound inputs positive =
      let b = play answer schedule (opened answer bound inputs) in
      let v =
        play-Valid answer bound inputs schedule (opened answer bound inputs)
          (opened-Valid bound inputs) in
      let (ended, over) =
        complete-done answer bound inputs (length inputs + length inputs) b positive v.left v in
      outcome-Answered bound inputs (complete answer (length inputs + length inputs) b) ended over

  pub Balanced-bound : (n : ℕ) (p : Option ℕ) (m : ℕ) → Balanced (some n) 0 p m → m ≤ n
  Balanced-bound n p m (n', e, h) = omega (arith, h)

  -- At no turn does a batch with the bound n run more than n of its inputs.
  pub play-bound :
      (n : ℕ) (inputs : List A) (schedule : List ℕ)
      → active (play answer schedule (opened answer (some n) inputs)).tasks ≤ n
  play-bound n inputs schedule =
      let v =
        play-Valid answer (some n) inputs schedule (opened answer (some n) inputs)
          (opened-Valid (some n) inputs) in
      Balanced-bound n (play answer schedule (opened answer (some n) inputs)).permits _ v.balanced
