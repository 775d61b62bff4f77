-- ===== src/Adapters/Langchain/Progress.antt =====
-- What a turn of the event loop changes in a batch.
use perpetua_core.Prelude.{
  ℕ, zero, suc, ◌+◌, ◌≡◌, refl, Option, none, some, List, [], ◌∷◌, map, arith, All, ◌⊎◌, inl, inr,
  ap, subst,
}
use perpetua_core.Errors.{Exception, Result, ok, err}
use perpetua_core.Adapters.Langchain.Batch.{
  Phase, waiting, running, done, Task, Batch, released, noted, in_phase, keep, first_of, turn,
  resume_at, resume_any,
}

abbrev pub turns_left : {S : Type 0} → Phase S → ℕ
turns_left waiting = 2
turns_left running = 1
turns_left (done r) = 0

abbrev pub is_running : {S : Type 0} → Phase S → ℕ
is_running waiting = 0
is_running running = 1
is_running (done r) = 0

module _ {A S : Type 0} where
  abbrev pub work : List (Task A S) → ℕ
  work [] = 0
  work (t ∷ ts) = turns_left t.phase + work ts

  -- How many inputs are being run.
  abbrev pub active : List (Task A S) → ℕ
  active [] = 0
  active (t ∷ ts) = is_running t.phase + active ts

  abbrev pub inputs_of : List (Task A S) → List A
  inputs_of tasks = map (λ t. t.input) tasks

-- Permits and running tasks make up the same number before and after.
abbrev pub Balanced : Option ℕ → ℕ → Option ℕ → ℕ → Type 0
Balanced none m permits' m' = permits' ≡ none
Balanced (some n) m permits' m' = (n' : ℕ) × (permits' ≡ some n') × (m + n ≡ m' + n')

some-injective : {B : Type 0} {a b : B} → some a ≡ some b → a ≡ b
some-injective h = cc

module _ {A S : Type 0} (answer : A → Result S) where
  -- One of the inputs is answered by the exception.
  abbrev pub Raises : Exception → List A → Type 0
  Raises e [] = ⊥
  Raises e (a ∷ inputs) = (answer a ≡ err e) ⊎ Raises e inputs

  -- A task that is done has its input's answer, which is a state.
  abbrev pub Good : Task A S → Type 0
  Good t = (r : Result S) → t.phase ≡ done r → (s : S) × (r ≡ ok s) × (answer t.input ≡ ok s)

  pub record Moved (tasks : List (Task A S)) (permits : Option ℕ) (failed : Option Exception)
      (b : Batch A S) : Type 0 where
    pub worked : suc (work b.tasks) ≡ work tasks
    pub same : inputs_of b.tasks ≡ inputs_of tasks
    pub balanced : Balanced permits (active tasks) b.permits (active b.tasks)
    pub blamed :
        (b.failed ≡ failed) ⊎ ((e : Exception) × (b.failed ≡ some e) × Raises e (inputs_of tasks))
    pub clean : b.failed ≡ none → (failed ≡ none) × (All Good tasks → All Good b.tasks)

  started :
      (a : A) (ts : List (Task A S)) (permits permits' : Option ℕ) (failed : Option Exception)
      → Balanced permits (0 + active ts) permits' (1 + active ts)
      → Moved
          (in_phase a waiting ∷ ts)
          permits
          failed
          (record { permits = permits'; tasks = in_phase a running ∷ ts; failed = failed })
  started a ts permits permits' failed balanced = record {
    worked = omega arith;
    same = refl;
    balanced = balanced;
    blamed = inl refl;
    clean = λ h. (h, λ good. (λ r p. cc p, good.1));
  }

  released-Balanced :
      (permits : Option ℕ) (m : ℕ) → Balanced permits (1 + m) (released permits) (0 + m)
  released-Balanced none m = refl
  released-Balanced (some n) m = (suc n, refl, omega arith)

  noted-cases :
      (failed : Option Exception) (a : A) (inputs : List A) (r : Result S)
      → answer a ≡ r
      → (noted failed r ≡ failed)
        ⊎ ((e : Exception) × (noted failed r ≡ some e) × Raises e (a ∷ inputs))
  noted-cases (some e) a inputs r h = inl refl
  noted-cases none a inputs (ok s) h = inl refl
  noted-cases none a inputs (err e) h = inr (e, refl, inl h)

  noted-none :
      (failed : Option Exception) (r : Result S)
      → noted failed r ≡ none
      → (failed ≡ none) × (s : S) × (r ≡ ok s)
  noted-none (some e) r h = cc
  noted-none none (ok s) h = (refl, s, refl)
  noted-none none (err e) h = cc

  finished :
      (a : A) (ts : List (Task A S)) (permits : Option ℕ) (failed : Option Exception)
      → Moved (in_phase a running ∷ ts) permits failed (record {
        permits = released permits;
        tasks = in_phase a (done (answer a)) ∷ ts;
        failed = noted failed (answer a);
      })
  finished a ts permits failed = record {
    worked = omega arith;
    same = refl;
    balanced = released-Balanced permits (active ts);
    blamed = noted-cases failed a (inputs_of ts) (answer a) refl;
    clean = λ h.
        let (fresh, s, found) = noted-none failed (answer a) h in
        (fresh, λ good. (λ r p. (s, cc (p, found), found), good.1));
  }

  pub turn-Moved :
      (a : A) (phase : Phase S) (ts : List (Task A S)) (permits : Option ℕ)
      (failed : Option Exception) (b : Batch A S)
      → turn answer a phase ts permits failed ≡ some b
      → Moved (in_phase a phase ∷ ts) permits failed b
  turn-Moved a waiting ts none failed b h =
      subst (Moved (in_phase a waiting ∷ ts) none failed) (some-injective h)
        (started a ts none none failed refl)
  turn-Moved a waiting ts (some zero) failed b h = cc h
  turn-Moved a waiting ts (some (suc n)) failed b h =
      subst (Moved (in_phase a waiting ∷ ts) (some (suc n)) failed) (some-injective h)
        (started a ts (some (suc n)) (some n) failed (n, refl, omega arith))
  turn-Moved a running ts permits failed b h =
      subst (Moved (in_phase a running ∷ ts) permits failed) (some-injective h)
        (finished a ts permits failed)
  turn-Moved a (done r) ts permits failed b h = cc h

  Balanced-add :
      (k : ℕ) (permits permits' : Option ℕ) (m m' : ℕ)
      → Balanced permits m permits' m'
      → Balanced permits (k + m) permits' (k + m')
  Balanced-add k none permits' m m' h = h
  Balanced-add k (some n) permits' m m' (n', e, h) = (n', e, omega arith)

  keep-Moved :
      (t : Task A S) (ts : List (Task A S)) (permits : Option ℕ) (failed : Option Exception)
      (b : Batch A S)
      → Moved ts permits failed b
      → Moved (t ∷ ts) permits failed (record b { tasks = t ∷ b.tasks })
  keep-Moved t ts permits failed b h = record {
    worked = omega (arith, h.worked);
    same = ap (λ inputs. t.input ∷ inputs) h.same;
    balanced =
        Balanced-add (is_running t.phase) permits b.permits (active ts) (active b.tasks) h.balanced;
    blamed = elim h.blamed [ inl e ↦ inl e | inr (x, e, r) ↦ inr (x, e, inr r) ];
    clean = λ fresh. let (before, good) = h.clean fresh in (before, λ all. (all.0, good all.1));
  }

  keep-cases :
      (t : Task A S) (o : Option (Batch A S)) (b : Batch A S)
      → keep t o ≡ some b
      → (c : Batch A S) × (o ≡ some c) × (record c { tasks = t ∷ c.tasks } ≡ b)
  keep-cases t none b h = cc h
  keep-cases t (some c) b h = (c, refl, some-injective h)

  pub resume_at-Moved :
      (i : ℕ) (ts : List (Task A S)) (permits : Option ℕ) (failed : Option Exception)
      (b : Batch A S)
      → resume_at answer i ts permits failed ≡ some b
      → Moved ts permits failed b
  unfolding resume_at
  resume_at-Moved i [] permits failed b h = cc h
  resume_at-Moved zero (t ∷ ts) permits failed b h =
      turn-Moved t.input t.phase ts permits failed b h
  resume_at-Moved (suc i) (t ∷ ts) permits failed b h =
      let (c, found, e) = keep-cases t (resume_at answer i ts permits failed) b h in
      subst (Moved (t ∷ ts) permits failed) e
        (keep-Moved t ts permits failed c (resume_at-Moved i ts permits failed c found))

  first_of-cases :
      {B : Type 0} (o p : Option B) (b : B) → first_of o p ≡ some b → (o ≡ some b) ⊎ (p ≡ some b)
  first_of-cases none p b h = inr h
  first_of-cases (some c) p b h = inl h

  pub resume_any-Moved :
      (ts : List (Task A S)) (permits : Option ℕ) (failed : Option Exception) (b : Batch A S)
      → resume_any answer ts permits failed ≡ some b
      → Moved ts permits failed b
  unfolding resume_any
  resume_any-Moved [] permits failed b h = cc h
  resume_any-Moved (t ∷ ts) permits failed b h =
      elim (first_of-cases (turn answer t.input t.phase ts permits failed) _ b h) [
        | inl e ↦ turn-Moved t.input t.phase ts permits failed b e
        | inr e ↦
            let (c, found, same) = keep-cases t (resume_any answer ts permits failed) b e in
            subst (Moved (t ∷ ts) permits failed) same
              (keep-Moved t ts permits failed c (resume_any-Moved ts permits failed c found))
      ]

  turn-none :
      (a : A) (phase : Phase S) (ts : List (Task A S)) (permits : Option ℕ)
      (failed : Option Exception)
      → turn answer a phase ts permits failed ≡ none
      → (is_running phase ≡ 0) × ((turns_left phase ≡ 0) ⊎ (permits ≡ some 0))
  turn-none a waiting ts none failed h = cc h
  turn-none a waiting ts (some zero) failed h = (refl, inr refl)
  turn-none a waiting ts (some (suc n)) failed h = cc h
  turn-none a running ts permits failed h = cc h
  turn-none a (done r) ts permits failed h = (refl, inl refl)

  first_of-none : {B : Type 0} (o p : Option B) → first_of o p ≡ none → (o ≡ none) × (p ≡ none)
  first_of-none none p h = (refl, h)
  first_of-none (some c) p h = cc h

  keep-none : (t : Task A S) (o : Option (Batch A S)) → keep t o ≡ none → o ≡ none
  keep-none t none h = refl
  keep-none t (some b) h = cc h

  -- No task has a turn: none runs, and all are done or wait for a permit.
  pub resume_any-none :
      (ts : List (Task A S)) (permits : Option ℕ) (failed : Option Exception)
      → resume_any answer ts permits failed ≡ none
      → (active ts ≡ 0) × ((work ts ≡ 0) ⊎ (permits ≡ some 0))
  unfolding resume_any
  resume_any-none [] permits failed h = (refl, inl refl)
  resume_any-none (t ∷ ts) permits failed h =
      let (first, others) = first_of-none (turn answer t.input t.phase ts permits failed) _ h in
      let (idle, left) = turn-none t.input t.phase ts permits failed first in
      let (rest, waits) = resume_any-none ts permits failed (keep-none t _ others) in
      (
        omega (arith, idle, rest),
        elim left [
          | inr e ↦ inr e
          | inl e ↦ elim waits [ inl f ↦ inl (omega (arith, e, f)) | inr f ↦ inr f ]
        ],
      )
