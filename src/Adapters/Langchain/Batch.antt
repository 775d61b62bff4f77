-- ===== src/Adapters/Langchain/Batch.antt =====
-- `asyncio.gather` over `_bounded`, in `abatch`: one task per input, and a semaphore if there is a
-- bound. Each task runs its input between its two turns of the event loop: at the first it takes the
-- semaphore, at the second it has its answer and gives the semaphore back.
use perpetua_core.Prelude.{ℕ, zero, suc, ◌+◌, Option, none, some, List, [], ◌∷◌, map, length}
use perpetua_core.Errors.{Exception, runtime_error, Result, ok, err}

pub data Phase (S : Type 0) : Type 0 where
  waiting running : Phase S
  done : Result S → Phase S

pub record Task (A S : Type 0) : Type 0 where
  pub input : A
  pub phase : Phase S

-- `permits` is none where there is no semaphore; `failed` is the exception that came first.
pub record Batch (A S : Type 0) : Type 0 where
  pub permits : Option ℕ
  pub tasks : List (Task A S)
  pub failed : Option Exception

-- `Semaphore.release`
abbrev pub released : Option ℕ → Option ℕ
released none = none
released (some n) = some (suc n)

-- `gather` takes the first exception.
abbrev pub noted : {S : Type 0} → Option Exception → Result S → Option Exception
noted (some e) r = some e
noted none (ok s) = none
noted none (err e) = some e

abbrev pub in_phase : {A S : Type 0} → A → Phase S → Task A S
in_phase a phase = record { input = a; phase = phase }

abbrev pub keep : {A S : Type 0} → Task A S → Option (Batch A S) → Option (Batch A S)
keep task none = none
keep task (some b) = some (record b { tasks = task ∷ b.tasks })

abbrev pub taken : {B : Type 0} → Option B → B → B
taken none b = b
taken (some c) b = c

abbrev pub first_of : {B : Type 0} → Option B → Option B → Option B
first_of none c = c
first_of (some b) c = some b

module _ {A S : Type 0} (answer : A → Result S) where
  -- The turn of the first of the tasks: none where it waits for a permit, or is done.
  abbrev pub turn : A → Phase S → List (Task A S) → Option ℕ → Option Exception → Option (Batch A S)
  turn a waiting tasks none failed =
      some (record { permits = none; tasks = in_phase a running ∷ tasks; failed = failed })
  turn a waiting tasks (some zero) failed = none
  turn a waiting tasks (some (suc n)) failed =
      some (record { permits = some n; tasks = in_phase a running ∷ tasks; failed = failed })
  turn a running tasks permits failed = some (record {
    permits = released permits;
    tasks = in_phase a (done (answer a)) ∷ tasks;
    failed = noted failed (answer a);
  })
  turn a (done r) tasks permits failed = none

  -- The turn of the task at a position.
  unfoldable pub resume_at : ℕ → List (Task A S) → Option ℕ → Option Exception → Option (Batch A S)
  resume_at i [] permits failed = none
  resume_at zero (t ∷ ts) permits failed = turn t.input t.phase ts permits failed
  resume_at (suc i) (t ∷ ts) permits failed = keep t (resume_at i ts permits failed)

  -- The turn of the first task that has one.
  unfoldable pub resume_any : List (Task A S) → Option ℕ → Option Exception → Option (Batch A S)
  resume_any [] permits failed = none
  resume_any (t ∷ ts) permits failed =
      first_of (turn t.input t.phase ts permits failed) (keep t (resume_any ts permits failed))

  -- The event loop's choices; a task that has no turn is passed over.
  unfoldable pub play : List ℕ → Batch A S → Batch A S
  play [] b = b
  play (i ∷ is) b = play is (taken (resume_at i b.tasks b.permits b.failed) b)

  -- And the rest of them, on fuel.
  unfoldable pub complete : ℕ → Batch A S → Batch A S
  complete zero b = b
  complete (suc fuel) b = complete fuel (taken (resume_any b.tasks b.permits b.failed) b)

  abbrev pub opened : Option ℕ → List A → Batch A S
  opened bound inputs = record {
    permits = bound;
    tasks = map (λ a. in_phase a waiting) inputs;
    failed = none;
  }

  abbrev pub and_then : Result S → Result (List S) → Result (List S)
  and_then (ok s) (ok ss) = ok (s ∷ ss)
  and_then (ok s) (err e) = err e
  and_then (err e) r = err e

  -- The answers, in the order of the inputs. A task that is not done does not come up.
  abbrev pub answer_of : Phase S → Result S
  answer_of (done r) = r
  answer_of _ = err runtime_error

  unfoldable pub answers : List (Task A S) → Result (List S)
  answers [] = ok []
  answers (t ∷ ts) = and_then (answer_of t.phase) (answers ts)

  abbrev pub outcome : Option Exception → List (Task A S) → Result (List S)
  outcome none tasks = answers tasks
  outcome (some e) tasks = err e

  -- Every task has two turns.
  unfoldable pub gathered : List ℕ → Option ℕ → List A → Result (List S)
  gathered schedule bound inputs =
      let b = complete (length inputs + length inputs) (play schedule (opened bound inputs)) in
      outcome b.failed b.tasks
