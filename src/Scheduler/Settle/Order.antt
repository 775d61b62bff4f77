-- ===== src/Scheduler/Settle/Order.antt =====
-- The branches of a region all settle, in the order of the branches, whatever the event loop does.
use perpetua_core.Prelude.{ℕ, zero, suc, String, ◌≡◌, refl, ap, ◌∙◌, List, [], ◌∷◌, map, lookup}
use perpetua_core.Exec.Returns.{
  Returns, Returns-pure, Returns-option, Returns-true, Returns-bind, Returns-then, Returns-weaken,
  Returns-attempt,
}
use perpetua_core.Scheduler.{Invocation}
use perpetua_core.Scheduler.Settle.{
  Settled, Phase, waiting, admitted, started, settled, Task, call_branch, marks_start, advance,
  finish_started, finish_admitted, finish, resume, interleave, finish_all, new_tasks, settle,
}

abbrev Anything : {A : Type 0} → A → Type 0
Anything a = Unit

abbrev task_names : List Task → List String
task_names tasks = map (λ t. t.0) tasks

abbrev pub settled_names : List Settled → List String
settled_names results = map (λ r. r.0) results

task_names-new_tasks : (names : List String) → task_names (new_tasks names) ≡ names
task_names-new_tasks [] = refl
task_names-new_tasks (name ∷ names) = ap (λ rest. name ∷ rest) (task_names-new_tasks names)

module _ {S W : Type 0} (run : Invocation S W) (snapshot : S) (steps : ℕ)
    (source batch_id : String) where
  call_branch-Returns :
      (name : String) → Returns (call_branch run snapshot steps source batch_id name) Anything
  unfolding call_branch
  call_branch-Returns name =
      Returns-option (lookup name run.graph.nodes) _ _ (Returns-pure _ tt)
        (λ fn. Returns-then _ _ (Returns-attempt _) (λ r. Returns-pure _ tt))

  advance-Returns :
      (name : String) (phase : Phase)
      → Returns (advance run snapshot steps source batch_id name phase) Anything
  unfolding advance
  advance-Returns name waiting =
      Returns-true (marks_start run.gate) _ _
        (Returns-then _ _ (Returns-attempt _) (λ r. Returns-pure _ tt))
        (Returns-then _ _ (call_branch-Returns name) (λ o. Returns-pure _ tt))
  advance-Returns name (admitted request) =
      Returns-then _ _ (Returns-attempt _) (λ r. Returns-pure _ tt)
  advance-Returns name started =
      Returns-then _ _ (call_branch-Returns name) (λ o. Returns-pure _ tt)
  advance-Returns name (settled outcome) = Returns-pure _ tt

  finish_started-Returns :
      (name : String) (phase : Phase)
      → Returns (finish_started run snapshot steps source batch_id name phase) Anything
  unfolding finish_started
  finish_started-Returns name (settled outcome) = Returns-pure _ tt
  finish_started-Returns name _ = call_branch-Returns name

  finish_admitted-Returns :
      (name : String) (phase : Phase)
      → Returns (finish_admitted run snapshot steps source batch_id name phase) Anything
  unfolding finish_admitted
  finish_admitted-Returns name (admitted request) =
      Returns-then _ _ (advance-Returns name _) (finish_started-Returns name)
  finish_admitted-Returns name _ = finish_started-Returns name _

  finish-Returns :
      (name : String) (phase : Phase)
      → Returns (finish run snapshot steps source batch_id name phase) Anything
  unfolding finish
  finish-Returns name waiting =
      Returns-then _ _ (advance-Returns name _) (finish_admitted-Returns name)
  finish-Returns name _ = finish_admitted-Returns name _

  -- A resumed task keeps its place and its name.
  resume-Returns :
      (i : ℕ) (tasks : List Task)
      → Returns
          (resume run snapshot steps source batch_id i tasks)
          (λ tasks'. task_names tasks' ≡ task_names tasks)
  unfolding resume
  resume-Returns i [] = Returns-pure _ refl
  resume-Returns zero ((name, phase) ∷ tasks) =
      Returns-then _ _ (advance-Returns name phase) (λ next. Returns-pure _ refl)
  resume-Returns (suc i) (task ∷ tasks) =
      Returns-bind _ _ (resume-Returns i tasks)
        (λ rest same. Returns-pure _ (ap (λ names. task.0 ∷ names) same))

  interleave-Returns :
      (schedule : List ℕ) (tasks : List Task)
      → Returns
          (interleave run snapshot steps source batch_id schedule tasks)
          (λ tasks'. task_names tasks' ≡ task_names tasks)
  unfolding interleave
  interleave-Returns [] tasks = Returns-pure _ refl
  interleave-Returns (i ∷ schedule) tasks =
      Returns-bind _ _ (resume-Returns i tasks) (λ tasks' same.
        Returns-weaken (λ tasks'' next. next ∙ same) (interleave-Returns schedule tasks'))

  finish_all-Returns :
      (tasks : List Task)
      → Returns
          (finish_all run snapshot steps source batch_id tasks)
          (λ results. settled_names results ≡ task_names tasks)
  unfolding finish_all
  finish_all-Returns [] = Returns-pure _ refl
  finish_all-Returns ((name, phase) ∷ tasks) =
      Returns-bind _ _ (finish-Returns name phase) (λ outcome u.
        Returns-bind _ _ (finish_all-Returns tasks)
          (λ rest same. Returns-pure _ (ap (λ names. name ∷ names) same)))

  -- Whatever the schedule and whatever Exception the gate and the nodes raise, none leaves the task group, and there
  -- is one outcome for each branch, in the order of the branches.
  pub settle-Returns :
      (branches : List String)
      → Returns
          (settle run snapshot steps source batch_id branches)
          (λ results. settled_names results ≡ branches)
  unfolding settle
  settle-Returns branches = record {
    at = λ w u.
        (Returns-bind _ _ (interleave-Returns (run.host.schedule branches w) (new_tasks branches))
            (λ tasks same.
              Returns-weaken (λ results all. all ∙ same ∙ task_names-new_tasks branches)
                (finish_all-Returns tasks))).at
          w u;
  }
