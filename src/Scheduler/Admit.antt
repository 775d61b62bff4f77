-- ===== src/Scheduler/Admit.antt =====
-- `_admit` of graph/engine.py: which settled branches a join lets in.
pub mod Contract
pub mod Custom
use perpetua_core.Prelude.{
  ℕ, String, Bool, true, false, ◌&&◌, ◌||◌, Option, none, some, List, [], ◌∷◌, map, leb, ltb, keep,
  any, length, contains, ◌==◌, if◌then◌else◌,
}
use perpetua_core.Errors.{
  Exception, user, value_error, exception_group, to_exceptions, type_name, Result, ok, err,
}
use perpetua_core.Exec.{Exec, pure, raise, lift, ◌>>=◌, ◌>>◌}
use perpetua_core.Graph.{NodeDelta, BranchOutcome, Join, all, any_ok, first_success, quorum, custom}
use perpetua_core.Scheduler.Settle.{
  Outcome, published, failed, admission_failed, branch_stopped, start_failed, Settled,
}

-- A branch that is let in, with its delta.
abbrev pub Admitted : Type 0
Admitted = String × NodeDelta

-- A settled branch as a join sees it: its delta, or the exception that `s.error` is. The region
-- handles the classes that wrap an error before it asks the join.
abbrev pub Finished : Type 0
Finished = String × Result NodeDelta

unfoldable pub finished : Settled → Finished
finished (name, published d) = (name, ok d)
finished (name, failed e) = (name, err e)
finished (name, admission_failed e) = (name, err (user "_BranchAdmissionFailed" 0))
finished (name, branch_stopped d) = (name, err (user "_BranchStopped" 0))
finished (name, start_failed e) = (name, err (user "_StartCallbackFailed" 0))

-- `[s for s in settled if s.error is None]`
unfoldable pub successes : List Finished → List Admitted
successes [] = []
successes ((name, ok d) ∷ rest) = (name, d) ∷ successes rest
successes ((name, err e) ∷ rest) = successes rest

-- The errors of `[s for s in settled if s.error is not None]`
unfoldable pub failures : List Finished → List Exception
failures [] = []
failures ((name, ok d) ∷ rest) = failures rest
failures ((name, err e) ∷ rest) = e ∷ failures rest

-- The `ExceptionGroup` that a refusing join raises.
unfoldable pub refusal : List Exception → Exception
refusal [] = exception_group (to_exceptions (value_error ∷ []))
refusal (e ∷ es) = exception_group (to_exceptions (e ∷ es))

-- `admitted or None`, and the error of none.
unfoldable pub admit_some : List Exception → List Admitted → Result (List Admitted)
admit_some errors [] = err (refusal errors)
admit_some errors (a ∷ more) = ok (a ∷ more)

-- `ok[:1]`
abbrev pub first_of_all : List Admitted → List Admitted
first_of_all [] = []
first_of_all (a ∷ more) = a ∷ []

unfoldable pub admit_all : List Exception → List Admitted → Result (List Admitted)
admit_all [] good = ok good
admit_all (e ∷ es) good = err (refusal (e ∷ es))

unfoldable pub outcome_of : Finished → BranchOutcome
outcome_of (name, ok d) = record { name = name; is_ok = true; error_type = none }
outcome_of (name, err e) = record { name = name; is_ok = false; error_type = some (type_name e) }

abbrev pub admitted_names : List Admitted → List String
admitted_names good = map (λ a. a.0) good

-- Every name that a custom join gives must be that of a successful branch.
unfoldable pub check_names : List Admitted → List String → Result (Unit {0})
check_names good [] = ok tt
check_names good (name ∷ names) =
    let rest = check_names good names in
    if contains name (admitted_names good) then rest else err value_error

unfoldable pub chosen : List String → List Admitted → List Admitted
chosen names good = keep (λ a. contains a.0 names) good

-- `_admit`
unfoldable pub admit : {W : Type 0} → Join W → List Finished → Exec W (List Admitted)
admit all results = lift (admit_all (failures results) (successes results))
admit any_ok results = lift (admit_some (failures results) (successes results))
admit first_success results =
    lift (admit_some (failures results) (first_of_all (successes results)))
admit (quorum q) results =
    if leb q (length (successes results))
    then pure (successes results)
    else raise (refusal (failures results))
admit (custom fn) results = do
  names ← fn (map outcome_of results)
  lift (check_names (successes results) names)
  lift (admit_some (failures results) (chosen names (successes results)))
