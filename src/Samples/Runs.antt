-- ===== src/Samples/Runs.antt =====
-- The theorems on runs and joins at the samples.
use perpetua_core.Scheduler.Fold.Provenance.{Attributes, writes, fold_contract}
use perpetua_core.Scheduler.Fold.Values.{Merges, fold-Merges}
use perpetua_core.Scheduler.Fold.{fold}
use perpetua_core.Scheduler.Admit.{Admitted, Finished, admit}
use perpetua_core.Scheduler.States.Terminal.{stopped_contract}
use perpetua_core.Scheduler.States.{stopped}
use perpetua_core.Scheduler.Loop.Routing.{IsTarget, IsText, resolve_edge_contract}
use perpetua_core.Scheduler.Loop.{resolve_edge, edge_value, observe, last_state, terminal, invoke}
use perpetua_core.Graph.Builder.{MiniGraph, mini_graph, set_entry, compile}
use perpetua_core.Graph.Builder.Reachable.{opens_region, empty, with_entry, compile-start}
use perpetua_core.Gate.{GateDecision, stop}
use perpetua_core.Graph.{
  start_node, static, event_at, observation, EventKind, GraphObservation, JoinAdmitFn,
  TerminalReason, Graph, custom,
}
use perpetua_core.Value.{to_fields, mapping, dict, text}
use perpetua_core.Errors.{
  type_error, err, ok, max_steps_exceeded, user, value_error, reducer_conflict,
}
use perpetua_core.Prelude.{
  Dict, lookup, update, none, String, ◌⊎◌, false, ◌≡◌, refl, List, [], ◌∷◌, ◌≢◌, some, All,
}
use perpetua_core.Reducers.{Contribution, reject_conflict, reduce_field}
use perpetua_core.Reducers.Agreement.{Agrees, reject_conflict_contract}
use perpetua_core.Samples.{
  World, Fields, fresh, diamond, ungated, program, reduce_field, Value, null,
}
use perpetua_core.Scheduler.Admit.Contract.{Refuses}
use perpetua_core.Scheduler.Admit.Custom.{named_in, Succeeded, admit_custom_contract}
use perpetua_core.Exec.Triple.{Triple}
use perpetua_core.Scheduler.Trace.{Progress, Closed}
use perpetua_core.Scheduler.Trace.Termination.{
  observe-Closed, observe-raises, IsOutcome, invoke-IsOutcome,
}
use perpetua_core.State.{dict_model}

observe-diamond : (observe (ungated diamond) fresh []).0 ≡ ok terminal
unfolding program
observe-diamond = refl

abbrev short_diamond : Graph Fields World
short_diamond = record diamond { max_steps = 3 }

observe-short_diamond :
    (observe (ungated short_diamond) fresh []).0 ≡ err (max_steps_exceeded 3 "a")
unfolding program
observe-short_diamond = refl

observe-Closed_example :
    (terminal ≡ terminal) × Closed dict_model 4 (observe (ungated diamond) fresh []).1.trace
observe-Closed_example = observe-Closed (ungated diamond) fresh [] terminal observe-diamond

observe-raises_example : Progress dict_model 3 3 (observe (ungated short_diamond) fresh []).1.trace
observe-raises_example =
    observe-raises (ungated short_diamond) fresh [] (max_steps_exceeded 3 "a") observe-short_diamond

abbrev ended_diamond : Fields
ended_diamond = last_state fresh (observe (ungated diamond) fresh []).1.trace

invoke-ended_diamond : invoke (ungated diamond) fresh [] ≡ ok ended_diamond
unfolding program
invoke-ended_diamond = refl

invoke-IsOutcome_example :
    (reason : TerminalReason) × IsOutcome (ungated diamond) fresh [] ended_diamond reason
invoke-IsOutcome_example =
    invoke-IsOutcome (ungated diamond) fresh [] ended_diamond invoke-ended_diamond

abbrev half_failed : List Finished
half_failed = ("b", ok []) ∷ ("c", err (user "Timeout" 7)) ∷ []

abbrev names_b : JoinAdmitFn World
names_b outcomes w = (ok ("b" ∷ "b" ∷ []), w)

admit_custom_contract_example :
    All (λ name. Succeeded name half_failed) ("b" ∷ "b" ∷ [])
      × (named_in ("b" ∷ "b" ∷ []) half_failed ≢ [])
      × (admit (custom names_b) half_failed [] ≡ (ok (("b", []) ∷ []), []))
    ⊎ All (λ name. Succeeded name half_failed) ("b" ∷ "b" ∷ [])
      × (named_in ("b" ∷ "b" ∷ []) half_failed ≡ [])
      × Refuses (custom names_b) half_failed [] []
    ⊎ (¬ All (λ name. Succeeded name half_failed) ("b" ∷ "b" ∷ []))
      × (admit (custom names_b) half_failed [] ≡ (err value_error, []))
admit_custom_contract_example =
    admit_custom_contract names_b half_failed ("b" ∷ "b" ∷ []) [] [] refl

abbrev differing : List Contribution
differing = ("c", text "y") ∷ []

reject_conflict_contract_example :
    Agrees (text "x") differing
      × (reduce_field {W = World} "k" reject_conflict null (("b", text "x") ∷ differing) []
          ≡ (ok (text "x"), []))
    ⊎ (¬ Agrees (text "x") differing)
      × (reduce_field {W = World} "k" reject_conflict null (("b", text "x") ∷ differing) []
          ≡ (err (reducer_conflict "k" ("b" ∷ "c" ∷ [])), []))
reject_conflict_contract_example = reject_conflict_contract "k" "b" null (text "x") differing []

abbrev both_write : List Admitted
both_write = ("b", ("k", text "x") ∷ []) ∷ ("c", ("k", text "x") ∷ ("m", text "y") ∷ []) ∷ []

fold_contract_example :
    Triple
      (λ w. Unit)
      (fold (ungated diamond) fresh both_write none)
      (λ r w. Attributes "k" (some ("b" ∷ "c" ∷ [])) r)
      (λ e w. Unit)
fold_contract_example = fold_contract (ungated diamond) fresh both_write none "k"

fold-Merges_example :
    Triple
      (λ w. Unit)
      (fold (ungated diamond) fresh both_write none)
      (λ r w. Merges (ungated diamond) fresh "k" (writes "k" both_write) r)
      (λ e w. Unit)
fold-Merges_example = fold-Merges (ungated diamond) fresh both_write none "k"

abbrev pause : GateDecision
pause = record { verdict = stop; reason = text "pause" }

abbrev with_metadata : Dict Value
with_metadata = ("metadata", dict (to_fields (("owner", text "o") ∷ []))) ∷ ("k", text "x") ∷ []

abbrev paused : Dict Value
paused = update with_metadata (
    ("status", text "stopped")
    ∷ (
      "metadata",
      dict (
          to_fields
            (("owner", text "o") ∷ ("stop_node", text "b") ∷ ("stop_reason", text "pause") ∷ [])),
    )
    ∷ [])

abbrev paused_observation : GraphObservation (Dict Value)
paused_observation =
    observation
      (record (event_at EventKind.stopped "b" 2) { terminal_reason = some TerminalReason.stopped })
      paused

stopped-with_metadata : stopped dict_model with_metadata "b" 2 pause ≡ ok paused_observation
unfolding program
stopped-with_metadata = refl

stopped_contract_example :
    (paused_observation.delta ≡ none)
    × (lookup "k" paused ≡ lookup "k" with_metadata)
    × ((metadata : Value) × (before : Dict Value) × (after : Dict Value) × (lookup "metadata"
            with_metadata
          ≡ some metadata)
        × (mapping metadata ≡ some before)
        × (lookup "metadata" paused ≡ some (dict (to_fields after)))
        × (lookup "stop_node" after ≡ some (text "b"))
        × (lookup "stop_reason" after ≡ some (text "pause"))
        × (lookup "owner" after ≡ lookup "owner" before))
stopped_contract_example =
    stopped_contract dict_model with_metadata "b" 2 pause paused_observation "k" "owner"
      stopped-with_metadata refl refl refl refl

resolve_edge_contract_example :
    ((name : String) × (text "b" ≡ text name)
      × IsTarget diamond name
      × (resolve_edge (ungated diamond) (static "b") fresh [] ≡ (ok name, [])))
    ⊎ ((name : String) × (text "b" ≡ text name)
        × (¬ IsTarget diamond name)
        × (resolve_edge (ungated diamond) (static "b") fresh [] ≡ (err value_error, [])))
    ⊎ (¬ IsText (text "b"))
      × (resolve_edge (ungated diamond) (static "b") fresh [] ≡ (err type_error, []))
unfolding edge_value
resolve_edge_contract_example =
    resolve_edge_contract (ungated diamond) (static "b") fresh (text "b") [] [] refl

abbrev entered : MiniGraph Fields World
entered = record { nodes = []; edges = (start_node, static "a") ∷ []; reducers = []; max_steps = 5 }

set_entry-empty : set_entry "a" (mini_graph {S = Fields} {W = World} 5) ≡ ok entered
unfolding set_entry mini_graph program
set_entry-empty = refl

compile-start_example : opens_region (lookup start_node (compile entered).edges) ≡ false
compile-start_example = compile-start entered (with_entry "a" (empty 5) set_entry-empty)
