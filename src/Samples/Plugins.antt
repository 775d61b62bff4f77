-- ===== src/Samples/Plugins.antt =====
-- A label router in the sample graph, and deltas merged.
use perpetua_core.Prelude.{
  String, ◌≡◌, refl, none, [], ◌∷◌, ◌==◌, if◌then◌else◌, lookup, assign, update, some, List,
}
use perpetua_core.Value.{Value, text, dict, to_fields, of_fields, mapping, list, to_items, end}
use perpetua_core.Errors.{ok, err, key_error, Result}
use perpetua_core.Exec.{pure, Exec}
use perpetua_core.Graph.{router, TerminalReason, delta}
use perpetua_core.Scheduler.States.{check_target, or_type_error}
use perpetua_core.Scheduler.Loop.{resolve_edge}
use perpetua_core.Plugins.Router.{LabelRouter, register, as_edge, as_edge_contract}
use perpetua_core.Plugins.Parallel.{
  earlier_scratchpad, merge_scratchpad, merge_entry, merge_delta, merge_deltas, merge_result,
  Gather, parallel_dispatch,
}
use perpetua_core.Plugins.Subgraph.{dumped, as_node, as_node-IsOutcome}
use perpetua_core.Scheduler.Trace.Termination.{IsOutcome}
use perpetua_core.Scheduler.Trace.{status_of}
use perpetua_core.Samples.{program, World, Fields, fresh, diamond, ungated, null}

abbrev by_label : LabelRouter Fields World
by_label = record { policy = λ s. pure (text "next"); labels = [] }

as_edge_contract_example :
    (resolve_edge (ungated diamond) (router (as_edge (register "next" "d" by_label))) fresh [] ≡ (
      if "next" == "next"
          then check_target diamond (text "d")
          else (resolve_edge (ungated diamond) (router (as_edge by_label)) fresh []).0,
      [],
    ))
    × (lookup "next" by_label.labels ≡ none
        → resolve_edge (ungated diamond) (router (as_edge by_label)) fresh [] ≡ (err key_error, []))
as_edge_contract_example =
    as_edge_contract (ungated diamond) by_label fresh [] [] "next" "next" "d" refl

abbrev pad : String → Value
pad name = dict (to_fields ((name, text name) ∷ []))

abbrev writes_pad : String → Fields → Exec World Value
writes_pad name s w =
    (ok (dict (to_fields (("plan", text name) ∷ ("scratchpad", pad name) ∷ []))), w)

abbrev gathered_with : Value → Result (List Value) × World → Result (List Value) × World
gathered_with v (ok vs, w) = (ok (v ∷ vs), w)
gathered_with v (err e, w) = (err e, w)

abbrev gather_in_turn : Gather World
gather_in_turn [] w = (ok [], w)
gather_in_turn (m ∷ ms) w =
    let (first, w₁) = m w in
    elim first [ ok v ↦ gathered_with v (gather_in_turn ms w₁) | err e ↦ (err e, w₁) ]

-- The last branch wins on `plan`; the scratchpad has the entries of both; a None is passed over.
parallel_dispatch-two :
    parallel_dispatch gather_in_turn
      (("b", writes_pad "b") ∷ ("n", λ s. pure null) ∷ ("c", writes_pad "c") ∷ [])
      fresh
      []
    ≡ (
      ok (
          ("plan", text "c")
          ∷ ("scratchpad", dict (to_fields (("b", text "b") ∷ ("c", text "c") ∷ [])))
          ∷ []),
      [],
    )
unfolding earlier_scratchpad merge_scratchpad merge_entry merge_delta merge_result merge_deltas
    parallel_dispatch lookup assign update to_fields of_fields or_type_error mapping
parallel_dispatch-two = refl

abbrev diamond_done : Fields
diamond_done =
    ("status", text "done")
    ∷ ("nodes_visited", list (to_items (text "a" ∷ text "b" ∷ text "c" ∷ text "d" ∷ [])))
    ∷ ("metadata", dict end)
    ∷ ("plan", list (to_items (text "d" ∷ [])))
    ∷ ("notes", list (to_items (text "b" ∷ text "c" ∷ [])))
    ∷ []

as_node-diamond :
    as_node (ungated diamond) (λ s. s) fresh []
    ≡ (ok (delta diamond_done), "a" ∷ "b" ∷ "c" ∷ "d" ∷ [])
unfolding program as_node dumped
as_node-diamond = refl

as_node-IsOutcome_example :
    (s' : Fields) × (reason : TerminalReason) × IsOutcome (ungated diamond) fresh [] s' reason
    × (delta diamond_done ≡ delta s')
    × (lookup "status" s' ≡ some (text (status_of reason)))
as_node-IsOutcome_example =
    as_node-IsOutcome (ungated diamond) (λ s. s) fresh [] ("a" ∷ "b" ∷ "c" ∷ "d" ∷ [])
      (delta diamond_done) (λ t k. refl) as_node-diamond
