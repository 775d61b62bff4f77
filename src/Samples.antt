-- ===== src/Samples.antt =====
-- Small graphs and gates, and what the scheduler does on them.
mod Runs
mod Values
mod Backends
mod Specs
mod Plugins
mod Events
mod Gates
mod Batches
mod Exports
mod Listeners
mod Policies
use perpetua_core.Prelude.{
  ℕ, zero, suc, String, ◌≡◌, refl, Bool, true, false, Option, none, some, List, [], ◌∷◌, ◌++◌, ◌==◌,
  map, if◌then◌else◌, Dict, lookup, Subsequence, ◌≤◌, ◌≢◌, assign, update, sorted,
}
use perpetua_core.Value.{
  Value, null, text, list, dict, int, pos, nil, end, to_items, of_items, to_fields, of_fields,
  iterate, mapping, value_eq, is_in, is_json,
}
use perpetua_core.Scheduler.Trace.Termination.{observe-Closed, observe-raises}
use perpetua_core.Scheduler.Trace.{Closed, Progress, ends, status_of}
use perpetua_core.Scheduler.Admit.{
  Finished, finished, successes, failures, refusal, admit_some, admit_all, outcome_of, check_names,
  chosen, admit,
}
use perpetua_core.Scheduler.Admit.Contract.{admit-Subsequence}
use perpetua_core.Scheduler.Admit.Custom.{admit_custom_contract}
use perpetua_core.Exec.Triple.{Triple}
use perpetua_core.Graph.{
  TerminalReason, JoinAdmitFn, quorum, custom, start_node, end_node, NodeFn, Returned, delta, Edge,
  static, fan_out, router, Graph, Join, all, FanOut, EventKind, GraphEvent, GraphObservation,
}
use perpetua_core.Errors.{
  value_error, Exception, interrupt, user, max_steps_exceeded, Result, ok, err, to_exceptions,
  type_name,
}
use perpetua_core.Scheduler.Loop.{
  last_state, observe, invoke, steps_of, terminal, edge_value, after_region, resolve_edge, route,
  on_exception, publish_delta, on_returned, run_node, edge_from, pass_region, finish_run, loop,
  run_graph,
}
use perpetua_core.State.{dict_model, merge, attr}
use perpetua_core.Gate.{
  Gate, GateDecision, Verdict, Answer, decided, DispatchRequest, DispatchBoundary, CommitRequest,
  allow, refuse, stop, checked, enforce,
}
use perpetua_core.Reducers.{Reducer, concat, reduce_field}
use perpetua_core.Scheduler.{Host, Invocation, Run, call, emit, emit_all}
use perpetua_core.Scheduler.States.{
  interrupt_of, or_type_error, visit, mark, interrupted_state, stopped, is_node, node_for,
  nodes_for, check_target,
}
use perpetua_core.Scheduler.Boundary.{
  delta_digest, require_awaited, ask, dispatch, start_hook, before_start, commit, settle_hook,
  after_commit,
}
use perpetua_core.Scheduler.Settle.{
  after_dispatch, after_start, after_call, call_branch, advance, finish_started, finish_admitted,
  finish, resume, interleave, finish_all, settle,
}
use perpetua_core.Scheduler.Fold.{
  contribute, contribute_all, gather, contributions, guard_reducer, fold_field, contributions_of,
  fold_keys, fold,
}
use perpetua_core.Scheduler.Region.{
  first_admission_failure, start_failures, first_refusal, start_error, first_stop, first_interrupt,
  judge_interrupt, judge, reraise, stop_at, unless_stopped, publish, after_fold, fold_and_publish,
  ask_join, join_branches, conclude, run_batch, mint, run_region,
}
use perpetua_core.Exec.{◌>>=◌, attempt}

-- The world of the samples is a log of the nodes that ran.
abbrev pub World : Type 0
World = List String

abbrev pub Fields : Type 0
Fields = Dict Value

abbrev pub fresh : Fields
fresh = ("status", text "idle") ∷ ("nodes_visited", list nil) ∷ ("metadata", dict end) ∷ []

-- A node that logs its name and writes its name to a field.
abbrev pub writes : String → String → NodeFn Fields World
writes name key s w = (ok (delta ((key, list (to_items (text name ∷ []))) ∷ [])), w ++ name ∷ [])

abbrev pub asks : String → NodeFn Fields World
asks name s w = (err (interrupt (text "go on?") null), w ++ name ∷ [])

abbrev pub host : Host Fields World
host = record {
  digest = λ d. "digest";
  token = λ w. ("batch", w);
  consume = λ o w. w;
  schedule = λ names w. [];
}

-- a, then b and c in a region, then d
abbrev pub diamond : Graph Fields World
diamond = record {
  nodes =
      ("a", writes "a" "plan")
      ∷ ("b", writes "b" "notes")
      ∷ ("c", writes "c" "notes")
      ∷ ("d", writes "d" "plan")
      ∷ [];
  edges =
      (start_node, static "a")
      ∷ ("a", fan_out (record { branches = "b" ∷ "c" ∷ []; then_node = "d"; join = all }))
      ∷ [];
  max_steps = 4;
  reducers = ("notes", concat) ∷ [];
}

abbrev pub ungated : Graph Fields World → Invocation Fields World
ungated graph = record { model = dict_model; graph = graph; host = host; gate = none }

abbrev pub kinds : List GraphEvent → List EventKind
kinds es = map (λ e. e.kind) es

-- All that a run computes with.
pub program : Unit {0}
unfolding call emit emit_all interrupt_of or_type_error visit mark interrupted_state stopped is_node
    node_for nodes_for check_target delta_digest require_awaited ask dispatch start_hook
    before_start commit settle_hook after_commit after_dispatch after_start after_call call_branch
    advance finish_started finish_admitted finish resume interleave finish_all settle finished
    successes failures refusal admit_some admit_all outcome_of check_names chosen admit contribute
    contribute_all gather contributions guard_reducer fold_field contributions_of fold_keys fold
    first_admission_failure start_failures first_refusal start_error first_stop first_interrupt
    judge_interrupt judge reraise stop_at unless_stopped publish after_fold fold_and_publish
    ask_join join_branches conclude run_batch mint run_region edge_value after_region resolve_edge
    route on_exception publish_delta on_returned run_node edge_from pass_region finish_run loop
    run_graph observe steps_of invoke ◌>>=◌ attempt checked enforce merge attr to_items of_items
    to_fields of_fields iterate mapping value_eq is_in is_json reduce_field lookup assign update
    sorted to_exceptions type_name
program = tt

steps_of-diamond :
    kinds (steps_of (ungated diamond) fresh [])
    ≡ EventKind.edge_selected ∷ EventKind.node_start ∷ EventKind.node_end
      ∷ EventKind.superstep_start ∷ EventKind.node_start ∷ EventKind.node_start ∷ EventKind.node_end
      ∷ EventKind.node_end ∷ EventKind.superstep_commit ∷ EventKind.edge_selected
      ∷ EventKind.node_start ∷ EventKind.node_end ∷ EventKind.edge_selected ∷ EventKind.done ∷ []
unfolding program
steps_of-diamond = refl

abbrev pub final : Result Fields → String → Option Value
final (ok s) k = lookup k s
final (err e) k = none

invoke-diamond :
    (final (invoke (ungated diamond) fresh []) "notes"
      ≡ some (list (to_items (text "b" ∷ text "c" ∷ []))))
    × (final (invoke (ungated diamond) fresh []) "status" ≡ some (text "done"))
    × (final (invoke (ungated diamond) fresh []) "nodes_visited"
        ≡ some (list (to_items (text "a" ∷ text "b" ∷ text "c" ∷ text "d" ∷ []))))
unfolding program
invoke-diamond = (refl, refl, refl)

-- With three steps the last node is refused.
invoke-diamond_short :
    invoke (ungated (record diamond { max_steps = 3 })) fresh [] ≡ err (max_steps_exceeded 3 "a")
unfolding program
invoke-diamond_short = refl
