-- ===== src/Plugins/Subgraph.antt =====
-- graph/plugins/subgraphs.py and streaming.py: a graph as a node of another, and the events of a run.
use perpetua_core.Prelude.{String, ◌≡◌, refl, some, List, Dict, lookup, ap, sym, ◌∙◌}
use perpetua_core.Value.{Value, text}
use perpetua_core.Errors.{Result, ok, err, ok-injective}
use perpetua_core.Graph.{NodeFn, Returned, delta, GraphEvent, TerminalReason}
use perpetua_core.Scheduler.{Invocation}
use perpetua_core.Scheduler.Loop.{Finish, observe, invoke, steps_of}
use perpetua_core.Scheduler.Trace.{status_of}
use perpetua_core.Scheduler.Trace.Termination.{IsOutcome, invoke-IsOutcome}

-- What a subgraph's run gives to its node: pydantic's `model_dump` of the last state, or the error.
unfoldable pub dumped : {S : Type 0} → (S → Dict Value) → Result S → Result Returned
dumped model_dump (ok s) = ok (delta (model_dump s))
dumped model_dump (err e) = err e

-- `as_node`: the node's call is a whole run of the subgraph, without a gate of its own.
unfoldable pub as_node : {S W : Type 0} → Invocation S W → (S → Dict Value) → NodeFn S W
as_node subgraph model_dump s w =
    (dumped model_dump (invoke subgraph s w), (observe subgraph s w).1.world)

-- `streaming.astream`: the events of `asteps`, and what the iteration raises after them.
unfoldable pub stream_events :
    {S W : Type 0} → Invocation S W → S → W → List GraphEvent × Result Finish
stream_events run s w = (steps_of run s w, (observe run s w).0)

module _ {S : Type 0} (model_dump : S → Dict Value) where
  dumped-ok :
      (result : Result S) (returned : Returned)
      → dumped model_dump result ≡ ok returned
      → (s : S) × (result ≡ ok s) × (returned ≡ delta (model_dump s))
  unfolding dumped
  dumped-ok (ok s) returned h = (s, refl, sym (ok-injective h))
  dumped-ok (err e) returned h = cc h

-- The node of a subgraph that returns gives the `model_dump` of the state in which the subgraph's run
-- ended: that of the run's last observation, whose event reports a terminal reason. Where
-- `model_dump` gives the fields of a state, the delta has the status of just that reason, whether the
-- subgraph is done, interrupted or stopped.
pub as_node-IsOutcome :
    {S W : Type 0} (subgraph : Invocation S W) (model_dump : S → Dict Value) (s : S) (w w' : W)
    (returned : Returned)
    → ((t : S) (k : String) → lookup k (model_dump t) ≡ subgraph.model.get_attr t k)
    → as_node subgraph model_dump s w ≡ (ok returned, w')
    → (s' : S) × (reason : TerminalReason) × IsOutcome subgraph s w s' reason
      × (returned ≡ delta (model_dump s'))
      × (lookup "status" (model_dump s') ≡ some (text (status_of reason)))
unfolding as_node
as_node-IsOutcome subgraph model_dump s w w' returned fields h =
    let (s', ran, given) = dumped-ok model_dump (invoke subgraph s w) returned (ap (λ x. x.0) h) in
    let (reason, outcome) = invoke-IsOutcome subgraph s w s' ran in
    (s', reason, outcome, given, fields s' "status" ∙ outcome.status_fits)
