-- ===== src/Scheduler/Trace/Node.antt =====
-- One node of the loop, and the routing after it, keep the shape of the observations.
use perpetua_core.Prelude.{ℕ, suc, ◌≤◌, ◌<◌, String, ◌≡◌, refl, true, false, arith, leb, not}
use perpetua_core.Errors.{Exception, Result, ok, err, guard, guard-ok, type_error}
use perpetua_core.Exec.{Exec, lift}
use perpetua_core.Exec.Triple.{
  Triple, Triple-bind, Triple-pure, Triple-raise, Triple-elim_option, Triple-any, Triple-given,
  Triple-weaken,
}
use perpetua_core.Graph.{NodeDelta, Returned, delta, not_dict, Edge, GraphObservation}
use perpetua_core.Scheduler.{Invocation, Run, call, emit}
use perpetua_core.Scheduler.States.{interrupt_of}
use perpetua_core.Scheduler.Region.{onward, reraise}
use perpetua_core.Scheduler.Loop.{
  Route, stopped_route, target, on_exception, publish_delta, on_returned, run_node, route,
}
use perpetua_core.Scheduler.Trace.{
  IsQuiet, At, Ended, Raised, At-Raised, call-At, lift-At, attempt-call-At, emit-At, is_end,
}
use perpetua_core.Scheduler.Trace.Stops.{Left, stop_at-Ended, unless_stopped-Left, interrupt-Left}

below_budget : (steps max : ℕ) → not (leb max steps) ≡ true → steps < max
below_budget steps max h = ground arith

module _ {S W : Type 0} (run : Invocation S W) where
  -- Outside code of which nothing is known.
  pub call_any :
      {A : Type 0} {n : ℕ} (m : Exec W A)
      → Triple (At run n) (call m) (λ a r. At run n r) (Raised run)
  call_any m = Triple-weaken _ (λ r p. p) (λ a r p. p.1) (λ e r p. p) (call-At run m (Triple-any m))

  pub lift_any :
      {A : Type 0} {n : ℕ} (x : Result A)
      → Triple (At run n) (lift x) (λ a r. At run n r) (Raised run)
  lift_any x = Triple-weaken _ (λ r p. p) (λ a r p. p.1) (λ e r p. p) (lift-At run x)

  -- An observation that reports no completed node.
  pub emit_same :
      {n : ℕ} (o : GraphObservation S)
      → IsQuiet run.model run.graph.max_steps o
      → is_end o.event.kind ≡ false
      → n ≤ run.graph.max_steps
      → Triple (At run n) (emit run.host o) (λ u r. At run n r) (Raised run)
  emit_same o q none_ended bound = emit-At run o q (rw none_ended (omega arith)) bound

  pub reraise-Left :
      (settlement : Result (Unit {0})) (s : S) (n : ℕ)
      → Triple (At run n) (reraise settlement (onward s n)) (Left run n) (Raised run)
  unfolding reraise
  reraise-Left (ok u) s n = Triple-pure _ (λ r p. (p, omega arith))
  reraise-Left (err e) s n = Triple-raise e (λ r p. At-Raised run e r p)

  publish_delta-Left :
      (s : S) (node : String) (steps : ℕ) (d : NodeDelta)
      → steps < run.graph.max_steps
      → Triple (At run steps) (publish_delta run s node steps d) (Left run (suc steps)) (Raised run)
  unfolding publish_delta
  publish_delta-Left s node steps d h = Triple-bind _ _ (call_any _) (λ asked.
      unless_stopped-Left run asked.0 s node steps _ (omega arith) (
        Triple-bind _ _ (attempt-call-At run _) (λ settlement.
          Triple-bind _ _
            (emit-At run _ (record { not_terminal = refl; in_budget = h }) (omega arith) h)
            (λ u. reraise-Left settlement _ (suc steps)))))

  on_exception-Left :
      (s : S) (node : String) (steps : ℕ) (e : Exception)
      → steps ≤ run.graph.max_steps
      → Triple (At run steps) (on_exception run s node steps e) (Left run (suc steps)) (Raised run)
  unfolding on_exception
  on_exception-Left s node steps e h =
      Triple-elim_option (interrupt_of e) _ _ (Triple-raise e (λ r p. At-Raised run e r p))
        (λ asked. interrupt-Left run s node asked _ refl refl h)

  on_returned-Left :
      (s : S) (node : String) (steps : ℕ) (result : Result Returned)
      → steps < run.graph.max_steps
      → Triple
          (At run steps)
          (on_returned run s node steps result)
          (Left run (suc steps))
          (Raised run)
  unfolding on_returned
  on_returned-Left s node steps (err e) h = on_exception-Left s node steps e (omega arith)
  on_returned-Left s node steps (ok not_dict) h =
      Triple-raise type_error (λ r p. At-Raised run type_error r p)
  on_returned-Left s node steps (ok (delta d)) h = publish_delta-Left s node steps d h

  -- A node that is entered below the budget completes at most one more step.
  pub run_node-Left :
      (node : String) (s : S) (steps : ℕ) (last : String)
      → Triple (At run steps) (run_node run node s steps last) (Left run (suc steps)) (Raised run)
  unfolding run_node
  run_node-Left node s steps last =
      Triple-bind _ _ (lift-At run (guard (not (leb run.graph.max_steps steps)) _)) (λ u.
        Triple-given (λ passed.
          let below : steps < run.graph.max_steps =
            below_budget steps run.graph.max_steps (guard-ok _ _ u passed) in
          Triple-bind _ _ (lift_any _) (λ fn. Triple-bind _ _ (lift_any _) (λ entered.
            Triple-bind _ _
              (emit_same _ (record { not_terminal = refl; in_budget = omega arith }) refl
                (omega arith))
              (λ v. Triple-bind _ _ (call_any _) (λ asked.
                unless_stopped-Left run asked.0 entered node steps _ (omega arith) (
                  Triple-bind _ _ (call_any _) (λ w.
                    Triple-bind _ _ (attempt-call-At run _)
                      (λ result. on_returned-Left entered node steps result below)))))))))

  -- A route ends the run by a stop, or leaves it as it was.
  abbrev pub Routed : ℕ → Route S → Run S W → Type 0
  Routed n stopped_route r = Ended run r
  Routed n (target name) r = At run n r

  pub route-Routed :
      (edge : Edge S W) (s : S) (source : String) (steps : ℕ)
      → steps ≤ run.graph.max_steps
      → Triple (At run steps) (route run edge s source steps) (Routed steps) (Raised run)
  unfolding route
  route-Routed edge s source steps h = Triple-bind _ _ (call_any _) (λ asked.
      Triple-elim_option asked.0 _ _
        (Triple-bind _ _ (call_any _) (λ u. Triple-bind _ _ (call_any _) (λ next.
          Triple-bind _ _ (emit_same _ (record { not_terminal = refl; in_budget = h }) refl h)
            (λ v. Triple-pure _ (λ r p. p)))))
        (λ decision.
          Triple-bind _ _ (stop_at-Ended run s source steps decision h)
            (λ turn. Triple-pure _ (λ r p. p.1))))
