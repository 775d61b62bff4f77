-- ===== src/Scheduler/Loop/Denied.antt =====
-- One node of the loop under a gate that allows no dispatch.
pub mod Contract
use perpetua_core.Prelude.{
  ℕ, zero, suc, String, ◌≡◌, ◌≢◌, refl, Bool, true, false, Option, none, some, List, [], ◌∷◌, ◌==◌,
  subst, sym, ◌⊎◌, Bool-cases, inl, inr, ap,
}
use perpetua_core.Errors.{Exception, type_error, Result, ok, err, ok-injective}
use perpetua_core.Exec.{Exec, pure, raise, lift, ◌>>=◌, ◌>>◌}
use perpetua_core.Exec.Triple.{
  Holds, Triple, Triple-bind, Triple-pure, Triple-raise, Triple-lift, Triple-given, Triple-weaken,
  Triple-elim_bool,
}
use perpetua_core.Gate.{
  Gate, GateDecision, allow, Answer, decided, foreign, DispatchRequest, DispatchBoundary, checked,
  enforce, enforce-some, dispatch_name,
}
use perpetua_core.Graph.{
  start_node, end_node, Edge, static, router, conditional, fan_out, GraphObservation, EventKind,
  observation, event_at,
}
use perpetua_core.Scheduler.{Invocation, Run, Scheduled, call, emit}
use perpetua_core.Scheduler.States.{stopped}
use perpetua_core.Scheduler.Boundary.{ask, dispatch, before_start, runs_code}
use perpetua_core.Scheduler.Region.{Turn, ended, onward, stop_at, unless_stopped}
use perpetua_core.Scheduler.Loop.{
  Finish, Route, stopped_route, target, edge_value, resolve_edge, route, run_node, edge_from,
  finish_run, loop, run_graph, observe,
}
use perpetua_core.Scheduler.Trace.Withheld.{IsNoAllow, IsStop, enforced}

-- A gate that lets no dispatch through, and keeps `P` of the world.
abbrev pub Denies : {W : Type 0} → (W → Type 0) → Gate W → Type 0
Denies P gate =
    (request : DispatchRequest)
    → Triple P (gate.before_dispatch request) (λ answer w. IsNoAllow answer × P w) (λ e w. P w)

module _ {W : Type 0} (P : W → Type 0) (gate : Gate W) (denies : Denies P gate) where
  pub ask-IsStop :
      (request : DispatchRequest)
      → Triple P (ask gate request) (λ asked w. IsStop asked.0 × P w) (λ e w. P w)
  unfolding ask
  ask-IsStop request = Triple-bind _ _ (denies request) (λ answer. Triple-given (λ no.
      Triple-bind _ _ (Triple-lift (checked answer)) (λ d. Triple-given (λ is_checked.
        Triple-bind _ _ (Triple-lift (enforce d (dispatch_name request.boundary) request.nodes))
          (λ o. Triple-given (λ e. Triple-pure _ (λ w p. (
            subst IsStop
                (sym (
                  enforce-some d (dispatch_name request.boundary) request.nodes o
                    (enforced answer no d is_checked) e))
                tt,
            p,
          ))))))))

module _ {S W : Type 0} (run : Invocation S W) (P : W → Type 0)
    (consumes : (o : GraphObservation S) (w : W) → P w → P (run.host.consume o w)) where
  abbrev pub InWorld : Run S W → Type 0
  InWorld r = P r.world

  abbrev pub Kept : {A : Type 0} → Scheduled S W A → Type 0
  Kept m = Triple InWorld m (λ a r. InWorld r) (λ e r. InWorld r)

  called :
      {A : Type 0} (Q : A → W → Type 0) (x : Result A) (w : W) (trace : List (GraphObservation S))
      → Holds Q (λ e w. P w) (x, w)
      → Holds
          (λ a r. Q a r.world)
          (λ e (r : Run S W). InWorld r)
          (x, record { world = w; trace = trace })
  called Q (ok a) w trace h = h
  called Q (err e) w trace h = h

  pub call-Triple :
      {A : Type 0} {Q : A → W → Type 0} (m : Exec W A)
      → Triple P m Q (λ e w. P w)
      → Triple InWorld (call m) (λ a r. Q a r.world) (λ e r. InWorld r)
  unfolding call
  call-Triple {Q} m t = record {
    at = λ r p. let (x, w) = m r.world in called Q x w r.trace (t.at r.world p);
  }

  pub Kept-emit : (o : GraphObservation S) → Kept (emit run.host o)
  unfolding emit
  Kept-emit o = record { at = λ r p. consumes o r.world p }

  Kept-lift : {A : Type 0} (x : Result A) → Kept (lift x)
  Kept-lift x = Triple-weaken _ (λ r p. p) (λ a r p. p.1) (λ e r p. p) (Triple-lift x)

  -- The run is over, or it goes on in no way.
  abbrev pub IsEnded : Turn S → Type 0
  IsEnded ended = Unit
  IsEnded (onward s n) = ⊥

  unfoldable pub Ends : Scheduled S W (Turn S) → Type 0
  Ends m = Triple InWorld m (λ turn r. IsEnded turn × InWorld r) (λ e r. InWorld r)

  pub stop_at-Ends :
      (s : S) (node : String) (steps : ℕ) (decision : GateDecision)
      → Ends (stop_at run s node steps decision)
  unfolding stop_at Ends
  stop_at-Ends s node steps decision =
      Triple-bind _ _ (Kept-lift _)
        (λ o. Triple-bind _ _ (Kept-emit o) (λ u. Triple-pure _ (λ r p. (tt, p))))

  unless_stopped-Ends :
      (decision : Option GateDecision) (s : S) (node : String) (steps : ℕ)
      (rest : Scheduled S W (Turn S))
      → IsStop decision
      → Ends (unless_stopped run decision s node steps rest)
  unfolding unless_stopped
  unless_stopped-Ends none s node steps rest h = absurd h
  unless_stopped-Ends (some d) s node steps rest h = stop_at-Ends s node steps d

  module _ (gate : Gate W) (gated : run.gate ≡ some gate) (denies : Denies P gate) where
    dispatch-IsStop :
        (request : DispatchRequest)
        → request.boundary ≡ DispatchBoundary.node
        → Triple P
            (dispatch {S = S} run.gate none request)
            (λ asked w. IsStop asked.0 × P w)
            (λ e w. P w)
    unfolding dispatch
    dispatch-IsStop request h =
        subst
          (λ g.
            Triple P (dispatch {S = S} g none request) (λ asked w. IsStop asked.0 × P w)
              (λ e w. P w))
          (sym gated) (rw (dispatch, h) (ask-IsStop P gate denies request))

    pub run_node-Ends :
        (node : String) (s : S) (steps : ℕ) (last : String) → Ends (run_node run node s steps last)
    unfolding run_node Ends
    run_node-Ends node s steps last = Triple-bind _ _ (Kept-lift _) (λ u.
        Triple-bind _ _ (Kept-lift _) (λ fn. Triple-bind _ _ (Kept-lift _) (λ entered.
          Triple-bind _ _ (Kept-emit _) (λ v.
            Triple-bind _ _ (call-Triple _ (dispatch-IsStop _ refl)) (λ asked.
              Triple-given (λ stops. unless_stopped-Ends asked.0 entered node steps _ stops))))))
