-- ===== src/Scheduler/Loop/Denied/Contract.antt =====
-- A run under a gate that allows no dispatch: no callable of the graph gets control.
use perpetua_core.Prelude.{
  ℕ, zero, suc, String, ◌≡◌, refl, false, Option, none, some, [], ◌==◌, subst, sym, ◌⊎◌, Bool-cases,
  inl, inr, ap,
}
use perpetua_core.Errors.{type_error, Result, ok, err}
use perpetua_core.Exec.{pure, ◌>>=◌, ◌>>◌}
use perpetua_core.Exec.Triple.{
  Holds, Triple, Triple-bind, Triple-pure, Triple-raise, Triple-lift, Triple-given, Triple-weaken,
  Triple-elim_bool,
}
use perpetua_core.Gate.{Gate, GateDecision, DispatchRequest, DispatchBoundary}
use perpetua_core.Graph.{
  start_node, end_node, Edge, static, router, conditional, fan_out, GraphObservation, EventKind,
  observation, event_at,
}
use perpetua_core.Scheduler.{Invocation, Run, Scheduled, call, emit}
use perpetua_core.Scheduler.Boundary.{dispatch, before_start, runs_code}
use perpetua_core.Scheduler.Region.{Turn, ended, onward, stop_at}
use perpetua_core.Scheduler.Loop.{
  Route, stopped_route, target, edge_value, resolve_edge, route, edge_from, finish_run, loop,
  run_graph, observe,
}
use perpetua_core.Scheduler.Trace.Withheld.{IsStop}
use perpetua_core.Scheduler.Loop.Denied.{
  Denies, ask-IsStop, InWorld, Kept, call-Triple, Kept-emit, IsEnded, Ends, stop_at-Ends,
  run_node-Ends,
}

module _ {S W : Type 0} (run : Invocation S W) (P : W → Type 0)
    (consumes : (o : GraphObservation S) (w : W) → P w → P (run.host.consume o w)) (gate : Gate W)
    (gated : run.gate ≡ some gate) (denies : Denies P gate) where
  Asked : Edge S W → Option GateDecision × Option DispatchRequest → Type 0
  Asked edge asked = IsStop asked.0 ⊎ ((asked ≡ (none, none)) × (runs_code (some edge) ≡ false))

  -- The gate before a router: it stops, or it was not asked, since the edge runs no code.
  dispatch-Asked :
      (edge : Edge S W) (request : DispatchRequest)
      → request.boundary ≡ DispatchBoundary.router
      → Triple P
          (dispatch {S = S} run.gate (some edge) request)
          (λ asked w. Asked edge asked × P w)
          (λ e w. P w)
  unfolding dispatch Asked
  dispatch-Asked edge request h =
      subst
        (λ g.
          Triple P (dispatch {S = S} g (some edge) request) (λ asked w. Asked edge asked × P w)
            (λ e w. P w))
        (sym gated)
        (elim (Bool-cases (runs_code (some edge))) [
          | inl e ↦
              rw (dispatch, h, e)
                (Triple-weaken _ (λ w p. p) (λ asked w p. (inl p.0, p.1)) (λ x w p. p)
                  (ask-IsStop P gate denies request))
          | inr e ↦ rw (dispatch, h, e) (Triple-pure _ (λ w p. (inr (refl, refl), p)))
        ])

  resolve_edge-Kept :
      (edge : Edge S W) (s : S)
      → runs_code (some edge) ≡ false
      → Triple P (resolve_edge run edge s) (λ a w. P w) (λ e w. P w)
  unfolding resolve_edge edge_value
  resolve_edge-Kept (static name) s h =
      Triple-bind _ _ (Triple-pure {Q = λ v w. P w} _ (λ w p. p))
        (λ value. Triple-weaken _ (λ w p. p) (λ a w p. p.1) (λ e w p. p) (Triple-lift _))
  resolve_edge-Kept (fan_out fan) s h =
      Triple-bind {R = λ v w. P w} _ _ (Triple-raise type_error (λ w p. p))
        (λ value. Triple-weaken _ (λ w p. p) (λ a w p. p.1) (λ e w p. p) (Triple-lift _))
  resolve_edge-Kept (router fn) s h = cc h
  resolve_edge-Kept (conditional fn targets) s h = cc h

  before_start-none : Triple P (before_start run.gate none) (λ u w. P w) (λ e w. P w)
  unfolding before_start
  before_start-none =
      subst (λ g. Triple P (before_start g none) (λ u w. P w) (λ e w. P w)) (sym gated)
        (Triple-pure tt (λ w p. p))

  -- What follows the gate's answer to a router.
  abbrev go_on :
      Edge S W
      → S
      → String
      → ℕ
      → Option GateDecision × Option DispatchRequest
      → Scheduled S W (Route S)
  go_on edge s source steps asked = elim asked.0 [
    | some decision ↦ do stop_at run s source steps decision; pure stopped_route
    | none ↦ do
      call (before_start run.gate asked.1)
      next ← call (resolve_edge run edge s)
      emit run.host (
          observation
            (record (event_at EventKind.edge_selected source steps) { target = some next }) s)
      pure (target next)
  ]

  go_on-Kept :
      (edge : Edge S W) (s : S) (source : String) (steps : ℕ)
      (asked : Option GateDecision × Option DispatchRequest)
      → Asked edge asked
      → Kept run P consumes (go_on edge s source steps asked)
  unfolding Asked Ends
  go_on-Kept edge s source steps (some d, request) h =
      Triple-bind {R = λ turn r. InWorld run P consumes r} _ _
        (Triple-weaken _ (λ r p. p) (λ a r p. p.1) (λ e r p. p)
          (stop_at-Ends run P consumes s source steps d))
        (λ turn. Triple-pure _ (λ r p. p))
  go_on-Kept edge s source steps (none, request) (inl stops) = absurd stops
  go_on-Kept edge s source steps (none, request) (inr (asked, runs_none)) =
      Triple-bind _ _
        (call-Triple run P consumes _ (
          subst (λ q. Triple P (before_start run.gate q) (λ u w. P w) (λ e w. P w))
            (sym (ap (λ a. a.1) asked)) before_start-none))
        (λ u.
          Triple-bind _ _ (call-Triple run P consumes _ (resolve_edge-Kept edge s runs_none))
            (λ next. Triple-bind _ _ (Kept-emit run P consumes _) (λ v. Triple-pure _ (λ r p. p))))

  route-Kept :
      (edge : Edge S W) (s : S) (source : String) (steps : ℕ)
      → Kept run P consumes (route run edge s source steps)
  unfolding route
  route-Kept edge s source steps =
      Triple-bind _ _ (call-Triple run P consumes _ (dispatch-Asked edge _ refl))
        (λ asked. Triple-given (λ h. go_on-Kept edge s source steps asked h))

  Kept-next :
      {A : Type 0} (next : Route S) (m : Scheduled S W A) (f : String → Scheduled S W A)
      → Kept run P consumes m
      → ((name : String) → Kept run P consumes (f name))
      → Kept run P consumes (elim next [ stopped_route ↦ m | target name ↦ f name ])
  Kept-next stopped_route m f hm hf = hm
  Kept-next (target name) m f hm hf = hf name

  -- After a turn that has ended nothing runs.
  turn_over :
      {A : Type 0} (turn : Turn S) (m : Scheduled S W A) (f : S → ℕ → Scheduled S W A)
      → IsEnded run P consumes turn
      → Kept run P consumes m
      → Kept run P consumes (elim turn [ ended ↦ m | onward s n ↦ f s n ])
  turn_over ended m f h hm = hm
  turn_over (onward s n) m f h hm = absurd h

  loop-Kept :
      (fuel : ℕ) (node : String) (s : S) (steps : ℕ) (last : String)
      → Kept run P consumes (loop run fuel node s steps last)
  unfolding loop finish_run Ends
  loop-Kept zero node s steps last = Triple-pure _ (λ r p. p)
  loop-Kept (suc fuel) node s steps last =
      Triple-elim_bool (node == end_node) _ _
        (Triple-bind _ _ (run_node-Ends run P consumes gate gated denies node s steps last)
          (λ turn. Triple-given (λ h. turn_over turn _ _ h (Triple-pure _ (λ r p. p)))))
        (Triple-bind _ _ (Kept-emit run P consumes _) (λ u. Triple-pure _ (λ r p. p)))

  run_graph-Kept : (s : S) → Kept run P consumes (run_graph run s)
  unfolding run_graph
  run_graph-Kept s = Triple-bind _ _ (route-Kept (edge_from run start_node) s start_node 0) (λ next.
      Kept-next next _ _ (Triple-pure _ (λ r p. p)) (λ name. loop-Kept _ name s 0 start_node))

  either_way :
      {A : Type 0} (x : Result A) (r : Run S W)
      → Holds (λ a r. InWorld run P consumes r) (λ e r. InWorld run P consumes r) (x, r)
      → InWorld run P consumes r
  either_way (ok a) r p = p
  either_way (err e) r p = p

  -- Under a gate that lets no dispatch through, what the gate's dispatch decisions and the
  -- consumer of the observations keep of the world holds when the run ends, whatever the graph's
  -- nodes, routers, joins and reducers would change of it.
  pub observe-denied : (s : S) (w : W) → P w → P (observe run s w).1.world
  unfolding observe
  observe-denied s w p =
      let (x, r) = run_graph run s (record { world = w; trace = [] }) in
      either_way x r ((run_graph-Kept s).at (record { world = w; trace = [] }) p)
