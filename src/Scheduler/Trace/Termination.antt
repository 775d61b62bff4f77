-- ===== src/Scheduler/Trace/Termination.antt =====
-- Every run ends: within its step budget, and at a terminal observation unless it raises.
use perpetua_core.Prelude.{
  ℕ, zero, suc, ◌+◌, ◌≤◌, ◌<◌, String, ◌≡◌, refl, Bool, true, false, some, List, [], ◌∷◌, arith,
  ◌==◌, ◌++◌, subst, inl, inr, sym, ◌∙◌,
}
use perpetua_core.Errors.{Exception, Result, ok, err, Result-cases, ok-injective}
use perpetua_core.Exec.{pure}
use perpetua_core.Exec.Triple.{Holds, Triple, Triple-bind, Triple-pure}
use perpetua_core.Graph.{start_node, end_node, Edge, fan_out, TerminalReason, GraphObservation}
use perpetua_core.Scheduler.{Invocation, Run, Scheduled}
use perpetua_core.Scheduler.Region.{Turn, ended, onward}
use perpetua_core.Scheduler.Loop.{
  Finish, terminal, Route, stopped_route, target, pass_region, after_region, edge_from, finish_run,
  loop, run_graph, observe, invoke, last_state,
}
use perpetua_core.Scheduler.Trace.{
  Progress, Closed, At, Ended, Raised, emit-Ended, text, kind_of, status_of,
}
use perpetua_core.Scheduler.Trace.Stops.{Left, done-status}
use perpetua_core.Scheduler.Trace.Node.{run_node-Left, Routed, route-Routed}
use perpetua_core.Scheduler.Trace.Region.{run_region-Left}

module _ {S W : Type 0} (run : Invocation S W) where
  abbrev Finished : Finish → Run S W → Type 0
  Finished finish r = (finish ≡ terminal) × Ended run r

  module _ {A : Type 0} {Q : A → Run S W → Type 0} {E : Exception → Run S W → Type 0} where
    Turn-cases :
        (low : ℕ) (turn : Turn S) (m : Scheduled S W A) (f : S → ℕ → Scheduled S W A)
        → Triple (Ended run) m Q E
        → ((s : S) (n : ℕ) → low ≤ n → Triple (At run n) (f s n) Q E)
        → Triple (Left run low turn) (elim turn [ ended ↦ m | onward s n ↦ f s n ]) Q E
    Turn-cases low ended m f hm hf = hm
    Turn-cases low (onward s n) m f hm hf = record { at = λ r p. (hf s n p.1).at r p.0 }

    Route-cases :
        (n : ℕ) (next : Route S) (m : Scheduled S W A) (f : String → Scheduled S W A)
        → Triple (Ended run) m Q E
        → ((name : String) → Triple (At run n) (f name) Q E)
        → Triple (Routed run n next) (elim next [ stopped_route ↦ m | target name ↦ f name ]) Q E
    Route-cases n stopped_route m f hm hf = hm
    Route-cases n (target name) m f hm hf = hf name

    Bool-split :
        {P : Run S W → Type 0} (b : Bool) (m n : Scheduled S W A)
        → Triple P m Q E
        → Triple P n Q E
        → Triple P (elim b [ true ↦ m | false ↦ n ]) Q E
    Bool-split true m n hm hn = hm
    Bool-split false m n hm hn = hn

  finished : Triple (Ended run) (pure terminal) Finished (Raised run)
  finished = Triple-pure terminal (λ r closed. (refl, closed))

  finish_run-Finished :
      (s : S) (steps : ℕ)
      → steps ≤ run.graph.max_steps
      → Triple (At run steps) (finish_run run s steps) Finished (Raised run)
  unfolding finish_run
  finish_run-Finished s steps h =
      Triple-bind _ _
        (emit-Ended run _ (record {
          reason = TerminalReason.done;
          reported = refl;
          kind_fits = refl;
          status_fits = done-status run.model s;
          in_budget = h;
        }))
        (λ u. finished)

  pass_region-Left :
      (node : String) (edge : Edge S W) (s : S) (steps : ℕ)
      → Triple (At run steps) (pass_region run node edge s steps) (Left run steps) (Raised run)
  unfolding pass_region
  pass_region-Left node (fan_out fan) s steps = run_region-Left run node fan s steps
  pass_region-Left node _ s steps = Triple-pure _ (λ r p. (p, omega arith))

  -- With fuel beyond the steps that are left the loop ends by itself.
  loop-Finished :
      (fuel : ℕ) (node : String) (s : S) (steps : ℕ) (last : String)
      → run.graph.max_steps < fuel + steps
      → Triple (At run steps) (loop run fuel node s steps last) Finished (Raised run)
  unfolding loop
  loop-Finished zero node s steps last h = record {
    at = λ r p. absurd (let bound = p.bounded in omega arith);
  }
  loop-Finished (suc fuel) node s steps last h = record {
    at = λ r p.
        (Bool-split (node == end_node) _ _ (finish_run-Finished s steps p.bounded) (
            Triple-bind _ _ (run_node-Left run node s steps last) (λ turn.
              Turn-cases (suc steps) turn _ _ finished (λ s₁ n₁ up₁.
                Triple-bind _ _ (pass_region-Left node (edge_from run node) s₁ n₁) (λ passed.
                  Turn-cases n₁ passed _ _ finished (λ s₂ n₂ up₂. record {
                    at = λ r₂ p₂.
                        (Triple-bind _ _
                            (route-Routed run (after_region (edge_from run node)) s₂ node n₂
                              p₂.bounded)
                            (λ next.
                              Route-cases n₂ next _ _ finished
                                (λ name. loop-Finished fuel name s₂ n₂ node (omega arith)))).at
                          r₂ p₂;
                  })))))).at
          r p;
  }

  start : Progress run.model run.graph.max_steps 0 []
  start = record { quiet = tt; completed = omega arith; bounded = omega arith }

  run_graph-Finished : (s : S) → Triple (At run 0) (run_graph run s) Finished (Raised run)
  unfolding run_graph
  run_graph-Finished s =
      Triple-bind _ _ (route-Routed run (edge_from run start_node) s start_node 0 (omega arith))
        (λ next.
          Route-cases 0 next _ _ finished
            (λ name. loop-Finished _ name s 0 start_node (omega arith)))

  pub observe-Finished : (s : S) (w : W) → Holds Finished (Raised run) (observe run s w)
  unfolding observe
  observe-Finished s w = (run_graph-Finished s).at (record { world = w; trace = [] }) start

module _ {S W : Type 0} (run : Invocation S W) (s : S) (w : W) where
  ends_of_ok :
      (finish : Finish) (x : Result Finish) (r : Run S W)
      → Holds (Finished run) (Raised run) (x, r)
      → x ≡ ok finish
      → Finished run finish r
  ends_of_ok finish (ok f) r h e = subst (λ g. Finished run g r) (ok-injective e) h
  ends_of_ok finish (err x) r h e = cc

  raised_of_err :
      (e : Exception) (x : Result Finish) (r : Run S W)
      → Holds (Finished run) (Raised run) (x, r)
      → x ≡ err e
      → Raised run e r
  raised_of_err e (ok f) r h p = cc
  raised_of_err e (err x) r h p = h

  -- A run that raises nothing is over by its own test, never by the model's fuel, and its observations
  -- are closed: exactly the last is terminal, its kind and its state's status are those of its
  -- reason, and neither the step counts nor the completed nodes pass `max_steps`.
  pub observe-Closed :
      (finish : Finish)
      → (observe run s w).0 ≡ ok finish
      → (finish ≡ terminal) × Closed run.model run.graph.max_steps (observe run s w).1.trace
  observe-Closed finish e =
      let (x, r) = observe run s w in ends_of_ok finish x r (observe-Finished run s w) e

  -- A run that raises has reported no terminal observation, and stayed within `max_steps`.
  pub observe-raises :
      (e : Exception)
      → (observe run s w).0 ≡ err e
      → Progress run.model run.graph.max_steps run.graph.max_steps (observe run s w).1.trace
  observe-raises e h =
      let (x, r) = observe run s w in raised_of_err e x r (observe-Finished run s w) h

last_state-snoc :
    {S : Type 0} (s : S) (os : List (GraphObservation S)) (o : GraphObservation S)
    → last_state s (os ++ o ∷ []) ≡ o.state
last_state-snoc s [] o = refl
last_state-snoc s (p ∷ os) o = last_state-snoc p.state os o

module _ {S W : Type 0} (run : Invocation S W) (s : S) (w : W) where
  -- The run's observations end with one whose state is the given one, whose event reports the reason
  -- and is of its kind; the status of the state is the reason's.
  pub record IsOutcome (s' : S) (reason : TerminalReason) : Type 0 where
    pub before : List (GraphObservation S)
    pub last : GraphObservation S
    pub split : (observe run s w).1.trace ≡ before ++ last ∷ []
    pub is_state : s' ≡ last.state
    pub reported : last.event.terminal_reason ≡ some reason
    pub kind_fits : last.event.kind ≡ kind_of reason
    pub status_fits : run.model.get_attr s' "status" ≡ some (text (status_of reason))

  -- What `ainvoke` returns is the state of the run's last observation, which is terminal, and the
  -- status of that state is done, interrupted or stopped as the reason is that this observation
  -- reports.
  pub invoke-IsOutcome :
      (s' : S) → invoke run s w ≡ ok s' → (reason : TerminalReason) × IsOutcome s' reason
  unfolding invoke
  invoke-IsOutcome s' h = elim (Result-cases (observe run s w).0) [
    | inl (finish, e) ↦
        let c = (observe-Closed run s w finish e).1 in
        let last_is : last_state s (observe run s w).1.trace ≡ s' = ok-injective (rw e at h) in
        let is_last : c.last.state ≡ s' =
          sym (last_state-snoc s c.before c.last) ∙ rw c.split at last_is in
        (
          c.ending.reason,
          record {
            before = c.before;
            last = c.last;
            split = c.split;
            is_state = sym is_last;
            reported = c.ending.reported;
            kind_fits = c.ending.kind_fits;
            status_fits =
                subst (λ t. run.model.get_attr t "status" ≡ some (text (status_of c.ending.reason)))
                  is_last c.ending.status_fits;
          },
        )
    | inr (e, x) ↦ cc (x, h)
  ]
