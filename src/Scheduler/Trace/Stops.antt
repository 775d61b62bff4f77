-- ===== src/Scheduler/Trace/Stops.antt =====
-- The terminal states and observations: stops, interrupts, and what may follow a boundary.
use perpetua_core.Prelude.{
  ℕ, ◌≤◌, String, ◌≡◌, refl, subst, Option, none, some, [], ◌∷◌, update, Dict,
}
use perpetua_core.Value.{Value, text, dict, mapping, to_fields}
use perpetua_core.Errors.{ok, >>=-ok, ok-injective}
use perpetua_core.Exec.{◌>>=◌, ◌>>◌, pure, lift}
use perpetua_core.Exec.Triple.{Triple, Triple-bind, Triple-pure, Triple-given, Triple-weaken}
use perpetua_core.State.{StateModel, merge, get_attr-merge, attr}
use perpetua_core.Gate.{GateDecision}
use perpetua_core.Graph.{EventKind, TerminalReason, GraphObservation, GraphEvent, observation}
use perpetua_core.Scheduler.{Invocation, Run, Scheduled, emit}
use perpetua_core.Scheduler.States.{or_type_error, mark, stopped, interrupted_state}
use perpetua_core.Scheduler.Region.{Turn, ended, onward, stop_at, unless_stopped}
use perpetua_core.Scheduler.Trace.{IsTerminal, At, Ended, Raised, lift-At, emit-Ended}

-- The delta that `mark` merges in.
abbrev marked : String → Dict Value → Dict Value → Dict Value
marked status before extra =
    ("status", text status) ∷ ("metadata", dict (to_fields (update before extra))) ∷ []

module _ {S : Type 0} (model : StateModel S) where
  -- `mark` sets the status.
  pub mark-status :
      (s s' : S) (status : String) (extra : Dict Value)
      → mark model s status extra ≡ ok s'
      → model.get_attr s' "status" ≡ some (text status)
  unfolding mark
  mark-status s s' status extra h =
      let (metadata, h', e) = >>=-ok (attr model s "metadata") h in
      let (before, h'', e') = >>=-ok (or_type_error (mapping metadata)) h' in
      cc (h'', get_attr-merge model s (marked status before extra) "status")

  pub stopped-IsTerminal :
      (s : S) (node : String) (steps : ℕ) (decision : GateDecision) (max : ℕ)
      (o : GraphObservation S)
      → steps ≤ max
      → stopped model s node steps decision ≡ ok o
      → IsTerminal model max o
  unfolding stopped
  stopped-IsTerminal s node steps decision max o h e =
      let (s', built, marked) = >>=-ok (mark model s "stopped" _) e in
      subst (IsTerminal model max) (ok-injective built) (record {
        reason = TerminalReason.stopped;
        reported = refl;
        kind_fits = refl;
        status_fits = mark-status s s' "stopped" _ marked;
        in_budget = h;
      })

  pub interrupted_state-status :
      (s s' : S) (node : String) (asked : Value × Value)
      → interrupted_state model s node asked ≡ ok s'
      → model.get_attr s' "status" ≡ some (text "interrupted")
  unfolding interrupted_state
  interrupted_state-status s s' node (prompt, payload) h = mark-status s s' "interrupted" _ h

  pub done-status :
      (s : S)
      → model.get_attr (merge model s (("status", text "done") ∷ [])) "status" ≡ some (text "done")
  done-status s = get_attr-merge model s _ "status"

module _ {S W : Type 0} (run : Invocation S W) where
  -- A turn ends the run, or leaves it under way with at least `low` steps completed.
  abbrev pub Left : ℕ → Turn S → Run S W → Type 0
  Left low ended r = Ended run r
  Left low (onward s n) r = At run n r × (low ≤ n)

  pub stop_at-Ended :
      {n : ℕ} (s : S) (node : String) (steps : ℕ) (decision : GateDecision)
      → steps ≤ run.graph.max_steps
      → Triple
          (At run n)
          (stop_at run s node steps decision)
          (λ turn r. (turn ≡ ended) × Ended run r)
          (Raised run)
  unfolding stop_at
  stop_at-Ended s node steps decision h =
      Triple-bind _ _ (lift-At run (stopped run.model s node steps decision)) (λ o.
        Triple-given (λ e.
          Triple-bind _ _
            (emit-Ended run o (stopped-IsTerminal run.model s node steps decision _ o h e))
            (λ u. Triple-pure ended (λ r closed. (refl, closed)))))

  Left-of_ended :
      (low : ℕ) (turn : Turn S) (r : Run S W) → (turn ≡ ended) × Ended run r → Left low turn r
  Left-of_ended low turn r (e, closed) = rw e closed

  pub stop_at-Left :
      {n low : ℕ} (s : S) (node : String) (steps : ℕ) (decision : GateDecision)
      → steps ≤ run.graph.max_steps
      → Triple (At run n) (stop_at run s node steps decision) (Left low) (Raised run)
  stop_at-Left {low} s node steps decision h =
      Triple-weaken _ (λ r p. p) (Left-of_ended low) (λ e r p. p)
        (stop_at-Ended s node steps decision h)

  -- A boundary: a stop ends the run, and otherwise the rest decides.
  pub unless_stopped-Left :
      {n low : ℕ} (stop : Option GateDecision) (s : S) (node : String) (steps : ℕ)
      (rest : Scheduled S W (Turn S))
      → steps ≤ run.graph.max_steps
      → Triple (At run n) rest (Left low) (Raised run)
      → Triple (At run n) (unless_stopped run stop s node steps rest) (Left low) (Raised run)
  unfolding unless_stopped
  unless_stopped-Left none s node steps rest h t = t
  unless_stopped-Left (some decision) s node steps rest h t = stop_at-Left s node steps decision h

  -- An interrupt: the interrupted state is reported, and the run ends.
  pub interrupt-Left :
      {n low : ℕ} (s : S) (node : String) (asked : Value × Value) (event : GraphEvent)
      → event.kind ≡ EventKind.interrupt
      → event.terminal_reason ≡ some TerminalReason.interrupted
      → event.steps ≤ run.graph.max_steps
      → Triple
          (At run n)
          (do
            interrupted ← lift (interrupted_state run.model s node asked)
            emit run.host (observation event interrupted)
            pure ended)
          (Left low)
          (Raised run)
  interrupt-Left s node asked event is_interrupt reported h =
      Triple-bind _ _ (lift-At run (interrupted_state run.model s node asked)) (λ s'.
        Triple-given (λ e.
          Triple-bind _ _
            (emit-Ended run _ (record {
              reason = TerminalReason.interrupted;
              reported = reported;
              kind_fits = is_interrupt;
              status_fits = interrupted_state-status run.model s s' node asked e;
              in_budget = h;
            }))
            (λ u. Triple-pure _ (λ r closed. closed))))
