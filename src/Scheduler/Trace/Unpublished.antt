-- ===== src/Scheduler/Trace/Unpublished.antt =====
-- The whole scheduler under a gate that allows no commit: it reports no published result.
pub mod Contract
use perpetua_core.Prelude.{
  ℕ, zero, suc, String, ◌≡◌, refl, Bool, true, false, Option, none, some, List, [], ◌∷◌, ◌++◌, map,
  All, All-snoc, ◌==◌, subst, sym, lookup,
}
use perpetua_core.Value.{Value}
use perpetua_core.Errors.{Exception, type_error, Result, ok, err, >>=-ok, ok-injective}
use perpetua_core.Exec.{Exec, pure, raise, lift, captured, attempt, ◌>>=◌, ◌>>◌}
use perpetua_core.Exec.Triple.{
  Holds, Triple, Triple-bind, Triple-pure, Triple-raise, Triple-any, Triple-elim_option,
  Triple-elim_bool, Triple-weaken, Triple-given,
}
use perpetua_core.Gate.{Gate, GateDecision, CommitBoundary, CommitRequest}
use perpetua_core.Graph.{
  EventKind, NodeDelta, Returned, delta, not_dict, Edge, fan_out, FanOut, GraphObservation,
  GraphEvent, observation,
}
use perpetua_core.Scheduler.{Invocation, Run, Scheduled, call, emit, emit_all}
use perpetua_core.Scheduler.States.{interrupt_of, stopped, mark, interrupted_state, visit}
use perpetua_core.Scheduler.Boundary.{commit}
use perpetua_core.Scheduler.Settle.{Settled}
use perpetua_core.Scheduler.Admit.{Admitted, Finished, finished}
use perpetua_core.Scheduler.Fold.{Folded, FoldResult, folded, boundary_stopped}
use perpetua_core.Scheduler.Region.{
  Turn, ended, onward, Judgement, raises, stops, interrupts, completes, judge, stop_at,
  unless_stopped, publish, after_fold, fold_and_publish, ask_join, join_branches, conclude,
  run_batch, mint, run_region, is_custom_join,
}
use perpetua_core.Scheduler.Loop.{
  Finish, Route, stopped_route, target, route, on_exception, publish_delta, on_returned, run_node,
  pass_region, edge_from, after_region, finish_run, loop, run_graph, observe,
}
use perpetua_core.Scheduler.Trace.Withheld.{
  IsUnpublished, IsUntouched, IsUntouched-visit, IsUntouched-mark, IsUntouched-interrupted_state,
  is_publication, Withholds, IsStop, commit-IsStop,
}

module _ {S W : Type 0} (run : Invocation S W) (initial : S) where
  abbrev pub Quiet : GraphObservation S → Type 0
  Quiet = IsUnpublished run.model initial

  abbrev pub Clean : S → Type 0
  Clean = IsUntouched run.model initial

  abbrev pub Unpublished : Run S W → Type 0
  Unpublished r = All Quiet r.trace

  abbrev pub Keeps : {A : Type 0} → Scheduled S W A → Type 0
  Keeps m = Triple Unpublished m (λ a r. Unpublished r) (λ e r. Unpublished r)

  -- Where the scheduler goes on, the state is untouched.
  abbrev pub GoesOn : Turn S → Type 0
  GoesOn ended = Unit
  GoesOn (onward s n) = Clean s

  abbrev pub Ends : Scheduled S W (Turn S) → Type 0
  Ends m = Triple Unpublished m (λ turn r. GoesOn turn × Unpublished r) (λ e r. Unpublished r)

  called :
      {A : Type 0} (Q : A → Type 0) (x : Result A) (w : W) (trace : List (GraphObservation S))
      → All Quiet trace
      → Holds (λ a (w' : W). Q a) (λ e w'. Unit) (x, w)
      → Holds
          (λ a (r : Run S W). Q a × Unpublished r)
          (λ e r. Unpublished r)
          (x, record { world = w; trace = trace })
  called Q (ok a) w trace p q = (q, p)
  called Q (err e) w trace p q = p

  call-fact :
      {A : Type 0} {Q : A → Type 0} (m : Exec W A)
      → Triple (λ w. Unit) m (λ a w. Q a) (λ e w. Unit)
      → Triple Unpublished (call m) (λ a r. Q a × Unpublished r) (λ e r. Unpublished r)
  unfolding call
  call-fact {Q} m t = record {
    at = λ r p. let (x, w) = m r.world in called Q x w r.trace p (t.at r.world tt);
  }

  pub Keeps-call : {A : Type 0} (m : Exec W A) → Keeps (call m)
  Keeps-call m = Triple-weaken _ (λ r p. p) (λ a r p. p.1) (λ e r p. p) (call-fact m (Triple-any m))

  attempted :
      {A : Type 0} (x : Result A) (w : W) (trace : List (GraphObservation S))
      → All Quiet trace
      → Holds
          (λ a (r : Run S W). Unpublished r)
          (λ e r. Unpublished r)
          (captured (x, record { world = w; trace = trace }))
  attempted (ok a) w trace p = p
  attempted (err e) w trace p = p

  pub Keeps-attempt : {A : Type 0} (m : Exec W A) → Keeps (attempt (call m))
  unfolding call attempt
  Keeps-attempt m = record { at = λ r p. let (x, w) = m r.world in attempted x w r.trace p }

  pub Keeps-pure : {A : Type 0} (a : A) → Keeps (pure a)
  Keeps-pure a = Triple-pure a (λ r p. p)

  pub Keeps-raise : {A : Type 0} (e : Exception) → Keeps {A = A} (raise e)
  Keeps-raise e = Triple-raise e (λ r p. p)

  pub Ends-pure : (turn : Turn S) → GoesOn turn → Ends (pure turn)
  Ends-pure turn h = Triple-pure turn (λ r p. (h, p))

  pub Ends-raise : (e : Exception) → Ends (raise e)
  Ends-raise e = Triple-raise e (λ r p. p)

  -- A result that is used only where it is known.
  pub lift-fact :
      {A : Type 0} (x : Result A)
      → Triple Unpublished (lift x) (λ a r. (x ≡ ok a) × Unpublished r) (λ e r. Unpublished r)
  lift-fact (ok a) = record { at = λ r p. (refl, p) }
  lift-fact (err e) = record { at = λ r p. p }

  pub Keeps-lift : {A : Type 0} (x : Result A) → Keeps (lift x)
  Keeps-lift x = Triple-weaken _ (λ r p. p) (λ a r p. p.1) (λ e r p. p) (lift-fact x)

  pub Keeps-emit : (o : GraphObservation S) → Quiet o → Keeps (emit run.host o)
  unfolding emit
  Keeps-emit o q = record { at = λ r p. All-snoc Quiet o r.trace q p }

  pub Keeps-emit_all :
      {A : Type 0} (report : A → GraphObservation S) (items : List A)
      → ((a : A) → Quiet (report a))
      → Keeps (emit_all run.host (map report items))
  unfolding emit_all
  Keeps-emit_all report [] q = Keeps-pure tt
  Keeps-emit_all report (a ∷ items) q =
      Triple-bind _ _ (Keeps-emit (report a) (q a)) (λ u. Keeps-emit_all report items q)

  pub Keeps-bind :
      {A B : Type 0} (m : Scheduled S W A) (f : A → Scheduled S W B)
      → Keeps m
      → ((a : A) → Keeps (f a))
      → Keeps (m >>= f)
  Keeps-bind m f h k = Triple-bind m f h k

  -- An observation of the scheduler's own, of an untouched state.
  pub observation-Quiet :
      (event : GraphEvent) (s : S)
      → is_publication event.kind ≡ false
      → Clean s
      → Quiet (observation event s)
  observation-Quiet event s q u = record {
    quiet = q;
    no_delta = refl;
    no_provenance = refl;
    untouched = u;
  }

  pub Ends-bind :
      {A : Type 0} (m : Scheduled S W A) (f : A → Scheduled S W (Turn S))
      → Keeps m
      → ((a : A) → Ends (f a))
      → Ends (m >>= f)
  Ends-bind m f h k = Triple-bind m f h k

  -- A step that makes a state which is used only where it is known to be untouched.
  pub Ends-made :
      (x : Result S) (f : S → Scheduled S W (Turn S))
      → ((s : S) → x ≡ ok s → Clean s)
      → ((s : S) → Clean s → Ends (f s))
      → Ends (lift x >>= f)
  Ends-made x f h k = Triple-bind _ _ (lift-fact x) (λ s. Triple-given (λ e. k s (h s e)))

  stopped-IsUnpublished :
      (s : S) (node : String) (steps : ℕ) (decision : GateDecision) (o : GraphObservation S)
      → Clean s
      → stopped run.model s node steps decision ≡ ok o
      → Quiet o
  unfolding stopped
  stopped-IsUnpublished s node steps decision o u h =
      let (s', built, marked) = >>=-ok (mark run.model s "stopped" _) h in
      subst Quiet (ok-injective built)
        (observation-Quiet _ s' refl (IsUntouched-mark run.model initial s s' _ _ marked u))

  pub Keeps-stop_at :
      (s : S) (node : String) (steps : ℕ) (decision : GateDecision)
      → Clean s
      → Ends (stop_at run s node steps decision)
  unfolding stop_at
  Keeps-stop_at s node steps decision u =
      Triple-bind _ _ (lift-fact (stopped run.model s node steps decision)) (λ o. Triple-given (λ e.
        Ends-bind _ _ (Keeps-emit o (stopped-IsUnpublished s node steps decision o u e))
          (λ v. Ends-pure _ tt)))

  pub Keeps-unless_stopped :
      (decision : Option GateDecision) (s : S) (node : String) (steps : ℕ)
      (rest : Scheduled S W (Turn S))
      → Clean s
      → Ends rest
      → Ends (unless_stopped run decision s node steps rest)
  unfolding unless_stopped
  Keeps-unless_stopped none s node steps rest u h = h
  Keeps-unless_stopped (some d) s node steps rest u h = Keeps-stop_at s node steps d u

  -- After a stop the rest does not run.
  Keeps-stopped :
      (decision : Option GateDecision) (s : S) (node : String) (steps : ℕ)
      (rest : Scheduled S W (Turn S))
      → Clean s
      → IsStop decision
      → Ends (unless_stopped run decision s node steps rest)
  unfolding unless_stopped
  Keeps-stopped none s node steps rest u h = absurd h
  Keeps-stopped (some d) s node steps rest u h = Keeps-stop_at s node steps d u

  pub Keeps-option :
      {A B : Type 0} (o : Option B) (m : Scheduled S W A) (f : B → Scheduled S W A)
      → Keeps m
      → ((b : B) → Keeps (f b))
      → Keeps (elim o [ none ↦ m | some b ↦ f b ])
  Keeps-option o m f hm hf = Triple-elim_option o m f hm hf

  module _ (gate : Gate W) (gated : run.gate ≡ some gate) (withholds : Withholds gate) where
    -- A commit that no gate lets through, and what would follow it.
    pub Keeps-commit :
        (boundary : CommitBoundary) (nodes : List String) (steps : ℕ)
        (source batch_id : Option String) (d : NodeDelta) (s : S) (node : String) (n : ℕ)
        (rest : Option GateDecision × Option CommitRequest → Scheduled S W (Turn S))
        → Clean s
        → Ends (do
          asked ← call (commit run.host.digest run.gate boundary nodes steps source batch_id d)
          unless_stopped run asked.0 s node n (rest asked))
    Keeps-commit boundary nodes steps source batch_id d s node n rest u =
        Triple-bind _ _
          (call-fact _ (
            subst
              (λ g.
                Triple (λ w. Unit) (commit run.host.digest g boundary nodes steps source batch_id d)
                  (λ asked w. IsStop asked.0) (λ e w. Unit))
              (sym gated)
              (commit-IsStop gate withholds run.host.digest boundary nodes steps source batch_id
                d)))
          (λ asked. Triple-given (λ stops. Keeps-stopped asked.0 s node n (rest asked) u stops))

    Keeps-on_returned :
        (s : S) (node : String) (steps : ℕ) (result : Result Returned)
        → Clean s
        → Ends (on_returned run s node steps result)
    unfolding on_returned on_exception publish_delta
    Keeps-on_returned s node steps (err e) u =
        Triple-elim_option (interrupt_of e) _ _ (Ends-raise e) (λ asked.
          Ends-made (interrupted_state run.model s node asked) _
            (λ s' e'. IsUntouched-interrupted_state run.model initial s s' node asked e' u)
            (λ interrupted v.
              Ends-bind _ _ (Keeps-emit _ (observation-Quiet _ interrupted refl v))
                (λ w. Ends-pure _ tt)))
    Keeps-on_returned s node steps (ok not_dict) u = Ends-raise type_error
    Keeps-on_returned s node steps (ok (delta d)) u =
        Keeps-commit CommitBoundary.node (node ∷ []) steps none none d s node steps _ u

    pub Keeps-run_node :
        (node : String) (s : S) (steps : ℕ) (last : String)
        → Clean s
        → Ends (run_node run node s steps last)
    unfolding run_node
    Keeps-run_node node s steps last u = Ends-bind _ _ (Keeps-lift _) (λ v.
        Ends-bind _ _ (Keeps-lift _) (λ fn.
          Ends-made (visit run.model s (node ∷ [])) _
            (λ s' e. IsUntouched-visit run.model initial s s' (node ∷ []) e u)
            (λ entered clean.
              Ends-bind _ _ (Keeps-emit _ (observation-Quiet _ entered refl clean)) (λ w.
                Ends-bind _ _ (Keeps-call _) (λ asked.
                  Keeps-unless_stopped asked.0 entered node steps _ clean (
                    Ends-bind _ _ (Keeps-call _) (λ x.
                      Ends-bind _ _ (Keeps-attempt _)
                        (λ result. Keeps-on_returned entered node steps result clean))))))))

    pub Keeps-route :
        (edge : Edge S W) (s : S) (source : String) (steps : ℕ)
        → Clean s
        → Keeps (route run edge s source steps)
    unfolding route
    Keeps-route edge s source steps u = Keeps-bind _ _ (Keeps-call _) (λ asked.
        Keeps-option asked.0 _ _
          (Keeps-bind _ _ (Keeps-call _) (λ v. Keeps-bind _ _ (Keeps-call _) (λ next.
            Keeps-bind _ _ (Keeps-emit _ (observation-Quiet _ s refl u)) (λ w. Keeps-pure _))))
          (λ d.
            Triple-bind _ _ (Keeps-stop_at s source steps d u)
              (λ turn. Triple-given (λ clean. Keeps-pure _))))
