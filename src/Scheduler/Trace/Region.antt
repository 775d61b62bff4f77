-- ===== src/Scheduler/Trace/Region.antt =====
-- A fan-out region keeps the shape of the observations, and completes at most one step for each of
-- its branches.
use perpetua_core.Prelude.{
  ℕ, suc, ◌+◌, ◌≤◌, String, ◌≡◌, refl, true, false, List, [], ◌∷◌, map, arith, leb, length,
  length-map, Subsequence-length, leb→le,
}
use perpetua_core.Errors.{guard, guard-ok}
use perpetua_core.Exec.Triple.{
  Triple, Triple-bind, Triple-pure, Triple-raise, Triple-given, Triple-weaken, Triple-elim_bool,
}
use perpetua_core.Exec.Returns.{Returns-Triple}
use perpetua_core.Graph.{FanOut, GraphObservation}
use perpetua_core.Scheduler.{Invocation, Run, Scheduled, emit_all}
use perpetua_core.Scheduler.Settle.{Settled}
use perpetua_core.Scheduler.Settle.Order.{settled_names, settle-Returns}
use perpetua_core.Scheduler.Admit.{Admitted, Finished, finished, successes}
use perpetua_core.Scheduler.Admit.Contract.{successes-failures, admit-Subsequence}
use perpetua_core.Scheduler.Fold.{Folded, FoldResult, folded, boundary_stopped}
use perpetua_core.Scheduler.Region.{
  Turn, ended, onward, Judgement, raises, stops, interrupts, completes, judge, publish,
  fold_and_publish, ask_join, join_branches, conclude, run_batch, mint, run_region, is_custom_join,
  after_fold,
}
use perpetua_core.Scheduler.Trace.{
  IsQuiet, At, Raised, At-Raised, call-At, lift-At, attempt-call-At, emit-At, is_end,
}
use perpetua_core.Scheduler.Trace.Stops.{Left, stop_at-Left, unless_stopped-Left, interrupt-Left}
use perpetua_core.Scheduler.Trace.Node.{call_any, lift_any, emit_same, reraise-Left}

-- There are as many outcomes as branches.
settled-length :
    (results : List Settled) (branches : List String)
    → settled_names results ≡ branches
    → length results ≡ length branches
settled-length results branches named = rw (← named, length-map)

module _ {S W : Type 0} (run : Invocation S W) where
  -- Observations that report no completed node.
  emit_all_same :
      {A : Type 0} {n : ℕ} (report : A → GraphObservation S) (items : List A)
      → ((a : A) → IsQuiet run.model run.graph.max_steps (report a))
      → ((a : A) → is_end (report a).event.kind ≡ false)
      → n ≤ run.graph.max_steps
      → Triple (At run n) (emit_all run.host (map report items)) (λ u r. At run n r) (Raised run)
  unfolding emit_all
  emit_all_same report [] q none_ended h = Triple-pure _ (λ r p. p)
  emit_all_same report (a ∷ items) q none_ended h =
      Triple-bind _ _ (emit_same run (report a) (q a) (none_ended a) h)
        (λ u. emit_all_same report items q none_ended h)

  -- Observations that report one completed node each.
  emit_all_ends :
      {A : Type 0} {n : ℕ} (k : ℕ) (report : A → GraphObservation S) (items : List A)
      → ((a : A) → IsQuiet run.model run.graph.max_steps (report a))
      → ((a : A) → is_end (report a).event.kind ≡ true)
      → n + length items ≤ k
      → k ≤ run.graph.max_steps
      → Triple (At run n) (emit_all run.host (map report items)) (λ u r. At run k r) (Raised run)
  unfolding emit_all
  emit_all_ends k report [] q all_ended fits h =
      Triple-pure _ (λ r p. record { quiet = p.quiet; completed = omega arith; bounded = h })
  emit_all_ends {n} k report (a ∷ items) q all_ended fits h =
      Triple-bind {R = λ u r. At run (suc n) r} _ _
        (emit-At run (report a) (q a) (rw (all_ended a) (omega arith)) (omega arith))
        (λ u. emit_all_ends k report items q all_ended (omega arith) h)

  Left-lower :
      (high low : ℕ)
      → low ≤ high
      → (turn : Turn S) (r : Run S W) → Left run high turn r
      → Left run low turn r
  Left-lower high low h ended r p = p
  Left-lower high low h (onward s n) r p = (p.0, omega arith)

  module _ (source : String) (fan : FanOut W) (s snapshot : S) (steps : ℕ) (batch_id : String) where
    publish-Left :
        (admitted : List Admitted) (completed : ℕ) (result : Folded)
        → steps + length admitted ≤ completed
        → completed ≤ run.graph.max_steps
        → Triple
            (At run steps)
            (publish run source fan s snapshot steps batch_id admitted completed result)
            (Left run steps)
            (Raised run)
    unfolding publish
    publish-Left admitted completed result fits h = Triple-bind _ _ (call_any run _) (λ asked.
        unless_stopped-Left run asked.0 s source steps _ (omega arith) (
          Triple-bind _ _ (attempt-call-At run _) (λ settlement.
            Triple-bind _ _
              (emit_all_ends completed _ admitted
                (λ a. record { not_terminal = refl; in_budget = h }) (λ a. refl) fits h)
              (λ u.
                Triple-bind _ _
                  (emit_same run _ (record { not_terminal = refl; in_budget = h }) refl h)
                  (λ v.
                    Triple-weaken _ (λ r p. p) (Left-lower completed steps (omega arith))
                      (λ e r p. p) (reraise-Left run settlement _ completed))))))

    after_fold-Left :
        (admitted : List Admitted) (completed : ℕ) (result : FoldResult)
        → steps + length admitted ≤ completed
        → completed ≤ run.graph.max_steps
        → Triple
            (At run steps)
            (after_fold run source fan s snapshot steps batch_id admitted completed result)
            (Left run steps)
            (Raised run)
    unfolding after_fold
    after_fold-Left admitted completed (folded f) fits h = publish-Left admitted completed f fits h
    after_fold-Left admitted completed (boundary_stopped decision) fits h =
        stop_at-Left run s source steps decision (omega arith)

    fold_and_publish-Left :
        (admitted : List Admitted) (completed : ℕ)
        → steps + length admitted ≤ completed
        → completed ≤ run.graph.max_steps
        → Triple
            (At run steps)
            (fold_and_publish run source fan s snapshot steps batch_id admitted completed)
            (Left run steps)
            (Raised run)
    unfolding fold_and_publish
    fold_and_publish-Left admitted completed fits h = Triple-bind _ _ (call_any run _) (λ asked.
        unless_stopped-Left run asked.0 s source steps _ (omega arith) (
          Triple-bind _ _ (call_any run _)
            (λ result. after_fold-Left admitted completed result fits h)))

    ask_join-Left :
        (results : List Finished) (completed : ℕ) (rest : Scheduled S W (Turn S))
        → steps ≤ run.graph.max_steps
        → Triple (At run steps) rest (Left run steps) (Raised run)
        → Triple
            (At run steps)
            (ask_join run source fan s snapshot steps batch_id results completed rest)
            (Left run steps)
            (Raised run)
    unfolding ask_join
    ask_join-Left results completed rest h t = Triple-elim_bool (is_custom_join fan.join) _ _ t (
        Triple-bind _ _ (call_any run _) (λ asked.
          unless_stopped-Left run asked.0 s source steps _ h
            (Triple-bind _ _ (call_any run _) (λ u. t))))

    join_branches-Left :
        (results : List Finished)
        → steps + length results ≤ run.graph.max_steps
        → Triple
            (At run steps)
            (join_branches run source fan s snapshot steps batch_id results)
            (Left run steps)
            (Raised run)
    unfolding join_branches
    join_branches-Left results h = ask_join-Left results _ _ (omega arith) (
        Triple-bind _ _ (call-At run _ (admit-Subsequence fan.join results)) (λ admitted.
          Triple-given (λ some_of.
            fold_and_publish-Left admitted (steps + length (successes results))
              (omega (arith, Subsequence-length some_of))
              (omega (arith, successes-failures results)))))

    conclude-Left :
        (results : List Settled) (verdict : Judgement)
        → steps + length results ≤ run.graph.max_steps
        → Triple
            (At run steps)
            (conclude run source fan s snapshot steps batch_id results verdict)
            (Left run steps)
            (Raised run)
    unfolding conclude
    conclude-Left results (raises e) h = Triple-raise e (λ r p. At-Raised run e r p)
    conclude-Left results (stops decision) h =
        stop_at-Left run s source steps decision (omega arith)
    conclude-Left results (interrupts name asked) h =
        interrupt-Left run snapshot name asked _ refl refl (omega arith)
    conclude-Left results completes h =
        join_branches-Left (map finished results) (omega (arith, length-map finished results))

    run_batch-Left :
        steps + length fan.branches ≤ run.graph.max_steps
        → Triple
            (At run steps)
            (run_batch run source fan s snapshot steps batch_id)
            (Left run steps)
            (Raised run)
    unfolding run_batch
    run_batch-Left h = Triple-bind _ _ (call_any run _) (λ asked.
        unless_stopped-Left run asked.0 s source steps _ (omega arith) (
          Triple-bind _ _
            (call-At run _
              (Returns-Triple (settle-Returns run snapshot steps source batch_id fan.branches)))
            (λ results. Triple-given (λ named.
              conclude-Left results (judge results)
                (omega (arith, settled-length results fan.branches named))))))

  pub run_region-Left :
      (source : String) (fan : FanOut W) (s : S) (steps : ℕ)
      → Triple (At run steps) (run_region run source fan s steps) (Left run steps) (Raised run)
  unfolding run_region mint
  run_region-Left source fan s steps =
      Triple-bind _ _
        (lift-At run (guard (leb (steps + length fan.branches) run.graph.max_steps) _))
        (λ u. Triple-given (λ passed.
          let fits : steps + length fan.branches ≤ run.graph.max_steps =
            leb→le _ _ (guard-ok _ _ u passed) in
          let quiet : steps ≤ run.graph.max_steps = omega arith in
          Triple-bind _ _ (lift_any run _) (λ v. Triple-bind _ _ (lift_any run _) (λ w.
            Triple-bind _ _ (lift_any run _) (λ snapshot.
              Triple-bind _ _
                (emit_same run _ (record { not_terminal = refl; in_budget = quiet }) refl quiet)
                (λ x.
                  Triple-bind _ _
                    (emit_all_same _ fan.branches
                      (λ name. record { not_terminal = refl; in_budget = quiet }) (λ name. refl)
                      quiet)
                    (λ y.
                      Triple-bind _ _ (call_any run _) (λ batch_id.
                        run_batch-Left source fan s snapshot steps batch_id fits))))))))
