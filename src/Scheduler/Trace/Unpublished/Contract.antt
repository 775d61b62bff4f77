-- ===== src/Scheduler/Trace/Unpublished/Contract.antt =====
-- Regions and the loop under a gate that allows no commit.
use perpetua_core.Prelude.{ℕ, zero, suc, String, ◌≡◌, refl, some, List, [], map, All, ◌==◌}
use perpetua_core.Errors.{Result, ok, err}
use perpetua_core.Exec.{◌>>=◌}
use perpetua_core.Exec.Triple.{Holds, Triple-elim_bool, Triple-bind, Triple-given}
use perpetua_core.Gate.{Gate, CommitBoundary}
use perpetua_core.Graph.{start_node, end_node, Edge, fan_out, FanOut}
use perpetua_core.Scheduler.{Invocation, Run, Scheduled}
use perpetua_core.Scheduler.Settle.{Settled}
use perpetua_core.Scheduler.Admit.{Admitted, Finished, finished, admitted_names}
use perpetua_core.Scheduler.Fold.{FoldResult, folded, boundary_stopped}
use perpetua_core.Scheduler.Region.{
  Turn, ended, onward, Judgement, raises, stops, interrupts, completes, judge, publish, after_fold,
  fold_and_publish, ask_join, join_branches, conclude, run_batch, mint, run_region, is_custom_join,
}
use perpetua_core.Scheduler.Loop.{
  Route, stopped_route, target, pass_region, edge_from, after_region, finish_run, loop, run_graph,
  observe,
}
use perpetua_core.Scheduler.Trace.Withheld.{
  IsUnpublished, Withholds, IsUntouched-visit, IsUntouched-interrupted_state, IsUntouched-done,
}
use perpetua_core.Scheduler.States.{visit, interrupted_state}
use perpetua_core.Scheduler.Trace.Unpublished.{
  Unpublished, Keeps, Clean, Ends, GoesOn, Ends-pure, Ends-raise, Ends-bind, Ends-made,
  observation-Quiet, Keeps-call, Keeps-pure, Keeps-lift, Keeps-emit, Keeps-emit_all, Keeps-bind,
  Keeps-stop_at, Keeps-unless_stopped, Keeps-commit, Keeps-run_node, Keeps-route,
}

module _ {S W : Type 0} (run : Invocation S W) (gate : Gate W) (gated : run.gate ≡ some gate)
    (withholds : Withholds gate) (initial : S) where
  module _ (source : String) (fan : FanOut W) (s snapshot : S) (steps : ℕ) (batch_id : String)
      (clean : Clean run initial s) (clean_snapshot : Clean run initial snapshot) where
    Keeps-after_fold :
        (admitted : List Admitted) (completed : ℕ) (result : FoldResult)
        → Ends run initial
            (after_fold run source fan s snapshot steps batch_id admitted completed result)
    unfolding after_fold publish
    Keeps-after_fold admitted completed (folded f) =
        Keeps-commit run initial gate gated withholds CommitBoundary.region
          (admitted_names admitted) completed (some source) (some batch_id) f.merged s source steps
          _ clean
    Keeps-after_fold admitted completed (boundary_stopped decision) =
        Keeps-stop_at run initial s source steps decision clean

    Keeps-fold_and_publish :
        (admitted : List Admitted) (completed : ℕ)
        → Ends run initial
            (fold_and_publish run source fan s snapshot steps batch_id admitted completed)
    unfolding fold_and_publish
    Keeps-fold_and_publish admitted completed =
        Ends-bind run initial _ _ (Keeps-call run initial _) (λ asked.
          Keeps-unless_stopped run initial asked.0 s source steps _ clean (
            Ends-bind run initial _ _ (Keeps-call run initial _)
              (λ result. Keeps-after_fold admitted completed result)))

    Keeps-join_branches :
        (results : List Finished)
        → Ends run initial (join_branches run source fan s snapshot steps batch_id results)
    unfolding join_branches ask_join
    Keeps-join_branches results =
        let rest =
          Ends-bind run initial _ _ (Keeps-call run initial _)
            (λ admitted. Keeps-fold_and_publish admitted _) in
        Triple-elim_bool (is_custom_join fan.join) _ _ rest (
          Ends-bind run initial _ _ (Keeps-call run initial _) (λ asked.
            Keeps-unless_stopped run initial asked.0 s source steps _ clean
              (Ends-bind run initial _ _ (Keeps-call run initial _) (λ u. rest))))

    Keeps-conclude :
        (results : List Settled) (verdict : Judgement)
        → Ends run initial (conclude run source fan s snapshot steps batch_id results verdict)
    unfolding conclude
    Keeps-conclude results (raises e) = Ends-raise run initial e
    Keeps-conclude results (stops decision) =
        Keeps-stop_at run initial s source steps decision clean
    Keeps-conclude results (interrupts name asked) =
        Ends-made run initial (interrupted_state run.model snapshot name asked) _
          (λ s' e.
            IsUntouched-interrupted_state run.model initial snapshot s' name asked e clean_snapshot)
          (λ interrupted v.
            Ends-bind run initial _ _
              (Keeps-emit run initial _ (observation-Quiet run initial _ interrupted refl v))
              (λ u. Ends-pure run initial _ tt))
    Keeps-conclude results completes = Keeps-join_branches (map finished results)

    Keeps-run_batch : Ends run initial (run_batch run source fan s snapshot steps batch_id)
    unfolding run_batch
    Keeps-run_batch = Ends-bind run initial _ _ (Keeps-call run initial _) (λ asked.
        Keeps-unless_stopped run initial asked.0 s source steps _ clean (
          Ends-bind run initial _ _ (Keeps-call run initial _)
            (λ results. Keeps-conclude results (judge results))))

  Keeps-run_region :
      (source : String) (fan : FanOut W) (s : S) (steps : ℕ)
      → Clean run initial s
      → Ends run initial (run_region run source fan s steps)
  unfolding run_region mint
  Keeps-run_region source fan s steps clean =
      Ends-bind run initial _ _ (Keeps-lift run initial _) (λ u.
        Ends-bind run initial _ _ (Keeps-lift run initial _) (λ v.
          Ends-bind run initial _ _ (Keeps-lift run initial _) (λ w.
            Ends-made run initial (visit run.model s fan.branches) _
              (λ s' e. IsUntouched-visit run.model initial s s' fan.branches e clean)
              (λ snapshot taken.
                Ends-bind run initial _ _
                  (Keeps-emit run initial _ (observation-Quiet run initial _ snapshot refl taken))
                  (λ x.
                    Ends-bind run initial _ _
                      (Keeps-emit_all run initial _ fan.branches
                        (λ name. observation-Quiet run initial _ snapshot refl taken))
                      (λ y. Ends-bind run initial _ _ (Keeps-call run initial _) (λ batch_id.
                        Keeps-run_batch source fan s snapshot steps batch_id clean taken)))))))

  Keeps-pass_region :
      (node : String) (edge : Edge S W) (s : S) (steps : ℕ)
      → Clean run initial s
      → Ends run initial (pass_region run node edge s steps)
  unfolding pass_region
  Keeps-pass_region node (fan_out fan) s steps clean = Keeps-run_region node fan s steps clean
  Keeps-pass_region node _ s steps clean = Ends-pure run initial _ clean

  Keeps-turn_at :
      {A : Type 0} (turn : Turn S) (m : Scheduled S W A) (f : S → ℕ → Scheduled S W A)
      → Keeps run initial m
      → ((s : S) (n : ℕ) → Clean run initial s → Keeps run initial (f s n))
      → GoesOn run initial turn
      → Keeps run initial (elim turn [ ended ↦ m | onward s n ↦ f s n ])
  Keeps-turn_at ended m f hm hf c = hm
  Keeps-turn_at (onward s n) m f hm hf c = hf s n c

  -- What follows a turn may rely on the state with which the turn goes on.
  Keeps-turn :
      {A : Type 0} (before : Scheduled S W (Turn S)) (m : Scheduled S W A)
      (f : S → ℕ → Scheduled S W A)
      → Ends run initial before
      → Keeps run initial m
      → ((s : S) (n : ℕ) → Clean run initial s → Keeps run initial (f s n))
      → Keeps run initial (before >>= λ turn. elim turn [ ended ↦ m | onward s n ↦ f s n ])
  Keeps-turn before m f h hm hf =
      Triple-bind _ _ h (λ turn. Triple-given (Keeps-turn_at turn m f hm hf))

  Keeps-next :
      {A : Type 0} (next : Route S) (m : Scheduled S W A) (f : String → Scheduled S W A)
      → Keeps run initial m
      → ((name : String) → Keeps run initial (f name))
      → Keeps run initial (elim next [ stopped_route ↦ m | target name ↦ f name ])
  Keeps-next stopped_route m f hm hf = hm
  Keeps-next (target name) m f hm hf = hf name

  Keeps-loop :
      (fuel : ℕ) (node : String) (s : S) (steps : ℕ) (last : String)
      → Clean run initial s
      → Keeps run initial (loop run fuel node s steps last)
  unfolding loop finish_run
  Keeps-loop zero node s steps last clean = Keeps-pure run initial _
  Keeps-loop (suc fuel) node s steps last clean =
      Triple-elim_bool (node == end_node) _ _
        (Keeps-turn _ _ _ (Keeps-run_node run initial gate gated withholds node s steps last clean)
          (Keeps-pure run initial _)
          (λ s₁ n₁ c₁.
            Keeps-turn _ _ _ (Keeps-pass_region node (edge_from run node) s₁ n₁ c₁)
              (Keeps-pure run initial _)
              (λ s₂ n₂ c₂.
                Keeps-bind run initial _ _
                  (Keeps-route run initial gate gated withholds (after_region (edge_from run node))
                    s₂ node n₂ c₂)
                  (λ next.
                    Keeps-next next _ _ (Keeps-pure run initial _)
                      (λ name. Keeps-loop fuel name s₂ n₂ node c₂)))))
        (Keeps-bind run initial _ _
          (Keeps-emit run initial _
            (observation-Quiet run initial _ _ refl (IsUntouched-done run.model initial s clean)))
          (λ u. Keeps-pure run initial _))

  Keeps-run_graph : Keeps run initial (run_graph run initial)
  unfolding run_graph
  Keeps-run_graph =
      Keeps-bind run initial _ _
        (Keeps-route run initial gate gated withholds (edge_from run start_node) initial start_node
          0 (λ name n₁ n₂ n₃. refl))
        (λ next.
          Keeps-next next _ _ (Keeps-pure run initial _)
            (λ name. Keeps-loop _ name initial 0 start_node (λ name n₁ n₂ n₃. refl)))

  either_way :
      {A : Type 0} (x : Result A) (r : Run S W)
      → Holds (λ a r. Unpublished run initial r) (λ e r. Unpublished run initial r) (x, r)
      → Unpublished run initial r
  either_way (ok a) r p = p
  either_way (err e) r p = p

  -- Under a gate that lets no commit through, every observation of a run, whatever the graph, the
  -- nodes and the rest of the gate do and however the run ends, is no publication of a node or of a
  -- region, has no delta and no provenance, and has a state whose fields, but for the status, the
  -- metadata and the visited nodes, are those of the initial state.
  pub observe-IsUnpublished :
      (w : W) → All (IsUnpublished run.model initial) (observe run initial w).1.trace
  unfolding observe
  observe-IsUnpublished w =
      let (x, r) = run_graph run initial (record { world = w; trace = [] }) in
      either_way x r (Keeps-run_graph.at (record { world = w; trace = [] }) tt)
