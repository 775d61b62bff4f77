-- ===== src/Plugins/Checkpointer/Latest.antt =====
-- What the checkpointer's table holds after a run.
use perpetua_core.Prelude.{
  String, ◌≡◌, refl, Option, none, some, List, [], ◌∷◌, ◌∙◌, sym, ap, subst,
}
use perpetua_core.Errors.{Result, ok, err}
use perpetua_core.Exec.{Exec, pure, then_run, ◌>>=◌}
use perpetua_core.Exec.Triple.{Holds, Holds-weaken}
use perpetua_core.Exec.Laws.{perform}
use perpetua_core.State.{StateModel}
use perpetua_core.Graph.{GraphObservation}
use perpetua_core.Scheduler.{Invocation}
use perpetua_core.Scheduler.Loop.{observe, invoke}
use perpetua_core.Plugins.Observer.{detached_observation, run_with_plugins}
use perpetua_core.Plugins.Observer.Delivery.{deliveries, after_serving, run_with_plugins-perform}
use perpetua_core.Plugins.Checkpointer.Recorded.{
  some-injective, err-ok, or_earlier, select_latest-++, Matches, Recorded, Recorded-nothing,
  Recorded-cons, on_observation-Recorded, last_checkpoint,
}
use perpetua_core.Plugins.Checkpointer.{
  Checkpoint, SqliteCheckpointer, select_latest, on_observation, validated, load_latest,
}

module _ {S L : Type 0} (checkpointer : SqliteCheckpointer S L) where
  module _ (model : StateModel S) (copied : (s : S) → model.model_copy s [] ≡ s) where
    detached_observation-copied : (o : GraphObservation S) → detached_observation model o ≡ o
    unfolding detached_observation
    detached_observation-copied o = ap (λ s. record o { state = s }) (copied o.state)

    abbrev serve : List (GraphObservation S) → Exec L Unit
    serve os = perform (deliveries model (on_observation checkpointer ∷ []) os)

    abbrev Served : List (GraphObservation S) → L → Result (Unit {0}) × L → Type 0
    Served os l =
        Holds
          (λ u l'.
            Recorded checkpointer os (checkpointer.table.rows l) (checkpointer.table.rows l'))
          (λ e l'. Unit)

    Served-cons :
        (o : GraphObservation S) (os : List (GraphObservation S)) (l : L)
        (x : Result (Unit {0}) × L)
        → Served (o ∷ []) l x
        → ((l₁ : L) → Served os l₁ (serve os l₁))
        → Served (o ∷ os) l (then_run (λ u. serve os) x)
    Served-cons o os l (ok u, l₁) first rest =
        let (r, l₂) = serve os l₁ in
        Holds-weaken r l₂
          (λ v l₃.
            Recorded-cons checkpointer o os (checkpointer.table.rows l) (checkpointer.table.rows l₁)
              (checkpointer.table.rows l₃) first)
          (λ e l₃ h. tt) (rest l₁)
    Served-cons o os l (err e, l₁) first rest = tt

    serve-Served : (os : List (GraphObservation S)) (l : L) → Served os l (serve os l)
    unfolding perform ◌>>=◌
    serve-Served [] l =
        Recorded-nothing checkpointer [] (checkpointer.table.rows l) (λ session. refl)
    serve-Served (o ∷ os) l =
        Served-cons o os l (on_observation checkpointer (detached_observation model o) l)
          (subst (λ p. Served (o ∷ []) l (on_observation checkpointer p l))
            (sym (detached_observation-copied o)) (on_observation-Recorded checkpointer o l))
          (serve-Served os)

  module _ {W : Type 0} (run : Invocation S W) (s : S) (w : W) (session : String) where
    Recorded-ok :
        {s' : S} {l l' : L} (served : Result (Unit {0})) (l₁ : L)
        → Holds
            (λ u l₂.
              Recorded checkpointer
                (observe run s w).1.trace
                (checkpointer.table.rows l)
                (checkpointer.table.rows l₂))
            (λ e l₂. Unit)
            (served, l₁)
        → run_with_plugins run (pure tt) none (on_observation checkpointer ∷ []) s w l
          ≡ (after_serving served (invoke run s w), l₁)
        → run_with_plugins run (pure tt) none (on_observation checkpointer ∷ []) s w l ≡ (ok s', l')
        → Recorded checkpointer
            (observe run s w).1.trace
            (checkpointer.table.rows l)
            (checkpointer.table.rows l')
    Recorded-ok {l} (ok u) l₁ recorded result returned =
        subst
          (λ l₂.
            Recorded checkpointer (observe run s w).1.trace (checkpointer.table.rows l)
              (checkpointer.table.rows l₂))
          (ap (λ x. x.1) (sym result ∙ returned)) recorded
    Recorded-ok (err e) l₁ recorded result returned =
        absurd (err-ok (ap (λ x. x.0) (sym result ∙ returned)))

    Recorded-run :
        (s' : S) (l l' : L)
        → ((t : S) → run.model.model_copy t [] ≡ t)
        → run_with_plugins run (pure tt) none (on_observation checkpointer ∷ []) s w l ≡ (ok s', l')
        → Recorded checkpointer
            (observe run s w).1.trace
            (checkpointer.table.rows l)
            (checkpointer.table.rows l')
    Recorded-run s' l l' copied returned =
        let (served, l₁) = serve run.model copied (observe run s w).1.trace l in
        Recorded-ok served l₁ (serve-Served run.model copied (observe run s w).1.trace l)
          (run_with_plugins-perform run (pure tt) none (on_observation checkpointer ∷ []) s w l l₁
            l₁ served refl refl)
          returned

    load_latest-found :
        (row : Checkpoint) (last : S) (l' l₂ : L)
        → select_latest session (checkpointer.table.rows l') ≡ some row
        → checkpointer.table.read l' ≡ (ok (checkpointer.table.rows l'), l₂)
        → checkpointer.json.model_validate_json row.state_json ≡ ok last
        → load_latest checkpointer session l' ≡ (ok (some last), l₂)
    unfolding load_latest ◌>>=◌
    load_latest-found row last l' l₂ chosen reads valid =
        ap (then_run (λ rows. validated checkpointer (select_latest session rows))) reads
        ∙ ap (λ found. validated checkpointer found l₂) chosen
        ∙ ap (λ r. then_run (λ t. pure (some t)) (r, l₂)) valid

    Matches-some :
        (last : S) (o : Option S) (found : Option Checkpoint)
        → Matches checkpointer o found
        → o ≡ some last
        → (row : Checkpoint) × (found ≡ some row)
          × (checkpointer.json.model_dump_json last ≡ ok row.state_json)
    Matches-some last none found h e = cc e
    Matches-some last (some t) none h e = absurd h
    Matches-some last (some t) (some row) h e = (
      row,
      refl,
      subst (λ u. checkpointer.json.model_dump_json u ≡ ok row.state_json) (some-injective e) h,
    )

    -- After a run that returned with the checkpointer as its only listener: where a copy of a
    -- state is that state, the session has completed a node, the last such state reads back as it
    -- was written, and the table is read without an error, `load_latest` gives that state,
    -- whatever the table held before.
    pub load_latest-run_with_plugins :
        (s' last : S) (l l' l₂ : L)
        → ((t : S) → run.model.model_copy t [] ≡ t)
        → run_with_plugins run (pure tt) none (on_observation checkpointer ∷ []) s w l ≡ (ok s', l')
        → last_checkpoint checkpointer session (observe run s w).1.trace ≡ some last
        → ((state_json : String)
            → checkpointer.json.model_dump_json last ≡ ok state_json
            → checkpointer.json.model_validate_json state_json ≡ ok last)
        → checkpointer.table.read l' ≡ (ok (checkpointer.table.rows l'), l₂)
        → load_latest checkpointer session l' ≡ (ok (some last), l₂)
    load_latest-run_with_plugins s' last l l' l₂ copied returned completed valid reads =
        let recorded = Recorded-run s' l l' copied returned in
        let (row, found, dumped) =
          Matches-some last (last_checkpoint checkpointer session (observe run s w).1.trace)
            (select_latest session recorded.added) (recorded.found session) completed in
        load_latest-found row last l' l₂
          (ap (select_latest session) recorded.grown
            ∙ select_latest-++ session (checkpointer.table.rows l) recorded.added
            ∙ ap (λ o. or_earlier o (select_latest session (checkpointer.table.rows l))) found)
          reads (valid row.state_json dumped)
