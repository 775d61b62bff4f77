-- ===== src/Plugins/Observer/Delivery.antt =====
-- What the loop over the observations gives to its listeners, for listeners apart from the graph.
use perpetua_core.Prelude.{◌≡◌, refl, Option, none, some, List, [], ◌∷◌, ◌++◌, map, ◌∙◌, sym, ap}
use perpetua_core.Errors.{Result, ok, err}
use perpetua_core.Exec.{Exec, pure, lift, then_run, captured, attempt, ◌>>=◌, ◌>>◌}
use perpetua_core.Exec.Laws.{then_run-cong, perform, perform-++}
use perpetua_core.State.{StateModel}
use perpetua_core.Graph.{GraphObservation}
use perpetua_core.Scheduler.{Invocation}
use perpetua_core.Scheduler.Loop.{Finish, observe, last_state, final_state, invoke}
use perpetua_core.Plugins.Observer.{
  GraphPlugin, detached_observation, push_all, push, drain, closed_by, close_after,
  run_with_plugins,
}

-- All listeners, the delivery first.
abbrev pub listeners :
    {S L : Type 0} → Option (GraphPlugin S L) → List (GraphPlugin S L) → List (GraphPlugin S L)
listeners none plugins = plugins
listeners (some delivery) plugins = delivery ∷ plugins

module _ {S L : Type 0} (model : StateModel S) where
  abbrev pub calls_of : List (GraphPlugin S L) → GraphObservation S → List (Exec L Unit)
  calls_of plugins o = map (λ plugin. plugin (detached_observation model o)) plugins

  -- Every observation to every listener, in the order of the observations.
  abbrev pub deliveries : List (GraphPlugin S L) → List (GraphObservation S) → List (Exec L Unit)
  deliveries plugins [] = []
  deliveries plugins (o ∷ os) = calls_of plugins o ++ deliveries plugins os

  push_all-perform :
      (plugins : List (GraphPlugin S L)) (o : GraphObservation S)
      → push_all model plugins o ≡ perform (calls_of plugins o)
  unfolding push_all perform
  push_all-perform [] o = refl
  push_all-perform (p ∷ ps) o =
      ap (λ m. p (detached_observation model o) >> m) (push_all-perform ps o)

  push-perform :
      (delivery : Option (GraphPlugin S L)) (plugins : List (GraphPlugin S L))
      (o : GraphObservation S)
      → push model delivery plugins o ≡ perform (calls_of (listeners delivery plugins) o)
  unfolding push perform
  push-perform none plugins o = push_all-perform plugins o
  push-perform (some d) plugins o =
      ap (λ m. d (detached_observation model o) >> m) (push_all-perform plugins o)

  pub drain-perform :
      (delivery : Option (GraphPlugin S L)) (plugins : List (GraphPlugin S L)) (s : S)
      (os : List (GraphObservation S)) (l : L)
      → drain model delivery plugins s os l
        ≡ (perform (deliveries (listeners delivery plugins) os) >> pure (last_state s os)) l
  unfolding drain perform ◌>>=◌
  drain-perform delivery plugins s [] l = refl
  drain-perform delivery plugins s (o ∷ os) l =
      then_run-cong _ _ (push model delivery plugins o l)
        (λ u l'. drain-perform delivery plugins o.state os l')
      ∙ ap
          (λ m.
            then_run
              (λ u.
                perform (deliveries (listeners delivery plugins) os)
                >> pure (last_state o.state os))
              (m l))
          (push-perform delivery plugins o)
      ∙ sym (
          perform-++ (calls_of (listeners delivery plugins) o)
            (deliveries (listeners delivery plugins) os) _ l)

abbrev pub after_serving : {S : Type 0} → Result (Unit {0}) → Result S → Result S
after_serving (ok u) result = result
after_serving (err e) result = err e

module _ {S L : Type 0} (aclose : Exec L Unit) (l l₁ : L) where
  close_after-any :
      (result : Result S) → aclose l ≡ (ok tt, l₁) → close_after aclose result l ≡ (result, l₁)
  unfolding close_after attempt ◌>>=◌
  close_after-any (ok s) closes = ap (then_run (λ u. pure s)) closes
  close_after-any (err e) closes = ap (λ x. then_run (closed_by e) (captured x)) closes

module _ {S W L : Type 0} (run : Invocation S W) (aclose : Exec L Unit)
    (delivery : Option (GraphPlugin S L)) (plugins : List (GraphPlugin S L)) (s : S) (w : W)
    (l l₁ l₂ : L) where
  ended :
      (served : Result (Unit {0})) (result : Result Finish) (trace : List (GraphObservation S))
      → captured (
          then_run
            (λ last. lift result >> pure last)
            (then_run (λ u. pure (last_state s trace)) (served, l₁)))
        ≡ (ok (after_serving served (final_state s result trace)), l₁)
  unfolding ◌>>=◌
  ended (ok u) (ok f) trace = refl
  ended (ok u) (err e) trace = refl
  ended (err x) result trace = refl

  -- The listeners' failure comes before what the iteration itself raises.
  pub run_with_plugins-perform :
      (served : Result (Unit {0}))
      → perform (deliveries run.model (listeners delivery plugins) (observe run s w).1.trace) l
        ≡ (served, l₁)
      → aclose l₁ ≡ (ok tt, l₂)
      → run_with_plugins run aclose delivery plugins s w l
        ≡ (after_serving served (invoke run s w), l₂)
  unfolding run_with_plugins attempt ◌>>=◌ invoke
  run_with_plugins-perform served accepted closes =
      ap
        (λ x.
          then_run (close_after aclose)
            (captured (then_run (λ last. lift (observe run s w).0 >> pure last) x)))
        (drain-perform run.model delivery plugins s (observe run s w).1.trace l
          ∙ ap (then_run (λ u. pure (last_state s (observe run s w).1.trace))) accepted)
      ∙ ap (then_run (close_after aclose))
          (ended served (observe run s w).0 (observe run s w).1.trace)
      ∙ close_after-any aclose l₁ l₂ (after_serving served (invoke run s w)) closes
