-- ===== src/Plugins/Observer.antt =====
-- graph/plugins/observer.py: one run of a graph, with each observation given to every listener.
pub mod Delivery
use perpetua_core.Prelude.{Option, none, some, List, [], ◌∷◌}
use perpetua_core.Errors.{Exception, exception_group, to_exceptions, Result, ok, err}
use perpetua_core.Exec.{Exec, pure, raise, lift, attempt, ◌>>=◌, ◌>>◌}
use perpetua_core.State.{StateModel, merge}
use perpetua_core.Graph.{GraphObservation}
use perpetua_core.Scheduler.{Invocation}
use perpetua_core.Scheduler.Loop.{Finish, observe}

-- `GraphPlugin`: its `on_observation`, awaited where it gives an awaitable. `L` is the store of the
-- listeners, apart from the world of the graph's own callables.
abbrev pub GraphPlugin : Type 0 → Type 0 → Type 0
GraphPlugin S L = GraphObservation S → Exec L Unit

-- `_detached_observation`
unfoldable pub detached_observation :
    {S : Type 0} → StateModel S → GraphObservation S → GraphObservation S
detached_observation model o = record {
  event = o.event;
  state = model.model_copy o.state [];
  delta = o.delta;
  provenance = o.provenance;
}

module _ {S L : Type 0} (model : StateModel S) where
  -- `for plugin in plugins`
  unfoldable pub push_all : List (GraphPlugin S L) → GraphObservation S → Exec L Unit
  push_all [] o = pure tt
  push_all (plugin ∷ plugins) o = plugin (detached_observation model o) >> push_all plugins o

  -- One observation: first to the delivery, then to the plugins.
  unfoldable pub push :
      Option (GraphPlugin S L) → List (GraphPlugin S L) → GraphObservation S → Exec L Unit
  push none plugins o = push_all plugins o
  push (some delivery) plugins o = delivery (detached_observation model o) >> push_all plugins o

  -- `async for observation in obs_iter`, with the state of the last one.
  unfoldable pub drain :
      Option (GraphPlugin S L) → List (GraphPlugin S L) → S → List (GraphObservation S) → Exec L S
  drain delivery plugins s [] = pure s
  drain delivery plugins s (o ∷ os) = push delivery plugins o >> drain delivery plugins o.state os

-- What is raised once the iterator of a failed run is closed.
abbrev pub closed_by : {S L : Type 0} → Exception → Result (Unit {0}) → Exec L S
closed_by primary (ok u) = raise primary
closed_by primary (err cleanup) = raise (exception_group (to_exceptions (primary ∷ cleanup ∷ [])))

-- `except BaseException`, and its `else`: the iterator is closed in both.
unfoldable pub close_after : {S L : Type 0} → Exec L Unit → Result S → Exec L S
close_after aclose (ok s) = aclose >> pure s
close_after aclose (err primary) = attempt aclose >>= closed_by primary

-- `run_with_plugins`, for listeners that share no state with the graph. The iteration gives the
-- observations of the run, and then raises what the run raised. The code serves the listeners while
-- the run is paused at the observation; here they are served from the run's observations, which
-- gives the same result and the same store of the listeners as long as none of them changes what the
-- graph or its gate reads. In what world a failed listener leaves the graph is not expressed.
unfoldable pub run_with_plugins :
    {S W L : Type 0}
    → Invocation S W
    → Exec L Unit
    → Option (GraphPlugin S L)
    → List (GraphPlugin S L)
    → S
    → W
    → Exec L S
run_with_plugins run aclose delivery plugins s w = do
  let iterated = observe run s w
  drained ←
      attempt
        (do last ← drain run.model delivery plugins s iterated.1.trace; lift iterated.0; pure last)
  close_after aclose drained
