-- ===== src/Samples/Listeners.antt =====
-- A run of the sample graph with listeners and with a checkpointer.
use perpetua_core.Prelude.{String, ◌≡◌, refl, none, some, List, [], ◌∷◌, ◌++◌, update, map}
use perpetua_core.Errors.{user, ok, err}
use perpetua_core.Exec.{pure}
use perpetua_core.Exec.Laws.{perform}
use perpetua_core.Graph.{EventKind, Graph}
use perpetua_core.Scheduler.Loop.{observe, invoke}
use perpetua_core.Sqlite.{Table}
use perpetua_core.Plugins.Observer.{
  GraphPlugin, detached_observation, push_all, push, drain, close_after, run_with_plugins,
}
use perpetua_core.Plugins.Checkpointer.{
  Checkpoint, SqliteCheckpointer, is_node_end, select_latest, save, on_observation, load_latest,
}
use perpetua_core.Plugins.Checkpointer.Recorded.{checkpoint_of, last_checkpoint}
use perpetua_core.Plugins.Checkpointer.Latest.{load_latest-run_with_plugins}
use perpetua_core.Samples.{
  World, Fields, fresh, diamond, ungated, program, text, list, to_items, dict, end,
}

-- A listener that writes its name to a log, and one that refuses the end of a run.
abbrev logs : String → GraphPlugin Fields World
logs name o l = (ok tt, l ++ name ∷ [])

abbrev refuses_done : GraphPlugin Fields World
refuses_done o l = elim o.event.kind [
  | EventKind.done ↦ (err (user "CriticalDeliveryFailed" 1), l)
  | _ ↦ (ok tt, l)
]

listening : Unit {0}
unfolding program detached_observation push_all push drain close_after run_with_plugins perform
listening = tt

abbrev heard : List String
heard =
    "d" ∷ "p" ∷ "d" ∷ "p" ∷ "d" ∷ "p" ∷ "d" ∷ "p" ∷ "d" ∷ "p" ∷ "d" ∷ "p" ∷ "d" ∷ "p" ∷ "d" ∷ "p"
    ∷ "d" ∷ "p" ∷ "d" ∷ "p" ∷ "d" ∷ "p" ∷ "d" ∷ "p" ∷ "d" ∷ "p" ∷ "d" ∷ "p" ∷ []

run_with_plugins-diamond :
    run_with_plugins (ungated diamond) (pure tt) (some (logs "d")) (logs "p" ∷ []) fresh [] []
    ≡ (invoke (ungated diamond) fresh [], heard)
unfolding listening
run_with_plugins-diamond = refl

-- A graph with no edges ends at once.
abbrev bare : Graph Fields World
bare = record { nodes = []; edges = []; max_steps = 4; reducers = [] }

abbrev plugins : List (GraphPlugin Fields World)
plugins = logs "p" ∷ refuses_done ∷ logs "q" ∷ []

run_with_plugins-bare :
    run_with_plugins (ungated bare) (pure tt) none plugins fresh [] []
    ≡ (err (user "CriticalDeliveryFailed" 1), "p" ∷ "q" ∷ "p" ∷ [])
unfolding listening
run_with_plugins-bare = refl

-- A table that is a list of rows, and states written as their `plan`.
abbrev checkpoints : Table Checkpoint (List Checkpoint)
checkpoints = record {
  rows = λ rows. rows;
  create_table = pure tt;
  insert = λ row rows. (ok tt, rows ++ row ∷ []);
  read = λ rows. (ok rows, rows);
  create_table-rows = λ rows. refl;
  insert-rows = λ row rows. refl;
  read-rows = λ rows. (refl, refl);
}

abbrev last_of_diamond : Fields
last_of_diamond =
    ("status", text "idle")
    ∷ ("nodes_visited", list (to_items (text "a" ∷ text "b" ∷ text "c" ∷ text "d" ∷ [])))
    ∷ ("metadata", dict end)
    ∷ ("plan", list (to_items (text "d" ∷ [])))
    ∷ ("notes", list (to_items (text "b" ∷ text "c" ∷ [])))
    ∷ []

abbrev checkpointer : SqliteCheckpointer Fields (List Checkpoint)
checkpointer = record {
  json = record {
    session_of = λ s. "session";
    model_dump_json = λ s. ok "state";
    model_validate_json = λ t. ok last_of_diamond;
  };
  table = checkpoints;
}

checkpointing : Unit {0}
unfolding listening is_node_end select_latest save on_observation load_latest checkpoint_of
checkpointing = tt

abbrev rows_of_diamond : List Checkpoint
rows_of_diamond =
    map (λ node. record { session_id = "session"; node = node; state_json = "state" })
      ("a" ∷ "b" ∷ "c" ∷ "d" ∷ [])

run_with_plugins-checkpointer :
    run_with_plugins (ungated diamond) (pure tt) none (on_observation checkpointer ∷ []) fresh [] []
    ≡ (ok (update last_of_diamond (("status", text "done") ∷ [])), rows_of_diamond)
unfolding checkpointing
run_with_plugins-checkpointer = refl

last_checkpoint-diamond :
    last_checkpoint checkpointer "session" (observe (ungated diamond) fresh []).1.trace
    ≡ some last_of_diamond
unfolding checkpointing
last_checkpoint-diamond = refl

copied : (s : Fields) → update s [] ≡ s
unfolding update
copied s = refl

load_latest-run_with_plugins_example :
    load_latest checkpointer "session" rows_of_diamond
    ≡ (ok (some last_of_diamond), rows_of_diamond)
load_latest-run_with_plugins_example =
    load_latest-run_with_plugins checkpointer (ungated diamond) fresh [] "session"
      (update last_of_diamond (("status", text "done") ∷ [])) last_of_diamond [] rows_of_diamond
      rows_of_diamond copied run_with_plugins-checkpointer last_checkpoint-diamond
      (λ state_json dumped. refl) refl
