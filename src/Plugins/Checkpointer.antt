-- ===== src/Plugins/Checkpointer.antt =====
-- graph/plugins/checkpointer.py: snapshots of a run's states in a table.
pub mod Recorded
pub mod Latest
use perpetua_core.Prelude.{
  String, Bool, true, false, Option, none, some, List, [], ◌∷◌, ◌==◌, if◌then◌else◌,
}
use perpetua_core.Errors.{Result}
use perpetua_core.Exec.{Exec, pure, lift, ◌>>=◌, ◌>>◌}
use perpetua_core.Graph.{EventKind, GraphObservation}
use perpetua_core.Sqlite.{Table}

-- A row of the table `checkpoints`, its id apart.
pub record Checkpoint : Type 0 where
  pub session_id : String
  pub node : String
  pub state_json : String

-- What the checkpointer calls of a pydantic state.
pub record JsonModel (S : Type 0) : Type 0 where
  -- the field `session_id`
  pub session_of : S → String
  pub model_dump_json : S → Result String
  pub model_validate_json : String → Result S

-- `SqliteCheckpointer`, by the table of its file.
pub record SqliteCheckpointer (S L : Type 0) : Type 0 where
  pub json : JsonModel S
  pub table : Table Checkpoint L

-- `kind == "node.end"`
unfoldable pub is_node_end : EventKind → Bool
is_node_end EventKind.node_end = true
is_node_end _ = false

-- `WHERE session_id=? ORDER BY id DESC LIMIT 1`
unfoldable pub select_latest : String → List Checkpoint → Option Checkpoint
select_latest session [] = none
select_latest session (row ∷ rows) = elim (select_latest session rows) [
  | some later ↦ some later
  | none ↦ if row.session_id == session then some row else none
]

module _ {S L : Type 0} (checkpointer : SqliteCheckpointer S L) where
  -- `init_db`
  unfoldable pub init_db : Exec L Unit
  init_db = checkpointer.table.create_table

  -- `save`
  unfoldable pub save : S → String → Exec L Unit
  save s node = do
    state_json ← lift (checkpointer.json.model_dump_json s)
    checkpointer.table.insert (record {
      session_id = checkpointer.json.session_of s;
      node = node;
      state_json = state_json;
    })

  -- `on_observation`
  unfoldable pub on_observation : GraphObservation S → Exec L Unit
  on_observation o = elim (is_node_end o.event.kind) [
    | false ↦ pure tt
    | true ↦ elim o.event.node [ none ↦ pure tt | some node ↦ save o.state node ]
  ]

  abbrev pub validated : Option Checkpoint → Exec L (Option S)
  validated none = pure none
  validated (some row) = do
    s ← lift (checkpointer.json.model_validate_json row.state_json)
    pure (some s)

  -- `load_latest`
  unfoldable pub load_latest : String → Exec L (Option S)
  load_latest session = do rows ← checkpointer.table.read; validated (select_latest session rows)
