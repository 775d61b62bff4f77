-- ===== src/Gossip.antt =====
-- gossip.py: the log of events in an SQLite table.
pub mod Tail
use perpetua_core.Prelude.{ℕ, zero, suc, String, Bool, List, [], ◌∷◌, ◌++◌, keep}
use perpetua_core.Value.{Value}
use perpetua_core.Errors.{Result, ok, ◌>>=◌}
use perpetua_core.Exec.{Exec, then_run}
use perpetua_core.Sqlite.{Table}

-- A row of the table `gossip`, its id apart; `T` is the type of its times.
pub record GossipRow (T : Type 0) : Type 0 where
  pub ts : T
  pub event_type : String
  pub payload_json : String

-- What `tail` makes of a row.
pub record GossipEvent (T : Type 0) : Type 0 where
  pub ts : T
  pub event_type : String
  pub payload : Value

-- `GossipBus`, by the table of its file, with the clock and the JSON that it uses.
pub record GossipBus (T L : Type 0) : Type 0 where
  pub table : Table (GossipRow T) L
  -- `time.time()`
  pub time : L → T
  -- `a > b`
  pub is_later : T → T → Bool
  pub json_dumps : Value → Result String
  pub json_loads : String → Result Value

abbrev pub take {ℓ} : {A : Type ℓ} → ℕ → List A → List A
take zero xs = []
take (suc n) [] = []
take (suc n) (x ∷ xs) = x ∷ take n xs

-- `ORDER BY id DESC`
abbrev pub newest_first {ℓ} : {A : Type ℓ} → List A → List A
newest_first [] = []
newest_first (x ∷ xs) = newest_first xs ++ x ∷ []

module _ {T L : Type 0} (bus : GossipBus T L) where
  -- `init_db`
  unfoldable pub init_db : Exec L Unit
  init_db = bus.table.create_table

  abbrev pub insert_dumped : String → T → Result String × L → Result (Unit {0}) × L
  insert_dumped event_type ts (ok payload_json, l) =
      bus.table.insert (record { ts = ts; event_type = event_type; payload_json = payload_json }) l
  insert_dumped event_type ts (Result.err e, l) = (Result.err e, l)

  -- `emit`
  unfoldable pub emit : String → Value → Exec L Unit
  emit event_type payload l = insert_dumped event_type (bus.time l) (bus.json_dumps payload, l)

  -- `WHERE ts > ? ORDER BY id DESC LIMIT ?`
  unfoldable pub select_tail : T → ℕ → List (GossipRow T) → List (GossipRow T)
  select_tail since limit rows =
      take limit (newest_first (keep (λ row. bus.is_later row.ts since) rows))

  -- The list that `tail` makes of the rows.
  unfoldable pub loaded : List (GossipRow T) → Result (List (GossipEvent T))
  loaded [] = ok []
  loaded (row ∷ rows) = do
    payload ← bus.json_loads row.payload_json
    rest ← loaded rows
    ok (record { ts = row.ts; event_type = row.event_type; payload = payload } ∷ rest)

  -- `tail`
  unfoldable pub tail : T → ℕ → Exec L (List (GossipEvent T))
  tail since limit l =
      then_run (λ rows l'. (loaded (select_tail since limit rows), l')) (bus.table.read l)
