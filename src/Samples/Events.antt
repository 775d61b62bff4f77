-- ===== src/Samples/Events.antt =====
-- Two events in a log whose clock counts its rows.
use perpetua_core.Prelude.{ℕ, ◌≡◌, refl, List, [], ◌∷◌, ◌++◌, length, ltb}
use perpetua_core.Value.{text}
use perpetua_core.Errors.{ok}
use perpetua_core.Exec.{pure}
use perpetua_core.Sqlite.{Table}
use perpetua_core.Gossip.{GossipRow, GossipEvent, GossipBus, emit, select_tail, loaded, tail}
use perpetua_core.Gossip.Tail.{tail-emit}

abbrev events_table : Table (GossipRow ℕ) (List (GossipRow ℕ))
events_table = record {
  rows = λ rows. rows;
  create_table = pure tt;
  insert = λ row rows. (ok tt, rows ++ row ∷ []);
  read = λ rows. (ok rows, rows);
  create_table-rows = λ rows. refl;
  insert-rows = λ row rows. refl;
  read-rows = λ rows. (refl, refl);
}

abbrev bus : GossipBus ℕ (List (GossipRow ℕ))
bus = record {
  table = events_table;
  time = λ rows. length rows;
  is_later = λ a b. ltb b a;
  json_dumps = λ v. ok "\"route\"";
  json_loads = λ t. ok (text "route");
}

abbrev row_at : ℕ → GossipRow ℕ
row_at n = record { ts = n; event_type = "route"; payload_json = "\"route\"" }

abbrev event_at : ℕ → GossipEvent ℕ
event_at n = record { ts = n; event_type = "route"; payload = text "route" }

emit-second :
    emit bus "route" (text "route") (row_at 0 ∷ row_at 1 ∷ [])
    ≡ (ok tt, row_at 0 ∷ row_at 1 ∷ row_at 2 ∷ [])
unfolding emit
emit-second = refl

loaded-first : loaded bus (select_tail bus 0 4 (row_at 0 ∷ row_at 1 ∷ [])) ≡ ok (event_at 1 ∷ [])
unfolding loaded select_tail
loaded-first = refl

tail-emit_example :
    tail bus 0 5 (row_at 0 ∷ row_at 1 ∷ row_at 2 ∷ [])
    ≡ (ok (event_at 2 ∷ event_at 1 ∷ []), row_at 0 ∷ row_at 1 ∷ row_at 2 ∷ [])
tail-emit_example =
    tail-emit bus "route" (text "route") 0 4 (row_at 0 ∷ row_at 1 ∷ [])
      (row_at 0 ∷ row_at 1 ∷ row_at 2 ∷ []) (row_at 0 ∷ row_at 1 ∷ row_at 2 ∷ []) (event_at 1 ∷ [])
      emit-second refl (λ t h. refl) loaded-first refl
