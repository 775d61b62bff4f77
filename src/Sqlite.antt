-- ===== src/Sqlite.antt =====
-- The tables of an SQLite database, reached through aiosqlite, which is not in this repository: what
-- the code asks of a table and the documented effect of it. `L` is the store that holds the
-- database.
use perpetua_core.Prelude.{◌≡◌, List, [], ◌∷◌, ◌++◌}
use perpetua_core.Exec.{Exec}
use perpetua_core.Exec.Triple.{Holds}

-- A statement that raises has changed no row: nothing of it is committed.
pub record Table (Row L : Type 0) : Type 0 where
  -- the committed rows, by ascending id; none where the table does not exist
  pub rows : L → List Row
  -- `CREATE TABLE IF NOT EXISTS`, committed
  pub create_table : Exec L Unit
  -- `INSERT`, committed: the id is above that of every row (AUTOINCREMENT)
  pub insert : Row → Exec L Unit
  -- the rows that a `SELECT` goes over
  pub read : Exec L (List Row)
  pub create_table-rows :
      (l : L) → Holds (λ u l'. rows l' ≡ rows l) (λ e l'. rows l' ≡ rows l) (create_table l)
  pub insert-rows :
      (row : Row) (l : L)
      → Holds (λ u l'. rows l' ≡ rows l ++ row ∷ []) (λ e l'. rows l' ≡ rows l) (insert row l)
  pub read-rows :
      (l : L)
      → Holds
          (λ found l'. (found ≡ rows l) × (rows l' ≡ rows l))
          (λ e l'. rows l' ≡ rows l)
          (read l)
