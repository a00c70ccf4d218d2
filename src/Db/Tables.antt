-- ===== src/Db/Tables.antt =====
-- The statements of sw/db.c as data, SQLite as a parameter, and `struct DBTABLE`.
use ri_mms_linux.Prelude.{ℕ, Bool, List, [], Option, replicate}
use ri_mms_linux.Prelude.Int.{ℤ}
use ri_mms_linux.Config.{Key}

-- The columns of `sensor`; `unnamed` stands for nothing between two commas.
pub data Column : Type 0 where
  id address name sampleperiod radioperiod : Column
  t_min t_max h_min h_max b_min b_max aliveperiod unnamed : Column

-- What `"%u"`, `"%d"` and `"%s"` print.
pub data Value : Type 0 where
  as_u : ℕ → Value
  as_d : ℤ → Value
  as_s : List ℕ → Value

pub data Sql : Type 0 where
  -- `SELECT * FROM config WHERE parametro=…`
  select_config : Key → Sql
  -- `UPDATE config SET value=… WHERE parametro=…`
  update_config : List ℕ → List ℕ → Sql
  -- `SELECT * from sensor`
  select_sensor : Sql
  -- `insert into sensor (…) values (…)`
  insert_sensor : List Column → List Value → Sql
  -- `UPDATE sensor SET … WHERE id=…`
  update_sensor : List (Column × Value) → ℕ → Sql
  -- `DELETE FROM sensor WHERE ID=…`
  delete_sensor : ℕ → Sql

-- A row as the callback gets it, `none` where the column is NULL.
abbrev pub Row : Type 0
Row = List (Option (List ℕ))

-- What `sqlite3_exec` does: the database after it, the rows that it has called back with, and whether
-- it returns SQLITE_OK.
pub record Answer (S : Type 0) : Type 0 where
  pub disk : S
  pub rows : List Row
  pub ok : Bool

pub record Sqlite (S : Type 0) : Type 0 where
  -- whether `sqlite3_open` succeeds
  pub opens : S → Bool
  pub exec : Sql → S → Answer S

-- The database and `struct DBTABLE Db`. `overrun` is set by a write outside a buffer, which the
-- code does not check for; what happens from then on is undefined in C, so that a command, an
-- `InitDevices` or a `LoadConfig` that sets it is not followed by any state.
pub record Store (S : Type 0) : Type 0 where
  pub disk : S
  pub numrow : ℕ
  pub datarow : List (List (List ℕ))
  pub overrun : Bool

-- `ROWDB` has 14 cells of 128 characters, `datarow` 100 rows.
abbrev pub cell_room : ℕ
cell_room = 128

abbrev pub empty_rows : List (List (List ℕ))
empty_rows = replicate 100 (replicate 14 [])
