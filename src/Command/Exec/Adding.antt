-- ===== src/Command/Exec/Adding.antt =====
-- SENSOR,ADD and the column without a name in the statement of `AddDeviceDb`.
use ri_mms_linux.Prelude.{
  ℕ, ◌+◌, ◌||◌, get_or, set, ◌≡◌, ◌≤◌, ◌<◌, refl, ◌∙◌, arith, Bool, true, false, List, [], ◌∷◌,
  Option, none, some, length, ltb, leb, if◌then◌else◌,
}
use ri_mms_linux.Prelude.Int.{ℤ, pos, negsuc, ◌==ℤ◌}
use ri_mms_linux.Device.{Device, find_devices_from_id}
use ri_mms_linux.Db.{
  store_cells, callback, insert_columns, insert_values, callbacks, run, change, add_device_db,
}
use ri_mms_linux.Db.Tables.{Answer, Row, Sqlite, Store, Column, unnamed, Value, insert_sensor}
use ri_mms_linux.Gateway.{Gateway, World, Instant}
use ri_mms_linux.Command.Reply.{Executed, executed, parameter, sensor_add, dberr}
use ri_mms_linux.Command.Sensors.{add_sensor, exec_add, name_room, device_of}

abbrev is_unnamed : Column → Bool
is_unnamed unnamed = true
is_unnamed column = false

abbrev pub has_unnamed : List Column → Bool
has_unnamed [] = false
has_unnamed (column ∷ columns) = is_unnamed column || has_unnamed columns

-- SQLite does not prepare a statement with an error in its syntax: it fails and writes nothing. A
-- column list with nothing between two commas is such an error.
pub record RefusesUnnamed {S : Type 0} (sqlite : Sqlite S) : Type 0 where
  pub fails :
      (columns : List Column) (values : List Value) (disk : S)
      → has_unnamed columns ≡ true
      → (sqlite.exec (insert_sensor columns values) disk).ok ≡ false
  pub writes_nothing :
      (columns : List Column) (values : List Value) (disk : S)
      → has_unnamed columns ≡ true
      → (sqlite.exec (insert_sensor columns values) disk).disk ≡ disk

module _ {S : Type 0} where
  callbacks-disk : (rows : List Row) (t : Store S) → (callbacks rows t).disk ≡ t.disk
  unfolding callbacks callback
  callbacks-disk [] t = refl
  callbacks-disk (row ∷ rows) t =
      callbacks-disk rows (callback row t)
      ∙ by_cells (store_cells (get_or t.datarow t.numrow []) row)
    where
      by_cells :
          (o : Option (List (List ℕ)))
          → (elim o as (λ x. Store S) [
            | none ↦ record t { numrow = t.numrow + 1; overrun = true }
            | some cells ↦ record t {
              numrow = t.numrow + 1;
              datarow = set t.datarow t.numrow cells;
            }
          ]).disk
            ≡ t.disk
      by_cells none = refl
      by_cells (some cells) = refl

  -- DBERR, and nothing but `Db` may have changed.
  pub data Refused (g : Gateway S) : Executed S → Type 0 where
    refused :
        (t : Store S)
        → t.disk ≡ g.store.disk
        → Refused g (executed (pos 0) (sensor_add dberr) (record g { store = t }))

  -- `AddDeviceDb` does not return 0 and leaves the database as it was.
  record Fails (before : S) (result : ℤ × Store S) : Type 0 where
    not_zero : (result.0 ==ℤ pos 0) ≡ false
    kept : result.1.disk ≡ before

module _ {S : Type 0} (sqlite : Sqlite S) (refuses : RefusesUnnamed sqlite) where
  add_device_db-Fails :
      (n : ℕ) (devices : List Device) (dev : Device) (t : Store S)
      → Fails t.disk (add_device_db sqlite n devices dev t)
  unfolding add_device_db change run
  add_device_db-Fails n devices dev t =
      by_tests (find_devices_from_id 0 n dev.id devices) (sqlite.opens t.disk)
    where
      answer : Answer S
      answer = sqlite.exec (insert_sensor insert_columns (insert_values dev)) t.disk

      inserted : Fails t.disk (
        if answer.ok then pos 0 else negsuc 2,
        callbacks answer.rows (record t { disk = answer.disk; numrow = 0 }),
      )
      inserted = record {
        not_zero = rw (refuses.fails insert_columns (insert_values dev) t.disk refl) refl;
        kept =
            callbacks-disk answer.rows _
            ∙ refuses.writes_nothing insert_columns (insert_values dev) t.disk refl;
      }

      by_tests :
          (found : Option ℕ) (opens : Bool)
          → Fails t.disk (elim found [
            | some i ↦ (negsuc 0, t)
            | none ↦
                if opens
                then (
                  if answer.ok then pos 0 else negsuc 2,
                  callbacks answer.rows (record t { disk = answer.disk; numrow = 0 }),
                )
                else (negsuc 1, t)
          ])
      by_tests (some i) opens = record { not_zero = refl; kept = refl }
      by_tests none true = inserted
      by_tests none false = record { not_zero = refl; kept = refl }

module _ {S : Type 0} (world : World S) (at : Instant) where
  -- If SQLite refuses an `insert` with nothing between two of its columns, SENSOR,ADD with all its
  -- parameters and a name that fits always answers DBERR, whatever sensor is given: no file, no
  -- setting and neither the table nor the database changes.
  pub exec_add-Refused :
      (params : List (List ℕ)) (g : Gateway S)
      → RefusesUnnamed world.sqlite
      → 14 ≤ length params
      → length (parameter params 4) < 30
      → Refused g (exec_add world at params g)
  unfolding exec_add add_sensor
  exec_add-Refused params g refuses enough fits =
      let enough' : leb 14 (length params) ≡ true = ground arith in
      let fits' : ltb (length (parameter params 4)) name_room ≡ true = ground arith in
      let fails =
        add_device_db-Fails world.sqlite refuses (g.radio).device_number (g.radio).devices
          (device_of world at params) g.store in
      rw enough' (rw fits' (rw (fails.not_zero) (refused _ fails.kept)))
