-- ===== src/Gateway/Sensors.antt =====
-- The sensors of the database and those of the table.
use ri_mms_linux.Prelude.{
  ℕ, ◌%◌, ◌^◌, ◌≤◌, ◌≡◌, refl, ap, sym, ◌∙◌, arith, true, List, [], ◌∷◌, map, Option, none, some,
  length, take,
}
use mathlib.Core.Option
use mathlib.Core.Option.{some_inj}
use ri_mms_linux.Prelude.Int.{ℤ, pos, pattern16, pattern32}
use ri_mms_linux.Device.{Device, init_device, init_from, init_devices}
use ri_mms_linux.Db.{run, cell, load_row, load_rows, load_device_db}
use ri_mms_linux.Db.Tables.{Sqlite, Store, Row, select_sensor}
use ri_mms_linux.Db.Rows.{AllFit, AllWide, over, laid, callbacks-laid}
use ri_mms_linux.Gateway.{Gateway, World, Instant, reload_table, reload_devices}
use ri_mms_linux.Gateway.Reload.{init_from-map, reload_devices-table}

-- A NULL is stored as an empty text.
abbrev pub text_of : Option (List ℕ) → List ℕ
text_of none = []
text_of (some text) = text

-- A row has an id and an address.
abbrev pub IsKeyed : Row → Type 0
IsKeyed [] = ⊥
IsKeyed (v ∷ []) = ⊥
IsKeyed (v ∷ v' ∷ row) = Unit

abbrev pub AllKeyed : List Row → Type 0
AllKeyed [] = Unit
AllKeyed (row ∷ rows) = IsKeyed row × AllKeyed rows

-- The id and the address of a row and of a sensor, as WORD_D patterns.
abbrev pub row_key : (List ℕ → ℤ) → Row → ℕ × ℕ
row_key atoi [] = (0, 0)
row_key atoi (v ∷ []) = (0, 0)
row_key atoi (v ∷ v' ∷ row) = (pattern16 (atoi (text_of v)), pattern16 (atoi (text_of v')))

abbrev pub device_key : Device → ℕ × ℕ
device_key d = (d.id, d.add)

over-first :
    (v : Option (List ℕ)) (row : Row) (c : List ℕ) (cells : List (List ℕ))
    → cell (over (v ∷ row) (c ∷ cells)) 0 ≡ text_of v
over-first none row c cells = refl
over-first (some v) row c cells = refl

over-second :
    (v v' : Option (List ℕ)) (row : Row) (c c' : List ℕ) (cells : List (List ℕ))
    → cell (over (v ∷ v' ∷ row) (c ∷ c' ∷ cells)) 1 ≡ text_of v'
over-second none v' row c c' cells = over-first v' row c' cells
over-second (some v) v' row c c' cells = over-first v' row c' cells

module _ (atoi : List ℕ → ℤ) where
  load_row-key :
      (row : Row) (cells : List (List ℕ)) (d : Device)
      → IsKeyed row
      → length cells ≡ 14
      → device_key (load_row atoi (over row cells) d) ≡ row_key atoi row
  unfolding load_row
  load_row-key [] cells d keyed wide = absurd keyed
  load_row-key (v ∷ []) cells d keyed wide = absurd keyed
  load_row-key (v ∷ v' ∷ row) [] d keyed wide = absurd (omega arith)
  load_row-key (v ∷ v' ∷ row) (c ∷ []) d keyed wide = absurd (omega arith)
  load_row-key (v ∷ v' ∷ row) (c ∷ c' ∷ cells) d keyed wide =
      rw (over-first v (v' ∷ row) c (c' ∷ cells), over-second v v' row c c' cells) refl

  load_rows-keys :
      (rows : List Row) (datarow : List (List (List ℕ))) (devices : List Device)
      → AllKeyed rows
      → AllWide datarow
      → length rows ≤ length datarow
      → length rows ≤ length devices
      → take
          (length rows)
          (map device_key (load_rows atoi (length rows) (laid rows datarow) devices))
        ≡ map (row_key atoi) rows
  unfolding load_rows
  load_rows-keys [] datarow devices keyed wide a b = refl
  load_rows-keys (row ∷ rows) [] devices keyed wide a b = absurd (omega arith)
  load_rows-keys (row ∷ rows) (cells ∷ datarow) [] keyed wide a b = absurd (omega arith)
  load_rows-keys (row ∷ rows) (cells ∷ datarow) (d ∷ devices) (k, keyed) (w, wide) a b =
      rw (load_row-key row cells d k w) (
        ap (λ t. row_key atoi row ∷ t)
          (load_rows-keys rows datarow devices keyed wide (omega arith) (omega arith)))

-- The statement of `LoadDeviceDb` finds the rows `rows` in the database `disk` and leaves it as it
-- is.
pub record Selects {S : Type 0} (sqlite : Sqlite S) (disk : S) (rows : List Row) : Type 0 where
  pub opened : sqlite.opens disk ≡ true
  pub answer : sqlite.exec select_sensor disk ≡ record { disk = disk; rows = rows; ok = true }

load_device_db-Selects :
    {S : Type 0} (atoi : List ℕ → ℤ) (sqlite : Sqlite S) (devices : List Device) (t : Store S)
    (rows : List Row)
    → Selects sqlite t.disk rows
    → AllFit rows
    → AllWide t.datarow
    → length rows ≤ length t.datarow
    → ((load_device_db atoi sqlite devices t).0 ≡ pos (length rows))
      × ((load_device_db atoi sqlite devices t).1
          ≡ load_rows atoi (length rows) (laid rows t.datarow) devices)
unfolding load_device_db run
load_device_db-Selects atoi sqlite devices t rows selects fit wide room =
    let stored = callbacks-laid t rows fit wide room in
    rw (selects.opened) (rw (selects.answer) (rw stored (refl, refl)))

-- When the database has at most 100 sensors, no more than the table has rows, their texts fit the
-- cells, and the loading stays within the arrays (a name has at most 29 characters), the table
-- after `InitDevices` has exactly the sensors of the database: as many, with their ids and
-- addresses, in the order of the rows.
pub reload_devices-Selects :
    {S : Type 0} (world : World S) (at : Instant) (g g' : Gateway S) (rows : List Row)
    → Selects world.sqlite g.store.disk rows
    → AllFit rows
    → AllKeyed rows
    → AllWide g.store.datarow
    → length g.store.datarow ≡ 100
    → length rows ≤ 100
    → length rows ≤ length (g.radio).devices
    → reload_devices world at g ≡ some g'
    → ((g'.radio).device_number ≡ length rows)
      × (take (length rows) (map device_key (g'.radio).devices) ≡ map (row_key world.atoi) rows)
unfolding reload_table init_devices init_device
reload_devices-Selects {S} world at g g' rows selects fit keyed wide hundred few room e =
    by_init (init_from world.uknown (at.moment).time 0 (pattern32 loaded.0) loaded.1)
      (λ ds' e'. init_from-map device_key _ _ (λ i d. refl) _ _ _ ds' e')
      (reload_devices-table world at g g' e)
  where
    loaded : ℤ × List Device × Store S
    loaded = load_device_db world.atoi world.sqlite (g.radio).devices g.store

    shape :
        (loaded.0 ≡ pos (length rows))
        × (loaded.1
            ≡ load_rows world.atoi (length rows) (laid rows g.store.datarow) (g.radio).devices)
    shape =
        load_device_db-Selects world.atoi world.sqlite (g.radio).devices g.store rows selects fit
          wide (omega arith)

    number : pattern32 loaded.0 ≡ length rows
    number =
        let small : length rows % 2 ^ 32 ≡ length rows = omega arith in
        ap pattern32 (shape.0) ∙ small

    by_init :
        (o : Option (List Device))
        → ((ds : List Device) → o ≡ some ds → map device_key ds ≡ map device_key loaded.1)
        → (elim (Option.map {B = ℕ × List Device} (λ ds. (pattern32 loaded.0, ds)) o)
            as (λ x. Option (Gateway S)) [
              | none ↦ none
              | some (n, ds) ↦ some (record g {
                store = loaded.2;
                radio = record g.radio { devices = ds; device_number = n; device_index = 0 };
              })
            ])
          ≡ some g'
        → ((g'.radio).device_number ≡ length rows)
          × (take (length rows) (map device_key (g'.radio).devices) ≡ map (row_key world.atoi) rows)
    by_init none same e = absurd (ground arith)
    by_init (some ds) same e =
        let g'' = sym (some_inj.0 e) in
        (
          ap (λ (h : Gateway S). (h.radio).device_number) g'' ∙ number,
          ap (λ (h : Gateway S). take (length rows) (map device_key (h.radio).devices)) g''
              ∙ ap (take (length rows)) (same ds refl)
              ∙ ap (λ ds. take (length rows) (map device_key ds)) (shape.1)
              ∙ load_rows-keys world.atoi rows g.store.datarow (g.radio).devices keyed wide
                  (omega arith) room,
        )
