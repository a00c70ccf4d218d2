-- ===== src/Db.antt =====
-- sw/db.c: the rows that the callback puts into `Db`, the loading and saving of parameters, and the
-- loading, adding, changing and removing of sensors.
-- SQLite is a parameter, the record `Sqlite`; a statement is a data type with a constructor for each
-- format of the file. `atoi` is the C library's, an `int`.
pub mod Tables
pub mod Rows
use ri_mms_linux.Prelude.{
  ℕ, zero, suc, ◌+◌, Bool, true, false, List, [], ◌∷◌, Option, none, some, length, get_or, set,
  replicate, ltb, if◌then◌else◌,
}
use ri_mms_linux.Prelude.Int.{ℤ, pos, negsuc, signed16, signed32, pattern16, pattern32}
use ri_mms_linux.Config.{Key, unitid}
use ri_mms_linux.Device.{Device, find_devices_from_id}
-- `strcpy` into the cells of one row; `none` is a write outside the row.
use ri_mms_linux.Db.Tables.{
  Column, Value, Sql, Row, Sqlite, Store, cell_room, id, address, name, sampleperiod, radioperiod,
  t_min, t_max, h_min, h_max, b_min, b_max, aliveperiod, unnamed, as_u, as_d, as_s, select_config,
  update_config, select_sensor, insert_sensor, update_sensor, delete_sensor,
}

unfoldable pub store_cells : List (List ℕ) → Row → Option (List (List ℕ))
store_cells cells [] = some cells
store_cells [] (v ∷ row) = none
store_cells (c ∷ cells) (none ∷ row) = elim (store_cells cells row) [
  | none ↦ none
  | some rest ↦ some ([] ∷ rest)
]
store_cells (c ∷ cells) (some v ∷ row) =
    if ltb (length v) cell_room
    then (elim (store_cells cells row) [ none ↦ none | some rest ↦ some (v ∷ rest) ])
    else none

-- `LoadParamDb`'s `str`: `UnitName`, `tmp`, the `ftp…` texts and `Modem.port`.
abbrev pub room : Key → ℕ
room unitid = 30
room key = 50

module _ {S : Type 0} where
  -- A write outside `datarow` or one of its cells is not carried out here: it is told by `overrun`,
  -- and its callers give no state after it.
  unfoldable pub callback : Row → Store S → Store S
  callback row t = elim (store_cells (get_or t.datarow t.numrow []) row) [
    | none ↦ record t { numrow = t.numrow + 1; overrun = true }
    | some cells ↦ record t { numrow = t.numrow + 1; datarow = set t.datarow t.numrow cells }
  ]

  unfoldable pub callbacks : List Row → Store S → Store S
  callbacks [] t = t
  callbacks (row ∷ rows) t = callbacks rows (callback row t)

-- `Db.datarow[i][j]`
abbrev pub cell : List (List ℕ) → ℕ → List ℕ
cell cells j = get_or cells j []

-- `%u` of a `short`, which is an `int` by then.
abbrev pub u_short : ℕ → Value
u_short w = as_u (pattern32 (signed16 w))

abbrev pub u_int : ℤ → Value
u_int v = as_u (pattern32 v)

-- The format of `AddDeviceDb`: thirteen columns, one of them empty, and twelve values.
abbrev pub insert_columns : List Column
insert_columns =
    id ∷ address ∷ name ∷ sampleperiod ∷ radioperiod ∷ t_min ∷ t_max ∷ h_min ∷ h_max ∷ b_min ∷ b_max
    ∷ unnamed ∷ aliveperiod ∷ []

abbrev pub insert_values : Device → List Value
insert_values dev =
    u_short dev.id
    ∷ u_short dev.add
    ∷ as_s dev.name
    ∷ as_u dev.sampleperiod
    ∷ as_u dev.radioperiod
    ∷ as_d dev.min_temperature
    ∷ as_d dev.max_temperature
    ∷ u_int dev.min_umidita
    ∷ u_int dev.max_umidita
    ∷ u_int dev.min_batteria
    ∷ u_int dev.max_batteria
    ∷ as_u dev.aliveperiod
    ∷ []

abbrev pub update_values : Device → List (Column × Value)
update_values dev =
    (address, u_short dev.add)
    ∷ (name, as_s dev.name)
    ∷ (sampleperiod, as_u dev.sampleperiod)
    ∷ (radioperiod, as_u dev.radioperiod)
    ∷ (t_min, as_d dev.min_temperature)
    ∷ (t_max, as_d dev.max_temperature)
    ∷ (h_min, as_d dev.min_umidita)
    ∷ (h_max, as_d dev.max_umidita)
    ∷ (b_min, as_d dev.min_batteria)
    ∷ (b_max, as_d dev.max_batteria)
    ∷ (aliveperiod, as_d (signed32 dev.aliveperiod))
    ∷ []

module _ {S : Type 0} (sqlite : Sqlite S) where
  -- `Db.numrow=0` and `sqlite3_exec`.
  unfoldable pub run : Sql → Store S → Store S × Bool
  run sql t =
      let a = sqlite.exec sql t.disk in
      (callbacks a.rows (record t { disk = a.disk; numrow = 0 }), a.ok)

  -- What follows `Db.numrow=0` in the functions that change the database: 0, or `failed`.
  unfoldable pub change : Sql → ℤ → Store S → ℤ × Store S
  change sql failed t = let ran = run sql t in (if ran.1 then pos 0 else failed, ran.0)

  -- `LoadParamDb`: `none` is -1 or -2, which no caller tells apart. The number of rows is not
  -- looked at. A text longer than the caller's array is written past its end: `overrun`, on which
  -- `boot_config` has no state.
  unfoldable pub load_param_db : Key → Store S → Option (List ℕ) × Store S
  load_param_db key t =
      if sqlite.opens t.disk
      then (let ran = run (select_config key) t in
          let text = cell (get_or (ran.0).datarow 0 []) 1 in
          if ran.1
          then (
            some text,
            if ltb (length text) (room key) then ran.0 else record ran.0 { overrun = true },
          )
          else (none, ran.0))
      else (none, t)

  -- `sql[128]` has 45 characters of the format and the zero besides the two texts. With longer ones
  -- the print writes outside it: `overrun`, on which `ParserCommand` as a whole has no state after
  -- it.
  unfoldable pub save_param_db : List ℕ → List ℕ → Store S → ℤ × Store S
  save_param_db parametro value t =
      if sqlite.opens t.disk
      then change (update_config value parametro) (negsuc 1)
          (if ltb (length value + length parametro) 83 then t else record t { overrun = true })
      else (negsuc 0, t)

  -- The three that change `sensor`: the number of devices and the table are the globals that
  -- `FindDevicesFromId` searches.
  unfoldable pub add_device_db : ℕ → List Device → Device → Store S → ℤ × Store S
  add_device_db n devices dev t = elim (find_devices_from_id 0 n dev.id devices) [
    | some i ↦ (negsuc 0, t)
    | none ↦
        if sqlite.opens t.disk
        then change (insert_sensor insert_columns (insert_values dev)) (negsuc 2) t
        else (negsuc 1, t)
  ]

  unfoldable pub update_device_db : ℕ → List Device → Device → Store S → ℤ × Store S
  update_device_db n devices dev t = elim (find_devices_from_id 0 n dev.id devices) [
    | none ↦ (negsuc 0, t)
    | some i ↦
        if sqlite.opens t.disk
        then change (update_sensor (update_values dev) (pattern32 (signed16 dev.id))) (negsuc 2) t
        else (negsuc 1, t)
  ]

  unfoldable pub remove_device_db : ℕ → List Device → Device → Store S → ℤ × Store S
  remove_device_db n devices dev t = elim (find_devices_from_id 0 n dev.id devices) [
    | none ↦ (negsuc 0, t)
    | some i ↦
        if sqlite.opens t.disk
        then change (delete_sensor (pattern32 (signed16 dev.id))) (negsuc 2) t
        else (negsuc 1, t)
  ]

module _ (atoi : List ℕ → ℤ) where
  -- One round of the loop of `LoadDeviceDb`: the fields that no column fills are left as they are.
  -- A name of more than 29 characters is written past `name[30]`, over the fields behind it: that
  -- is told by `names_fit` below, and `reload_devices` has no state then.
  unfoldable pub load_row : List (List ℕ) → Device → Device
  load_row cells dev = record dev {
    id = pattern16 (atoi (cell cells 0));
    add = pattern16 (atoi (cell cells 1));
    name = cell cells 2;
    sampleperiod = pattern32 (atoi (cell cells 3));
    radioperiod = pattern32 (atoi (cell cells 4));
    min_temperature = atoi (cell cells 5);
    max_temperature = atoi (cell cells 6);
    min_umidita = atoi (cell cells 7);
    max_umidita = atoi (cell cells 8);
    min_batteria = atoi (cell cells 9);
    max_batteria = atoi (cell cells 10);
    aliveperiod = pattern32 (atoi (cell cells 11));
  }

  -- The loop over `n` rows, into the first `n` devices.
  unfoldable pub load_rows : ℕ → List (List (List ℕ)) → List Device → List Device
  load_rows zero datarow devices = devices
  load_rows (suc n) (cells ∷ datarow) (dev ∷ devices) =
      load_row cells dev ∷ load_rows n datarow devices
  load_rows (suc n) datarow devices = devices

  -- `DEVICE.name` has 30 characters.
  unfoldable pub names_fit : ℕ → List (List (List ℕ)) → Bool
  names_fit zero datarow = true
  names_fit (suc n) [] = false
  names_fit (suc n) (cells ∷ datarow) =
      let rest = names_fit n datarow in if ltb (length (cell cells 2)) 30 then rest else false

  module _ {S : Type 0} (sqlite : Sqlite S) where
    -- `LoadDeviceDb`: the number of rows or a negative error, and the devices after it.
    unfoldable pub load_device_db : List Device → Store S → ℤ × List Device × Store S
    load_device_db devices t =
        if sqlite.opens t.disk
        then (let ran = run sqlite select_sensor t in
            let loaded = ran.0 in
            if ran.1
            then (
              pos loaded.numrow,
              load_rows loaded.numrow loaded.datarow devices,
              if names_fit loaded.numrow loaded.datarow
                  then loaded
                  else record loaded { overrun = true },
            )
            else (negsuc 1, devices, loaded))
        else (negsuc 0, devices, t)
