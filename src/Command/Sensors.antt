-- ===== src/Command/Sensors.antt =====
-- The command SENSOR of `ExecCommand`, sw/command.c.
use ri_mms_linux.Prelude.{
  ℕ, ◌-◌, ◌/◌, List, [], ◌∷◌, ◌++◌, none, some, length, ltb, leb, ◌==◌, if◌then◌else◌,
}
use ri_mms_linux.Prelude.Int.{ℤ, pos, signed16, pattern16, pattern32, ◌==ℤ◌}
use ri_mms_linux.Log.Stamp.{tag_sor}
use ri_mms_linux.Log.Tags.{
  log, log_option, tag_currentsensor, tag_sample_time_changed, tag_newelement, tag_elementremoved,
  type_sensore,
}
use ri_mms_linux.Device.{Device, blank, get_sensor_name, get_value_devices_from_id}
use ri_mms_linux.Db.{add_device_db, update_device_db, remove_device_db}
use ri_mms_linux.Gateway.{Gateway, World, Instant, on_files, log_after_sor, reload_devices}
use ri_mms_linux.Command.Reply.{
  ok, dberr, err, errid, paramerr, sensor_list, sensor_name, name_refused, sensor_add, sensor_upd,
  sensor_rmv, sensor_get, get_refused, sensor_err, Executed, executed, undefined, parameter, is,
}

-- `GetSensorId`, from the text that `string` holds: it appends to it.
unfoldable pub get_sensor_id : (ℤ → List ℕ) → ℕ → List Device → List ℕ → List ℕ
get_sensor_id print_i n [] string = string
get_sensor_id print_i n (d ∷ ds) string =
    let rest = get_sensor_id print_i (n - 1) ds (string ++ (44 ∷ print_i (signed16 d.id))) in
    if n == 0 then string else rest

-- `char name[30]` of DEVICE and `char temp[256]`.
abbrev pub name_room : ℕ
name_room = 30

abbrev pub temp_room : ℕ
temp_room = 256

module _ {S : Type 0} (world : World S) (at : Instant) where
  -- `tmp.id.Val=atoi(commandparser[2])`
  abbrev pub id_of : List (List ℕ) → ℕ
  id_of params = pattern16 (world.atoi (parameter params 2))

  -- `tmp` after the assignments of ADD and UPD. Its other fields are not read.
  unfoldable pub device_of : List (List ℕ) → Device
  device_of params = record blank {
    id = id_of params;
    add = pattern16 (world.atoi (parameter params 3));
    name = parameter params 4;
    sampleperiod = pattern32 (world.atoi (parameter params 5));
    radioperiod = pattern32 (world.atoi (parameter params 6));
    min_temperature = world.atoi (parameter params 7);
    max_temperature = world.atoi (parameter params 8);
    min_umidita = world.atoi (parameter params 9);
    max_umidita = world.atoi (parameter params 10);
    min_batteria = world.atoi (parameter params 11);
    max_batteria = world.atoi (parameter params 12);
    aliveperiod = pattern32 (world.atoi (parameter params 13));
  }

  -- LIST
  unfoldable pub exec_list : Gateway S → Executed S
  exec_list g =
      let text = get_sensor_id world.print_i (g.radio).device_number (g.radio).devices at.temp in
      if ltb (length text) temp_room then executed (pos 0) (sensor_list text) g else undefined

  -- NAME
  unfoldable pub exec_name : List (List ℕ) → Gateway S → Executed S
  exec_name params g =
      executed (pos 0)
        (if leb 3 (length params)
          then (elim (get_sensor_name (g.radio).device_number (id_of params) (g.radio).devices) [
            | none ↦ name_refused errid
            | some text ↦ sensor_name text
          ])
          else name_refused paramerr)
        g

  -- ADD, from the call of `AddDeviceDb` on. ERRINIT is never printed: `InitDevices` returns 0.
  unfoldable pub add_sensor : Device → Gateway S → Executed S
  add_sensor tmp g =
      let added =
        add_device_db world.sqlite (g.radio).device_number (g.radio).devices tmp g.store in
      let stored = record g { store = added.1 } in
      if added.0 ==ℤ pos 0
      then (elim (reload_devices world at stored) [
        | none ↦ undefined
        | some g' ↦
            let address = world.print_u (pattern32 (signed16 tmp.add)) in
            executed (pos 0) (sensor_add ok) (
              on_files
                (log_option
                  (tag_newelement at.stack (signed16 tmp.id) address tmp.name type_sensore 7))
                (on_files (log (tag_sor at.calendar (at.moment).time (pos 0))) g'))
      ])
      else executed (pos 0) (sensor_add dberr) stored

  unfoldable pub exec_add : List (List ℕ) → Gateway S → Executed S
  exec_add params g =
      if leb 14 (length params)
      then (if ltb (length (parameter params 4)) name_room
          then add_sensor (device_of params) g
          else undefined)
      else executed (pos 0) (sensor_add paramerr) g

  -- UPD, from the call of `UpdateDeviceDb` on.
  unfoldable pub update_sensor : Device → Gateway S → Executed S
  update_sensor tmp g =
      let updated =
        update_device_db world.sqlite (g.radio).device_number (g.radio).devices tmp g.store in
      let stored = record g { store = updated.1 } in
      if updated.0 ==ℤ pos 0
      then (elim (reload_devices world at (
          on_files (log (tag_sample_time_changed (tmp.sampleperiod / 10)))
            (log_after_sor at (tag_currentsensor (signed16 tmp.id)) stored))) [
              | none ↦ undefined
              | some g' ↦ executed (pos 0) (sensor_upd ok) g'
            ])
      else executed (pos 0) (sensor_upd dberr) stored

  unfoldable pub exec_upd : List (List ℕ) → Gateway S → Executed S
  exec_upd params g =
      if leb 14 (length params)
      then (if ltb (length (parameter params 4)) name_room
          then update_sensor (device_of params) g
          else undefined)
      else executed (pos 0) (sensor_upd paramerr) g

  -- RMV, from the call of `RemoveDeviceDb` on.
  unfoldable pub remove_sensor : ℕ → Gateway S → Executed S
  remove_sensor id g =
      let removed =
        remove_device_db world.sqlite (g.radio).device_number (g.radio).devices
          (record blank { id = id }) g.store in
      let stored = record g { store = removed.1 } in
      if removed.0 ==ℤ pos 0
      then (elim (reload_devices world at stored) [
        | none ↦ undefined
        | some g' ↦
            executed (pos 0) (sensor_rmv ok)
              (log_after_sor at (tag_elementremoved (signed16 id)) g')
      ])
      else executed (pos 0) (sensor_rmv dberr) stored

  unfoldable pub exec_rmv : List (List ℕ) → Gateway S → Executed S
  exec_rmv params g =
      if leb 3 (length params)
      then remove_sensor (id_of params) g
      else executed (pos 0) (sensor_rmv paramerr) g

  -- GET
  unfoldable pub exec_get : List (List ℕ) → Gateway S → Executed S
  exec_get params g =
      executed (pos 0)
        (if leb 3 (length params)
          then (elim (get_value_devices_from_id 0 (g.radio).device_number (id_of params)
              (g.radio).devices) [
                | none ↦ get_refused err
                | some (i, reading) ↦ sensor_get reading
              ])
          else get_refused paramerr)
        g

  unfoldable pub exec_sensor : List (List ℕ) → Gateway S → Executed S
  exec_sensor params g =
      let what = parameter params 1 in
      if is what "LIST"
      then exec_list g
      else if is what "NAME"
      then exec_name params g
      else if is what "ADD"
      then exec_add params g
      else if is what "UPD"
      then exec_upd params g
      else if is what "RMV"
      then exec_rmv params g
      else if is what "GET"
      then exec_get params g
      else executed (pos 0) sensor_err g
