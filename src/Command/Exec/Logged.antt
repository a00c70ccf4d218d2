-- ===== src/Command/Exec/Logged.antt =====
-- The commands and the sample file: what they log are whole records.
use ri_mms_linux.Prelude.{
  ℕ, ◌≡◌, ◌/◌, Bool, true, false, List, [], ◌∷◌, Option, none, some, length, if◌then◌else◌,
}
use ri_mms_linux.Prelude.Int.{ℤ, pos, signed16}
use ri_mms_linux.Log.Tags.{type_sensore}
use ri_mms_linux.Log.Entries.{
  IsRecord, sor, currentsensor, sample_time_changed, newelement, elementremoved,
}
use ri_mms_linux.Log.Readable.{IsLogged, log-IsLogged, log_option-IsLogged}
use ri_mms_linux.Device.{Device, init_devices}
use ri_mms_linux.Radio.State.{force_upload}
use ri_mms_linux.Db.{load_device_db}
use ri_mms_linux.Db.Tables.{Store}
use ri_mms_linux.Gateway.{
  Gateway, World, Instant, log_after_sor, reload_table, reload_devices, power_off, reboot_system,
}
use ri_mms_linux.Command.Reply.{reply_fits, response_room, Reply, Executed, executed, undefined}
use ri_mms_linux.Command.System.{exec_modem, exec_param, exec_getupdate, exec_status, exec_system}
use ri_mms_linux.Command.Sensors.{
  exec_list, exec_name, add_sensor, exec_add, update_sensor, exec_upd, remove_sensor, exec_rmv,
  exec_get, exec_sensor,
}
use ri_mms_linux.Command.Exec.{exec_command, settled}

module _ {S : Type 0} (P : Gateway S → Type 0) where
  -- Where the command has a defined result, the state after it has the property.
  pub data Leaves : Executed S → Type 0 where
    leaves : (code : ℤ) (reply : Reply) (g : Gateway S) → P g → Leaves (executed code reply g)
    undefined_ends : Leaves undefined

  pub if-Leaves : (b : Bool) (x y : Executed S) → Leaves x → Leaves y → Leaves (if b then x else y)
  if-Leaves true x y p q = p
  if-Leaves false x y p q = q

  pub settled-Leaves : (x : Executed S) → Leaves x → Leaves (settled x)
  unfolding settled
  settled-Leaves _ (leaves code reply g p) =
      if-Leaves g.store.overrun _ _ undefined_ends
        (if-Leaves (reply_fits response_room reply) _ _ (leaves code reply g p) undefined_ends)
  settled-Leaves _ undefined_ends = undefined_ends

module _ {S : Type 0} where
  abbrev pub Logged : Gateway S → Type 0
  Logged g = IsLogged (g.radio).files

module _ {S : Type 0} (world : World S) (at : Instant) where
  pub log_after_sor-Logged :
      (tag : List ℕ) (g : Gateway S) → IsRecord tag → Logged g → Logged (log_after_sor at tag g)
  log_after_sor-Logged tag g r l =
      log-IsLogged tag _ r (log-IsLogged _ _ (sor at.calendar (at.moment).time (pos 0)) l)

  -- `InitDevices` changes the sensors, their number and the database only.
  pub reload_devices-Leaves :
      (P : Gateway S → Type 0) (g : Gateway S) (next : Gateway S → Executed S)
      → ((g' : Gateway S) → P g' → Leaves P (next g'))
      → ((store : Store S) (n : ℕ) (ds : List Device)
          → P (record g {
            store = store;
            radio = record g.radio { devices = ds; device_number = n; device_index = 0 };
          }))
      → Leaves P (elim (reload_devices world at g) [ none ↦ undefined | some g' ↦ next g' ])
  unfolding reload_devices reload_table
  reload_devices-Leaves P g next keeps reloaded =
      by_init (init_devices world.uknown (at.moment).time loaded.0 loaded.1)
    where
      loaded : ℤ × List Device × Store S
      loaded = load_device_db world.atoi world.sqlite (g.radio).devices g.store

      by_overrun :
          (h : Gateway S)
          → Leaves P (next h)
          → (over : Bool)
          → Leaves P (elim (if◌then◌else◌ {A = Option (Gateway S)} over none (some h)) [
            | none ↦ undefined
            | some g' ↦ next g'
          ])
      by_overrun h ends true = undefined_ends
      by_overrun h ends false = ends

      by_init :
          (o : Option (ℕ × List Device))
          → Leaves P
              (elim (elim (elim o as (λ o. Option (Gateway S)) [
                | none ↦ none
                | some (n, ds) ↦ some (record g {
                  store = loaded.2;
                  radio = record g.radio { devices = ds; device_number = n; device_index = 0 };
                })
              ])
                as (λ o. Option (Gateway S)) [
                  | none ↦ none
                  | some h ↦ if h.store.overrun then none else some h
                ]) [ none ↦ undefined | some g' ↦ next g' ])
      by_init none = undefined_ends
      by_init (some (n, ds)) = by_overrun _ (keeps _ (reloaded loaded.2 n ds)) (loaded.2).overrun

  add_sensor-Logged :
      (tmp : Device) (g : Gateway S)
      → length at.stack ≡ 168
      → Logged g
      → Leaves Logged (add_sensor world at tmp g)
  unfolding add_sensor
  add_sensor-Logged tmp g sized l =
      if-Leaves Logged _ _ _
        (reload_devices-Leaves Logged _ _
          (λ g' l'. leaves _ _ _ (
            log_option-IsLogged _ _ (λ b e. newelement at.stack _ _ _ type_sensore 7 sized e)
              (log-IsLogged _ _ (sor at.calendar (at.moment).time (pos 0)) l')))
          (λ store n ds. l))
        (leaves _ _ _ l)

  update_sensor-Logged :
      (tmp : Device) (g : Gateway S) → Logged g → Leaves Logged (update_sensor world at tmp g)
  unfolding update_sensor
  update_sensor-Logged tmp g l =
      if-Leaves Logged _ _ _
        (reload_devices-Leaves Logged _ _ (λ g' l'. leaves _ _ _ l')
          (λ store n ds. log-IsLogged _ _ (sample_time_changed (tmp.sampleperiod / 10)) (
            log-IsLogged _ _ (currentsensor (signed16 tmp.id))
              (log-IsLogged _ _ (sor at.calendar (at.moment).time (pos 0)) l))))
        (leaves _ _ _ l)

  remove_sensor-Logged :
      (id : ℕ) (g : Gateway S) → Logged g → Leaves Logged (remove_sensor world at id g)
  unfolding remove_sensor
  remove_sensor-Logged id g l =
      if-Leaves Logged _ _ _
        (reload_devices-Leaves Logged _ _
          (λ g' l'. leaves _ _ _ (log_after_sor-Logged _ g' (elementremoved (signed16 id)) l'))
          (λ store n ds. l))
        (leaves _ _ _ l)

  exec_sensor-Logged :
      (params : List (List ℕ)) (g : Gateway S)
      → length at.stack ≡ 168
      → Logged g
      → Leaves Logged (exec_sensor world at params g)
  unfolding exec_sensor exec_list exec_name exec_add exec_upd exec_rmv exec_get
  exec_sensor-Logged params g sized l =
      search
        (
          if-Leaves Logged,
          leaves,
          undefined_ends,
          add_sensor-Logged,
          update_sensor-Logged,
          remove_sensor-Logged,
          l,
          sized,
        )
        depth 24

  exec_system-Logged :
      (params : List (List ℕ)) (g : Gateway S)
      → Logged g
      → Leaves Logged (exec_system world at params g)
  unfolding exec_system exec_getupdate exec_status force_upload reboot_system power_off
  exec_system-Logged params g l = search (if-Leaves Logged, leaves, l) depth 24

  exec_param-Logged :
      (params : List (List ℕ)) (g : Gateway S)
      → Logged g
      → Leaves Logged (exec_param world at params g)
  unfolding exec_param
  exec_param-Logged params g l = search (if-Leaves Logged, leaves, l)

  -- Whatever a command is, if SAMPLE_FILE and SAMPLE_RAM are made of whole records they still are
  -- after it, the array that `Tag_NEWELEMENT` has on its stack having its 168 bytes.
  pub exec_command-Logged :
      (params : List (List ℕ)) (g : Gateway S)
      → length at.stack ≡ 168
      → Logged g
      → Leaves Logged (exec_command world at params g)
  unfolding exec_command exec_modem
  exec_command-Logged [] g sized l = leaves _ _ _ l
  exec_command-Logged (what ∷ rest) g sized l =
      search
        (
          if-Leaves Logged,
          leaves,
          exec_param-Logged,
          exec_sensor-Logged,
          exec_system-Logged,
          l,
          sized,
        )
        depth 24
