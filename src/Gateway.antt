-- ===== src/Gateway.antt =====
-- The globals of the program together: those of the radio and of the files (Radio), the modem, the
-- configuration, the database with `Db`, and the flags of sw/main.c that its threads look at.
pub mod Reload
pub mod Sensors
use ri_mms_linux.Prelude.{ℕ, Bool, true, false, List, Option, none, some, if◌then◌else◌}
use ri_mms_linux.Prelude.Int.{ℤ, pos}
use ri_mms_linux.Log.{Files}
use ri_mms_linux.Log.Stamp.{Calendar, tag_sor}
use ri_mms_linux.Log.Tags.{log}
use ri_mms_linux.Archive.{Libs}
use ri_mms_linux.Command.Status.{Report}
use ri_mms_linux.Modem.{Modem}
use ri_mms_linux.Config.{Settings}
use ri_mms_linux.Device.{init_devices}
use ri_mms_linux.Radio.State.{Radio, Moment}
use ri_mms_linux.Db.{load_device_db}
use ri_mms_linux.Db.Tables.{Store, Sqlite}

pub record Gateway (S : Type 0) : Type 0 where
  pub radio : Radio
  pub modem : Modem
  pub settings : Settings
  pub store : Store S
  pub flagexit : Bool
  pub flagrebootsystem : Bool
  pub flagpoweroffsystem : Bool
  -- whether `/etc/init.d/RiMMS restart` has been started
  pub restarting : Bool

-- What is not the program's: the C library, SQLite, and what `system` and the board deliver.
pub record World (S : Type 0) : Type 0 where
  pub sqlite : Sqlite S
  pub atoi : List ℕ → ℤ
  -- `"%u"` and `"%i"` printed, and `"Uknown %i"`
  pub print_u : ℕ → List ℕ
  pub print_i : ℤ → List ℕ
  pub uknown : ℕ → List ℕ
  -- of which `GetAppStatus`, `GetMemStatus` and `GetDiskStatus` use `calloc`
  pub libs : Libs
  pub app : Report
  pub mem : Report
  pub disk : Report
  -- `PowerIn`, `InCharge` and the two voltages of `thread_io` as the format of PWR prints them
  pub power : List ℕ

-- What one call sees: the clocks, the calendar, and what its uninitialised locals hold: `data[168]`
-- of `Tag_NEWELEMENT` and the text in `temp[256]` of `ExecCommand`.
pub record Instant : Type 0 where
  pub moment : Moment
  pub calendar : Calendar
  pub stack : List ℕ
  pub temp : List ℕ

module _ {S : Type 0} where
  -- `transferperiod`, `Gw` and `Modem.type` are stored once.
  abbrev pub settings_of : Gateway S → Settings
  settings_of g = record g.settings {
    period = (g.radio).transferperiod;
    gw = (g.radio).gw;
    modem_type = (g.modem).type;
  }

  abbrev pub put_settings : Settings → Gateway S → Gateway S
  put_settings s g = record g {
    settings = s;
    radio = record g.radio { transferperiod = s.period; gw = s.gw };
    modem = record g.modem { type = s.modem_type };
  }

  abbrev pub on_files : (Files → Files) → Gateway S → Gateway S
  on_files change g = record g { radio = record g.radio { files = change (g.radio).files } }

  -- `Tag_SOR(0)` and a tag.
  abbrev pub log_after_sor : Instant → List ℕ → Gateway S → Gateway S
  log_after_sor at tag g =
      on_files (λ f. log tag (log (tag_sor at.calendar (at.moment).time (pos 0)) f)) g

  -- `InitDevices` with the `LoadDeviceDb` that it calls; `none` is an access outside `Devices`. The
  -- store tells of the writes outside the other arrays.
  unfoldable pub reload_table : World S → Instant → Gateway S → Option (Gateway S)
  reload_table world at g =
      let loaded = load_device_db world.atoi world.sqlite (g.radio).devices g.store in
      elim (init_devices world.uknown (at.moment).time loaded.0 loaded.1) [
        | none ↦ none
        | some (n, ds) ↦ some (record g {
          store = loaded.2;
          radio = record g.radio { devices = ds; device_number = n; device_index = 0 };
        })
      ]

  -- `InitDevices`, which always returns 0; `none` is an access outside an array: C leaves undefined
  -- what follows.
  unfoldable pub reload_devices : World S → Instant → Gateway S → Option (Gateway S)
  reload_devices world at g = elim (reload_table world at g) [
    | none ↦ none
    | some g' ↦ if g'.store.overrun then none else some g'
  ]

  -- `PowerOff` and `RebootSystem`
  unfoldable pub power_off : Gateway S → Gateway S
  power_off g = record g { flagpoweroffsystem = true; flagexit = false }

  unfoldable pub reboot_system : Gateway S → Gateway S
  reboot_system g = record g { flagrebootsystem = true; flagexit = false }
