-- ===== src/Tests/Commands.antt =====
-- The commands and the database at concrete inputs.
use ri_mms_linux.Prelude.{
  ℕ, zero, suc, ◌+◌, ◌*◌, ◌-◌, ◌≡◌, refl, arith, true, false, List, [], ◌∷◌, map, take, none, some,
  replicate, length-replicate, codes, if◌then◌else◌,
}
use ri_mms_linux.Prelude.Int.{pos}
use ri_mms_linux.Config.{Settings, transferperiod}
use ri_mms_linux.Device.{init_devices, init_from}
use ri_mms_linux.Db.{names_fit, callbacks, callback, store_cells, run, load_rows, load_device_db}
use ri_mms_linux.Db.Tables.{
  Sqlite, Store, Answer, Row, Sql, select_config, select_sensor, insert_sensor, empty_rows,
}
use ri_mms_linux.Db.Rows.{Fits, AllWide, laid, callbacks-laid}
use ri_mms_linux.Gateway.{reload_table, Gateway, World, Instant, reload_devices}
use ri_mms_linux.Gateway.Sensors.{row_key, device_key, reload_devices-Selects}
use ri_mms_linux.Gateway.Reload.{last_readings, reload_devices-readings}
use ri_mms_linux.Command.Sensors.{exec_add}
use ri_mms_linux.Command.Exec.{exec_command}
use ri_mms_linux.Command.Exec.Logged.{Leaves}
use ri_mms_linux.Command.Exec.Queries.{sensor_get, exec_command-IsQuery}
use ri_mms_linux.Command.Exec.Adding.{has_unnamed, RefusesUnnamed, Refused, exec_add-Refused}
use ri_mms_linux.Tests.Fixtures.{calendar, moment, radio, modem}

-- A database whose state counts its changes: it has a row for `transferperiod` and one sensor
-- left of the two of the table.
abbrev sensor_row : Row
sensor_row =
    some (codes "8")
    ∷ some (codes "514")
    ∷ some (codes "attic")
    ∷ some (codes "100")
    ∷ some (codes "600")
    ∷ some (codes "50")
    ∷ some (codes "150")
    ∷ none
    ∷ none
    ∷ none
    ∷ none
    ∷ some (codes "60")
    ∷ []

abbrev period_row : Row
period_row = some (codes "transferperiod") ∷ some (codes "900") ∷ []

abbrev pub exec_sql : Sql → ℕ → Answer ℕ
exec_sql (select_config transferperiod) n = record { disk = n; rows = period_row ∷ []; ok = true }
exec_sql (select_config key) n = record { disk = n; rows = []; ok = true }
exec_sql select_sensor n = record { disk = n; rows = sensor_row ∷ []; ok = true }
exec_sql (insert_sensor columns values) n =
    if has_unnamed columns
    then record { disk = n; rows = []; ok = false }
    else record { disk = suc n; rows = []; ok = true }
exec_sql sql n = record { disk = suc n; rows = []; ok = true }

abbrev sqlite : Sqlite ℕ
sqlite = record { opens = λ n. true; exec = exec_sql }

sqlite-RefusesUnnamed : RefusesUnnamed sqlite
sqlite-RefusesUnnamed = record {
  fails = λ columns values n h. rw h refl;
  writes_nothing = λ columns values n h. rw h refl;
}

abbrev digits : ℕ → List ℕ → ℕ
digits n [] = n
digits n (c ∷ text) = digits (n * 10 + (c - b'0')) text

abbrev pub world : World ℕ
world = record {
  sqlite = sqlite;
  atoi = λ text. pos (digits 0 text);
  print_u = λ n. codes "1";
  print_i = λ z. codes "1";
  uknown = λ n. codes "Uknown";
  libs = record { compress = λ bytes. none; calloc = λ n. true };
  app = record { written = none; beyond = [] };
  mem = record { written = some (codes "Mem: 61"); beyond = 0 ∷ [] };
  disk = record { written = none; beyond = [] };
  power = codes "1,0,05.00,04.00";
}

abbrev pub instant : Instant
instant = record { moment = moment; calendar = calendar; stack = replicate 168 0; temp = [] }

abbrev store : Store ℕ
store = record { disk = 0; numrow = 0; datarow = empty_rows; overrun = false }

abbrev settings : Settings
settings = record {
  period = pos 3600;
  unit_name = codes "unit";
  host = [];
  login = [];
  password = [];
  directory = [];
  port = [];
  gw = 1;
  modem_port = [];
  modem_type = modem.type;
  keyb_enable = false;
  net_port = pos 0;
  net_address = [];
}

abbrev pub gateway : Gateway ℕ
gateway = record {
  radio = radio;
  modem = modem;
  settings = settings;
  store = store;
  flagexit = true;
  flagrebootsystem = false;
  flagpoweroffsystem = false;
  restarting = false;
}

exec_command-IsQuery_example :
    Leaves
      (λ g. g ≡ gateway)
      (exec_command world instant (codes "SENSOR" ∷ codes "GET" ∷ codes "7" ∷ []) gateway)
exec_command-IsQuery_example =
    exec_command-IsQuery world instant (codes "SENSOR" ∷ codes "GET" ∷ codes "7" ∷ []) gateway
      (sensor_get (codes "7" ∷ []))

abbrev add_params : List (List ℕ)
add_params =
    codes "SENSOR"
    ∷ codes "ADD"
    ∷ codes "9"
    ∷ codes "515"
    ∷ codes "roof"
    ∷ codes "100"
    ∷ codes "600"
    ∷ codes "0"
    ∷ codes "0"
    ∷ codes "0"
    ∷ codes "0"
    ∷ codes "0"
    ∷ codes "0"
    ∷ codes "60"
    ∷ []

exec_add-Refused_example : Refused gateway (exec_add world instant add_params gateway)
exec_add-Refused_example =
    exec_add-Refused world instant add_params gateway sqlite-RefusesUnnamed (omega arith)
      (omega arith)

wide_rows : AllWide empty_rows
wide_rows = wide 100
  where
    wide : (n : ℕ) → AllWide (replicate n (replicate 14 []))
    wide zero = tt
    wide (suc n) = (refl, wide n)

callbacks-laid_example :
    callbacks (period_row ∷ []) (record store { numrow = 0 })
    ≡ record store { numrow = 1; datarow = laid (period_row ∷ []) empty_rows }
callbacks-laid_example =
    callbacks-laid store (period_row ∷ []) ((omega arith, (omega arith, tt)), tt) wide_rows
      (omega arith)

abbrev reloaded : Gateway ℕ
reloaded = elim (reload_devices world instant gateway) [ none ↦ gateway | some g ↦ g ]

reload_devices-readings_example :
    map last_readings (reloaded.radio).devices ≡ map last_readings (gateway.radio).devices
unfolding reload_devices names_fit reload_table init_devices init_from load_device_db run load_rows
    callbacks callback store_cells
reload_devices-readings_example = reload_devices-readings world instant gateway reloaded refl

reload_devices-Selects_example :
    ((reloaded.radio).device_number ≡ 1)
    × (take 1 (map device_key (reloaded.radio).devices)
        ≡ map (row_key world.atoi) (sensor_row ∷ []))
unfolding reload_devices names_fit reload_table init_devices init_from load_device_db run load_rows
    callbacks callback store_cells
reload_devices-Selects_example =
    reload_devices-Selects world instant gateway reloaded (sensor_row ∷ [])
      (record { opened = refl; answer = refl }) (sensor_row-Fits, tt) (tt, tt) wide_rows
      (length-replicate {A = List (List ℕ)} 100 (replicate 14 [])) (omega arith) (omega arith) refl
  where
    sensor_row-Fits : Fits 14 sensor_row
    sensor_row-Fits = (
      omega arith,
      (
        omega arith,
        (
          omega arith,
          (omega arith, (omega arith, (omega arith, (omega arith, (omega arith, tt))))),
        ),
      ),
    )
