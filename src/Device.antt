-- ===== src/Device.antt =====
-- The sensor table of sw/protocolrimms.c: `DEVICE`, the array `Devices[MAXDEVICE]` with
-- `DeviceNumber` and `DeviceIndex`, its set-up by `InitDevices` and the searches in it.
-- What SQLite loads is an argument, and so is how `sprintf` prints the name of a nameless sensor.
pub mod Laws
use ri_mms_linux.Prelude.{
  ℕ, suc, ◌+◌, ◌-◌, ◌*◌, ◌/◌, ◌%◌, ◌^◌, Bool, List, [], ◌∷◌, Option, none, some,
}
use ri_mms_linux.Prelude.{length, ltb, leb, ◌==◌, if◌then◌else◌}
use ri_mms_linux.Prelude.Words.{u32}
use ri_mms_linux.Prelude.Int.{ℤ, pos, signed16, ◌==ℤ◌, pattern32}
use mathlib.Core.Option

-- `id` and `add` are the bit patterns of a WORD_D, whose `Val` is a signed `short`.
pub record Device : Type 0 where
  pub id : ℕ
  pub add : ℕ
  pub name : List ℕ
  pub sampleperiod : ℕ
  pub radioperiod : ℕ
  pub aliveperiod : ℕ
  pub min_temperature : ℤ
  pub max_temperature : ℤ
  pub min_umidita : ℤ
  pub max_umidita : ℤ
  pub min_batteria : ℤ
  pub max_batteria : ℤ
  pub lastidradio : ℤ
  pub lastcontact : ℤ
  pub lastalarm : ℤ
  pub flagalalarmlive : ℕ
  pub flagalalarmtemp : ℕ
  pub flagalalarmhumi : ℕ
  pub flagalalarmbatt : ℕ
  pub temperature : ℤ
  pub umidita : ℤ
  pub batteria : ℤ

-- A static array starts as zeros.
abbrev pub blank : Device
blank = record {
  id = 0;
  add = 0;
  name = [];
  sampleperiod = 0;
  radioperiod = 0;
  aliveperiod = 0;
  min_temperature = pos 0;
  max_temperature = pos 0;
  min_umidita = pos 0;
  max_umidita = pos 0;
  min_batteria = pos 0;
  max_batteria = pos 0;
  lastidradio = pos 0;
  lastcontact = pos 0;
  lastalarm = pos 0;
  flagalalarmlive = 0;
  flagalalarmtemp = 0;
  flagalalarmhumi = 0;
  flagalalarmbatt = 0;
  temperature = pos 0;
  umidita = pos 0;
  batteria = pos 0;
}

abbrev pub maxdevice : ℕ
maxdevice = 500

-- `for(i=0; i<DeviceNumber; i++) if(Devices[i].add.Val==add) return i;`, from index `i` with `n`
-- rounds left. A `short` is compared with an `unsigned short`, both as `int`. `none` is -1.
unfoldable pub find_devices_from_add : ℕ → ℕ → ℕ → List Device → Option ℕ
find_devices_from_add i n add [] = none
find_devices_from_add i n add (d ∷ ds) =
    let rest = find_devices_from_add (i + 1) (n - 1) add ds in
    if n == 0 then none else if signed16 d.add ==ℤ pos add then some i else rest

unfoldable pub find_devices_from_id : ℕ → ℕ → ℕ → List Device → Option ℕ
find_devices_from_id i n id [] = none
find_devices_from_id i n id (d ∷ ds) =
    let rest = find_devices_from_id (i + 1) (n - 1) id ds in
    if n == 0 then none else if signed16 d.id ==ℤ pos id then some i else rest

-- `GetSensorName`: `none` is its return value 0.
unfoldable pub get_sensor_name : ℕ → ℕ → List Device → Option (List ℕ)
get_sensor_name n id [] = none
get_sensor_name n id (d ∷ ds) =
    let rest = get_sensor_name (n - 1) id ds in
    if n == 0 then none else if signed16 d.id ==ℤ pos id then some d.name else rest

-- What `GetValueDevicesFromId` stores through its pointers.
pub record Reading : Type 0 where
  pub temperature : ℤ
  pub umidita : ℤ
  pub batteria : ℤ
  pub lastcontact : ℤ
  pub flagalive : ℕ
  pub flagtemp : ℕ
  pub flaghumi : ℕ
  pub flagbatt : ℕ

abbrev pub reading_of : Device → Reading
reading_of d = record {
  temperature = d.temperature;
  umidita = d.umidita;
  batteria = d.batteria;
  lastcontact = d.lastcontact;
  flagalive = d.flagalalarmlive;
  flagtemp = d.flagalalarmtemp;
  flaghumi = d.flagalalarmhumi;
  flagbatt = d.flagalalarmbatt;
}

unfoldable pub get_value_devices_from_id : ℕ → ℕ → ℕ → List Device → Option (ℕ × Reading)
get_value_devices_from_id i n id [] = none
get_value_devices_from_id i n id (d ∷ ds) =
    let rest = get_value_devices_from_id (i + 1) (n - 1) id ds in
    if n == 0 then none else if signed16 d.id ==ℤ pos id then some (i, reading_of d) else rest

-- One round of the loop of `InitDevices` at index `i`. `uknown i` is `"Uknown %i"` printed.
unfoldable pub init_device : (ℕ → List ℕ) → ℤ → ℕ → Device → Device
init_device uknown now i d =
    let name = if length d.name == 0 then uknown i else d.name in
    let sampleperiod = if ltb d.sampleperiod 10 then 10 else d.sampleperiod in
    let radioperiod = if ltb d.radioperiod 10 then 10 else d.radioperiod in
    let aliveperiod =
      if leb d.aliveperiod radioperiod then u32 (radioperiod * 2) else d.aliveperiod in
    record d {
      name = name;
      sampleperiod = sampleperiod / 10;
      radioperiod = radioperiod / 10;
      aliveperiod = aliveperiod;
      lastcontact = now;
      lastalarm = now;
      flagalalarmlive = 0;
      flagalalarmtemp = 0;
      flagalalarmhumi = 0;
      flagalalarmbatt = 0;
    }

-- The loop over `n` rounds. `none` is an access outside the array, which C leaves undefined.
unfoldable pub init_from : (ℕ → List ℕ) → ℤ → ℕ → ℕ → List Device → Option (List Device)
init_from uknown now i n [] = if n == 0 then some [] else none
init_from uknown now i n (d ∷ ds) =
    let rest = init_from uknown now (i + 1) (n - 1) ds in
    if n == 0 then some (d ∷ ds) else Option.map (λ ds'. init_device uknown now i d ∷ ds') rest

-- `InitDevices`: `loaded` is what `LoadDeviceDb` returns, a row count or a negative error, and the
-- list is the array after it. `DeviceNumber` is unsigned. It always returns 0.
unfoldable pub init_devices : (ℕ → List ℕ) → ℤ → ℤ → List Device → Option (ℕ × List Device)
init_devices uknown now loaded devices =
    let device_number = pattern32 loaded in
    Option.map (λ ds. (device_number, ds)) (init_from uknown now 0 device_number devices)
