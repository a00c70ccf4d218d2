-- ===== src/Gateway/Reload.antt =====
-- What the readings of the sensors become when the table is loaded again.
use ri_mms_linux.Prelude.{
  ℕ, zero, suc, ◌+◌, ◌-◌, ◌≡◌, refl, ap, sym, ◌∙◌, arith, Bool, true, false, List, [], ◌∷◌, map,
  Option, none, some, ◌==◌, if◌then◌else◌,
}
use mathlib.Core.Option
use mathlib.Core.Option.{some_inj}
use ri_mms_linux.Prelude.Int.{ℤ, pos, negsuc, pattern32}
use ri_mms_linux.Device.{Device, init_device, init_from, init_devices}
use ri_mms_linux.Db.{load_row, load_rows, names_fit, load_device_db, run}
use ri_mms_linux.Db.Tables.{Store, Sqlite, select_sensor}
use ri_mms_linux.Gateway.{Gateway, World, Instant, reload_table, reload_devices}

-- The last readings of a row of the table, and the time stamp of the frame that they came with.
abbrev pub last_readings : Device → ℤ × ℤ × ℤ × ℤ
last_readings d = (d.temperature, d.umidita, d.batteria, d.lastidradio)

load_rows-readings :
    (atoi : List ℕ → ℤ) (n : ℕ) (datarow : List (List (List ℕ))) (devices : List Device)
    → map last_readings (load_rows atoi n datarow devices) ≡ map last_readings devices
unfolding load_rows load_row
load_rows-readings atoi zero datarow devices = refl
load_rows-readings atoi (suc n) [] [] = refl
load_rows-readings atoi (suc n) [] (d ∷ devices) = refl
load_rows-readings atoi (suc n) (cells ∷ datarow) [] = refl
load_rows-readings atoi (suc n) (cells ∷ datarow) (d ∷ devices) =
    ap (λ t. last_readings d ∷ t) (load_rows-readings atoi n datarow devices)

-- What a round of `InitDevices` leaves as it is, the whole loop does.
pub init_from-map :
    {A : Type 0} (f : Device → A) (uknown : ℕ → List ℕ) (now : ℤ)
    → ((i : ℕ) (d : Device) → f (init_device uknown now i d) ≡ f d)
    → (i n : ℕ) (ds ds' : List Device) → init_from uknown now i n ds ≡ some ds'
    → map f ds' ≡ map f ds
unfolding init_from
init_from-map f uknown now keeps i n [] ds' e = ground arith
init_from-map f uknown now keeps i n (d ∷ ds) ds' e =
    by_test (n == 0) (init_from uknown now (i + 1) (n - 1) ds)
      (init_from-map f uknown now keeps (i + 1) (n - 1) ds) e
  where
    by_test :
        (done : Bool) (rest : Option (List Device))
        → ((ds'' : List Device) → rest ≡ some ds'' → map f ds'' ≡ map f ds)
        → (if done then some (d ∷ ds) else Option.map (λ t. init_device uknown now i d ∷ t) rest)
          ≡ some ds'
        → map f ds' ≡ map f (d ∷ ds)
    by_test true rest same e = rw (← some_inj.0 e) refl
    by_test false none same e = ground arith
    by_test false (some rest) same e =
        rw (← some_inj.0 e, keeps i d) (ap (λ t. f d ∷ t) (same rest refl))

load_device_db-readings :
    {S : Type 0} (atoi : List ℕ → ℤ) (sqlite : Sqlite S) (devices : List Device) (t : Store S)
    → map last_readings (load_device_db atoi sqlite devices t).1 ≡ map last_readings devices
unfolding load_device_db
load_device_db-readings {S} atoi sqlite devices t =
    by_tests (sqlite.opens t.disk) (run sqlite select_sensor t)
  where
    by_tests :
        (opens : Bool) (ran : Store S × Bool)
        → map last_readings
            (if◌then◌else◌ {A = ℤ × List Device × Store S} opens
              (if ran.1
                then (
                  pos (ran.0).numrow,
                  load_rows atoi (ran.0).numrow (ran.0).datarow devices,
                  if names_fit atoi (ran.0).numrow (ran.0).datarow
                      then ran.0
                      else record ran.0 { overrun = true },
                )
                else (negsuc 1, devices, ran.0))
              (negsuc 0, devices, t)).1
          ≡ map last_readings devices
    by_tests true (loaded, true) = load_rows-readings atoi loaded.numrow loaded.datarow devices
    by_tests true (loaded, false) = refl
    by_tests false ran = refl

-- A loading that stays within its arrays is that of the table.
pub reload_devices-table :
    {S : Type 0} (world : World S) (at : Instant) (g g' : Gateway S)
    → reload_devices world at g ≡ some g'
    → reload_table world at g ≡ some g'
unfolding reload_devices
reload_devices-table {S} world at g g' = by_table (reload_table world at g)
  where
    by_overrun :
        (h : Gateway S) (over : Bool) → (if over then none else some h) ≡ some g' → some h ≡ some g'
    by_overrun h true e = ground arith
    by_overrun h false e = e

    by_table :
        (o : Option (Gateway S))
        → (elim o as (λ o. Option (Gateway S)) [
          | none ↦ none
          | some h ↦ if h.store.overrun then none else some h
        ])
          ≡ some g'
        → o ≡ some g'
    by_table none e = e
    by_table (some h) e = by_overrun h h.store.overrun e

-- `InitDevices` loads the sensors into the rows anew and leaves the readings where they were:
-- whatever rows the database holds, if loading them stays within the arrays (a name has at most 29
-- characters, a text of a column 127, and there are at most 100 rows), each row of the table has
-- the temperature, the humidity, the battery and the time stamp that it had, and so after a removal
-- each later sensor has those of another.
pub reload_devices-readings :
    {S : Type 0} (world : World S) (at : Instant) (g g' : Gateway S)
    → reload_devices world at g ≡ some g'
    → map last_readings (g'.radio).devices ≡ map last_readings (g.radio).devices
unfolding reload_table init_devices init_device
reload_devices-readings {S} world at g g' e =
    by_init (init_from world.uknown (at.moment).time 0 (pattern32 loaded.0) loaded.1)
      (λ ds' e'. init_from-map last_readings _ _ (λ i d. refl) _ _ _ ds' e')
      (reload_devices-table world at g g' e)
  where
    loaded : ℤ × List Device × Store S
    loaded = load_device_db world.atoi world.sqlite (g.radio).devices g.store

    by_init :
        (o : Option (List Device))
        → ((ds : List Device) → o ≡ some ds → map last_readings ds ≡ map last_readings loaded.1)
        → (elim (Option.map {B = ℕ × List Device} (λ ds. (pattern32 loaded.0, ds)) o)
            as (λ x. Option (Gateway S)) [
              | none ↦ none
              | some (n, ds) ↦ some (record g {
                store = loaded.2;
                radio = record g.radio { devices = ds; device_number = n; device_index = 0 };
              })
            ])
          ≡ some g'
        → map last_readings (g'.radio).devices ≡ map last_readings (g.radio).devices
    by_init none keeps e = ground arith
    by_init (some ds) keeps e =
        ap (λ (h : Gateway S). map last_readings (h.radio).devices) (sym (some_inj.0 e))
        ∙ keeps ds refl
        ∙ load_device_db-readings world.atoi world.sqlite (g.radio).devices g.store
