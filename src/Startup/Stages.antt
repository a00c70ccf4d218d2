-- ===== src/Startup/Stages.antt =====
-- Each part of `main` with what it sets up, or the end of the program.
use ri_mms_linux.Prelude.{
  ◌≡◌, refl, sym, ◌∙◌, arith, Bool, true, false, List, Option, none, some, ℕ, if◌then◌else◌,
}
use mathlib.Core.Path.{subst}
use ri_mms_linux.Prelude.Int.{ℤ, pos, ==ℤ_iff}
use ri_mms_linux.Log.Readable.{IsLogged}
use ri_mms_linux.Shm.{Segment}
use ri_mms_linux.Modem.{Modem}
use ri_mms_linux.Radio.State.{Radio}
use ri_mms_linux.Device.{Device, init_devices}
use ri_mms_linux.Db.{load_device_db}
use ri_mms_linux.Db.Tables.{Store}
use ri_mms_linux.Radio.Start.{init_serial, init_serial-IsReceiver}
use ri_mms_linux.Upload.{init_ri_mms}
use ri_mms_linux.Display.Expander.Start.{lcdinit-Starts}
use ri_mms_linux.Board.{Floats, start_io}
use ri_mms_linux.Gateway.{Gateway, World, reload_table, reload_devices}
use ri_mms_linux.Command.Exec.Logged.{Logged}
use ri_mms_linux.Command.Exec.Sound.{Sound, same-Sound}
use ri_mms_linux.Machine.{Machine}
use ri_mms_linux.Machine.Sound.{IsSound}
use ri_mms_linux.Startup.Ends.{
  Ends, goes, halts, crashes, then-Ends, if-Ends, IsBeginning, Flagged, Shown, Opened,
}
use ri_mms_linux.Startup.{
  Booted, Boot, started, stops, faults, boot_shm, boot_data, boot_gpio, boot_lcd, boot_config,
  boot_devices, boot_modem, boot_serial, boot_rest, boot_threads, boot_parts, all_true,
}

module _ {S F : Type 0} (world : World S) (fl : Floats F) (boot : Boot) where
  same-Flagged :
      (m m' : Machine S F)
      → Flagged m
      → Logged m'.gateway
      → (m'.gateway).flagrebootsystem ≡ (m.gateway).flagrebootsystem
      → (m'.gateway).flagpoweroffsystem ≡ (m.gateway).flagpoweroffsystem
      → (m'.board).in_charge ≡ (m.board).in_charge
      → Flagged m'
  same-Flagged m m' v logged reboot poweroff charging = record {
    logged = logged;
    reboot = reboot ∙ v.reboot;
    poweroff = poweroff ∙ v.poweroff;
    charging = charging ∙ v.charging;
  }

  boot_shm-Ends : (m : Machine S F) → IsBeginning m → Ends IsBeginning (boot_shm world fl boot m)
  unfolding boot_shm
  boot_shm-Ends m v = by_test _ _
    where
      by_test :
          (failed : Bool) (t : Segment)
          → Ends IsBeginning (
              if failed
              then stops (pos 1) (record m { segment = t })
              else started (record m { segment = t }))
      by_test true t = halts _ _
      by_test false t = goes _ (record { len = v.len; text = v.text; logged = v.logged })

  boot_data-Ends :
      (m : Machine S F)
      → IsBeginning m
      → Ends (λ n. IsBeginning n × Flagged n) (boot_data world fl boot m)
  unfolding boot_data
  boot_data-Ends m v = goes _ (
    record { len = v.len; text = v.text; logged = v.logged },
    record { logged = v.logged; reboot = refl; poweroff = refl; charging = refl },
  )

  boot_gpio-Ends :
      (P : Machine S F → Type 0) (m : Machine S F) → P m → Ends P (boot_gpio world fl boot m)
  unfolding boot_gpio
  boot_gpio-Ends P m v = if-Ends P boot.gpio_maps (pos 1) m m (λ _. v)

  boot_lcd-Ends :
      (m : Machine S F) → IsBeginning m × Flagged m → Ends Shown (boot_lcd world fl boot m)
  unfolding boot_lcd
  boot_lcd-Ends m (v, w) = if-Ends Shown _ (pos 0) _ _ (λ e. record {
    flagged = same-Flagged m _ w w.logged refl refl refl;
    scrolling =
        (lcdinit-Starts boot.bus (m.board).display v.len v.text ((==ℤ_iff _ _).0 e)).scrolling;
  })

  overrun-Ends :
      (P : Machine S F → Type 0) (over : Bool) (x : Booted S F)
      → Ends P x
      → Ends P (if over then faults else x)
  overrun-Ends P true x p = crashes
  overrun-Ends P false x p = p

  boot_config-Ends : (m : Machine S F) → Shown m → Ends Shown (boot_config world fl boot m)
  unfolding boot_config
  boot_config-Ends m v = overrun-Ends Shown _ _ (
      if-Ends Shown _ (pos 1) _ _ (λ e. record {
        flagged = same-Flagged m _ v.flagged v.flagged.logged refl refl refl;
        scrolling = v.scrolling;
      }))

  boot_devices-Ends : (m : Machine S F) → Shown m → Ends Shown (boot_devices world fl boot m)
  unfolding boot_devices reload_devices reload_table
  boot_devices-Ends m v =
      by_init (init_devices world.uknown ((boot.at).moment).time loaded.0 loaded.1)
    where
      loaded : ℤ × List Device × Store S
      loaded = load_device_db world.atoi world.sqlite ((m.gateway).radio).devices (m.gateway).store

      by_overrun :
          (g : Gateway S) (over : Bool)
          → Ends Shown (started (record m { gateway = g }))
          → Ends Shown (elim (if◌then◌else◌ {A = Option (Gateway S)} over none (some g)) [
            | none ↦ faults
            | some h ↦ started (record m { gateway = h })
          ])
      by_overrun g true p = crashes
      by_overrun g false p = p

      by_init :
          (o : Option (ℕ × List Device))
          → Ends Shown
              (elim (elim (elim o as (λ o. Option (Gateway S)) [
                | none ↦ none
                | some (n, ds) ↦ some (record m.gateway {
                  store = loaded.2;
                  radio = record (m.gateway).radio {
                    devices = ds;
                    device_number = n;
                    device_index = 0;
                  };
                })
              ])
                as (λ o. Option (Gateway S)) [
                  | none ↦ none
                  | some g ↦ if g.store.overrun then none else some g
                ]) [ none ↦ faults | some g ↦ started (record m { gateway = g }) ])
      by_init none = crashes
      by_init (some (n, ds)) = by_overrun _ (loaded.2).overrun (
          goes _ (record {
            flagged = same-Flagged m _ v.flagged v.flagged.logged refl refl refl;
            scrolling = v.scrolling;
          }))

  boot_modem-Ends : (m : Machine S F) → Shown m → Ends Shown (boot_modem world fl boot m)
  unfolding boot_modem
  boot_modem-Ends m v = by_test _ _
    where
      by_test :
          (failed : Bool) (k : Modem)
          → Ends Shown (
              if failed
              then stops (pos 1) (record m { gateway = record m.gateway { modem = k } })
              else started (record m { gateway = record m.gateway { modem = k } }))
      by_test true k = halts _ _
      by_test false k = goes _ (record {
        flagged = same-Flagged m _ v.flagged v.flagged.logged refl refl refl;
        scrolling = v.scrolling;
      })

  init_serial-files :
      (memory_serial memory_data opens : Bool) (r : Radio)
      → (init_serial memory_serial memory_data opens r).1.files ≡ r.files
  unfolding init_serial
  init_serial-files true true true r = refl
  init_serial-files true true false r = refl
  init_serial-files true false opens r = refl
  init_serial-files false memory_data opens r = refl

  boot_serial-Ends : (m : Machine S F) → Shown m → Ends Opened (boot_serial world fl boot m)
  unfolding boot_serial
  boot_serial-Ends m v = if-Ends Opened _ (pos 1) _ _ (λ e. record {
    shown = record {
      flagged =
          same-Flagged m _ v.flagged
            (subst IsLogged
              (sym (
                init_serial-files boot.memory_serial boot.memory_data boot.serial_opens
                  (m.gateway).radio))
              v.flagged.logged)
            refl refl refl;
      scrolling = v.scrolling;
    };
    receiver =
        init_serial-IsReceiver boot.memory_serial boot.memory_data boot.serial_opens
          (m.gateway).radio ((==ℤ_iff _ _).0 e);
  })

  boot_rest-Ends :
      (m : Machine S F)
      → Opened m
      → Ends (λ n. Sound n.gateway × Shown n) (boot_rest world fl boot m)
  unfolding boot_rest init_ri_mms
  boot_rest-Ends m v =
      let flags = v.shown.flagged in
      let before : Sound m.gateway = record {
        receiver = v.receiver;
        ending = λ on. (flags.reboot, flags.poweroff);
      } in
      goes _ (
        same-Sound m.gateway _ before refl refl refl refl refl refl refl,
        record {
          flagged =
              same-Flagged m _ flags
                (record {
                  in_sample = flags.logged.in_sample;
                  in_ram = flags.logged.in_ram;
                  whole_writes = flags.logged.whole_writes;
                })
                refl refl refl;
          scrolling = v.shown.scrolling;
        },
      )

  boot_threads-Ends :
      (m : Machine S F) → Sound m.gateway × Shown m → Ends IsSound (boot_threads world fl boot m)
  unfolding boot_threads start_io
  boot_threads-Ends m (s, v) = if-Ends IsSound (all_true boot.creates) (pos 1) _ _ (λ e. record {
    gateway = s;
    logged = v.flagged.logged;
    board = record {
      counted = omega arith;
      charging = λ on. cc;
      shown = record {
        counted = v.scrolling.counted;
        short = v.scrolling.short;
        within = v.scrolling.within;
      };
    };
  })

  pub boot_parts-Ends :
      (m : Machine S F) → IsBeginning m → Ends IsSound (boot_parts world fl boot m)
  unfolding boot_parts
  boot_parts-Ends m v =
      let shm = boot_shm-Ends m v in
      let flags = then-Ends _ _ _ _ shm boot_data-Ends in
      let gpio = then-Ends _ _ _ _ flags (boot_gpio-Ends _) in
      let lcd = then-Ends _ _ _ _ gpio boot_lcd-Ends in
      let config = then-Ends _ _ _ _ lcd boot_config-Ends in
      let devices = then-Ends _ _ _ _ config boot_devices-Ends in
      let modem = then-Ends _ _ _ _ devices boot_modem-Ends in
      let serial = then-Ends _ _ _ _ modem boot_serial-Ends in
      let rest = then-Ends _ _ _ _ serial boot_rest-Ends in then-Ends _ _ _ _ rest boot_threads-Ends
