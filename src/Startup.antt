-- ===== src/Startup.antt =====
-- `main` of sw/main.c up to the loop in which it waits: the command line, then one initialisation
-- after the other, the first that fails ends the program; then the threads. `daemonize` and what is
-- logged are left out. The calls of the operating system succeed or not by the arguments.
pub mod Ends
pub mod Stages
pub mod Sound
use ri_mms_linux.Prelude.{
  ℕ, Bool, true, false, List, [], ◌∷◌, Option, none, some, codes, if◌then◌else◌,
}
use ri_mms_linux.Prelude.Int.{ℤ, pos, negsuc, ◌==ℤ◌}
use ri_mms_linux.Config.{load_config}
use ri_mms_linux.Upload.{init_ri_mms}
use ri_mms_linux.Modem.Exchange.{Line, init_modem}
use ri_mms_linux.Radio.Start.{init_serial}
use ri_mms_linux.Shm.{open_shadow_memory}
use ri_mms_linux.Net.{init_ri_mms_net}
use ri_mms_linux.Display.Expander.{Bus, lcdinit}
use ri_mms_linux.Display.Write.{init_keyboard}
use ri_mms_linux.Board.{Floats, start_io}
use ri_mms_linux.CommandLine.{PidFile, Options, runs, exits, parse_command_line}
use ri_mms_linux.Db.{load_param_db}
use ri_mms_linux.Gateway.{Gateway, World, Instant, settings_of, put_settings, reload_devices}
use ri_mms_linux.System.{uploader_of, put_uploader}
use ri_mms_linux.Machine.{Machine}

pub record Boot : Type 0 where
  -- the file that names the directory: `none` cannot be opened, `some false` has no text
  pub path_file : Option Bool
  pub argv : List (List ℕ)
  pub pid_file : PidFile
  pub shm_opens : Bool
  pub gpio_maps : Bool
  pub bus : Bus
  pub at : Instant
  pub modem_line : Line
  pub modem_opens : Bool
  pub memory_serial : Bool
  pub memory_data : Bool
  pub serial_opens : Bool
  -- what `pthread_attr_setschedparam` and `pthread_create` give, in order, for the four threads
  pub creates : List Bool

pub data Booted (S F : Type 0) : Type 0 where
  started : Machine S F → Booted S F
  -- `main` returns, or the process exits, with this code
  stops : ℤ → Machine S F → Booted S F
  -- an access outside an array
  faults : Booted S F

infixl 20 ◌then_boot◌
abbrev pub ◌then_boot◌ : {S F : Type 0} → Booted S F → (Machine S F → Booted S F) → Booted S F
started m then_boot next = next m
stops code m then_boot next = stops code m
faults then_boot next = faults

abbrev pub all_true : List Bool → Bool
all_true [] = true
all_true (b ∷ bs) = if b then all_true bs else false

-- `"RiMMS 2014 VER %s"`
abbrev pub version_text : List ℕ
version_text = codes "RiMMS 2014 VER 0.5 RT 17/12/2014"

module _ {S F : Type 0} (world : World S) (fl : Floats F) (boot : Boot) where
  unfoldable pub boot_shm : Machine S F → Booted S F
  boot_shm m =
      let opened = open_shadow_memory boot.shm_opens m.segment in
      if opened.0 ==ℤ negsuc 0
      then stops (pos 1) (record m { segment = opened.1 })
      else started (record m { segment = opened.1 })

  -- The assignments to `data` and to the flags.
  unfoldable pub boot_data : Machine S F → Booted S F
  boot_data m = started (record m {
    gateway = record m.gateway {
      flagexit = true;
      flagrebootsystem = false;
      flagpoweroffsystem = false;
    };
    board = record m.board {
      in_charge = false;
      low_battery = false;
      power_in = false;
      adc_vin = fl.of_int (pos 0);
      adc_vbatt = fl.of_int (pos 0);
    };
  })

  unfoldable pub boot_gpio : Machine S F → Booted S F
  boot_gpio m = if boot.gpio_maps then started m else stops (pos 1) m

  -- A failure ends the thread of `main`, and with it the process, by `pthread_exit`.
  unfoldable pub boot_lcd : Machine S F → Booted S F
  boot_lcd m =
      let lcd = lcdinit boot.bus (m.board).display in
      let shown = record m { board = record m.board { display = lcd.2 } } in
      if lcd.0 ==ℤ pos 0 then started shown else stops (pos 0) shown

  unfoldable pub boot_config : Machine S F → Booted S F
  boot_config m =
      let loaded =
        load_config (load_param_db world.sqlite) world.atoi (settings_of m.gateway)
          (m.gateway).store in
      let configured = record m {
        gateway = put_settings loaded.0 (record m.gateway { store = loaded.1 });
      } in
      if (loaded.1).overrun
      then faults
      else if loaded.2
      then started configured
      else stops (pos 1) configured

  -- `InitDevices` returns 0.
  unfoldable pub boot_devices : Machine S F → Booted S F
  boot_devices m = elim (reload_devices world boot.at m.gateway) [
    | none ↦ faults
    | some g ↦ started (record m { gateway = g })
  ]

  unfoldable pub boot_modem : Machine S F → Booted S F
  boot_modem m =
      let found =
        init_modem boot.modem_line boot.modem_opens ((boot.at).moment).clock (m.gateway).modem in
      let known = record m { gateway = record m.gateway { modem = found.1 } } in
      if found.0 ==ℤ negsuc 0 then stops (pos 1) known else started known

  unfoldable pub boot_serial : Machine S F → Booted S F
  boot_serial m =
      let serial =
        init_serial boot.memory_serial boot.memory_data boot.serial_opens (m.gateway).radio in
      let opened = record m { gateway = record m.gateway { radio = serial.1 } } in
      if serial.0 ==ℤ pos 0 then started opened else stops (pos 1) opened

  -- `InitRiMMS`, `InitKeyboard` and `InitRiMMSNet` return 0.
  unfoldable pub boot_rest : Machine S F → Booted S F
  boot_rest m =
      let clock = ((boot.at).moment).clock in
      started (record m {
        gateway = put_uploader (init_ri_mms clock (uploader_of m.gateway)) m.gateway;
        keyboard = init_keyboard m.keyboard;
        net = init_ri_mms_net clock m.net;
      })

  unfoldable pub boot_threads : Machine S F → Booted S F
  boot_threads m =
      if all_true boot.creates
      then started (record m { board = start_io fl version_text m.board })
      else stops (pos 1) m

  -- From the opening of the shared memory on.
  unfoldable pub boot_parts : Machine S F → Booted S F
  boot_parts m =
      boot_shm m
      then_boot boot_data
      then_boot boot_gpio
      then_boot boot_lcd
      then_boot boot_config
      then_boot boot_devices
      then_boot boot_modem
      then_boot boot_serial
      then_boot boot_rest
      then_boot boot_threads

  unfoldable pub main : Machine S F → Booted S F
  main m = elim boot.path_file [
    | none ↦ stops (pos 1) m
    | some has_path ↦
        if has_path
        then (elim (parse_command_line boot.pid_file boot.argv) [
          | runs options lines ↦ boot_parts (record m { options = options })
          | exits lines ↦ stops (pos 0) m
        ])
        else stops (pos 1) m
  ]
