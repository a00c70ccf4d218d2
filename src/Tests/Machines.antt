-- ===== src/Tests/Machines.antt =====
-- The start of the program and what follows, at concrete inputs.
use ri_mms_linux.Prelude.{
  ℕ, ◌≡◌, refl, arith, Bool, true, false, [], ◌∷◌, none, some, replicate, codes,
}
use ri_mms_linux.Prelude.Int.{◌+ℤ◌, ◌-ℤ◌, pos}
use ri_mms_linux.Db.{
  load_param_db, run, callbacks, callback, load_device_db, load_row, load_rows, names_fit,
  store_cells,
}
use ri_mms_linux.Db.Tables.{Answer, Sql, select_config}
use ri_mms_linux.Shm.Rounds.{at_text}
use ri_mms_linux.Gateway.{reload_table, reload_devices, World}
use ri_mms_linux.Machine.{Machine, io_step, no_tick, then_tick, signalled, signal_handler, sigterm}
use ri_mms_linux.Machine.Sound.{IsSound}
use ri_mms_linux.Startup.{
  boot_parts, boot_shm, boot_data, boot_gpio, boot_lcd, boot_config, boot_devices, boot_modem,
  boot_rest, boot_serial, boot_threads, Boot, Booted, started, stops, faults, main,
}
use ri_mms_linux.Startup.Sound.{main-IsSound}
use ri_mms_linux.CommandLine.{
  parse_command_line, kill_from_pid_file, option_line, parse_loop, set_option,
}
use ri_mms_linux.Shm.{open_shadow_memory}
use ri_mms_linux.Display.Expander.{lcdinit, backlight}
use ri_mms_linux.Config.{
  load_config, load_period, load_gw, load_keyboard, load_modem_type, load_net_port,
}
use ri_mms_linux.Log.Tags.{tag_power_off}
use ri_mms_linux.System.{starts}
use ri_mms_linux.Machine.{calls}
use ri_mms_linux.Gateway.{log_after_sor}
use ri_mms_linux.Display.Gest.{gest_display, show_idle, show_message, scroll}
use ri_mms_linux.Display.{read_display_buf, read_chars}
use ri_mms_linux.Ring.{get}
use ri_mms_linux.Board.{
  io_turn, gest_panel, gest_vbatt, gest_vin, gest_chg, gest_switch, power_present, power_absent,
  watch_charge, stop_charge, start_io,
}
use ri_mms_linux.Device.{init_device, init_devices, init_from}
use ri_mms_linux.Display.{write_chars, write_display_buf}
use ri_mms_linux.Modem.Exchange.{init_modem, modem_rx, send_all, send_modem_cmd}
use ri_mms_linux.Net.{init_ri_mms_net}
use ri_mms_linux.Radio.Start.{init_serial}
use ri_mms_linux.Ring.{put}
use ri_mms_linux.Upload.{init_ri_mms}
use ri_mms_linux.Tests.Commands.{exec_sql, world, instant, gateway}
use ri_mms_linux.Tests.Systems.{files-IsLogged}
use ri_mms_linux.Tests.Displays.{display}
use ri_mms_linux.Tests.Boards.{whole, board, pins_of}
use ri_mms_linux.Tests.Modems.{line}

-- A database with every parameter.
abbrev configured_sql : Sql → ℕ → Answer ℕ
configured_sql (select_config key) n = record {
  disk = n;
  rows = (some (codes "key") ∷ some (codes "900") ∷ []) ∷ [];
  ok = true;
}
configured_sql sql n = exec_sql sql n

abbrev configured : World ℕ
configured = record world { sqlite = record { opens = λ n. true; exec = configured_sql } }

abbrev machine : Machine ℕ ℕ
machine = record {
  gateway = gateway;
  board = record board { display = record display { tmpbuffer = []; len = 0 } };
  segment = at_text [] (replicate 2048 0) [] (replicate 2048 0);
  net = record { status = 0; timerconnect = pos 0; rxbuff = [] };
  keyboard = record {
    enable = false;
    menulevel = 0;
    menuindex = 0;
    filtersw1 = 0;
    filtersw2 = 0;
    filtersw3 = 0;
    filtersw4 = 0;
  };
  options = record { debug = false; logftp = false; demon = true };
}

abbrev boot : Boot
boot = record {
  path_file = some true;
  argv = codes "--nd" ∷ [];
  pid_file = record { pid = none; kills = false };
  shm_opens = true;
  gpio_maps = true;
  bus = record {
    display_opens = true;
    expander_opens = true;
    init_writes = true;
    byte = some 15;
    light_writes = true;
    memory = true;
    time = pos 20;
  };
  at = instant;
  modem_line = line;
  modem_opens = true;
  memory_serial = true;
  memory_data = true;
  serial_opens = true;
  creates = replicate 8 true;
}

abbrev machine_of : Booted ℕ ℕ → Machine ℕ ℕ
machine_of (started m) = m
machine_of (stops code m) = m
machine_of faults = machine

abbrev is_started : Booted ℕ ℕ → Bool
is_started (started m) = true
is_started (stops code m) = false
is_started faults = false

started_eq : (x : Booted ℕ ℕ) → is_started x ≡ true → x ≡ started (machine_of x)
started_eq (started m) e = refl
started_eq (stops code m) e = absurd (ground (arith, e))
started_eq faults e = absurd (ground (arith, e))

main_starts : is_started (main configured whole boot machine) ≡ true
unfolding main parse_command_line boot_parts boot_shm open_shadow_memory boot_data boot_gpio
    boot_lcd lcdinit backlight boot_config load_config load_period load_param_db run load_gw
    callbacks callback start_io kill_from_pid_file option_line parse_loop set_option load_keyboard
    load_modem_type load_net_port load_device_db load_row load_rows names_fit store_cells
    init_device init_devices init_from write_chars write_display_buf reload_table reload_devices
    init_modem modem_rx send_all send_modem_cmd init_ri_mms_net ◌+ℤ◌ ◌-ℤ◌ init_serial put
    boot_devices boot_modem boot_rest boot_serial boot_threads init_ri_mms
main_starts = refl

abbrev booted : Machine ℕ ℕ
booted = machine_of (main configured whole boot machine)

-- A turn of `thread_io` that stays within its arrays.
within : (io_step configured whole (pins_of true) machine).board.display.overrun ≡ false
unfolding io_step io_turn gest_panel gest_display gest_vbatt gest_vin gest_chg gest_switch
    power_present power_absent watch_charge stop_charge show_idle show_message scroll
    write_display_buf write_chars put read_display_buf read_chars get ◌-ℤ◌ ◌+ℤ◌
within = refl

-- The thread that talks to the sensors starts, a frame begins, and the program is told to end.
main-IsSound_example :
    IsSound
      (signal_handler sigterm
        (record booted { gateway = log_after_sor instant tag_power_off booted.gateway })).1
main-IsSound_example =
    main-IsSound configured whole boot machine booted _
      (record { len = refl; text = refl; logged = files-IsLogged })
      (started_eq (main configured whole boot machine) main_starts)
      (then_tick _ _ (then_tick _ _ no_tick (calls _ (starts instant))) (signalled sigterm))
