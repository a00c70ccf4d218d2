-- ===== src/Command/System.antt =====
-- The commands MODEM, PARAM and SYSTEM of `ExecCommand`, sw/command.c.
use ri_mms_linux.Prelude.{ℕ, true, List, length, leb, if◌then◌else◌}
use ri_mms_linux.Prelude.Int.{pos, ◌+ℤ◌, ◌-ℤ◌, ◌==ℤ◌}
use ri_mms_linux.Config.{load_config}
use ri_mms_linux.Modem.{get_modem_status}
use ri_mms_linux.Radio.State.{force_upload}
use ri_mms_linux.Db.{load_param_db, save_param_db}
use ri_mms_linux.Gateway.{
  Gateway, World, Instant, settings_of, put_settings, power_off, reboot_system,
}
use ri_mms_linux.Command.Status.{get_status}
use ri_mms_linux.Command.Reply.{
  ok, wrong, dberr, err, modem_state, modem_notpresent, param, system_forceupdate, system_getupdate,
  system_pwr, system_reboot, system_poweroff, system_programreboot, status_app, status_mem,
  status_disk, status_error, system_name, system_error, Executed, executed, parameter, is,
}

module _ {S : Type 0} (world : World S) (at : Instant) where
  unfoldable pub exec_modem : Gateway S → Executed S
  exec_modem g =
      executed (pos 0)
        (if (g.modem).present
          then modem_state (g.modem).operatorname (g.modem).signal (get_modem_status g.modem)
          else modem_notpresent)
        g

  unfoldable pub exec_param : List (List ℕ) → Gateway S → Executed S
  exec_param params g =
      if leb 3 (length params)
      then (let saved =
            save_param_db world.sqlite (parameter params 1) (parameter params 2) g.store in
          let loaded =
            load_config (load_param_db world.sqlite) world.atoi (settings_of g) saved.1 in
          if saved.0 ==ℤ pos 0
          then executed (pos 0) (param (if loaded.2 then ok else wrong))
              (put_settings loaded.0 (record g { store = loaded.1 }))
          else executed (pos 0) (param dberr) (record g { store = saved.1 }))
      else executed (pos 0) (param err) g

  -- `time(NULL)-(GetClockSecond()-lasttransferperiod)` and the same with the period.
  unfoldable pub exec_getupdate : Gateway S → Executed S
  exec_getupdate g =
      let now = (at.moment).time in
      let clock = (at.moment).clock in
      let last = (g.radio).lasttransferperiod in
      executed (pos 0)
        (system_getupdate (now -ℤ (clock -ℤ last))
          (now -ℤ (clock -ℤ (last +ℤ (g.radio).transferperiod))) now)
        g

  unfoldable pub exec_status : List (List ℕ) → Gateway S → Executed S
  exec_status params g =
      let what = parameter params 2 in
      executed (pos 0)
        (if is what "APP"
          then status_app (get_status world.libs world.app)
          else if is what "MEM"
          then status_mem (get_status world.libs world.mem)
          else if is what "DISK"
          then status_disk (get_status world.libs world.disk)
          else status_error)
        g

  unfoldable pub exec_system : List (List ℕ) → Gateway S → Executed S
  exec_system params g =
      let what = parameter params 1 in
      if is what "FORCEUPDATE"
      then executed (pos 0) system_forceupdate
          (record g { radio = force_upload at.moment (pos 5) g.radio })
      else if is what "GETUPDATE"
      then exec_getupdate g
      else if is what "PWR"
      then executed (pos 0) (system_pwr world.power) g
      else if is what "REBOOT"
      then executed (pos 0) system_reboot (reboot_system g)
      else if is what "POWEROFF"
      then executed (pos 0) system_poweroff (power_off g)
      else if is what "PROGRAMREBOOT"
      then executed (pos 0) system_programreboot (record g { restarting = true })
      else if is what "STATUS"
      then exec_status params g
      else if is what "NAME"
      then executed (pos 0) (system_name (g.settings).unit_name) g
      else executed (pos 0) system_error g
