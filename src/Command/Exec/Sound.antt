-- ===== src/Command/Exec/Sound.antt =====
-- The commands, the receiver and the flags that end the program.
use ri_mms_linux.Prelude.{
  ℕ, ◌≡◌, refl, sym, ap, ◌∙◌, true, false, List, [], ◌∷◌, none, some, length, arith,
}
use mathlib.Core.Path.{subst}
use ri_mms_linux.Prelude.Int.{ℤ}
use ri_mms_linux.Device.{Device}
use ri_mms_linux.Radio.State.{force_upload}
use ri_mms_linux.Ring.{Ring}
use ri_mms_linux.Ring.Queue.{IsRing}
use ri_mms_linux.Radio.Receiver.{maxbuffer}
use ri_mms_linux.Radio.Receiver.Switch.{IsReceiver}
use ri_mms_linux.Db.{add_device_db}
use ri_mms_linux.Gateway.{Gateway, World, Instant, reload_devices, power_off, reboot_system}
use ri_mms_linux.Command.Reply.{Reply, Executed, executed, undefined}
use ri_mms_linux.Command.System.{exec_modem, exec_param, exec_getupdate, exec_status, exec_system}
use ri_mms_linux.Command.Sensors.{
  exec_list, exec_name, add_sensor, exec_add, update_sensor, exec_upd, remove_sensor, exec_rmv,
  exec_get, exec_sensor,
}
use ri_mms_linux.Command.Exec.{exec_command}
use ri_mms_linux.Command.Exec.Logged.{
  Leaves, leaves, undefined_ends, if-Leaves, reload_devices-Leaves,
}

module _ {S : Type 0} where
  -- The receiver is well formed, and as long as the threads go on nobody has asked for a reboot or
  -- a shutdown.
  pub record Sound (g : Gateway S) : Type 0 where
    pub receiver : IsReceiver g.radio
    pub ending : g.flagexit ≡ true → (g.flagrebootsystem ≡ false) × (g.flagpoweroffsystem ≡ false)

  reboot-Sound : (g : Gateway S) → Sound g → Sound (reboot_system g)
  unfolding reboot_system
  reboot-Sound g v = record { receiver = v.receiver; ending = λ on. cc }

  power_off-Sound : (g : Gateway S) → Sound g → Sound (power_off g)
  unfolding power_off
  power_off-Sound g v = record { receiver = v.receiver; ending = λ on. cc }

  -- A state with the same receiver and the same flags.
  pub same-Sound :
      (g g' : Gateway S)
      → Sound g
      → g'.radio.protocolstate ≡ g.radio.protocolstate
      → g'.radio.protocolchecksum ≡ g.radio.protocolchecksum
      → g'.radio.serial ≡ g.radio.serial
      → g'.radio.payload ≡ g.radio.payload
      → g'.flagexit ≡ g.flagexit
      → g'.flagrebootsystem ≡ g.flagrebootsystem
      → g'.flagpoweroffsystem ≡ g.flagpoweroffsystem
      → Sound g'
  same-Sound g g' v state checksum serial payload exit reboot poweroff = record {
    receiver = record {
      state_in = omega (arith, state, v.receiver.state_in);
      checksum_in = omega (arith, checksum, v.receiver.checksum_in);
      serial_ring = subst (IsRing maxbuffer) (sym serial) v.receiver.serial_ring;
      cells_sized = ap (λ (q : Ring). length q.cells) payload ∙ v.receiver.cells_sized;
      counted = λ h. omega (
        arith,
        state,
        ap (λ (q : Ring). q.count) payload,
        v.receiver.counted (omega (arith, h, state)),
      );
      written = λ h. omega (
        arith,
        state,
        ap (λ (q : Ring). q.inp) payload,
        v.receiver.written (omega (arith, h, state)),
      );
      unread = λ h. omega (
        arith,
        state,
        ap (λ (q : Ring). q.out) payload,
        v.receiver.unread (omega (arith, h, state)),
      );
    };
    ending = λ on. let (r, p) = v.ending (sym exit ∙ on) in (reboot ∙ r, poweroff ∙ p);
  }

  same-Leaves :
      (g : Gateway S) (code : ℤ) (reply : Reply) (g' : Gateway S)
      → Sound g
      → g'.radio.protocolstate ≡ g.radio.protocolstate
      → g'.radio.protocolchecksum ≡ g.radio.protocolchecksum
      → g'.radio.serial ≡ g.radio.serial
      → g'.radio.payload ≡ g.radio.payload
      → g'.flagexit ≡ g.flagexit
      → g'.flagrebootsystem ≡ g.flagrebootsystem
      → g'.flagpoweroffsystem ≡ g.flagpoweroffsystem
      → Leaves Sound (executed code reply g')
  same-Leaves g code reply g' v a b c d e f h =
      leaves code reply g' (same-Sound g g' v a b c d e f h)

module _ {S : Type 0} (world : World S) (at : Instant) where
  exec_status-Sound :
      (params : List (List ℕ)) (g : Gateway S)
      → Sound g
      → Leaves Sound (exec_status world at params g)
  unfolding exec_status
  exec_status-Sound params g v = leaves _ _ g v

  exec_getupdate-Sound : (g : Gateway S) → Sound g → Leaves Sound (exec_getupdate world at g)
  unfolding exec_getupdate
  exec_getupdate-Sound g v = leaves _ _ g v

  exec_system-Sound :
      (params : List (List ℕ)) (g : Gateway S)
      → Sound g
      → Leaves Sound (exec_system world at params g)
  unfolding exec_system force_upload
  exec_system-Sound params g v =
      search
        (
          if-Leaves Sound,
          leaves,
          same-Leaves g,
          reboot-Sound g v,
          power_off-Sound g v,
          exec_status-Sound,
          exec_getupdate-Sound,
          v,
        )
        depth 24

  -- `InitDevices` leaves the receiver and the flags alone.
  reloaded-Sound :
      (g : Gateway S) (next : Gateway S → Executed S)
      → Sound g
      → ((h : Gateway S) → Sound h → Leaves Sound (next h))
      → Leaves Sound (elim (reload_devices world at g) [ none ↦ undefined | some h ↦ next h ])
  reloaded-Sound g next v keeps =
      reload_devices-Leaves world at Sound g next keeps
        (λ store n ds. same-Sound g _ v refl refl refl refl refl refl refl)

  add_sensor-Sound :
      (tmp : Device) (g : Gateway S) → Sound g → Leaves Sound (add_sensor world at tmp g)
  unfolding add_sensor
  add_sensor-Sound tmp g v =
      let stored =
        add_device_db world.sqlite (g.radio).device_number (g.radio).devices tmp g.store in
      let kept =
        same-Sound g (record g { store = stored.1 }) v refl refl refl refl refl refl refl in
      if-Leaves Sound _ _ _
        (reloaded-Sound _ _ kept (λ h w. same-Leaves h _ _ _ w refl refl refl refl refl refl refl))
        (leaves _ _ _ kept)

  update_sensor-Sound :
      (tmp : Device) (g : Gateway S) → Sound g → Leaves Sound (update_sensor world at tmp g)
  unfolding update_sensor
  update_sensor-Sound tmp g v =
      if-Leaves Sound _ _ _
        (reloaded-Sound _ _ (same-Sound g _ v refl refl refl refl refl refl refl)
          (λ h w. leaves _ _ _ w))
        (same-Leaves g _ _ _ v refl refl refl refl refl refl refl)

  remove_sensor-Sound :
      (id : ℕ) (g : Gateway S) → Sound g → Leaves Sound (remove_sensor world at id g)
  unfolding remove_sensor
  remove_sensor-Sound id g v =
      if-Leaves Sound _ _ _
        (reloaded-Sound _ _ (same-Sound g _ v refl refl refl refl refl refl refl)
          (λ h w. same-Leaves h _ _ _ w refl refl refl refl refl refl refl))
        (same-Leaves g _ _ _ v refl refl refl refl refl refl refl)

  exec_sensor-Sound :
      (params : List (List ℕ)) (g : Gateway S)
      → Sound g
      → Leaves Sound (exec_sensor world at params g)
  unfolding exec_sensor exec_list exec_name exec_add exec_upd exec_rmv exec_get
  exec_sensor-Sound params g v =
      search
        (
          if-Leaves Sound,
          leaves,
          undefined_ends,
          add_sensor-Sound,
          update_sensor-Sound,
          remove_sensor-Sound,
          v,
        )
        depth 24

  exec_param-Sound :
      (params : List (List ℕ)) (g : Gateway S)
      → Sound g
      → Leaves Sound (exec_param world at params g)
  unfolding exec_param
  exec_param-Sound params g v = search (if-Leaves Sound, leaves, same-Leaves g, v)

  -- Whatever a command is, the receiver is as well formed after it as before, and if it leaves the
  -- threads running it has asked for no reboot and no shutdown.
  pub exec_command-Sound :
      (params : List (List ℕ)) (g : Gateway S)
      → Sound g
      → Leaves Sound (exec_command world at params g)
  unfolding exec_command exec_modem
  exec_command-Sound [] g v = leaves _ _ _ v
  exec_command-Sound (what ∷ rest) g v =
      search (if-Leaves Sound, leaves, exec_param-Sound, exec_sensor-Sound, exec_system-Sound, v)
        depth 24
