-- ===== src/Radio/Receiver/Logged.antt =====
-- What `Parser` logs: whole records, whatever bytes come and whatever sensors fall silent.
use ri_mms_linux.Prelude.{
  ℕ, zero, suc, ◌≡◌, ◌⊎◌, inl, inr, sym, arith, List, [], ◌∷◌, ◌++◌, Option, none, some,
}
use mathlib.Core.Path.{subst}
use ri_mms_linux.Prelude.Int.{pos, signed16}
use ri_mms_linux.Ring.{Ring, get}
use ri_mms_linux.Device.{find_devices_from_add}
use ri_mms_linux.Log.Stamp.{Calendar}
use ri_mms_linux.Log.Entries.{sor, sensorfailure}
use ri_mms_linux.Log.Readable.{IsLogged, log-IsLogged}
use ri_mms_linux.Radio.State.{
  Radio, Moment, force_upload, device_at, store_device, received, unknown,
}
use ri_mms_linux.Radio.Ack.{send_ack_sensor}
use ri_mms_linux.Radio.Payload.{Stack, parser_data}
use ri_mms_linux.Radio.Thresholds.{check_sensor_thresholds}
use ri_mms_linux.Radio.Logging.{
  IsLogging, logging, files-IsLogging, if-IsLogging, parser_data-IsLogging,
  check_sensor_thresholds-IsLogging,
}
use ri_mms_linux.Radio.Receiver.{
  maxbuffer, frame_complete, on_state, on_byte, drain, watch_alive, parser,
}

module _ (m : Moment) (cal : Calendar) (stack : Stack) where
  frame_complete-IsLogging : (r : Radio) → IsLogging r → IsLogging (frame_complete m cal stack r)
  unfolding frame_complete send_ack_sensor
  frame_complete-IsLogging r l =
      by_search (find_devices_from_add 0 r.device_number r.device r.devices)
    where
      same : IsLogged r.files
      same = files-IsLogging l

      ready : Radio
      ready = record r { protocolready = 1 }

      by_search :
          (o : Option ℕ)
          → IsLogging (elim o [
            | none ↦
                send_ack_sensor m r.device 10 20
                  (record ready { shown = r.shown ++ (unknown r.device ∷ []) })
            | some i ↦
                let d = device_at r i in
                let acked = send_ack_sensor m d.add d.sampleperiod d.radioperiod ready in
                let checked = check_sensor_thresholds m cal i (parser_data m cal i stack acked) in
                let seen = record checked { shown = checked.shown ++ (received i ∷ []) } in
                store_device i
                  (record (device_at seen i) { lastalarm = m.time; flagalalarmlive = 0 })
                  seen
          ])
      by_search none = logging _ same
      by_search (some i) =
          let checked =
            check_sensor_thresholds-IsLogging m cal i _
              (parser_data-IsLogging m cal i stack _ (logging _ same)) in
          logging _ (files-IsLogging checked)

  -- Only the end of a frame logs.
  on_state-files :
      (x : ℕ) (r : Radio)
      → ((on_state m cal stack x r).files ≡ r.files)
        ⊎ ((on_state m cal stack x r).files ≡ (frame_complete m cal stack r).files)
  unfolding on_state
  on_state-files x r = ground arith

  on_state-IsLogging : (x : ℕ) (r : Radio) → IsLogging r → IsLogging (on_state m cal stack x r)
  on_state-IsLogging x r l = elim (on_state-files x r) [
    | inl e ↦ logging _ (subst IsLogged (sym e) (files-IsLogging l))
    | inr e ↦ logging _ (subst IsLogged (sym e) (files-IsLogging (frame_complete-IsLogging r l)))
  ]

  on_byte-IsLogging : (x : ℕ) (r : Radio) → IsLogging r → IsLogging (on_byte m cal stack x r)
  unfolding on_byte
  on_byte-IsLogging x r l = logging _ (files-IsLogging (on_state-IsLogging x r l))

  drain-IsLogging : (fuel : ℕ) (r : Radio) → IsLogging r → IsLogging (drain m cal stack fuel r)
  unfolding drain
  drain-IsLogging zero r l = l
  drain-IsLogging (suc fuel) r l = by_read (drain-IsLogging fuel) (get maxbuffer r.serial)
    where
      by_read :
          ((s : Radio) → IsLogging s → IsLogging (drain m cal stack fuel s))
          → (o : Option (ℕ × Ring))
          → IsLogging (elim o [
            | none ↦ r
            | some (x, serial) ↦
                drain m cal stack fuel (on_byte m cal stack x (record r { serial = serial }))
          ])
      by_read rest none = l
      by_read rest (some (x, serial)) =
          rest _ (on_byte-IsLogging x _ (logging _ (files-IsLogging l)))

  watch_alive-IsLogging : (r : Radio) → IsLogging r → IsLogging (watch_alive m cal stack r)
  unfolding watch_alive force_upload
  watch_alive-IsLogging r l =
      let same = files-IsLogging l in
      let failed =
        log-IsLogged _ _ (sensorfailure (signed16 (device_at r r.device_index).id))
          (log-IsLogged _ r.files (sor cal m.time (pos 0)) same) in
      logging _ (files-IsLogging (if-IsLogging _ _ r (logging _ failed) l))

  -- Whatever bytes come from the port, a `Parser` that starts with a SAMPLE_FILE and a SAMPLE_RAM
  -- made of whole records leaves them so.
  pub parser-IsLogging :
      (bytes : List ℕ) (r : Radio) → IsLogging r → IsLogging (parser m cal stack bytes r)
  unfolding parser
  parser-IsLogging bytes r l =
      watch_alive-IsLogging _ (drain-IsLogging maxbuffer _ (logging _ (files-IsLogging l)))
