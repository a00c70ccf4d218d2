-- ===== src/Radio/Receiver.antt =====
-- `LoadDataRf`, `GetChar` and `Parser` of sw/protocolrimms.c: bytes from the serial port go through
-- a circular buffer into a state machine that takes frames of 44 bytes apart.
-- A frame is ':', the gateway, three repeaters and the sensor (two bytes each, the low one first), 32
-- bytes of payload, and the sum of all that. What `read` returns is an argument.
pub mod Frames
pub mod Acks
pub mod Kept
pub mod Switch
pub mod Drained
pub mod Invariant
pub mod Logged
use ri_mms_linux.Prelude.{ℕ, zero, suc, ◌+◌, List, [], ◌∷◌, ◌++◌, none, some}
use ri_mms_linux.Prelude.{ltb, leb, ◌==◌, if◌then◌else◌}
use ri_mms_linux.Prelude.Words.{byte, u8, u32}
use ri_mms_linux.Prelude.Int.{pos, pattern32, signed16, ◌-ℤ◌}
use ri_mms_linux.Ring.{Ring, put, get}
use ri_mms_linux.Device.{find_devices_from_add}
use ri_mms_linux.Log.Stamp.{Calendar, tag_sor}
use ri_mms_linux.Log.Tags.{log, tag_sensorfailure}
use ri_mms_linux.Radio.State.{
  Radio, Moment, received, unknown, set_low, set_high, device_at, store_device, force_upload,
}
use ri_mms_linux.Radio.Ack.{send_ack_sensor}
use ri_mms_linux.Radio.Payload.{Stack, parser_data, max_bufferdata}
use ri_mms_linux.Radio.Thresholds.{check_sensor_thresholds}

abbrev pub maxbuffer : ℕ
maxbuffer = 1024

-- `LoadDataRf`, for the bytes that `read` has delivered.
unfoldable pub load_data_rf : List ℕ → Ring → Ring
load_data_rf [] serial = serial
load_data_rf (x ∷ xs) serial = load_data_rf xs (put maxbuffer x serial)

module _ (m : Moment) (cal : Calendar) (stack : Stack) where
  -- The branch of state 43 where the checksum agrees.
  unfoldable pub frame_complete : Radio → Radio
  frame_complete r =
      let ready = record r { protocolready = 1 } in
      elim (find_devices_from_add 0 r.device_number r.device r.devices) [
        | none ↦
            send_ack_sensor m r.device 10 20
              (record ready { shown = r.shown ++ (unknown r.device ∷ []) })
        | some i ↦
            let d = device_at r i in
            let acked = send_ack_sensor m d.add d.sampleperiod d.radioperiod ready in
            let checked = check_sensor_thresholds m cal i (parser_data m cal i stack acked) in
            let seen = record checked { shown = checked.shown ++ (received i ∷ []) } in
            store_device i (record (device_at seen i) { lastalarm = m.time; flagalalarmlive = 0 })
              seen
      ]

  -- The `switch` on `protocolstate`.
  unfoldable pub on_state : ℕ → Radio → Radio
  unfolding frame_complete put
  on_state x r =
      let s = r.protocolstate in
      let next = s + 1 in
      if s == 0
      then (if x == b':'
          then record r {
            protocolstate = next;
            protocolchecksum = 0;
            protocolready = 0;
            payload = record { cells = r.payload.cells; count = 0; inp = 0; out = 0 };
          }
          else r)
      else if s == 1
      then record r { protocolstate = if x == byte r.gw 0 then next else 0 }
      else if s == 2
      then record r { protocolstate = if x == byte r.gw 1 then next else 0 }
      else if s == 3
      then record r { rp3 = set_low r.rp3 x; protocolstate = next }
      else if s == 4
      then record r { rp3 = set_high r.rp3 x; protocolstate = next }
      else if s == 5
      then record r { rp2 = set_low r.rp2 x; protocolstate = next }
      else if s == 6
      then record r { rp2 = set_high r.rp2 x; protocolstate = next }
      else if s == 7
      then record r { rp1 = set_low r.rp1 x; protocolstate = next }
      else if s == 8
      then record r { rp1 = set_high r.rp1 x; protocolstate = next }
      else if s == 9
      then record r { device = set_low r.device x; protocolstate = next }
      else if s == 10
      then record r { device = set_high r.device x; protocolstate = next }
      else if s == 43
      then (let done = if x == r.protocolchecksum then frame_complete r else r in
          record done { protocolstate = 0 })
      else record r { payload = put max_bufferdata x r.payload; protocolstate = u8 next }

  -- One round of the loop of `Parser`.
  unfoldable pub on_byte : ℕ → Radio → Radio
  unfolding on_state
  on_byte x r =
      let r' = on_state x r in record r' { protocolchecksum = u8 (r'.protocolchecksum + x) }

  -- `while(GetChar(&data)==0)`, with fuel.
  unfoldable pub drain : ℕ → Radio → Radio
  drain zero r = r
  drain (suc fuel) r = elim (get maxbuffer r.serial) [
    | none ↦ r
    | some (x, serial) ↦ drain fuel (on_byte x (record r { serial = serial }))
  ]

  -- The watch over the sensor at `DeviceIndex`: `time_t` is compared with an `unsigned int`.
  unfoldable pub watch_alive : Radio → Radio
  watch_alive r =
      let d = device_at r r.device_index in
      let late = ltb d.aliveperiod (pattern32 (m.time -ℤ d.lastalarm)) in
      let marked =
        store_device r.device_index (record d { lastalarm = m.time; flagalalarmlive = 1 }) r in
      let logged =
        log (tag_sensorfailure (signed16 d.id)) (log (tag_sor cal m.time (pos 0)) r.files) in
      let watched = if late then force_upload m (pos 5) (record marked { files = logged }) else r in
      let next = u32 (r.device_index + 1) in
      record watched { device_index = if leb r.device_number next then 0 else next }

  -- `Parser`: 1024 rounds empty the buffer.
  unfoldable pub parser : List ℕ → Radio → Radio
  parser bytes r = watch_alive (drain maxbuffer (record r { serial = load_data_rf bytes r.serial }))
