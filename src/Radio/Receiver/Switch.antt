-- ===== src/Radio/Receiver/Switch.antt =====
-- The `switch` of `Parser`, state by state, and what it keeps.
use ri_mms_linux.Prelude.{ℕ, ◌+◌, ◌-◌, ◌≤◌, ◌<◌, ◌≡◌, refl, arith, ◌⊎◌}
use ri_mms_linux.Prelude.{
  [], ◌∷◌, ◌++◌, Option, none, some, length, length-set, ◌==◌, if◌then◌else◌,
}
use ri_mms_linux.Ring.{put}
use ri_mms_linux.Ring.Queue.{IsRing}
use ri_mms_linux.Device.{find_devices_from_add}
use ri_mms_linux.Log.Stamp.{Calendar}
use ri_mms_linux.Radio.State.{Radio, Moment, device_at, store_device, received, unknown}
use ri_mms_linux.Radio.Ack.{send_ack_sensor}
use ri_mms_linux.Radio.Payload.{Stack, parser_data, max_bufferdata}
use ri_mms_linux.Radio.Thresholds.{check_sensor_thresholds}
use ri_mms_linux.Radio.Receiver.{maxbuffer, frame_complete, on_state}
use ri_mms_linux.Radio.Receiver.Kept.{
  Kept, Kept-trans, parser_data-Kept, check_sensor_thresholds-Kept,
}

-- The machine is in one of its 44 states; the serial buffer is in order; the payload buffer has its
-- 80 cells, and within a frame it holds the payload bytes so far, from its first cell on.
pub record IsReceiver (r : Radio) : Type 0 where
  pub state_in : r.protocolstate ≤ 43
  pub checksum_in : r.protocolchecksum < 256
  pub serial_ring : IsRing maxbuffer r.serial
  pub cells_sized : length r.payload.cells ≡ max_bufferdata
  pub counted : 1 ≤ r.protocolstate → r.payload.count ≡ r.protocolstate - 11
  pub written : 1 ≤ r.protocolstate → r.payload.inp ≡ r.protocolstate - 11
  pub unread : 1 ≤ r.protocolstate → r.payload.out ≡ 0

module _ (m : Moment) (cal : Calendar) (stack : Stack) where
  pub frame_complete-Kept : (r : Radio) → Kept r (frame_complete m cal stack r)
  unfolding frame_complete send_ack_sensor
  frame_complete-Kept r = by_search (find_devices_from_add 0 r.device_number r.device r.devices)
    where
      ready : Radio
      ready = record r { protocolready = 1 }

      found :
          (i : ℕ) (acked : Radio)
          → Kept r acked
          → Kept r (check_sensor_thresholds m cal i (parser_data m cal i stack acked))
      found i acked k =
          let parsed = parser_data m cal i stack acked in
          Kept-trans r acked _ k (
            Kept-trans acked parsed _ (parser_data-Kept m cal i stack acked)
              (check_sensor_thresholds-Kept m cal i parsed))

      by_search :
          (o : Option ℕ)
          → Kept r (elim o [
            | none ↦
                send_ack_sensor m r.device 10 20
                  (record ready { shown = r.shown ++ (unknown r.device ∷ []) })
            | some i ↦
                let d = device_at r i in
                let acked = send_ack_sensor m d.add d.sampleperiod d.radioperiod ready in
                let checked = check_sensor_thresholds m cal i (parser_data m cal i stack acked) in
                let seen = record checked { shown = checked.shown ++ (received i ∷ []) } in
                store_device i
                  (record (device_at seen i) { lastalarm = m.time; flagalalarmlive = 0 })
                  seen
          ])
      by_search none = record { serial = refl; cells = refl }
      by_search (some i) =
          let d = device_at r i in
          let acked = send_ack_sensor m d.add d.sampleperiod d.radioperiod ready in
          let k = found i acked (record { serial = refl; cells = refl }) in
          record { serial = k.serial; cells = k.cells }

  on_state-start :
      (x : ℕ) (r : Radio)
      → r.protocolstate ≡ 0
      → on_state m cal stack x r ≡ (
          if x == b':'
          then record r {
            protocolstate = r.protocolstate + 1;
            protocolchecksum = 0;
            protocolready = 0;
            payload = record { cells = r.payload.cells; count = 0; inp = 0; out = 0 };
          }
          else r)
  unfolding on_state
  on_state-start x r e = ground arith

  on_state-header :
      (x : ℕ) (r : Radio)
      → 1 ≤ r.protocolstate
      → r.protocolstate ≤ 10
      → let r' = on_state m cal stack x r in
        (r'.payload ≡ r.payload)
        × (r'.serial ≡ r.serial)
        × ((r'.protocolstate ≡ r.protocolstate + 1) ⊎ (r'.protocolstate ≡ 0))
  unfolding on_state
  on_state-header x r lo hi = (ground arith, ground arith, ground arith)

  on_state-payload :
      (x : ℕ) (r : Radio)
      → 11 ≤ r.protocolstate
      → r.protocolstate < 43
      → on_state m cal stack x r
        ≡ record r { payload = put max_bufferdata x r.payload; protocolstate = r.protocolstate + 1 }
  unfolding on_state
  on_state-payload x r lo hi = ground arith

  on_state-last :
      (x : ℕ) (r : Radio)
      → r.protocolstate ≡ 43
      → on_state m cal stack x r
        ≡ record (if x == r.protocolchecksum then frame_complete m cal stack r else r) {
          protocolstate = 0;
        }
  unfolding on_state
  on_state-last x r e = ground arith

  -- The part of the invariant that the `switch` keeps; the sum is taken after it.
  pub record Switched (r : Radio) : Type 0 where
    pub state_in : r.protocolstate ≤ 43
    pub serial_ring : IsRing maxbuffer r.serial
    pub cells_sized : length r.payload.cells ≡ max_bufferdata
    pub counted : 1 ≤ r.protocolstate → r.payload.count ≡ r.protocolstate - 11
    pub written : 1 ≤ r.protocolstate → r.payload.inp ≡ r.protocolstate - 11
    pub unread : 1 ≤ r.protocolstate → r.payload.out ≡ 0

  pub start-Switched :
      (x : ℕ) (r : Radio) → IsReceiver r → r.protocolstate ≡ 0 → Switched (on_state m cal stack x r)
  start-Switched x r v e = rw (on_state-start x r e) (ground arith)

  pub header-Switched :
      (x : ℕ) (r : Radio)
      → IsReceiver r
      → 1 ≤ r.protocolstate
      → r.protocolstate ≤ 10
      → Switched (on_state m cal stack x r)
  header-Switched x r v lo hi =
      let h = on_state-header x r lo hi in
      record {
        state_in = ground (arith, h);
        serial_ring = rw (h.1) v.serial_ring;
        cells_sized = rw (h.0) v.cells_sized;
        counted = ground (arith, h);
        written = ground (arith, h);
        unread = ground (arith, h);
      }

  pub payload-Switched :
      (x : ℕ) (r : Radio)
      → IsReceiver r
      → 11 ≤ r.protocolstate
      → r.protocolstate < 43
      → Switched (on_state m cal stack x r)
  unfolding put
  payload-Switched x r v lo hi =
      rw (on_state-payload x r lo hi) (ground (arith, length-set r.payload.cells r.payload.inp x))

  pub last-Switched :
      (x : ℕ) (r : Radio)
      → IsReceiver r
      → r.protocolstate ≡ 43
      → Switched (on_state m cal stack x r)
  last-Switched x r v e = rw (on_state-last x r e) (ground (arith, frame_complete-Kept r))
