-- ===== src/Radio/Receiver/Invariant.antt =====
-- What holds of the receiver between two bytes, and that `Parser` empties the serial buffer.
use ri_mms_linux.Prelude.{ℕ, zero, suc, ◌-◌, ◌++◌, take, ◌≤◌, ◌≡◌, refl, ap, ◌∙◌, arith}
use ri_mms_linux.Prelude.{List, Option, none, some}
use ri_mms_linux.Ring.{Ring, get}
use ri_mms_linux.Ring.Queue.{held, get-IsRing}
use ri_mms_linux.Log.Stamp.{Calendar}
use ri_mms_linux.Radio.State.{Radio, Moment, force_upload}
use ri_mms_linux.Radio.Payload.{Stack}
use ri_mms_linux.Radio.Receiver.{
  maxbuffer, load_data_rf, on_state, on_byte, drain, watch_alive, parser,
}
use ri_mms_linux.Radio.Receiver.Drained.{
  load_data_rf-IsRing, held-load_data_rf, serial-on_byte, count-get, acted_on, drain-acted_on,
}
use ri_mms_linux.Radio.Receiver.Switch.{
  IsReceiver, Switched, start-Switched, header-Switched, payload-Switched, last-Switched,
}
use native.Mathlib.Decide.{dec_lt}

module _ (m : Moment) (cal : Calendar) (stack : Stack) where
  on_state-Switched :
      (x : ℕ) (r : Radio) → IsReceiver r → Switched m cal stack (on_state m cal stack x r)
  on_state-Switched x r v = elim (dec_lt r.protocolstate 1) [
    | yes p ↦ start-Switched m cal stack x r v (omega arith)
    | no p ↦ elim (dec_lt r.protocolstate 11) [
      | yes q ↦ header-Switched m cal stack x r v (omega arith) (omega arith)
      | no q ↦ elim (dec_lt r.protocolstate 43) [
        | yes l ↦ payload-Switched m cal stack x r v (omega arith) l
        | no l ↦ last-Switched m cal stack x r v (omega (arith, v.state_in))
      ]
    ]
  ]

  -- Every byte, in every state, keeps the machine in one of its 44 states, its sum in a byte, both
  -- buffers in order, and within a frame as many bytes in the payload buffer as have come.
  pub on_byte-IsReceiver : (x : ℕ) (r : Radio) → IsReceiver r → IsReceiver (on_byte m cal stack x r)
  unfolding on_byte
  on_byte-IsReceiver x r v =
      let s = on_state-Switched x r v in
      record {
        state_in = s.state_in;
        checksum_in = omega arith;
        serial_ring = s.serial_ring;
        cells_sized = s.cells_sized;
        counted = s.counted;
        written = s.written;
        unread = s.unread;
      }

  -- The loop of `Parser` ends with the serial buffer empty, given a round for each byte in it.
  drain_total :
      (fuel : ℕ) (r : Radio)
      → IsReceiver r
      → r.serial.count ≤ fuel
      → IsReceiver (drain m cal stack fuel r) × ((drain m cal stack fuel r).serial.count ≡ 0)
  unfolding drain
  drain_total zero r v h = (v, omega arith)
  drain_total (suc fuel) r v h = by_read (drain_total fuel) (get maxbuffer r.serial) refl
    where
      left : Option (ℕ × Ring) → Radio
      left o = elim o [
        | none ↦ r
        | some (x, serial) ↦
            drain m cal stack fuel (on_byte m cal stack x (record r { serial = serial }))
      ]

      by_read :
          ((s : Radio)
            → IsReceiver s
            → s.serial.count ≤ fuel
            → IsReceiver (drain m cal stack fuel s) × ((drain m cal stack fuel s).serial.count ≡ 0))
          → (o : Option (ℕ × Ring)) → get maxbuffer r.serial ≡ o
          → IsReceiver (left o) × ((left o).serial.count ≡ 0)
      by_read rec none e = (v, unfold get in ground arith)
      by_read rec (some (x, t)) e =
          let r1 : Radio = record r { serial = t } in
          let v1 : IsReceiver r1 = record {
            state_in = v.state_in;
            checksum_in = v.checksum_in;
            serial_ring = get-IsRing maxbuffer x r.serial t v.serial_ring e;
            cells_sized = v.cells_sized;
            counted = v.counted;
            written = v.written;
            unread = v.unread;
          } in
          let less : (on_byte m cal stack x r1).serial.count ≡ t.count =
            ap (λ (q : Ring). q.count) (serial-on_byte m cal stack x r1) in
          rec (on_byte m cal stack x r1) (on_byte-IsReceiver x r1 v1)
            (omega (arith, count-get m cal stack r.serial t x e))

  watch_alive-IsReceiver : (r : Radio) → IsReceiver r → IsReceiver (watch_alive m cal stack r)
  unfolding watch_alive force_upload
  watch_alive-IsReceiver r v = ground arith

  serial-watch_alive : (r : Radio) → (watch_alive m cal stack r).serial ≡ r.serial
  unfolding watch_alive force_upload
  serial-watch_alive r = ground arith

  -- `Parser` takes whatever the port delivers, from any well formed receiver: it comes back, the
  -- serial buffer empty and the receiver well formed, with the rounds of its loop done, and then
  -- the watch over the sensors, for exactly the bytes that the buffer held and those delivered for
  -- which it had room, up to 1024 in all, each once and in their order.
  pub parser_total :
      (bytes : List ℕ) (r : Radio)
      → IsReceiver r
      → IsReceiver (parser m cal stack bytes r)
        × ((parser m cal stack bytes r).serial.count ≡ 0)
        × (parser m cal stack bytes r
            ≡ watch_alive m cal stack (
                acted_on m cal stack
                  (held maxbuffer r.serial ++ take (1024 - r.serial.count) bytes)
                  (record r { serial = load_data_rf bytes r.serial })))
  unfolding parser
  parser_total bytes r v =
      let r1 : Radio = record r { serial = load_data_rf bytes r.serial } in
      let ring = load_data_rf-IsRing bytes r.serial v.serial_ring in
      let v1 : IsReceiver r1 = record {
        state_in = v.state_in;
        checksum_in = v.checksum_in;
        serial_ring = ring;
        cells_sized = v.cells_sized;
        counted = v.counted;
        written = v.written;
        unread = v.unread;
      } in
      let done = drain_total maxbuffer r1 v1 ring.count_in in
      let s = drain m cal stack maxbuffer r1 in
      (
        watch_alive-IsReceiver s done.0,
        ap (λ (q : Ring). q.count) (serial-watch_alive s) ∙ done.1,
        ap (watch_alive m cal stack) (
            drain-acted_on m cal stack maxbuffer r1 ring.count_in
            ∙ ap (λ held_bytes. acted_on m cal stack held_bytes r1)
                (held-load_data_rf bytes r.serial v.serial_ring)),
      )
