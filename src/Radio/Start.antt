-- ===== src/Radio/Start.antt =====
-- `InitSerial` of sw/protocolrimms.c: the two buffers of the receiver and the serial port.
use ri_mms_linux.Prelude.{
  ℕ, ◌≡◌, refl, arith, Bool, true, false, [], replicate, length-replicate, inl, if◌then◌else◌,
}
use ri_mms_linux.Prelude.Int.{ℤ, pos, negsuc}
use ri_mms_linux.Ring.{Ring}
use ri_mms_linux.Radio.State.{Radio}
use ri_mms_linux.Radio.Payload.{max_bufferdata}
use ri_mms_linux.Radio.Receiver.{maxbuffer}
use ri_mms_linux.Radio.Receiver.Switch.{IsReceiver}

-- An empty ring in the memory that `calloc` gives, if it does.
abbrev pub fresh : ℕ → Bool → Ring
fresh room memory = record {
  cells = if memory then replicate room 0 else [];
  count = 0;
  inp = 0;
  out = 0;
}

-- With whether memory is given for each of the buffers and whether the port can be opened.
unfoldable pub init_serial : Bool → Bool → Bool → Radio → ℤ × Radio
init_serial memory_serial memory_data opens r =
    let serial = record r { serial = fresh maxbuffer memory_serial } in
    let payload = record serial { payload = fresh max_bufferdata memory_data } in
    let reset = record payload { protocolstate = 0; protocolchecksum = 0; protocolready = 0 } in
    if memory_serial
    then (if memory_data
        then (if opens then (pos 0, reset) else (negsuc 0, reset))
        else (negsuc 0, payload))
    else (negsuc 0, serial)

-- When it returns 0 the receiver is well formed, whatever it was before.
pub init_serial-IsReceiver :
    (memory_serial memory_data opens : Bool) (r : Radio)
    → (init_serial memory_serial memory_data opens r).0 ≡ pos 0
    → IsReceiver (init_serial memory_serial memory_data opens r).1
unfolding init_serial
init_serial-IsReceiver false memory_data opens r e = absurd (ground (arith, e))
init_serial-IsReceiver true false opens r e = absurd (ground (arith, e))
init_serial-IsReceiver true true false r e = absurd (ground (arith, e))
init_serial-IsReceiver true true true r e = record {
  state_in = omega arith;
  checksum_in = omega arith;
  serial_ring = record {
    sized = length-replicate {A = ℕ} maxbuffer 0;
    inp_in = omega arith;
    out_in = omega arith;
    count_in = omega arith;
    placed = inl refl;
  };
  cells_sized = length-replicate {A = ℕ} max_bufferdata 0;
  counted = λ h. absurd (omega (arith, h));
  written = λ h. absurd (omega (arith, h));
  unread = λ h. absurd (omega (arith, h));
}
