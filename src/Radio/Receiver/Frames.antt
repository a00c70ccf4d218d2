-- ===== src/Radio/Receiver/Frames.antt =====
-- What the state machine does with a whole frame, and that it reads the frames that the unit
-- itself sends.
use ri_mms_linux.Prelude.{ℕ, suc, ◌+◌, ◌^◌, ◌≤◌, ◌<◌, ◌≡◌, refl, ap, sym, ◌∙◌}
use ri_mms_linux.Prelude.{
  List, [], ◌∷◌, ◌++◌, Bool, true, false, arith, length, ◌==◌, ==_self, if◌then◌else◌,
}
use ri_mms_linux.Prelude.Words.{byte, u8}
use ri_mms_linux.Ring.{Ring, put}
use ri_mms_linux.Log.Stamp.{Calendar}
use ri_mms_linux.Radio.State.{Radio, Moment, set_low, set_high}
use ri_mms_linux.Radio.Ack.{checksum_from, ack_header}
use ri_mms_linux.Radio.Payload.{Stack, max_bufferdata}
use ri_mms_linux.Radio.Receiver.{frame_complete, on_byte}

-- The payload buffer after `bs` have been put into it.
abbrev pub fill : List ℕ → Ring → Ring
fill [] p = p
fill (x ∷ xs) p = fill xs (put max_bufferdata x p)

abbrev pub emptied : Ring → Ring
emptied p = record { cells = p.cells; count = 0; inp = 0; out = 0 }

-- All of a frame but its last byte has been read: the repeaters and the sensor are those of the
-- frame, and the payload buffer holds its 32 bytes.
abbrev pub frame_read : ℕ → ℕ → ℕ → ℕ → List ℕ → Radio → Radio
frame_read third second first sensor bs r = record r {
  protocolstate = 43;
  protocolchecksum = checksum_from 0 (ack_header r.gw third second first sensor ++ bs);
  protocolready = 0;
  payload = fill bs (emptied r.payload);
  rp3 = third;
  rp2 = second;
  rp1 = first;
  device = sensor;
}

module _ (m : Moment) (cal : Calendar) (stack : Stack) where
  -- The bytes of a list, one after the other.
  abbrev pub run : List ℕ → Radio → Radio
  run [] r = r
  run (x ∷ xs) r = run xs (on_byte m cal stack x r)

  run-append : (xs ys : List ℕ) (r : Radio) → run (xs ++ ys) r ≡ run ys (run xs r)
  run-append [] ys r = refl
  run-append (x ∷ xs) ys r = run-append xs ys (on_byte m cal stack x r)

  -- A word comes back from its two bytes.
  word_of_bytes : (w v : ℕ) → v < 2 ^ 16 → set_high (set_low w (byte v 0)) (byte v 1) ≡ v
  word_of_bytes w v h = omega arith

  -- The state before the payload of a frame from `sensor`, sent along the given repeaters.
  abbrev opened : ℕ → ℕ → ℕ → ℕ → Radio → Radio
  opened third second first sensor r = record r {
    protocolstate = 11;
    protocolchecksum = checksum_from 0 (ack_header r.gw third second first sensor);
    protocolready = 0;
    payload = emptied r.payload;
    rp3 = third;
    rp2 = second;
    rp1 = first;
    device = sensor;
  }

  -- The colon, whatever was received before.
  on_colon :
      (r : Radio)
      → on_byte m cal stack b':' (record r { protocolstate = 0 }) ≡ record r {
        protocolstate = 1;
        protocolchecksum = checksum_from 0 (b':' ∷ []);
        protocolready = 0;
        payload = emptied r.payload;
      }
  unfolding on_byte checksum_from
  on_colon r = refl

  -- A byte of the gateway's address, where it is the expected one.
  on_gateway_low :
      (r : Radio)
      → on_byte m cal stack (byte r.gw 0) (record r { protocolstate = 1 })
        ≡ record r { protocolstate = 2; protocolchecksum = u8 (r.protocolchecksum + byte r.gw 0) }
  unfolding on_byte
  on_gateway_low r = rw (==_self (byte r.gw 0), if◌then◌else◌)

  on_gateway_high :
      (r : Radio)
      → on_byte m cal stack (byte r.gw 1) (record r { protocolstate = 2 })
        ≡ record r { protocolstate = 3; protocolchecksum = u8 (r.protocolchecksum + byte r.gw 1) }
  unfolding on_byte
  on_gateway_high r = rw (==_self (byte r.gw 1), if◌then◌else◌)

  -- The four addresses behind the gateway's.
  run-addresses :
      (a b c d e f g h : ℕ) (r : Radio)
      → run (a ∷ b ∷ c ∷ d ∷ e ∷ f ∷ g ∷ h ∷ []) (record r { protocolstate = 3 }) ≡ record r {
        protocolstate = 11;
        protocolchecksum = checksum_from r.protocolchecksum (a ∷ b ∷ c ∷ d ∷ e ∷ f ∷ g ∷ h ∷ []);
        rp3 = set_high (set_low r.rp3 a) b;
        rp2 = set_high (set_low r.rp2 c) d;
        rp1 = set_high (set_low r.rp1 e) f;
        device = set_high (set_low r.device g) h;
      }
  unfolding on_byte checksum_from
  run-addresses a b c d e f g h r = refl

  run-header :
      (third second first sensor : ℕ) (r : Radio)
      → r.protocolstate ≡ 0
      → third < 2 ^ 16
      → second < 2 ^ 16
      → first < 2 ^ 16
      → sensor < 2 ^ 16
      → run (ack_header r.gw third second first sensor) r ≡ opened third second first sensor r
  unfolding checksum_from
  run-header third second first sensor r s h3 h2 h1 h0 =
      let addresses =
        byte third 0
        ∷ byte third 1
        ∷ byte second 0
        ∷ byte second 1
        ∷ byte first 0
        ∷ byte first 1
        ∷ byte sensor 0
        ∷ byte sensor 1
        ∷ [] in
      let r1 : Radio = record r {
        protocolstate = 1;
        protocolchecksum = checksum_from 0 (b':' ∷ []);
        protocolready = 0;
        payload = emptied r.payload;
      } in
      let r2 : Radio = record r1 {
        protocolstate = 2;
        protocolchecksum = u8 (r1.protocolchecksum + byte r.gw 0);
      } in
      let r3 : Radio = record r2 {
        protocolstate = 3;
        protocolchecksum = u8 (r2.protocolchecksum + byte r.gw 1);
      } in
      ap (run (ack_header r.gw third second first sensor)) (λ j. record r { protocolstate = s j })
      ∙ ap (run (byte r.gw 0 ∷ byte r.gw 1 ∷ addresses)) (on_colon r)
      ∙ ap (run (byte r.gw 1 ∷ addresses)) (on_gateway_low r1)
      ∙ ap (run addresses) (on_gateway_high r2)
      ∙ run-addresses (byte third 0) (byte third 1) (byte second 0) (byte second 1) (byte first 0)
          (byte first 1) (byte sensor 0) (byte sensor 1) r3
      ∙ λ j. record (opened third second first sensor r) {
        rp3 = word_of_bytes r.rp3 third h3 j;
        rp2 = word_of_bytes r.rp2 second h2 j;
        rp1 = word_of_bytes r.rp1 first h1 j;
        device = word_of_bytes r.device sensor h0 j;
      }

  -- A byte of the payload.
  on_payload_byte :
      (x : ℕ) (r : Radio)
      → 11 ≤ r.protocolstate
      → r.protocolstate < 43
      → on_byte m cal stack x r ≡ record r {
        protocolstate = r.protocolstate + 1;
        protocolchecksum = u8 (r.protocolchecksum + x);
        payload = put max_bufferdata x r.payload;
      }
  unfolding on_byte
  on_payload_byte x r lo hi = ground arith

  run-payload :
      (bs : List ℕ) (s : ℕ) (r : Radio)
      → r.protocolstate ≡ s
      → 11 ≤ s
      → s + length bs ≤ 43
      → run bs r ≡ record r {
        protocolstate = s + length bs;
        protocolchecksum = checksum_from r.protocolchecksum bs;
        payload = fill bs r.payload;
      }
  unfolding checksum_from
  run-payload [] s r e lo hi =
      let z : r.protocolstate ≡ s + 0 = omega arith in λ j. record r { protocolstate = z j }
  run-payload (x ∷ bs) s r e lo hi =
      let next : Radio = record r {
        protocolstate = r.protocolstate + 1;
        protocolchecksum = u8 (r.protocolchecksum + x);
        payload = put max_bufferdata x r.payload;
      } in
      let shift : s + 1 + length bs ≡ s + suc (length bs) = omega arith in
      ap (run bs) (on_payload_byte x r (omega arith) (omega arith))
      ∙ run-payload bs (s + 1) next (ap (λ k. k + 1) e) (omega arith) (omega arith)
      ∙ λ j. record next {
        protocolstate = shift j;
        protocolchecksum = checksum_from next.protocolchecksum bs;
        payload = fill bs next.payload;
      }

  -- The state after a frame's last byte `c`, from the state before it.
  abbrev pub accepted : ℕ → Radio → Radio
  accepted c r =
      let done = frame_complete m cal stack r in
      record done { protocolstate = 0; protocolchecksum = u8 (done.protocolchecksum + c) }

  abbrev pub rejected : ℕ → Radio → Radio
  rejected c r = record r { protocolstate = 0; protocolchecksum = u8 (r.protocolchecksum + c) }

  on_last_byte :
      (c : ℕ) (r : Radio)
      → on_byte m cal stack c (record r { protocolstate = 43 }) ≡ (
          if c == r.protocolchecksum
          then accepted c (record r { protocolstate = 43 })
          else rejected c r)
  unfolding on_byte
  on_last_byte c r = split (c == r.protocolchecksum)
    where
      split :
          (b : Bool)
          → let done =
              record (if b
                then frame_complete m cal stack (record r { protocolstate = 43 })
                else record r { protocolstate = 43 }) { protocolstate = 0 } in
            record done { protocolchecksum = u8 (done.protocolchecksum + c) }
            ≡ (if b then accepted c (record r { protocolstate = 43 }) else rejected c r)
      split true = refl
      split false = refl

  checksum_from-append :
      (acc : ℕ) (xs ys : List ℕ)
      → checksum_from acc (xs ++ ys) ≡ checksum_from (checksum_from acc xs) ys
  unfolding checksum_from
  checksum_from-append acc [] ys = refl
  checksum_from-append acc (x ∷ xs) ys = checksum_from-append (u8 (acc + x)) xs ys

  -- In state 0, the 44 bytes of a frame for this gateway put the addresses and the 32 payload bytes
  -- in place; the frame is then acted on if its last byte is the sum of the 43 before it, and dropped
  -- if not. Either way the machine is back in state 0.
  pub run-frame :
      (third second first sensor c : ℕ) (bs : List ℕ) (r : Radio)
      → r.protocolstate ≡ 0
      → third < 2 ^ 16
      → second < 2 ^ 16
      → first < 2 ^ 16
      → sensor < 2 ^ 16
      → length bs ≡ 32
      → let header = ack_header r.gw third second first sensor in
        run (header ++ (bs ++ (c ∷ []))) r ≡ (
          if c == checksum_from 0 (header ++ bs)
          then accepted c (frame_read third second first sensor bs r)
          else rejected c (frame_read third second first sensor bs r))
  run-frame third second first sensor c bs r s h3 h2 h1 h0 len =
      let header = ack_header r.gw third second first sensor in
      let r1 = opened third second first sensor r in
      let full : 11 + length bs ≡ 43 = omega arith in
      run-append header (bs ++ (c ∷ [])) r
      ∙ ap (run (bs ++ (c ∷ []))) (run-header third second first sensor r s h3 h2 h1 h0)
      ∙ run-append bs (c ∷ []) r1
      ∙ ap (run (c ∷ [])) (run-payload bs 11 r1 refl (omega arith) (omega arith))
      ∙ ap (run (c ∷ [])) (λ j. record (frame_read third second first sensor bs r) {
        protocolstate = full j;
        protocolchecksum = sym (checksum_from-append 0 header bs) j;
      })
      ∙ on_last_byte c (frame_read third second first sensor bs r)
