-- ===== src/Radio/Receiver/Acks.antt =====
-- The frame that `SendAckSensor` sends is one that `Parser` takes: a node with the address that it
-- is for reads it whole, with the route reversed. And what the payload buffer holds of a frame.
use ri_mms_linux.Prelude.{ℕ, ◌+◌, ◌^◌, ◌≤◌, ◌<◌, ◌≡◌, refl, ap, sym, ◌∙◌, inl}
use ri_mms_linux.Prelude.{List, [], ◌∷◌, ◌++◌, append_assoc, append-nil, arith, length}
use ri_mms_linux.Prelude.{length-append, ==_self, if◌then◌else◌}
use ri_mms_linux.Prelude.Words.{u16}
use ri_mms_linux.Prelude.Int.{pattern32}
use ri_mms_linux.Ring.{Ring, put}
use ri_mms_linux.Ring.Queue.{IsRing, held, put-IsRing, held-put, length-held}
use ri_mms_linux.Log.Stamp.{Calendar}
use ri_mms_linux.Radio.State.{Radio, Moment}
use ri_mms_linux.Radio.Ack.{checksum_from, ack_header, ack_payload, ack_frame}
use ri_mms_linux.Radio.Payload.{Stack, max_bufferdata}
use ri_mms_linux.Radio.Receiver.Frames.{fill, emptied, run, frame_read, accepted, run-frame}

-- The frame for `add` sent by a unit in state `u` is accepted by a node in state 0 whose own address
-- is `add`. The node sees the unit's address as the sender, and the repeaters in reverse.
pub run-ack_frame :
    (m m' : Moment) (cal : Calendar) (stack : Stack) (add sampleperiod radioperiod : ℕ)
    (u r : Radio)
    → r.protocolstate ≡ 0
    → r.gw ≡ u16 add
    → u.rp1 < 2 ^ 16
    → u.rp2 < 2 ^ 16
    → u.rp3 < 2 ^ 16
    → u.gw < 2 ^ 16
    → let bs = ack_payload (pattern32 m.time) (u16 sampleperiod) (u16 radioperiod) in
      let sum = checksum_from 0 (ack_header r.gw u.rp1 u.rp2 u.rp3 u.gw ++ bs) in
      run m' cal stack (ack_frame m add sampleperiod radioperiod u) r
      ≡ accepted m' cal stack sum (frame_read u.rp1 u.rp2 u.rp3 u.gw bs r)
unfolding ack_frame
run-ack_frame m m' cal stack add sampleperiod radioperiod u r s g h1 h2 h3 h0 =
    let bs = ack_payload (pattern32 m.time) (u16 sampleperiod) (u16 radioperiod) in
    let header = λ (gw : ℕ). ack_header gw u.rp1 u.rp2 u.rp3 u.gw in
    let frame = λ (gw : ℕ). (header gw ++ bs) ++ (checksum_from 0 (header gw ++ bs) ∷ []) in
    let sum = checksum_from 0 (header r.gw ++ bs) in
    ap (λ gw. run m' cal stack (frame gw) r) (sym g)
    ∙ ap (λ xs. run m' cal stack xs r) (append_assoc (header r.gw) bs (sum ∷ []))
    ∙ run-frame m' cal stack u.rp1 u.rp2 u.rp3 u.gw sum bs r s h1 h2 h3 h0 refl
    ∙ rw (==_self sum, if◌then◌else◌)

held-fill :
    (bs : List ℕ) (p : Ring)
    → IsRing max_bufferdata p
    → p.count + length bs ≤ max_bufferdata
    → held max_bufferdata (fill bs p) ≡ held max_bufferdata p ++ bs
held-fill [] p v h = rw append-nil
held-fill (x ∷ bs) p v h =
    held-fill bs (put max_bufferdata x p) (put-IsRing max_bufferdata x p v) (omega (arith, counted))
    ∙ ap (λ ys. ys ++ bs) grown
    ∙ append_assoc (held max_bufferdata p) (x ∷ []) bs
  where
    grown : held max_bufferdata (put max_bufferdata x p) ≡ held max_bufferdata p ++ (x ∷ [])
    grown = held-put max_bufferdata x p v (omega arith)

    counted : (put max_bufferdata x p).count ≡ p.count + 1
    counted =
        sym (length-held max_bufferdata (put max_bufferdata x p))
        ∙ ap length grown
        ∙ length-append (held max_bufferdata p) (x ∷ [])
        ∙ ap (λ n. n + 1) (length-held max_bufferdata p)

-- After a frame has been read, the payload buffer holds the frame's payload, byte for byte.
pub held-frame_read :
    (third second first sensor : ℕ) (bs : List ℕ) (r : Radio)
    → length r.payload.cells ≡ max_bufferdata
    → length bs ≡ 32
    → held max_bufferdata (frame_read third second first sensor bs r).payload ≡ bs
held-frame_read third second first sensor bs r c h =
    held-fill bs (emptied r.payload) v (omega arith)
  where
    v : IsRing max_bufferdata (emptied r.payload)
    v = record {
      sized = c;
      inp_in = omega arith;
      out_in = omega arith;
      count_in = omega arith;
      placed = inl refl;
    }
