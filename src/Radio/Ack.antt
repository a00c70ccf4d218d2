-- ===== src/Radio/Ack.antt =====
-- `SendAckSensor` of sw/protocolrimms.c: the frame that answers a sensor, with the unit's time and
-- the periods the sensor should keep, sent back along the three repeaters of the request.
use ri_mms_linux.Prelude.{ℕ, ◌+◌, List, [], ◌∷◌, ◌++◌, replicate}
use ri_mms_linux.Prelude.Words.{byte, u8, u16}
use ri_mms_linux.Prelude.Int.{pattern32}
use ri_mms_linux.Radio.State.{Radio, Moment}

-- `for(x=0;x<i;x++) Chksum+=buffer[x];`, an `unsigned char`.
unfoldable pub checksum_from : ℕ → List ℕ → ℕ
checksum_from acc [] = acc
checksum_from acc (x ∷ xs) = checksum_from (u8 (acc + x)) xs

-- The 43 bytes before the checksum. `data` is what stands behind the addresses and the type.
abbrev pub ack_header : ℕ → ℕ → ℕ → ℕ → ℕ → List ℕ
ack_header add rp1 rp2 rp3 gw =
    b':'
    ∷ byte add 0
    ∷ byte add 1
    ∷ byte rp1 0
    ∷ byte rp1 1
    ∷ byte rp2 0
    ∷ byte rp2 1
    ∷ byte rp3 0
    ∷ byte rp3 1
    ∷ byte gw 0
    ∷ byte gw 1
    ∷ []

abbrev pub ack_payload : ℕ → ℕ → ℕ → List ℕ
ack_payload timestamp sample radio =
    0x02
    ∷ byte timestamp 0
    ∷ byte timestamp 1
    ∷ byte timestamp 2
    ∷ byte timestamp 3
    ∷ byte sample 0
    ∷ byte sample 1
    ∷ byte radio 0
    ∷ byte radio 1
    ∷ replicate 23 0x00

-- The whole frame for the state `r` at the moment `m`.
unfoldable pub ack_frame : Moment → ℕ → ℕ → ℕ → Radio → List ℕ
ack_frame m add sampleperiod radioperiod r =
    let header = ack_header (u16 add) r.rp1 r.rp2 r.rp3 r.gw in
    let body = header ++ ack_payload (pattern32 m.time) (u16 sampleperiod) (u16 radioperiod) in
    body ++ (checksum_from 0 body ∷ [])

unfoldable pub send_ack_sensor : Moment → ℕ → ℕ → ℕ → Radio → Radio
send_ack_sensor m add sampleperiod radioperiod r = record r {
  sent = r.sent ++ (ack_frame m add sampleperiod radioperiod r ∷ []);
}
