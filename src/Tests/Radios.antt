-- ===== src/Tests/Radios.antt =====
-- The receiver, the payload, the acknowledgement, the thresholds and the ring at concrete inputs.
use ri_mms_linux.Prelude.{
  ℕ, ◌≡◌, refl, arith, List, [], ◌∷◌, ◌++◌, ◌-◌, take, replicate, set, ◌==◌, if◌then◌else◌,
}
use ri_mms_linux.Prelude.Int.{pos, signed16, pattern32}
use ri_mms_linux.Radio.State.{device_at}
use ri_mms_linux.Radio.Ack.{ack_header, ack_payload, ack_frame, checksum_from}
use ri_mms_linux.Radio.Payload.{parser_data, fetch_quad, fetch, get_buffer_data}
use ri_mms_linux.Radio.Payload.Duplicates.{SameRecords, parser_data_duplicate}
use ri_mms_linux.Radio.Thresholds.{check_sensor_thresholds}
use ri_mms_linux.Radio.Thresholds.Sections.{alarms_between}
use ri_mms_linux.Radio.Thresholds.Outcomes.{judged, log_alarms, forced}
use ri_mms_linux.Radio.Thresholds.Laws.{check_sensor_thresholds_lem}
use ri_mms_linux.Radio.Receiver.{maxbuffer, load_data_rf, on_byte, watch_alive, parser}
use ri_mms_linux.Radio.Receiver.Drained.{acted_on}
use ri_mms_linux.Ring.Queue.{held}
use ri_mms_linux.Radio.Receiver.Frames.{run, accepted, rejected, frame_read, run-frame}
use ri_mms_linux.Radio.Receiver.Acks.{run-ack_frame}
use ri_mms_linux.Radio.Receiver.Switch.{IsReceiver}
use ri_mms_linux.Radio.Receiver.Invariant.{on_byte-IsReceiver, parser_total}
use ri_mms_linux.Tests.Fixtures.{moment, calendar, stack, radio, loaded, radio-IsReceiver}

abbrev zeros : List ℕ
zeros = replicate 32 0

-- A frame from sensor 513 by way of repeater 9, its last byte wrong.
run-frame_example :
    run moment calendar stack (ack_header 1 0 0 9 513 ++ (zeros ++ (0 ∷ []))) radio ≡ (
      if 0 == checksum_from 0 (ack_header 1 0 0 9 513 ++ zeros)
      then accepted moment calendar stack 0 (frame_read 0 0 9 513 zeros radio)
      else rejected moment calendar stack 0 (frame_read 0 0 9 513 zeros radio))
run-frame_example =
    run-frame moment calendar stack 0 0 9 513 0 zeros radio refl (omega arith) (omega arith)
      (omega arith) (omega arith) refl

on_byte-IsReceiver_example : IsReceiver (on_byte moment calendar stack 1 radio)
on_byte-IsReceiver_example = on_byte-IsReceiver moment calendar stack 1 radio radio-IsReceiver

parser_total_example :
    IsReceiver (parser moment calendar stack (1 ∷ 0 ∷ 77 ∷ []) radio)
    × ((parser moment calendar stack (1 ∷ 0 ∷ 77 ∷ []) radio).serial.count ≡ 0)
    × (parser moment calendar stack (1 ∷ 0 ∷ 77 ∷ []) radio
        ≡ watch_alive moment calendar stack (
            acted_on moment calendar stack
              (held maxbuffer radio.serial ++ take (1024 - radio.serial.count) (1 ∷ 0 ∷ 77 ∷ []))
              (record radio { serial = load_data_rf (1 ∷ 0 ∷ 77 ∷ []) radio.serial })))
parser_total_example = parser_total moment calendar stack (1 ∷ 0 ∷ 77 ∷ []) radio radio-IsReceiver

run-ack_frame_example :
    run moment calendar stack (ack_frame moment 1 10 60 (record radio { gw = 99 })) radio
    ≡ accepted moment calendar stack
        (checksum_from 0 (ack_header 1 0 0 0 99 ++ ack_payload (pattern32 (pos 1308141296)) 10 60))
        (frame_read 0 0 0 99 (ack_payload (pattern32 (pos 1308141296)) 10 60) radio)
run-ack_frame_example =
    run-ack_frame moment moment calendar stack 1 10 60 (record radio { gw = 99 }) radio refl refl
      (omega arith) (omega arith) (omega arith) (omega arith)

parser_data_duplicate_example : SameRecords 1 loaded (parser_data moment calendar 1 stack loaded)
unfolding fetch_quad fetch get_buffer_data
parser_data_duplicate_example =
    parser_data_duplicate moment calendar 1 stack loaded (omega arith) refl

check_sensor_thresholds_lem_example :
    let d = device_at radio 0 in
    let r' = check_sensor_thresholds moment calendar 0 radio in
    let alarms = alarms_between d (judged d) in
    (r'.devices ≡ set radio.devices 0 (judged d))
    × (r'.files ≡ log_alarms moment calendar (signed16 d.id) alarms radio.files)
    × (r'.lasttransferperiod ≡ forced moment alarms radio)
check_sensor_thresholds_lem_example =
    check_sensor_thresholds_lem moment calendar 0 radio (omega arith)
