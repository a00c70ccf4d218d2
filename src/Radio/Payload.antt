-- ===== src/Radio/Payload.antt =====
-- `GetBufferData` and `ParserData` of sw/protocolrimms.c: the 32 bytes of a frame's payload read as
-- a type, a time stamp, a period, a mask and six samples, which are stored and recorded.
pub mod Reads
pub mod Duplicates
use ri_mms_linux.Prelude.{ℕ, ◌^◌, zero, suc, ◌+◌, ◌-◌, ◌*◌, ◌/◌, Bool, ◌&&◌, ◌||◌, not}
use ri_mms_linux.Prelude.{List, Option, none, some, get_or, ltb, ◌==◌, if◌then◌else◌}
use ri_mms_linux.Prelude.Words.{u16}
use ri_mms_linux.Prelude.Int.{ℤ, pos, signed16, signed32, ◌+ℤ◌, ◌*ℤ◌, leb_ℤ, ◌==ℤ◌}
use ri_mms_linux.Ring.{Ring}
use ri_mms_linux.Log.{Files}
use ri_mms_linux.Log.Stamp.{Calendar, tag_sor}
use ri_mms_linux.Log.Tags.{log, tag_currentsensor, tag_batteria, tag_temperatura, tag_umidita}
use ri_mms_linux.Radio.State.{Radio, Moment, device_at, store_device}
use ri_mms_linux.Radio.Sth11.{calc_sth11}

abbrev pub max_bufferdata : ℕ
max_bufferdata = 80

-- `GetBufferData`; its index test is `>` where the one of `Parser` is `>=`. `none` is -1.
unfoldable pub get_buffer_data : Ring → Option ℕ × Ring
get_buffer_data p = if p.count == 0 then (none, record p { out = 0 }) else (
  some (get_or p.cells p.out 0),
  record p { out = if ltb max_bufferdata (p.out + 1) then 0 else p.out + 1; count = p.count - 1 },
)

-- A read whose result nobody checks: on failure the variable keeps its value.
unfoldable pub fetch : ℕ → Ring → ℕ × Ring
fetch old p = let (got, p') = get_buffer_data p in (elim got [ none ↦ old | some b ↦ b ], p')

-- The bytes of a DWORD_D.
pub record Quad : Type 0 where
  pub b0 : ℕ
  pub b1 : ℕ
  pub b2 : ℕ
  pub b3 : ℕ

abbrev pub quad_value : Quad → ℤ
quad_value q = signed32 (q.b0 + q.b1 * 2 ^ 8 + q.b2 * 2 ^ 16 + q.b3 * 2 ^ 24)

unfoldable pub fetch_quad : Quad → Ring → Quad × Ring
fetch_quad old p =
    let (b0, p1) = fetch old.b0 p in
    let (b1, p2) = fetch old.b1 p1 in
    let (b2, p3) = fetch old.b2 p2 in
    let (b3, p4) = fetch old.b3 p3 in (record { b0 = b0; b1 = b1; b2 = b2; b3 = b3 }, p4)

-- What the uninitialised locals of `ParserData` hold on entry.
pub record Stack : Type 0 where
  pub timestamp : Quad
  pub sample : Quad
  pub period_low : ℕ
  pub period_high : ℕ

pub data Mask : Type 0 where
  all_measures temperature_only unknown_mask : Mask

-- `if(data=0x07) … else if(data=0x03) … else …`: the tests are assignments, so each tests the
-- number that it assigns.
unfoldable pub mask_branch : ℕ → Mask
mask_branch mask =
    if not (◌==◌ 0x07 0)
    then all_measures
    else if not (◌==◌ 0x03 0)
    then temperature_only
    else unknown_mask

-- `if(batteria>0){ batteria*=100; batteria/=255; }`
abbrev pub battery_percent : ℕ → ℕ
battery_percent b = if ltb 0 b then b * 100 / 255 else b

module _ (m : Moment) (cal : Calendar) (posmem : ℕ) where
  -- The records of one sample: the sensor, then each measure behind its own time stamp.
  unfoldable pub record_sample : ℤ → ℤ → Radio → Files
  record_sample id time r =
      let sensor = log (tag_currentsensor id) (log (tag_sor cal m.time (pos 0)) r.files) in
      let battery = log (tag_batteria r.batteria) (log (tag_sor cal m.time time) sensor) in
      let degrees = log (tag_temperatura r.temperature) (log (tag_sor cal m.time time) battery) in
      log (tag_umidita r.umidita) (log (tag_sor cal m.time time) degrees)

  -- `if(sample.Val){ … }`, the sample `i` of the frame with time stamp `stamp`.
  unfoldable pub keep_sample : ℤ → ℤ → ℕ → Quad → Radio → Radio
  keep_sample stamp period i q r =
      let d = device_at r posmem in
      let touched = store_device posmem (record d { lastcontact = m.time }) r in
      let time = stamp +ℤ pos i *ℤ period in
      if quad_value q ==ℤ pos 0
      then r
      else if leb_ℤ stamp (pos 1000)
      then r
      else if d.lastidradio ==ℤ stamp
      then touched
      else record (store_device posmem
          (record d {
            lastcontact = m.time;
            batteria = r.batteria;
            temperature = r.temperature;
            umidita = r.umidita;
          })
          r) { files = record_sample (signed16 d.id) time r }

  -- The measures of a sample, left in the globals.
  unfoldable pub convert : Mask → Quad → Radio → Radio
  convert all_measures q r =
      let raw = pos (q.b0 + q.b1 * 256) in
      let raw_humidity = pos q.b2 in
      let (degrees, humidity) = calc_sth11 raw raw_humidity in
      let compensate = not (raw_humidity ==ℤ pos 0) && not (raw ==ℤ pos 0) in
      record r {
        temperature = if compensate then degrees else raw;
        umidita = if compensate then humidity else raw_humidity;
        batteria = pos (battery_percent q.b3);
      }
  convert temperature_only q r = record r {
    temperature = pos (q.b0 + q.b1 * 256);
    umidita = pos 0;
    batteria = pos (battery_percent q.b3);
  }
  convert unknown_mask q r = r

  -- One round of the loop, for the bytes `q` just read.
  unfoldable pub take_sample : ℤ → ℤ → ℕ → ℕ → Quad → Radio → Radio
  take_sample stamp period mask i q r =
      keep_sample stamp period i q (convert (mask_branch mask) q r)

  -- `n` rounds from `i` on. The variable `sample` keeps its bytes from round to round.
  unfoldable pub sample_rounds : ℕ → ℕ → ℤ → ℤ → ℕ → Quad → Radio → Radio
  sample_rounds zero i stamp period mask old r = r
  sample_rounds (suc n) i stamp period mask old r =
      let (q, p) = fetch_quad old r.payload in
      sample_rounds n (i + 1) stamp period mask q
        (take_sample stamp period mask i q (record r { payload = p }))

  -- The frame of type 1, behind its type byte.
  unfoldable pub parse_measures : Stack → Radio → Radio
  parse_measures stack r =
      let (stamp_bytes, p1) = fetch_quad stack.timestamp r.payload in
      let (low, p2) = fetch stack.period_low p1 in
      let (high, p3) = fetch stack.period_high p2 in
      let (mask, p4) = fetch 0x01 p3 in
      let stamp = quad_value stamp_bytes in
      let period = signed16 (u16 ((low + high * 256) * 10)) in
      let done = sample_rounds 6 0 stamp period mask stack.sample (record r { payload = p4 }) in
      store_device posmem (record (device_at done posmem) { lastidradio = stamp }) done

  unfoldable pub parser_data : Stack → Radio → Radio
  parser_data stack r =
      let (got, p) = get_buffer_data r.payload in
      elim got [
        | none ↦ record r { payload = p }
        | some type ↦
            if type == 0x01
            then parse_measures stack (record r { payload = p })
            else record r { payload = p }
      ]
