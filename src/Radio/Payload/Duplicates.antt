-- ===== src/Radio/Payload/Duplicates.antt =====
-- A frame that a sensor sends again, with the time stamp of the last one, is not recorded again.
use ri_mms_linux.Prelude.{ℕ, zero, suc, ◌+◌, ◌*◌, ◌<◌, ◌≡◌, refl, ap, ◌∙◌, arith}
use ri_mms_linux.Prelude.{
  Bool, true, false, Option, none, some, length, get_or, ◌==◌, if◌then◌else◌,
}
use ri_mms_linux.Prelude.{length-set, get_or-set_self}
use ri_mms_linux.Prelude.Words.{u16}
use ri_mms_linux.Prelude.Int.{ℤ, signed16, ==ℤ_iff}
use ri_mms_linux.Ring.{Ring}
use ri_mms_linux.Device.{Device, blank}
use ri_mms_linux.Log.Stamp.{Calendar}
use ri_mms_linux.Radio.State.{Radio, Moment, device_at, store_device}
use ri_mms_linux.Radio.Payload.{
  get_buffer_data, fetch, Quad, fetch_quad, quad_value, Stack, keep_sample, convert, take_sample,
  mask_branch, sample_rounds, parse_measures, parser_data, Mask, all_measures, temperature_only,
  unknown_mask,
}

-- Two states with the same files and, for one sensor, the same readings.
pub record SameRecords (i : ℕ) (r s : Radio) : Type 0 where
  pub files : s.files ≡ r.files
  pub temperature : (device_at s i).temperature ≡ (device_at r i).temperature
  pub umidita : (device_at s i).umidita ≡ (device_at r i).umidita
  pub batteria : (device_at s i).batteria ≡ (device_at r i).batteria

trans_same : (i : ℕ) (r s t : Radio) → SameRecords i r s → SameRecords i s t → SameRecords i r t
trans_same i r s t p q = record {
  files = q.files ∙ p.files;
  temperature = q.temperature ∙ p.temperature;
  umidita = q.umidita ∙ p.umidita;
  batteria = q.batteria ∙ p.batteria;
}

-- The sensor is in the table and `stamp` is the time stamp of its last frame.
record Seen (i : ℕ) (stamp : ℤ) (r : Radio) : Type 0 where
  in_table : i < length r.devices
  last : (device_at r i).lastidradio ≡ stamp

module _ (m : Moment) (cal : Calendar) (i : ℕ) where
  device_at-store_device :
      (d : Device) (r : Radio) → i < length r.devices → device_at (store_device i d r) i ≡ d
  device_at-store_device d r h = get_or-set_self r.devices i d blank h

  length-keep_sample :
      (stamp period : ℤ) (k : ℕ) (q : Quad) (r : Radio)
      → length (keep_sample m cal i stamp period k q r).devices ≡ length r.devices
  unfolding keep_sample
  length-keep_sample stamp period k q r =
      let d = device_at r i in
      ground (
        arith,
        length-set r.devices i (record d { lastcontact = m.time }),
        length-set r.devices i (record d {
          lastcontact = m.time;
          batteria = r.batteria;
          temperature = r.temperature;
          umidita = r.umidita;
        }),
      )

  devices-convert : (k : Mask) (q : Quad) (r : Radio) → (convert m cal i k q r).devices ≡ r.devices
  unfolding convert
  devices-convert all_measures q r = refl
  devices-convert temperature_only q r = refl
  devices-convert unknown_mask q r = refl

  files-convert : (k : Mask) (q : Quad) (r : Radio) → (convert m cal i k q r).files ≡ r.files
  unfolding convert
  files-convert all_measures q r = refl
  files-convert temperature_only q r = refl
  files-convert unknown_mask q r = refl

  keep_sample-Seen :
      (stamp period : ℤ) (k : ℕ) (q : Quad) (r : Radio)
      → Seen i stamp r
      → let s = keep_sample m cal i stamp period k q r in Seen i stamp s × SameRecords i r s
  unfolding keep_sample
  keep_sample-Seen stamp period k q r seen =
      let d = device_at r i in
      let touched = record d { lastcontact = m.time } in
      ground (
        arith,
        (==ℤ_iff d.lastidradio stamp).1 seen.last,
        seen.last,
        device_at-store_device touched r seen.in_table,
        length-set r.devices i touched,
      )

  convert-Seen :
      (stamp : ℤ) (k : Mask) (q : Quad) (r : Radio)
      → Seen i stamp r
      → let s = convert m cal i k q r in Seen i stamp s × SameRecords i r s
  convert-Seen stamp k q r seen =
      let same = devices-convert k q r in
      let kept : device_at (convert m cal i k q r) i ≡ device_at r i =
        ap (λ ds. get_or ds i blank) same in
      (
        record {
          in_table = rw same seen.in_table;
          last = ap (λ (d : Device). d.lastidradio) kept ∙ seen.last;
        },
        record {
          files = files-convert k q r;
          temperature = ap (λ (d : Device). d.temperature) kept;
          umidita = ap (λ (d : Device). d.umidita) kept;
          batteria = ap (λ (d : Device). d.batteria) kept;
        },
      )

  sample_rounds-Seen :
      (n k : ℕ) (stamp period : ℤ) (mask : ℕ) (old : Quad) (r : Radio)
      → Seen i stamp r
      → let s = sample_rounds m cal i n k stamp period mask old r in
        Seen i stamp s × SameRecords i r s
  unfolding sample_rounds take_sample
  sample_rounds-Seen zero k stamp period mask old r seen =
      (seen, record { files = refl; temperature = refl; umidita = refl; batteria = refl })
  sample_rounds-Seen (suc n) k stamp period mask old r seen =
      let q = (fetch_quad old r.payload).0 in
      let r1 : Radio = record r { payload = (fetch_quad old r.payload).1 } in
      let seen1 : Seen i stamp r1 = record { in_table = seen.in_table; last = seen.last } in
      let r2 = convert m cal i (mask_branch mask) q r1 in
      let r3 = keep_sample m cal i stamp period k q r2 in
      let c : Seen i stamp r2 × SameRecords i r1 r2 =
        convert-Seen stamp (mask_branch mask) q r1 seen1 in
      let s : Seen i stamp r3 × SameRecords i r2 r3 = keep_sample-Seen stamp period k q r2 c.0 in
      let rest = sample_rounds-Seen n (k + 1) stamp period mask q r3 s.0 in
      let here : SameRecords i r r2 = record {
        files = c.1.files;
        temperature = c.1.temperature;
        umidita = c.1.umidita;
        batteria = c.1.batteria;
      } in
      (rest.0, trans_same i r r3 _ (trans_same i r r2 r3 here s.1) rest.1)

  -- The time stamp that a payload brings: the four bytes behind its type.
  abbrev pub frame_stamp : Stack → Ring → ℤ
  frame_stamp stack p = quad_value (fetch_quad stack.timestamp (get_buffer_data p).1).0

  parse_measures-Seen :
      (stack : Stack) (r : Radio)
      → Seen i (quad_value (fetch_quad stack.timestamp r.payload).0) r
      → SameRecords i r (parse_measures m cal i stack r)
  unfolding parse_measures
  parse_measures-Seen stack r seen =
      let stamp = quad_value (fetch_quad stack.timestamp r.payload).0 in
      let p1 = (fetch_quad stack.timestamp r.payload).1 in
      let low = (fetch stack.period_low p1).0 in
      let p2 = (fetch stack.period_low p1).1 in
      let high = (fetch stack.period_high p2).0 in
      let p3 = (fetch stack.period_high p2).1 in
      let mask = (fetch 0x01 p3).0 in
      let r1 : Radio = record r { payload = (fetch 0x01 p3).1 } in
      let period = signed16 (u16 ((low + high * 256) * 10)) in
      let done = sample_rounds m cal i 6 0 stamp period mask stack.sample r1 in
      let seen1 : Seen i stamp r1 = record { in_table = seen.in_table; last = seen.last } in
      let all : Seen i stamp done × SameRecords i r1 done =
        sample_rounds-Seen 6 0 stamp period mask stack.sample r1 seen1 in
      let d = record (device_at done i) { lastidradio = stamp } in
      let stored : device_at (store_device i d done) i ≡ d =
        device_at-store_device d done all.0.in_table in
      record {
        files = all.1.files;
        temperature = ap (λ (x : Device). x.temperature) stored ∙ all.1.temperature;
        umidita = ap (λ (x : Device). x.umidita) stored ∙ all.1.umidita;
        batteria = ap (λ (x : Device). x.batteria) stored ∙ all.1.batteria;
      }

  -- A frame of measures whose time stamp is that of the sensor's last frame leaves the sample file
  -- and the sensor's readings as they were.
  pub parser_data_duplicate :
      (stack : Stack) (r : Radio)
      → i < length r.devices
      → (device_at r i).lastidradio ≡ frame_stamp stack r.payload
      → SameRecords i r (parser_data m cal i stack r)
  unfolding parser_data
  parser_data_duplicate stack r h e = by_type (get_buffer_data r.payload).0
    where
      r1 : Radio
      r1 = record r { payload = (get_buffer_data r.payload).1 }

      same : SameRecords i r r1
      same = record { files = refl; temperature = refl; umidita = refl; batteria = refl }

      measures : SameRecords i r (parse_measures m cal i stack r1)
      measures =
          trans_same i r r1 _ same
            (parse_measures-Seen stack r1 (record { in_table = h; last = e }))

      by_test : (b : Bool) → SameRecords i r (if b then parse_measures m cal i stack r1 else r1)
      by_test true = measures
      by_test false = same

      by_type :
          (got : Option ℕ)
          → SameRecords i r (elim got [
            | none ↦ r1
            | some type ↦ if type == 0x01 then parse_measures m cal i stack r1 else r1
          ])
      by_type none = same
      by_type (some type) = by_test (type == 0x01)
