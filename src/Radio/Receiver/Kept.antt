-- ===== src/Radio/Receiver/Kept.antt =====
-- Acting on a frame touches neither the serial buffer nor the storage of the payload buffer.
use ri_mms_linux.Prelude.{ℕ, zero, suc, ◌+◌, ◌≡◌, refl, ◌∙◌, arith}
use ri_mms_linux.Prelude.Int.{ℤ}
use ri_mms_linux.Ring.{Ring}
use ri_mms_linux.Log.Stamp.{Calendar}
use ri_mms_linux.Radio.State.{Radio, Moment, force_upload}
use ri_mms_linux.Radio.Payload.{
  get_buffer_data, fetch, Quad, fetch_quad, quad_value, Stack, keep_sample, convert, take_sample,
  mask_branch, sample_rounds, parse_measures, parser_data, Mask, all_measures, temperature_only,
  unknown_mask,
}
use ri_mms_linux.Radio.Thresholds.{
  check_temperature, check_umidita, check_batteria, check_sensor_thresholds,
}

-- The parts of the state that acting on a frame does not touch.
pub record Kept (r s : Radio) : Type 0 where
  pub serial : s.serial ≡ r.serial
  pub cells : s.payload.cells ≡ r.payload.cells

pub Kept-refl : (r : Radio) → Kept r r
Kept-refl r = record { serial = refl; cells = refl }

pub Kept-trans : (r s t : Radio) → Kept r s → Kept s t → Kept r t
Kept-trans r s t p q = record { serial = q.serial ∙ p.serial; cells = q.cells ∙ p.cells }

cells-get_buffer_data : (p : Ring) → (get_buffer_data p).1.cells ≡ p.cells
unfolding get_buffer_data
cells-get_buffer_data p = ground arith

cells-fetch : (a : ℕ) (p : Ring) → (fetch a p).1.cells ≡ p.cells
unfolding fetch
cells-fetch a p = cells-get_buffer_data p

cells-fetch_quad : (a : Quad) (p : Ring) → (fetch_quad a p).1.cells ≡ p.cells
unfolding fetch_quad
cells-fetch_quad a p =
    let p1 = (fetch a.b0 p).1 in
    let p2 = (fetch a.b1 p1).1 in
    let p3 = (fetch a.b2 p2).1 in
    cells-fetch a.b3 p3 ∙ cells-fetch a.b2 p2 ∙ cells-fetch a.b1 p1 ∙ cells-fetch a.b0 p

module _ (m : Moment) (cal : Calendar) (i : ℕ) where
  convert-Kept : (k : Mask) (q : Quad) (r : Radio) → Kept r (convert m cal i k q r)
  unfolding convert
  convert-Kept all_measures q r = record { serial = refl; cells = refl }
  convert-Kept temperature_only q r = record { serial = refl; cells = refl }
  convert-Kept unknown_mask q r = record { serial = refl; cells = refl }

  keep_sample-Kept :
      (stamp period : ℤ) (k : ℕ) (q : Quad) (r : Radio)
      → Kept r (keep_sample m cal i stamp period k q r)
  unfolding keep_sample
  keep_sample-Kept stamp period k q r = ground arith

  sample_rounds-Kept :
      (n k : ℕ) (stamp period : ℤ) (mask : ℕ) (old : Quad) (r : Radio)
      → Kept r (sample_rounds m cal i n k stamp period mask old r)
  unfolding sample_rounds take_sample
  sample_rounds-Kept zero k stamp period mask old r = Kept-refl r
  sample_rounds-Kept (suc n) k stamp period mask old r =
      let q = (fetch_quad old r.payload).0 in
      let r1 : Radio = record r { payload = (fetch_quad old r.payload).1 } in
      let r2 = convert m cal i (mask_branch mask) q r1 in
      let r3 = keep_sample m cal i stamp period k q r2 in
      let first : Kept r r1 = record { serial = refl; cells = cells-fetch_quad old r.payload } in
      Kept-trans r r1 _ first (
        Kept-trans r1 r2 _ (convert-Kept (mask_branch mask) q r1) (
          Kept-trans r2 r3 _ (keep_sample-Kept stamp period k q r2)
            (sample_rounds-Kept n (k + 1) stamp period mask q r3)))

  parse_measures-Kept : (stack : Stack) (r : Radio) → Kept r (parse_measures m cal i stack r)
  unfolding parse_measures
  parse_measures-Kept stack r =
      let stamp = quad_value (fetch_quad stack.timestamp r.payload).0 in
      let p1 = (fetch_quad stack.timestamp r.payload).1 in
      let p2 = (fetch stack.period_low p1).1 in
      let p3 = (fetch stack.period_high p2).1 in
      let r1 : Radio = record r { payload = (fetch 0x01 p3).1 } in
      let read : Kept r r1 = record {
        serial = refl;
        cells =
            cells-fetch 0x01 p3
            ∙ cells-fetch stack.period_high p2
            ∙ cells-fetch stack.period_low p1
            ∙ cells-fetch_quad stack.timestamp r.payload;
      } in
      let all = Kept-trans r r1 _ read (sample_rounds-Kept 6 0 stamp _ _ stack.sample r1) in
      record { serial = all.serial; cells = all.cells }

  pub parser_data-Kept : (stack : Stack) (r : Radio) → Kept r (parser_data m cal i stack r)
  unfolding parser_data
  parser_data-Kept stack r =
      let r1 : Radio = record r { payload = (get_buffer_data r.payload).1 } in
      let read : Kept r r1 = record { serial = refl; cells = cells-get_buffer_data r.payload } in
      ground (arith, read, Kept-trans r r1 _ read (parse_measures-Kept stack r1))

  pub check_sensor_thresholds-Kept : (r : Radio) → Kept r (check_sensor_thresholds m cal i r)
  unfolding check_sensor_thresholds
  check_sensor_thresholds-Kept r =
      let r1 = check_temperature m cal i r in
      let r2 = check_umidita m cal i r1 in
      Kept-trans r r1 _ (temperature r) (Kept-trans r1 r2 _ (umidita r1) (batteria r2))
    where
      temperature : (r : Radio) → Kept r (check_temperature m cal i r)
      temperature r = unfold check_temperature force_upload in ground arith

      umidita : (r : Radio) → Kept r (check_umidita m cal i r)
      umidita r = unfold check_umidita force_upload in ground arith

      batteria : (r : Radio) → Kept r (check_batteria m cal i r)
      batteria r = unfold check_batteria force_upload in ground arith
