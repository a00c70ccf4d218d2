-- ===== src/Radio/Payload/Reads.antt =====
-- What `ParserData` reads: 32 bytes of the payload buffer and nothing that was not initialised.
use ri_mms_linux.Prelude.{ℕ, zero, suc, ◌+◌, ◌-◌, ◌*◌, ◌≤◌, ◌≡◌, refl, ap, ◌∙◌, arith}
use ri_mms_linux.Prelude.{get_or, ◌==◌, if◌then◌else◌}
use ri_mms_linux.Prelude.Words.{u16}
use ri_mms_linux.Prelude.Int.{ℤ, signed16}
use ri_mms_linux.Ring.{Ring}
use ri_mms_linux.Log.Stamp.{Calendar}
use ri_mms_linux.Radio.State.{Radio, Moment}
use ri_mms_linux.Radio.Payload.{
  get_buffer_data, fetch, Quad, fetch_quad, Stack, keep_sample, convert, take_sample, mask_branch,
  sample_rounds, quad_value, parse_measures, parser_data, Mask, all_measures, temperature_only,
  unknown_mask,
}

fetch_any : (a b : ℕ) (p : Ring) → 1 ≤ p.count → fetch a p ≡ fetch b p
unfolding fetch get_buffer_data
fetch_any a b p h = ground arith

count-fetch : (a : ℕ) (p : Ring) → (fetch a p).1.count ≡ p.count - 1
unfolding fetch get_buffer_data
count-fetch a p = ground arith

count-fetch_quad : (a : Quad) (p : Ring) → (fetch_quad a p).1.count ≡ p.count - 4
unfolding fetch_quad
count-fetch_quad a p =
    let p1 = (fetch a.b0 p).1 in
    let p2 = (fetch a.b1 p1).1 in
    let p3 = (fetch a.b2 p2).1 in
    omega (arith, count-fetch a.b0 p, count-fetch a.b1 p1, count-fetch a.b2 p2, count-fetch a.b3 p3)

fetch_quad_any : (a b : Quad) (p : Ring) → 4 ≤ p.count → fetch_quad a p ≡ fetch_quad b p
unfolding fetch_quad
fetch_quad_any a b p h =
    let p1 = (fetch a.b0 p).1 in
    let p2 = (fetch a.b1 p1).1 in
    let p3 = (fetch a.b2 p2).1 in
    ground (
      arith,
      count-fetch a.b0 p,
      count-fetch a.b1 p1,
      count-fetch a.b2 p2,
      fetch_any a.b0 b.b0 p,
      fetch_any a.b1 b.b1 p1,
      fetch_any a.b2 b.b2 p2,
      fetch_any a.b3 b.b3 p3,
    )

module _ (m : Moment) (cal : Calendar) (posmem : ℕ) where
  payload-convert :
      (k : Mask) (q : Quad) (r : Radio) → (convert m cal posmem k q r).payload ≡ r.payload
  unfolding convert
  payload-convert all_measures q r = refl
  payload-convert temperature_only q r = refl
  payload-convert unknown_mask q r = refl

  payload-keep_sample :
      (stamp period : ℤ) (i : ℕ) (q : Quad) (r : Radio)
      → (keep_sample m cal posmem stamp period i q r).payload ≡ r.payload
  unfolding keep_sample
  payload-keep_sample stamp period i q r = ground arith

  payload-take_sample :
      (stamp period : ℤ) (mask i : ℕ) (q : Quad) (r : Radio)
      → (take_sample m cal posmem stamp period mask i q r).payload ≡ r.payload
  unfolding take_sample
  payload-take_sample stamp period mask i q r =
      payload-keep_sample stamp period i q (convert m cal posmem (mask_branch mask) q r)
      ∙ payload-convert (mask_branch mask) q r

  count-sample_rounds :
      (n i : ℕ) (stamp period : ℤ) (mask : ℕ) (old : Quad) (r : Radio)
      → (sample_rounds m cal posmem n i stamp period mask old r).payload.count
        ≡ r.payload.count - 4 * n
  unfolding sample_rounds
  count-sample_rounds zero i stamp period mask old r = omega arith
  count-sample_rounds (suc n) i stamp period mask old r =
      let q = (fetch_quad old r.payload).0 in
      let p = (fetch_quad old r.payload).1 in
      let s = take_sample m cal posmem stamp period mask i q (record r { payload = p }) in
      omega (
        arith,
        count-sample_rounds n (i + 1) stamp period mask q s,
        ap (λ (t : Ring). t.count)
            (payload-take_sample stamp period mask i q (record r { payload = p })),
        count-fetch_quad old r.payload,
      )

  sample_rounds_any :
      (n i : ℕ) (stamp period : ℤ) (mask : ℕ) (a b : Quad) (r : Radio)
      → 4 ≤ r.payload.count
      → sample_rounds m cal posmem (suc n) i stamp period mask a r
        ≡ sample_rounds m cal posmem (suc n) i stamp period mask b r
  unfolding sample_rounds
  sample_rounds_any n i stamp period mask a b r h =
      ap
        (λ (t : Quad × Ring).
          sample_rounds m cal posmem n (i + 1) stamp period mask t.0
            (take_sample m cal posmem stamp period mask i t.0 (record r { payload = t.1 })))
        (fetch_quad_any a b r.payload h)

  parse_measures_any :
      (a b : Stack) (r : Radio)
      → 31 ≤ r.payload.count
      → parse_measures m cal posmem a r ≡ parse_measures m cal posmem b r
  unfolding parse_measures
  parse_measures_any a b r h =
      let p1 = (fetch_quad a.timestamp r.payload).1 in
      let p2 = (fetch a.period_low p1).1 in
      let p3 = (fetch a.period_high p2).1 in
      let p4 = (fetch 0x01 p3).1 in
      let stamp = quad_value (fetch_quad a.timestamp r.payload).0 in
      let low = (fetch a.period_low p1).0 in
      let high = (fetch a.period_high p2).0 in
      let period = signed16 (u16 ((low + high * 256) * 10)) in
      let mask = (fetch 0x01 p3).0 in
      let c1 : p1.count ≡ r.payload.count - 4 = count-fetch_quad a.timestamp r.payload in
      let c2 : p2.count ≡ p1.count - 1 = count-fetch a.period_low p1 in
      let c3 : p3.count ≡ p2.count - 1 = count-fetch a.period_high p2 in
      let c4 : p4.count ≡ p3.count - 1 = count-fetch 0x01 p3 in
      cc (
        fetch_quad_any a.timestamp b.timestamp r.payload (omega arith),
        fetch_any a.period_low b.period_low p1 (omega arith),
        fetch_any a.period_high b.period_high p2 (omega arith),
        sample_rounds_any 5 0 stamp period mask a.sample b.sample (record r { payload = p4 })
            (omega arith),
      )

  count-parse_measures :
      (s : Stack) (r : Radio)
      → (parse_measures m cal posmem s r).payload.count ≡ r.payload.count - 31
  unfolding parse_measures
  count-parse_measures s r =
      let p1 = (fetch_quad s.timestamp r.payload).1 in
      let p2 = (fetch s.period_low p1).1 in
      let p3 = (fetch s.period_high p2).1 in
      let p4 = (fetch 0x01 p3).1 in
      let stamp = quad_value (fetch_quad s.timestamp r.payload).0 in
      let low = (fetch s.period_low p1).0 in
      let high = (fetch s.period_high p2).0 in
      let period = signed16 (u16 ((low + high * 256) * 10)) in
      let mask = (fetch 0x01 p3).0 in
      omega (
        arith,
        count-fetch_quad s.timestamp r.payload,
        count-fetch s.period_low p1,
        count-fetch s.period_high p2,
        count-fetch 0x01 p3,
        count-sample_rounds 6 0 stamp period mask s.sample (record r { payload = p4 }),
      )

  -- With the 32 bytes of a frame in the payload buffer, `ParserData` takes all 32 of a frame of
  -- measures, one of any other frame, and its result never depends on what its uninitialised locals
  -- held.
  parser_data_reads :
      (a b : Stack) (r : Radio)
      → r.payload.count ≡ 32
      → (parser_data m cal posmem a r ≡ parser_data m cal posmem b r)
        × ((parser_data m cal posmem a r).payload.count
            ≡ (if get_or r.payload.cells r.payload.out 0 == 1 then 0 else 31))
  unfolding parser_data get_buffer_data
  parser_data_reads a b r h =
      let p : Ring = (get_buffer_data r.payload).1 in
      (
        ground (arith, parse_measures_any a b (record r { payload = p })),
        ground (arith, count-parse_measures a (record r { payload = p })),
      )
