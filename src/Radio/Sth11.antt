-- ===== src/Radio/Sth11.antt =====
-- `calc_sth11` of sw/protocolrimms.c: the raw readings of the SHT11 sensor turned into tenths of a
-- degree and tenths of a percent, in integers. The divisions are those of C, towards zero.
pub mod Bounds
use ri_mms_linux.Prelude.{ℕ, if◌then◌else◌}
use ri_mms_linux.Prelude.Int.{ℤ, pos, negsuc, ◌+ℤ◌, ◌-ℤ◌, ◌*ℤ◌, ◌/ℤ◌, ltb_ℤ}

abbrev pub d1 : ℤ
d1 = negsuc 3999

abbrev pub d2 : ℤ
d2 = pos 4

abbrev pub c1 : ℤ
c1 = negsuc 39

abbrev pub c2 : ℤ
c2 = pos 648

abbrev pub c3 : ℤ
c3 = negsuc 71

abbrev pub t1 : ℤ
t1 = pos 10

abbrev pub t2 : ℤ
t2 = pos 128

-- Every value that an assignment of the function stores, in order.
pub record Steps : Type 0 where
  -- temperature
  pub scaled : ℤ
  pub shifted : ℤ
  pub degrees : ℤ
  -- u1
  pub square : ℤ
  pub square_c3 : ℤ
  pub quadratic : ℤ
  -- u2
  pub linear_c2 : ℤ
  pub linear : ℤ
  -- rh_lin
  pub lin_partial : ℤ
  pub rh_lin : ℤ
  -- u1
  pub slope_t2 : ℤ
  pub slope_cut : ℤ
  pub slope : ℤ
  -- u2
  pub above : ℤ
  -- rh_true
  pub product : ℤ
  pub correction : ℤ
  pub rh_true : ℤ

unfoldable pub steps : ℤ → ℤ → Steps
steps temperature umidita =
    let scaled = temperature *ℤ d2 in
    let shifted = scaled +ℤ d1 in
    let degrees = shifted /ℤ 10 in
    let square = umidita *ℤ umidita in
    let square_c3 = square *ℤ c3 in
    let quadratic = square_c3 /ℤ 10000 in
    let linear_c2 = umidita *ℤ c2 in
    let linear = linear_c2 /ℤ 100 in
    let lin_partial = c1 +ℤ quadratic in
    let rh_lin = lin_partial +ℤ linear in
    let slope_t2 = umidita *ℤ t2 in
    let slope_cut = slope_t2 /ℤ 100 in
    let slope = slope_cut +ℤ t1 in
    let above = degrees -ℤ pos 250 in
    let product = above *ℤ slope in
    let correction = product /ℤ 1000 in
    let rh_true = correction +ℤ rh_lin in
    record {
      scaled = scaled;
      shifted = shifted;
      degrees = degrees;
      square = square;
      square_c3 = square_c3;
      quadratic = quadratic;
      linear_c2 = linear_c2;
      linear = linear;
      lin_partial = lin_partial;
      rh_lin = rh_lin;
      slope_t2 = slope_t2;
      slope_cut = slope_cut;
      slope = slope;
      above = above;
      product = product;
      correction = correction;
      rh_true = rh_true;
    }

-- The new temperature and humidity.
unfoldable pub calc_sth11 : ℤ → ℤ → ℤ × ℤ
unfolding steps
calc_sth11 temperature umidita =
    let s = steps temperature umidita in
    let capped = if ltb_ℤ (pos 1000) s.rh_true then pos 1000 else s.rh_true in
    let floored = if ltb_ℤ capped (pos 0) then pos 0 else capped in (s.degrees, floored)
