-- ===== src/Radio/Sth11/Bounds.antt =====
-- The conversion stays within 32 bits on every reading that a frame can hold.
use ri_mms_linux.Prelude.{ℕ, ◌-◌, ◌+◌, ◌*◌, ◌/◌, ◌^◌, ◌≤◌, ◌<◌, ◌≡◌, arith, if◌then◌else◌}
use ri_mms_linux.Prelude.Int.{
  ℤ, pos, negsuc, pos_part, neg_part, ◌+ℤ◌, ◌-ℤ◌, ◌*ℤ◌, ◌/ℤ◌, ◌≤ℤ◌, ltb_ℤ,
}
use ri_mms_linux.Radio.Sth11.{Steps, steps, calc_sth11, d1, d2, c1, c2, c3, t1, t2}
use native.Mathlib.Nat.{le-div_iff_mul-le, div-mul-le_self}

-- The magnitude is at most `b`.
abbrev pub Within : ℕ → ℤ → Type 0
Within b z = (pos_part z ≤ b) × (neg_part z ≤ b)

Within-+ℤ : (a b : ℕ) (x y : ℤ) → Within a x → Within b y → Within (a + b) (x +ℤ y)
unfolding ◌+ℤ◌
Within-+ℤ a b x y h k = ground arith

Within--ℤ : (a b : ℕ) (x y : ℤ) → Within a x → Within b y → Within (a + b) (x -ℤ y)
unfolding ◌-ℤ◌
Within--ℤ a b x y h k = ground arith

div_mono : (x a n : ℕ) → 0 < n → x ≤ a → x / n ≤ a / n
div_mono x a n pos_n h = (le-div_iff_mul-le pos_n).1 (omega (arith, div-mul-le_self x n))

Within-/ℤ : (a n : ℕ) (x : ℤ) → 0 < n → Within a x → Within (a / n) (x /ℤ n)
unfolding ◌/ℤ◌
Within-/ℤ a n x h k =
    ground (arith, div_mono (pos_part x) a n h k.0, div_mono (neg_part x) a n h k.1)

Within-*ℤ : (a b : ℕ) (x y : ℤ) → Within a x → Within b y → Within (a * b) (x *ℤ y)
unfolding ◌*ℤ◌
Within-*ℤ a b (pos x) (pos y) h k = grind arith
Within-*ℤ a b (pos x) (negsuc y) h k = grind arith
Within-*ℤ a b (negsuc x) (pos y) h k = grind arith
Within-*ℤ a b (negsuc x) (negsuc y) h k = grind arith

widen : (a b : ℕ) (x : ℤ) → a ≤ b → Within a x → Within b x
widen a b x h k = omega arith

-- The largest `long` of the 32-bit target.
abbrev pub long_max : ℕ
long_max = 2 ^ 31 - 1

pub record Fits (s : Steps) : Type 0 where
  pub scaled : Within long_max s.scaled
  pub shifted : Within long_max s.shifted
  pub degrees : Within long_max s.degrees
  pub square : Within long_max s.square
  pub square_c3 : Within long_max s.square_c3
  pub quadratic : Within long_max s.quadratic
  pub linear_c2 : Within long_max s.linear_c2
  pub linear : Within long_max s.linear
  pub lin_partial : Within long_max s.lin_partial
  pub rh_lin : Within long_max s.rh_lin
  pub slope_t2 : Within long_max s.slope_t2
  pub slope_cut : Within long_max s.slope_cut
  pub slope : Within long_max s.slope
  pub above : Within long_max s.above
  pub product : Within long_max s.product
  pub correction : Within long_max s.correction
  pub rh_true : Within long_max s.rh_true

-- No assignment of the conversion overflows a 32-bit `long`, whatever two bytes of temperature and
-- one byte of humidity a frame brings.
pub steps-Fits : (t h : ℤ) → Within 65535 t → Within 255 h → Fits (steps t h)
unfolding steps
steps-Fits t h wt wh =
    let scaled = Within-*ℤ 65535 4 t d2 wt (omega arith) in
    let shifted = Within-+ℤ 262140 4000 (t *ℤ d2) d1 scaled (omega arith) in
    let degrees = Within-/ℤ 266140 10 (t *ℤ d2 +ℤ d1) (omega arith) shifted in
    let square = Within-*ℤ 255 255 h h wh wh in
    let square_c3 = Within-*ℤ 65025 72 (h *ℤ h) c3 square (omega arith) in
    let quadratic = Within-/ℤ 4681800 10000 (h *ℤ h *ℤ c3) (omega arith) square_c3 in
    let linear_c2 = Within-*ℤ 255 648 h c2 wh (omega arith) in
    let linear = Within-/ℤ 165240 100 (h *ℤ c2) (omega arith) linear_c2 in
    let lin_partial = Within-+ℤ 40 468 c1 (h *ℤ h *ℤ c3 /ℤ 10000) (omega arith) quadratic in
    let rh_lin =
      Within-+ℤ 508 1652 (c1 +ℤ h *ℤ h *ℤ c3 /ℤ 10000) (h *ℤ c2 /ℤ 100) lin_partial linear in
    let slope_t2 = Within-*ℤ 255 128 h t2 wh (omega arith) in
    let slope_cut = Within-/ℤ 32640 100 (h *ℤ t2) (omega arith) slope_t2 in
    let slope = Within-+ℤ 326 10 (h *ℤ t2 /ℤ 100) t1 slope_cut (omega arith) in
    let above = Within--ℤ 26614 250 ((t *ℤ d2 +ℤ d1) /ℤ 10) (pos 250) degrees (omega arith) in
    let product =
      Within-*ℤ 26864 336 ((t *ℤ d2 +ℤ d1) /ℤ 10 -ℤ pos 250) (h *ℤ t2 /ℤ 100 +ℤ t1) above slope in
    let correction =
      Within-/ℤ 9026304 1000 (((t *ℤ d2 +ℤ d1) /ℤ 10 -ℤ pos 250) *ℤ (h *ℤ t2 /ℤ 100 +ℤ t1))
        (omega arith) product in
    let rh_true =
      Within-+ℤ 9026 2160 ((((t *ℤ d2 +ℤ d1) /ℤ 10 -ℤ pos 250) *ℤ (h *ℤ t2 /ℤ 100 +ℤ t1)) /ℤ 1000)
        (c1 +ℤ h *ℤ h *ℤ c3 /ℤ 10000 +ℤ h *ℤ c2 /ℤ 100) correction rh_lin in
    record {
      scaled = widen 262140 long_max _ (omega arith) scaled;
      shifted = widen 266140 long_max _ (omega arith) shifted;
      degrees = widen 26614 long_max _ (omega arith) degrees;
      square = widen 65025 long_max _ (omega arith) square;
      square_c3 = widen 4681800 long_max _ (omega arith) square_c3;
      quadratic = widen 468 long_max _ (omega arith) quadratic;
      linear_c2 = widen 165240 long_max _ (omega arith) linear_c2;
      linear = widen 1652 long_max _ (omega arith) linear;
      lin_partial = widen 508 long_max _ (omega arith) lin_partial;
      rh_lin = widen 2160 long_max _ (omega arith) rh_lin;
      slope_t2 = widen 32640 long_max _ (omega arith) slope_t2;
      slope_cut = widen 326 long_max _ (omega arith) slope_cut;
      slope = widen 336 long_max _ (omega arith) slope;
      above = widen 26864 long_max _ (omega arith) above;
      product = widen 9026304 long_max _ (omega arith) product;
      correction = widen 9026 long_max _ (omega arith) correction;
      rh_true = widen 11186 long_max _ (omega arith) rh_true;
    }

-- The humidity that results is between 0 and 100.0 percent, and it is the linearised value
-- wherever that lies in the range.
calc_sth11_range :
    (t h : ℤ)
    → (pos 0 ≤ℤ (calc_sth11 t h).1)
      × ((calc_sth11 t h).1 ≤ℤ pos 1000)
      × (pos 0 ≤ℤ (steps t h).rh_true
          → (steps t h).rh_true ≤ℤ pos 1000
          → (calc_sth11 t h).1 ≡ (steps t h).rh_true)
unfolding calc_sth11
calc_sth11_range t h = clamped (steps t h).rh_true
  where
    clamped :
        (z : ℤ)
        → let capped = if ltb_ℤ (pos 1000) z then pos 1000 else z in
          let floored = if ltb_ℤ capped (pos 0) then pos 0 else capped in
          (pos 0 ≤ℤ floored) × (floored ≤ℤ pos 1000) × (pos 0 ≤ℤ z → z ≤ℤ pos 1000 → floored ≡ z)
    clamped z = ground arith
