-- ===== src/Log/Stamp/RoundTrip.antt =====
-- The time stamp can be read back, field by field, by the layout that the comment of `Tag_SOR` in
-- sw/rimms.c gives.
use ri_mms_linux.Prelude.{ℕ, ◌+◌, ◌-◌, ◌*◌, ◌/◌, ◌%◌, ◌^◌, ◌≤◌, ◌<◌, bit_and, bit_or}
use ri_mms_linux.Prelude.{◌≡◌, refl, true, List, [], ◌∷◌, Option, none, some, arith}
use ri_mms_linux.Prelude.{◌==◌, ==_iff, leb, if◌then◌else◌}
use ri_mms_linux.Prelude.Words.{every, every_at, bit_or-add, bit_and-mod, bit_and-one}
use ri_mms_linux.Prelude.Words.{byte, u8, u32}
use ri_mms_linux.Prelude.Int.{ℤ, pos, negsuc, pattern32, pos_part, neg_part}
use ri_mms_linux.Log.Stamp.{Tm, stamp_bytes}

pub record Stamp : Type 0 where
  pub day : ℕ
  pub month : ℕ
  -- since 2000
  pub year : ℕ
  -- hours, as a five-bit two's complement
  pub offset : ℤ
  -- tenths of a second since midnight
  pub tenths : ℕ

abbrev signed5 : ℕ → ℤ
signed5 w = if leb 16 w then negsuc (31 - w) else pos w

-- The layout of the comment: day 5 bits, month 4, year 6, offset 5, tenths 20.
abbrev pub read_stamp : List ℕ → Option Stamp
read_stamp (a ∷ b ∷ c ∷ d ∷ e ∷ []) = some record {
  day = a / 8;
  month = a % 8 * 2 + b / 128;
  year = b / 2 % 64;
  offset = signed5 (b % 2 * 16 + c / 16);
  tenths = c % 16 * 65536 + d * 256 + e;
}
read_stamp _ = none

-- What `gmtime` documents of its result, for the years 2000 to 2063.
pub record IsTm (tm : Tm) : Type 0 where
  pub sec_in : tm.sec ≤ 60
  pub minute_in : tm.minute ≤ 59
  pub hour_in : tm.hour ≤ 23
  pub mday_in : tm.mday ≤ 31
  pub mon_in : tm.mon ≤ 11
  pub year_from : 100 ≤ tm.year
  pub year_to : tm.year ≤ 163

-- An offset between -16 and 15 hours.
abbrev pub IsOffset : ℤ → Type 0
IsOffset o = (pos_part o ≤ 15) × (neg_part o ≤ 16)

day_table : every (λ d. bit_and (d * 2 ^ 3) 0b11111000 == d * 8) 32 ≡ true
unfolding every
day_table = refl

month_table : every (λ m. bit_and (m * 2 ^ 7) 0b10000000 == m % 2 * 128) 13 ≡ true
unfolding every
month_table = refl

year_table : every (λ y. bit_and (y * 2 ^ 1) 0b11111110 == y * 2) 64 ≡ true
unfolding every
year_table = refl

offset_table : every (λ o. bit_and (o * 2 ^ 4) 0b11110000 == o * 16) 16 ≡ true
unfolding every
offset_table = refl

day_mask : (d : ℕ) → d < 32 → bit_and (d * 2 ^ 3) 0b11111000 ≡ d * 8
day_mask d h = (==_iff _ _).0 (every_at _ d 32 h day_table)

month_mask : (m : ℕ) → m < 13 → bit_and (m * 2 ^ 7) 0b10000000 ≡ m % 2 * 128
month_mask m h = (==_iff _ _).0 (every_at _ m 13 h month_table)

year_mask : (y : ℕ) → y < 64 → bit_and (y * 2 ^ 1) 0b11111110 ≡ y * 2
year_mask y h = (==_iff _ _).0 (every_at _ y 64 h year_table)

offset_mask : (o : ℕ) → o < 16 → bit_and (o * 2 ^ 4) 0b11110000 ≡ o * 16
offset_mask o h = (==_iff _ _).0 (every_at _ o 16 h offset_table)

first_byte :
    (d m : ℕ)
    → d < 32
    → m < 13
    → u8 (bit_or (u8 (bit_and (d * 2 ^ 3) 0b11111000)) (m / 2 ^ 1)) ≡ d * 8 + m / 2
first_byte d m hd hm =
    let fits : u8 (bit_and (d * 2 ^ 3) 0b11111000) ≡ d * 2 ^ 3 = omega (arith, day_mask d hd) in
    rw (fits, bit_or-add 3 d (m / 2 ^ 1) (omega arith)) (omega arith)

second_byte :
    (m y s : ℕ)
    → m < 13
    → y < 64
    → s < 2
    → u8 (
        bit_or
          (u8 (bit_or (u8 (bit_and (m * 2 ^ 7) 0b10000000)) (bit_and (y * 2 ^ 1) 0b11111110)))
          s)
      ≡ m % 2 * 128 + y * 2 + s
second_byte m y s hm hy hs =
    let low : u8 (bit_and (m * 2 ^ 7) 0b10000000) ≡ m % 2 * 2 ^ 7 =
      omega (arith, month_mask m hm) in
    let whole : u8 (m % 2 * 2 ^ 7 + y * 2) ≡ (m % 2 * 64 + y) * 2 ^ 1 = omega arith in
    rw
      (
        low,
        year_mask y hy,
        bit_or-add 7 (m % 2) (y * 2) (omega arith),
        whole,
        bit_or-add 1 (m % 2 * 64 + y) s (omega arith),
      )
      (omega arith)

third_byte :
    (o t : ℕ)
    → o < 16
    → u8 (bit_or (u8 (bit_and (o * 2 ^ 4) 0b11110000)) (bit_and t 0xf)) ≡ o * 16 + t % 16
third_byte o t ho =
    let high : u8 (bit_and (o * 2 ^ 4) 0b11110000) ≡ o * 2 ^ 4 = omega (arith, offset_mask o ho) in
    rw (high, bit_and-mod 4 t, bit_or-add 4 o (t % 2 ^ 4) (omega arith)) (omega arith)

-- The five bytes as sums of their fields.
stamp_bytes_as_sums :
    (tm : Tm) (o : ℤ)
    → IsTm tm
    → let s = tm.sec * 10 + tm.minute * 600 + tm.hour * 36000 in
      let w = pattern32 o in
      stamp_bytes tm o
      ≡ (tm.mday * 8 + (tm.mon + 1) / 2)
        ∷ ((tm.mon + 1) % 2 * 128 + (tm.year - 100) * 2 + w / 2 ^ 31 % 2)
        ∷ (w % 16 * 16 + s / 2 ^ 16)
        ∷ (s / 2 ^ 8 % 2 ^ 8)
        ∷ (s % 2 ^ 8)
        ∷ []
unfolding stamp_bytes
stamp_bytes_as_sums tm o v =
    let s : ℕ = tm.sec * 10 + tm.minute * 600 + tm.hour * 36000 in
    let w : ℕ = pattern32 o in
    let fits : u32 s ≡ s = omega arith in
    let since : bit_and (u32 (tm.year + 2 ^ 32 - 100)) 0x3f ≡ tm.year - 100 =
      omega (arith, bit_and-mod 6 (u32 (tm.year + 2 ^ 32 - 100))) in
    rw
      (
        fits,
        since,
        bit_and-mod 4 w,
        bit_and-one (w / 2 ^ 31),
        first_byte tm.mday (tm.mon + 1) (omega arith) (omega arith),
        second_byte (tm.mon + 1) (tm.year - 100) (w / 2 ^ 31 % 2) (omega arith) (omega arith)
            (omega arith),
        third_byte (w % 2 ^ 4) (byte s 2) (omega arith),
      )
      (ground arith)

-- For a date that `gmtime` can give in the years 2000 to 2063 and an offset from -16 to 15 hours,
-- reading the five bytes by the documented layout gives back the day, the month, the year, the
-- signed offset and the tenths of a second since midnight.
pub read_stamp-stamp_bytes :
    (tm : Tm) (o : ℤ)
    → IsTm tm
    → IsOffset o
    → read_stamp (stamp_bytes tm o)
      ≡ some record {
        day = tm.mday;
        month = tm.mon + 1;
        year = tm.year - 100;
        offset = o;
        tenths = tm.sec * 10 + tm.minute * 600 + tm.hour * 36000;
      }
read_stamp-stamp_bytes tm o v h = rw (stamp_bytes_as_sums tm o v) (ground arith)
