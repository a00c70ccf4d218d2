-- ===== src/Log/Stamp.antt =====
-- `Tag_SOR` and `Tag_DATE_TIME_CHANGE` of sw/rimms.c: six bytes that hold a tag code, a date, the
-- offset from GMT and the tenths of a second since midnight.
-- What `localtime`, `gmtime`, `mktime` and `difftime` give is a parameter, the record `Calendar`. The
-- date is read from the `struct tm` of `gmtime` after `mktime` has gone over it as over a local time.
pub mod RoundTrip
use ri_mms_linux.Prelude.{ℕ, ◌+◌, ◌-◌, ◌*◌, ◌^◌, bit_and, bit_or, List, [], ◌∷◌, if◌then◌else◌}
use ri_mms_linux.Prelude.Words.{byte, u8, u32, ◌<<<◌, ◌>>>◌}
use ri_mms_linux.Prelude.Int.{ℤ, pos, pattern32, ◌==ℤ◌, ◌/ℤ◌}

-- `struct tm`, the fields that are used. `year` counts from 1900.
pub record Tm : Type 0 where
  pub sec : ℕ
  pub minute : ℕ
  pub hour : ℕ
  pub mday : ℕ
  pub mon : ℕ
  pub year : ℕ

pub record Calendar : Type 0 where
  -- `gmtime`
  pub gmtime : ℤ → Tm
  -- what `mktime` makes of a `struct tm`
  pub mktime : Tm → Tm
  -- `difftime(local, utc)`, in whole seconds
  pub offset_seconds : ℤ → ℤ

-- The five bytes behind the tag code.
unfoldable pub stamp_bytes : Tm → ℤ → List ℕ
stamp_bytes tm offset =
    let seconds = u32 (tm.sec * 10 + tm.minute * 600 + tm.hour * 36000) in
    let day = bit_and (tm.mday <<< 3) 0b11111000 in
    let month_high = u8 (bit_or (u8 day) ((tm.mon + 1) >>> 1)) in
    let month_low = u8 (bit_and ((tm.mon + 1) <<< 7) 0b10000000) in
    let year_bits = bit_and (bit_and (u32 (tm.year + 2 ^ 32 - 100)) 0x3f <<< 1) 0b11111110 in
    let year = u8 (bit_or month_low year_bits) in
    let sign = bit_and (pattern32 offset >>> 31) 0x01 in
    let offset_bits = u8 (bit_and (bit_and (pattern32 offset) 0xf <<< 4) 0b11110000) in
    month_high
    ∷ u8 (bit_or year sign)
    ∷ u8 (bit_or offset_bits (bit_and (byte seconds 2) 0xf))
    ∷ byte seconds 1
    ∷ byte seconds 0
    ∷ []

-- `offsetFromUTC /= 3600`.
abbrev pub offset_hours : Calendar → ℤ → ℤ
offset_hours cal t = cal.offset_seconds t /ℤ 3600

-- `Tag_SOR(timestamp)`; `now` is what `time` returns.
unfoldable pub tag_sor : Calendar → ℤ → ℤ → List ℕ
tag_sor cal now timestamp =
    let rawtime = if timestamp ==ℤ pos 0 then now else timestamp in
    1 ∷ stamp_bytes (cal.mktime (cal.gmtime rawtime)) (offset_hours cal rawtime)

unfoldable pub tag_date_time_change : Calendar → ℤ → List ℕ
tag_date_time_change cal now = 8 ∷ stamp_bytes (cal.mktime (cal.gmtime now)) (offset_hours cal now)
