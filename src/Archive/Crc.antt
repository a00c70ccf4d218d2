-- ===== src/Archive/Crc.antt =====
-- `Flip` and `CRC32FromStream` of sw/rimms.c, on 32-bit patterns.
-- `Flip` shifts a `long` to the right; the up to 32 bits that it looks at are the same whether the
-- shift fills in zeros or copies of the sign.
use ri_mms_linux.Prelude.{ℕ, zero, suc, ◌+◌, ◌-◌, bit_and, bit_or, bit_xor}
use ri_mms_linux.Prelude.{List, [], ◌∷◌, ◌==◌, if◌then◌else◌}
use ri_mms_linux.Prelude.Words.{u8, u32, ◌<<<◌, ◌>>>◌}

-- The loop from bit `bit` on, with `n` rounds left.
unfoldable pub flip_from : ℕ → ℕ → ℕ → ℕ → ℕ → ℕ
flip_from zero bit bits value reflection = reflection
flip_from (suc n) bit bits value reflection =
    flip_from n (bit + 1) bits (value >>> 1)
      (if bit_and value 0x01 == 0 then reflection else bit_or reflection (1 <<< (bits - 1 - bit)))

unfoldable pub flip : ℕ → ℕ → ℕ
unfolding flip_from
flip value bits = flip_from bits 0 bits value 0

-- `for (bit = 8; bit > 0; --bit)`
unfoldable pub crc_bits : ℕ → ℕ → ℕ
crc_bits zero crc = crc
crc_bits (suc n) crc =
    crc_bits n (
      if bit_and crc 0x80000000 == 0 then u32 (crc <<< 1) else bit_xor (u32 (crc <<< 1)) 0x04C11DB7)

unfoldable pub crc_bytes : ℕ → List ℕ → ℕ
unfolding flip crc_bits
crc_bytes crc [] = crc
crc_bytes crc (x ∷ xs) = crc_bytes (crc_bits 8 (bit_xor crc (u8 (flip x 8) <<< 24))) xs

unfoldable pub crc32_from_stream : List ℕ → ℕ
unfolding crc_bytes flip
crc32_from_stream p = bit_xor (flip (crc_bytes 0xffffffff p) 32) 0xffffffff
