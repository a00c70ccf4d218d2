-- ===== src/Archive/Flipping.antt =====
-- `Flip` of sw/rimms.c as a reversal of bits, by arithmetic.
use ri_mms_linux.Prelude.{
  ℕ, zero, suc, ◌+◌, ◌-◌, ◌*◌, ◌/◌, ◌%◌, ◌^◌, ◌<◌, ◌≡◌, ◌⊎◌, inl, inr, refl, ap, ◌∙◌, arith,
}
use ri_mms_linux.Prelude.{bit_and, bit_or, ◌==◌, if◌then◌else◌}
use ri_mms_linux.Prelude.Words.{◌<<<◌, bit_or-add, bit_and-one}
use ri_mms_linux.Archive.Crc.{flip_from, flip}
use native.Mathlib.Nat.{pow-suc, one-le-pow, div-div-eq-div-mul, div-lt_iff_lt-mul}

-- The reversal of the lowest `n` bits, as arithmetic.
abbrev pub reversed : ℕ → ℕ → ℕ
reversed zero w = 0
reversed (suc n) w = w % 2 * 2 ^ n + reversed n (w / 2)

half-pow : (n w : ℕ) → w / 2 / 2 ^ n ≡ w / 2 ^ suc n
half-pow n w = div-div-eq-div-mul w 2 (2 ^ n) ∙ ap (λ t. w / t) (omega (arith, pow-suc 2 n))

times-pow : (q n : ℕ) → q * 2 ^ suc n ≡ q * 2 ^ n * 2
times-pow q n = omega (arith, ap (λ (t : ℕ). q * t) (pow-suc 2 n))

-- The same from the other end.
reversed-high : (n w : ℕ) → reversed (suc n) w ≡ reversed n w * 2 + w / 2 ^ n % 2
reversed-high zero w = omega arith
reversed-high (suc n) w = omega (
  arith,
  reversed-high n (w / 2),
  half-pow n w,
  times-pow (w % 2) n,
  ap (λ (t : ℕ). t % 2) (half-pow n w),
)

pub reversed-lt : (n w : ℕ) → reversed n w < 2 ^ n
reversed-lt zero w = omega arith
reversed-lt (suc n) w = elim (bit) [
  | inl e ↦ omega (arith, reversed-lt n (w / 2), pow-suc 2 n, ap (λ (t : ℕ). t * 2 ^ n) e)
  | inr e ↦ omega (arith, reversed-lt n (w / 2), pow-suc 2 n, ap (λ (t : ℕ). t * 2 ^ n) e)
]
  where
    bit : (w % 2 ≡ 0) ⊎ (w % 2 ≡ 1)
    bit = omega arith

-- What one round does to the reflection.
round_lem :
    (n bit bits w q : ℕ)
    → bit + suc n ≡ bits
    → (if bit_and w 1 == 0 then q * 2 ^ suc n else bit_or (q * 2 ^ suc n) (1 <<< (bits - 1 - bit)))
      ≡ (q * 2 + w % 2) * 2 ^ n
round_lem n bit bits w q e = rw (bit_and-one w) (
    rw place (
      rw set_bit (elim digit [
        | inl z ↦ rw z (omega (arith, times-pow q n))
        | inr o ↦ rw o (omega (arith, times-pow q n))
      ])))
  where
    index : bits - 1 - bit ≡ n
    index = omega arith

    place : 1 <<< (bits - 1 - bit) ≡ 2 ^ n
    place = omega (arith, ap (λ (t : ℕ). 2 ^ t) index)

    set_bit : bit_or (q * 2 ^ suc n) (2 ^ n) ≡ q * 2 ^ suc n + 2 ^ n
    set_bit = bit_or-add (suc n) q (2 ^ n) (omega (arith, one-le-pow n 2, pow-suc 2 n))

    digit : (w % 2 ≡ 0) ⊎ (w % 2 ≡ 1)
    digit = omega arith

flip_from-reversed :
    (n bit bits w q : ℕ)
    → bit + n ≡ bits
    → flip_from n bit bits w (q * 2 ^ n) ≡ q * 2 ^ n + reversed n w
unfolding flip_from
flip_from-reversed zero bit bits w q e = omega arith
flip_from-reversed (suc n) bit bits w q e =
    ap (λ r. flip_from n (bit + 1) bits (w / 2) r) (round_lem n bit bits w q e)
    ∙ flip_from-reversed n (bit + 1) bits (w / 2) (q * 2 + w % 2) (omega arith)
    ∙ omega (arith, times-pow q n)

pub flip_lem : (w n : ℕ) → flip w n ≡ reversed n w
unfolding flip
flip_lem w n =
    ap (λ t. flip_from n 0 n w t) start ∙ flip_from-reversed n 0 n w 0 (omega arith) ∙ omega arith
  where
    start : 0 ≡ 0 * 2 ^ n
    start = omega arith

-- Only the lowest `n` bits count.
reversed-low : (n c r : ℕ) → reversed n (c * 2 ^ n + r) ≡ reversed n r
reversed-low zero c r = refl
reversed-low (suc n) c r =
    omega (arith, ap (λ (t : ℕ). t * 2 ^ n) low, ap (reversed n) half ∙ reversed-low n c (r / 2))
  where
    low : (c * 2 ^ suc n + r) % 2 ≡ r % 2
    low = omega (arith, times-pow c n)

    half : (c * 2 ^ suc n + r) / 2 ≡ c * 2 ^ n + r / 2
    half = omega (arith, times-pow c n)

reversed-reversed : (n w : ℕ) → w < 2 ^ n → reversed n (reversed n w) ≡ w
reversed-reversed zero w h = omega arith
reversed-reversed (suc n) w h = omega (
  arith,
  reversed-high n w,
  pow-suc 2 n,
  one-le-pow n 2,
  ap (λ (t : ℕ). t * 2 ^ n) parity,
  ap (reversed n) half ∙ reversed-reversed n (w % 2 ^ n) (omega (arith, one-le-pow n 2)),
)
  where
    top : w / 2 ^ n < 2
    top = ground (arith, one-le-pow n 2, pow-suc 2 n, div-lt_iff_lt-mul {k = 2 ^ n} {x = w} {y = 2})

    parity : reversed (suc n) w % 2 ≡ w / 2 ^ n
    parity = omega (arith, reversed-high n w, top)

    split : w ≡ w / 2 ^ n * 2 ^ n + w % 2 ^ n
    split = omega (arith, one-le-pow n 2)

    low : reversed n w ≡ reversed n (w % 2 ^ n)
    low = ap (reversed n) split ∙ reversed-low n (w / 2 ^ n) (w % 2 ^ n)

    half : reversed (suc n) w / 2 ≡ reversed n (w % 2 ^ n)
    half = omega (arith, reversed-high n w, low)

-- Reversing the lowest `n` bits of a word that fits them twice gives the word back.
pub flip-flip : (n w : ℕ) → w < 2 ^ n → flip (flip w n) n ≡ w
flip-flip n w h = rw (flip_lem (flip w n) n) (rw (flip_lem w n) (reversed-reversed n w h))
