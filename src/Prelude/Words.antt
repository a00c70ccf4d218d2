-- ===== src/Prelude/Words.antt =====
-- Machine words as native numbers: casts by `%`, shifts by `*` and `/`, and what `|` and `&` do
-- to fields of bits. The native `bit_or` and `bit_and` compute at numerals only.
use Prim.Native.Nat.{ℕ, zero, suc, ◌+◌, ◌-◌, ◌*◌, ◌/◌, ◌%◌, ◌^◌, ◌≤◌, ◌<◌, min, max}
use Prim.Native.Nat.{bit_and, bit_or, digits, bitwise, bit_and-bitwise, bit_or-bitwise}
use mathlib.Core.Path.{◌≡◌, refl, ap}
use mathlib.Core.WellFounded
use mathlib.Core.Bool.{Bool, true, false}
use ri_mms_linux.Prelude.Tests.{if◌then◌else◌}
use native.Mathlib.Nat.{pow-suc, one-le-pow, le_refl}
use native.Mathlib.Omega.{arith}
use ri_mms_linux.Prelude.Order.{lt_wf}

abbrev pub u8 : ℕ → ℕ
u8 n = n % 2 ^ 8

abbrev pub u16 : ℕ → ℕ
u16 n = n % 2 ^ 16

abbrev pub u32 : ℕ → ℕ
u32 n = n % 2 ^ 32

infixl 75 ◌<<<◌ ◌>>>◌
abbrev pub ◌<<<◌ : ℕ → ℕ → ℕ
x <<< k = x * 2 ^ k

abbrev pub ◌>>>◌ : ℕ → ℕ → ℕ
x >>> k = x / 2 ^ k

-- The bytes of a little-endian word (`WORD_D` and `DWORD_D` of the source).
abbrev pub byte : ℕ → ℕ → ℕ
byte w k = w / 2 ^ (8 * k) % 2 ^ 8

-- The native operations are a recursion on binary digits with fuel; any fuel above the first
-- operand gives the same digits.
module _ (z : ℕ → ℕ) (f : ℕ → ℕ → ℕ) where
  fuel_irrelevant : (n m a b : ℕ) → a ≤ n → a ≤ m → digits z f n a b ≡ digits z f m a b
  fuel_irrelevant n m zero b p q = both n m
    where
      both : (n m : ℕ) → digits z f n zero b ≡ digits z f m zero b
      both zero zero = refl
      both zero (suc m) = refl
      both (suc n) zero = refl
      both (suc n) (suc m) = refl
  fuel_irrelevant zero m (suc a) b p q = absurd (omega arith)
  fuel_irrelevant (suc n) zero (suc a) b p q = absurd (omega arith)
  fuel_irrelevant (suc n) (suc m) (suc a) b p q =
      rw (fuel_irrelevant n m (suc a / 2) (b / 2) (omega arith) (omega arith))

  low_digit :
      (a b : ℕ)
      → bitwise z f (suc a) b ≡ bitwise z f (suc a / 2) (b / 2) * 2 + f (suc a % 2) (b % 2)
  low_digit a b =
      omega (arith, fuel_irrelevant a (suc a / 2) (suc a / 2) (b / 2) (omega arith) (le_refl _))

pub bit_or-digit : (a b : ℕ) → bit_or a b ≡ bit_or (a / 2) (b / 2) * 2 + max (a % 2) (b % 2)
bit_or-digit zero b = simp bit_or-bitwise (omega arith)
bit_or-digit (suc a) b = simp bit_or-bitwise (low_digit (λ y. y) max a b)

pub bit_and-digit : (a b : ℕ) → bit_and a b ≡ bit_and (a / 2) (b / 2) * 2 + min (a % 2) (b % 2)
bit_and-digit zero b = simp bit_and-bitwise (omega arith)
bit_and-digit (suc a) b = simp bit_and-bitwise (low_digit (λ y. 0) min a b)

bit_or-zero : (a : ℕ) → bit_or a 0 ≡ a
bit_or-zero a = WellFounded.induction lt_wf {C = λ n. bit_or n 0 ≡ n} a λ n ih. halve n ih
  where
    halve : (n : ℕ) → ((m : ℕ) → m < n → bit_or m 0 ≡ m) → bit_or n 0 ≡ n
    halve zero ih = refl
    halve (suc n) ih = omega (arith, bit_or-digit (suc n) 0, ih (suc n / 2) (omega arith))

bit_and-zero : (a : ℕ) → bit_and a 0 ≡ 0
bit_and-zero a = WellFounded.induction lt_wf {C = λ n. bit_and n 0 ≡ 0} a λ n ih. halve n ih
  where
    halve : (n : ℕ) → ((m : ℕ) → m < n → bit_and m 0 ≡ 0) → bit_and n 0 ≡ 0
    halve zero ih = refl
    halve (suc n) ih = omega (arith, bit_and-digit (suc n) 0, ih (suc n / 2) (omega arith))

shift_suc : (q k : ℕ) → q * 2 ^ suc k ≡ 2 * (q * 2 ^ k)
shift_suc q k = omega (arith, ap (λ (t : ℕ). q * t) (pow-suc 2 k))

-- `(q << k) | r` is a sum when `r` fits `k` bits.
pub bit_or-add : (k q r : ℕ) → r < 2 ^ k → bit_or (q * 2 ^ k) r ≡ q * 2 ^ k + r
bit_or-add zero q r fits = ground (arith, bit_or-zero q)
bit_or-add (suc k) q r fits =
    ground
      (arith, bit_or-digit (q * 2 ^ suc k) r, shift_suc q k, bit_or-add k q (r / 2) (omega arith))

mask_keeps : (k q r : ℕ) → r < 2 ^ k → bit_and (q * 2 ^ k + r) (2 ^ k - 1) ≡ r
mask_keeps zero q r fits = rw bit_and-zero (omega arith)
mask_keeps (suc k) q r fits = ground (
  arith,
  bit_and-digit (q * 2 ^ suc k + r) (2 ^ suc k - 1),
  shift_suc q k,
  pow-suc 2 k,
  mask_keeps k q (r / 2) (omega arith),
)

-- `a & (2^k - 1)` is the remainder by `2 ^ k`.
pub bit_and-mod : (k a : ℕ) → bit_and a (2 ^ k - 1) ≡ a % 2 ^ k
bit_and-mod k a = ground (arith, one-le-pow k 2, mask_keeps k (a / 2 ^ k) (a % 2 ^ k))

-- `a & 0x01`.
pub bit_and-one : (a : ℕ) → bit_and a 1 ≡ a % 2
bit_and-one a = bit_and-mod 1 a

-- A test that every number below a bound passes, for tables that are checked by evaluation.
unfoldable pub every : (ℕ → Bool) → ℕ → Bool
every test zero = true
every test (suc n) = if test n then every test n else false

pub every_at : (test : ℕ → Bool) (x n : ℕ) → x < n → every test n ≡ true → test x ≡ true
unfolding every
every_at test x zero below passed = absurd (omega arith)
every_at test x (suc n) below passed = ground (arith, every_at test x n)
