-- ===== src/Base/Bits.antt =====
-- `&` and `|` of the native numbers by digits: the law for the lowest digit, masks, single bits.
use Prim.Native.Nat.{
  ℕ, zero, suc, ◌+◌, ◌-◌, ◌*◌, ◌/◌, ◌%◌, ◌^◌, ◌≤◌, ◌<◌, min, max, bit_and, bit_or, bit_xor, digits,
  bitwise, bit_and-bitwise, bit_or-bitwise, bit_xor-bitwise, differ,
}
use mathlib.Core.Path.{◌≡◌, refl, ap}
use mathlib.Core.Bool.{Bool, true, ◌&&◌}
use native.Mathlib.Nat.{pow-suc, one-le-pow, div-div-eq-div-mul, mul_comm}
use native.Mathlib.Omega.{arith}
use mkwii_ps.Base.Tests.{◌==◌, if◌then◌else◌}

-- The digit recursion gives one result on any fuel that is enough.
module _ (z : ℕ → ℕ) (f : ℕ → ℕ → ℕ) where
  digits_enough : (n m a b : ℕ) → a ≤ n → a ≤ m → digits z f n a b ≡ digits z f m a b
  digits_enough zero zero a b p q = refl
  digits_enough zero (suc m) zero b p q = refl
  digits_enough zero (suc m) (suc a) b p q = absurd (omega arith)
  digits_enough (suc n) zero zero b p q = refl
  digits_enough (suc n) zero (suc a) b p q = absurd (omega arith)
  digits_enough (suc n) (suc m) zero b p q = refl
  digits_enough (suc n) (suc m) (suc a) b p q =
      rw (digits_enough n m (suc a / 2) (b / 2) (omega arith) (omega arith))

  bitwise_digit :
      (a b : ℕ)
      → bitwise z f (suc a) b ≡ bitwise z f (suc a / 2) (b / 2) * 2 + f (suc a % 2) (b % 2)
  bitwise_digit a b =
      omega (arith, digits_enough a (suc a / 2) (suc a / 2) (b / 2) (omega arith) (omega arith))

pub bit_and_digit : (a b : ℕ) → bit_and a b ≡ bit_and (a / 2) (b / 2) * 2 + min (a % 2) (b % 2)
bit_and_digit zero b = simp bit_and-bitwise (omega arith)
bit_and_digit (suc a) b = simp bit_and-bitwise (bitwise_digit (λ y. 0) min a b)

pub bit_or_digit : (a b : ℕ) → bit_or a b ≡ bit_or (a / 2) (b / 2) * 2 + max (a % 2) (b % 2)
bit_or_digit zero b = simp bit_or-bitwise (omega arith)
bit_or_digit (suc a) b = simp bit_or-bitwise (bitwise_digit (λ y. y) max a b)

pub bit_xor_digit : (a b : ℕ) → bit_xor a b ≡ bit_xor (a / 2) (b / 2) * 2 + differ (a % 2) (b % 2)
bit_xor_digit zero b = simp bit_xor-bitwise (omega arith)
bit_xor_digit (suc a) b = simp bit_xor-bitwise (bitwise_digit (λ y. y) differ a b)

bit_and_none : (n a : ℕ) → a ≤ n → bit_and a 0 ≡ 0
bit_and_none n zero h = refl
bit_and_none zero (suc a) h = absurd (omega arith)
bit_and_none (suc n) (suc a) h =
    omega (arith, bit_and_digit (suc a) 0, bit_and_none n (suc a / 2) (omega arith))

pub bit_and-zero : (a : ℕ) → bit_and a 0 ≡ 0
bit_and-zero a = bit_and_none a a (omega arith)

pub double_pow : (q k : ℕ) → q * 2 ^ suc k ≡ 2 * (q * 2 ^ k)
double_pow q k = omega (arith, ap (λ (t : ℕ). q * t) (pow-suc 2 k))

-- The low `k` bits of a number that is split into high and low part.
bit_and_low : (k q r : ℕ) → r < 2 ^ k → bit_and (q * 2 ^ k + r) (2 ^ k - 1) ≡ r
bit_and_low zero q r h = rw bit_and-zero (omega arith)
bit_and_low (suc k) q r h = ground (
  arith,
  bit_and_digit (q * 2 ^ suc k + r) (2 ^ suc k - 1),
  double_pow q k,
  pow-suc 2 k,
  bit_and_low k q (r / 2) (omega arith),
)

-- A mask of `k` low bits is the remainder by `2 ^ k`.
pub bit_and_mask : (k a : ℕ) → bit_and a (2 ^ k - 1) ≡ a % 2 ^ k
bit_and_mask k a = ground (arith, one-le-pow k 2, bit_and_low k (a / 2 ^ k) (a % 2 ^ k))

-- Bit `i` of a word.
abbrev pub bit : ℕ → ℕ → ℕ
bit i x = x / 2 ^ i % 2

bit-suc : (i x : ℕ) → bit (suc i) x ≡ bit i (x / 2)
bit-suc i x = rw (pow-suc 2 i, mul_comm (2 ^ i) 2, ← div-div-eq-div-mul x 2 (2 ^ i))

pub bit-bit_and : (i a b : ℕ) → bit i (bit_and a b) ≡ min (bit i a) (bit i b)
bit-bit_and zero a b = omega (arith, bit_and_digit a b)
bit-bit_and (suc i) a b =
    rw (bit-suc i (bit_and a b), bit-suc i a, bit-suc i b, ← bit-bit_and i (a / 2) (b / 2), half)
  where
    half : bit_and a b / 2 ≡ bit_and (a / 2) (b / 2)
    half = omega (arith, bit_and_digit a b)

pub bit-bit_or : (i a b : ℕ) → bit i (bit_or a b) ≡ max (bit i a) (bit i b)
bit-bit_or zero a b = omega (arith, bit_or_digit a b)
bit-bit_or (suc i) a b =
    rw (bit-suc i (bit_or a b), bit-suc i a, bit-suc i b, ← bit-bit_or i (a / 2) (b / 2), half)
  where
    half : bit_or a b / 2 ≡ bit_or (a / 2) (b / 2)
    half = omega (arith, bit_or_digit a b)

-- The complement in `k` bits flips each of them.
pub bit_complement : (i k x : ℕ) → i < k → x < 2 ^ k → bit i (2 ^ k - 1 - x) ≡ 1 - bit i x
bit_complement i zero x lt fits = absurd (omega arith)
bit_complement zero (suc k) x lt fits = omega (arith, pow-suc 2 k, one-le-pow k 2)
bit_complement (suc i) (suc k) x lt fits = rw (
  bit-suc i (2 ^ suc k - 1 - x),
  bit-suc i x,
  ← bit_complement i k (x / 2) (omega arith) (omega (arith, pow-suc 2 k)),
  half,
)
  where
    half : (2 ^ suc k - 1 - x) / 2 ≡ 2 ^ k - 1 - x / 2
    half = omega (arith, pow-suc 2 k)

-- A number shifted by `k` has no bits below `k`.
pub bit_shifted : (i k r : ℕ) → i < k → bit i (r * 2 ^ k) ≡ 0
bit_shifted i zero r lt = absurd (omega arith)
bit_shifted zero (suc k) r lt = omega (arith, double_pow r k)
bit_shifted (suc i) (suc k) r lt =
    rw (bit-suc i (r * 2 ^ suc k), half) (bit_shifted i k r (omega arith))
  where
    half : r * 2 ^ suc k / 2 ≡ r * 2 ^ k
    half = omega (arith, double_pow r k)

-- The mask of a single bit.
pub bit_and_power : (k x : ℕ) → bit_and x (2 ^ k) ≡ bit k x * 2 ^ k
bit_and_power zero x = omega (arith, bit_and_mask 1 x)
bit_and_power (suc k) x = omega (
  arith,
  bit_and_digit x (2 ^ suc k),
  half,
  pow-suc 2 k,
  double_pow (bit k (x / 2)) k,
  bit_and_power k (x / 2),
  bit-suc k x,
  ap (λ (b : ℕ). b * 2 ^ suc k) (bit-suc k x),
  ap (λ (b : ℕ). bit_and (x / 2) b) half,
)
  where
    half : 2 ^ suc k / 2 ≡ 2 ^ k
    half = omega (arith, pow-suc 2 k)

pub bit-zero : (i : ℕ) → bit i 0 ≡ 0
bit-zero zero = refl
bit-zero (suc i) = rw (bit-suc i 0) (bit-zero i)

-- The bits of a power of two.
pub bit_power : (i j : ℕ) → bit i (2 ^ j) ≡ (if i == j then 1 else 0)
bit_power zero zero = refl
bit_power zero (suc j) = ground (arith, pow-suc 2 j)
bit_power (suc i) zero = ground (arith, bit-suc i 1, bit-zero i)
bit_power (suc i) (suc j) = ground (arith, bit-suc i (2 ^ suc j), half, bit_power i j)
  where
    half : 2 ^ suc j / 2 ≡ 2 ^ j
    half = omega (arith, pow-suc 2 j)

bit_or-zero_fuel : (n a : ℕ) → a ≤ n → bit_or a 0 ≡ a
bit_or-zero_fuel n zero h = refl
bit_or-zero_fuel zero (suc a) h = absurd (omega arith)
bit_or-zero_fuel (suc n) (suc a) h =
    omega (arith, bit_or_digit (suc a) 0, bit_or-zero_fuel n (suc a / 2) (omega arith))

-- `(high << k) | low` is a sum where `low` fits.
pub bit_or_sum : (k high low : ℕ) → low < 2 ^ k → bit_or (high * 2 ^ k) low ≡ high * 2 ^ k + low
bit_or_sum zero high low h = ground (arith, bit_or-zero_fuel high high)
bit_or_sum (suc k) high low h = ground (
  arith,
  bit_or_digit (high * 2 ^ suc k) low,
  double_pow high k,
  pow-suc 2 k,
  bit_or_sum k high (low / 2) (omega arith),
)

-- Over a small range, a table decides.
unfoldable pub all_below : ℕ → (ℕ → Bool) → Bool
all_below zero test = true
all_below (suc n) test = test n && all_below n test

pub all_below-test :
    (n : ℕ) (test : ℕ → Bool) (x : ℕ) → all_below n test ≡ true → x < n → test x ≡ true
unfolding all_below
all_below-test zero test x h lt = absurd (omega arith)
all_below-test (suc n) test x h lt = ground (arith, all_below-test n test x)

bit_or_zero : (b : ℕ) → bit_or 0 b ≡ b
bit_or_zero b = simp bit_or-bitwise refl

-- `low | (high << k)` is a sum where `low` fits.
pub bit_or_above : (k low high : ℕ) → low < 2 ^ k → bit_or low (high * 2 ^ k) ≡ low + high * 2 ^ k
bit_or_above zero zero high h = omega (arith, bit_or_zero (high * 2 ^ 0))
bit_or_above zero (suc low) high h = absurd (omega arith)
bit_or_above (suc k) low high h = ground (
  arith,
  bit_or_digit low (high * 2 ^ suc k),
  double_pow high k,
  pow-suc 2 k,
  bit_or_above k (low / 2) high (omega arith),
)
