-- ===== src/Depth/Words.antt =====
-- The bits of an offset: words of 16 bits that are multiples of 4, under `&` and `^`.
use mkwii_ps.Base.{
  ℕ, zero, suc, ◌+◌, ◌*◌, ◌/◌, ◌%◌, ◌^◌, ◌≤◌, ◌<◌, ◌≡◌, refl, sym, ap, arith, bit_and,
  bit_and_digit, bit_and_mask, bit_xor_digit, bit_and-zero, double_pow,
}
use Prim.Native.Nat.{bit_xor, differ}
use native.Mathlib.Nat.{pow-suc, div-div-eq-div-mul, mul_comm}
use mkwii_ps.Depth.{shifted_mask, in_block, aligned}

differ-bit : (x y : ℕ) → x < 2 → y < 2 → differ x y < 2
differ-bit zero y p q = q
differ-bit (suc x) zero p q = p
differ-bit (suc x) (suc y) p q = differ-bit x y (omega arith) (omega arith)

bit_xor-below : (k a b : ℕ) → a < 2 ^ k → b < 2 ^ k → bit_xor a b < 2 ^ k
bit_xor-below zero zero zero p q = omega arith
bit_xor-below zero (suc a) b p q = absurd (omega arith)
bit_xor-below zero zero (suc b) p q = absurd (omega arith)
bit_xor-below (suc k) a b p q = omega (
  arith,
  pow-suc 2 k,
  bit_xor_digit a b,
  differ-bit (a % 2) (b % 2) (omega arith) (omega arith),
  bit_xor-below k (a / 2) (b / 2) (omega (arith, pow-suc 2 k)) (omega (arith, pow-suc 2 k)),
)

-- A byte offset of a word inside a block of 64 KiB.
pub record InBlock (n : ℕ) : Type 0 where
  pub below : n < 2 ^ 16
  pub word : n % 4 ≡ 0

even : (a b : ℕ) → a % 2 ≡ 0 → b % 2 ≡ 0 → differ (a % 2) (b % 2) ≡ 0
even a b p q = rw (p, q) refl

bit_xor-InBlock : {a b : ℕ} → InBlock a → InBlock b → InBlock (bit_xor a b)
bit_xor-InBlock {a} {b} h g = record {
  below = bit_xor-below 16 a b h.below g.below;
  word = omega (
    arith,
    h.word,
    g.word,
    bit_xor_digit a b,
    bit_xor_digit (a / 2) (b / 2),
    even a b (omega (arith, h.word)) (omega (arith, g.word)),
    even (a / 2) (b / 2) (omega (arith, h.word)) (omega (arith, g.word)),
  );
}

bit_and-at_most : (n a b : ℕ) → b ≤ n → bit_and a b ≤ b
bit_and-at_most zero a zero h = omega (arith, bit_and-zero a)
bit_and-at_most zero a (suc b) h = absurd (omega arith)
bit_and-at_most (suc n) a b h =
    omega (arith, bit_and_digit a b, bit_and-at_most n (a / 2) (b / 2) (omega arith))

bit_and-InBlock : (a : ℕ) {b : ℕ} → InBlock b → InBlock (bit_and a b)
bit_and-InBlock a {b} h = record {
  below = omega (arith, bit_and-at_most b a b (omega arith), h.below);
  word = omega (arith, h.word, bit_and_digit a b, bit_and_digit (a / 2) (b / 2));
}

shifted_mask-InBlock : (x k mask : ℕ) → InBlock mask → InBlock (shifted_mask x k mask)
unfolding shifted_mask
shifted_mask-InBlock x k mask h = bit_and-InBlock _ h

bit_and_double : (a c : ℕ) → bit_and a (2 * c) ≡ 2 * bit_and (a / 2) c
bit_and_double a c = omega (arith, bit_and_digit a (2 * c), ap (bit_and (a / 2)) half)
  where
    half : 2 * c / 2 ≡ c
    half = omega arith

pub bit_and_high : (k a m : ℕ) → bit_and a (m * 2 ^ k) ≡ bit_and (a / 2 ^ k) m * 2 ^ k
bit_and_high zero a m = rw (whole a, single m) (sym (single (bit_and a m)))
  where
    whole : (n : ℕ) → n / 2 ^ 0 ≡ n
    whole n = omega arith

    single : (n : ℕ) → n * 2 ^ 0 ≡ n
    single n = omega arith
bit_and_high (suc k) a m =
    rw
      (
        double_pow m k,
        double_pow (bit_and (a / 2 ^ suc k) m) k,
        bit_and_double a (m * 2 ^ k),
        bit_and_high k (a / 2) m,
        pow-suc 2 k,
        mul_comm (2 ^ k) 2,
        ← div-div-eq-div-mul a 2 (2 ^ k),
      )
      refl

-- `& ~127u` rounds up to a multiple of 128.
pub aligned_up : (n : ℕ) → n ≤ 16384 → aligned n ≡ (n + 127) / 128 * 128
unfolding aligned
aligned_up n h = rw (fits, masked, kept) refl
  where
    fits : (n + 127) % 2 ^ 32 ≡ n + 127
    fits = omega arith

    masked : bit_and (n + 127) 0xFFFFFF80 ≡ bit_and ((n + 127) / 128) 0x1FFFFFF * 128
    masked = bit_and_high 7 (n + 127) 0x1FFFFFF

    kept : bit_and ((n + 127) / 128) 0x1FFFFFF ≡ (n + 127) / 128
    kept = omega (arith, bit_and_mask 25 ((n + 127) / 128))

word : (n : ℕ) → n < 2 ^ 16 → n % 4 ≡ 0 → InBlock n
word n h g = record { below = h; word = g }

-- Every mask is of 16 bits and a multiple of 4.
pub in_block-InBlock : (x y : ℕ) → InBlock (in_block x y)
unfolding in_block
in_block-InBlock x y =
    bit_xor-InBlock
      (bit_xor-InBlock
        (bit_xor-InBlock
          (bit_xor-InBlock
            (bit_xor-InBlock (bit_xor-InBlock y3 (x_at 2 0x4 (omega arith) refl))
              (x_at 3 0x10 (omega arith) refl))
            (x_at 4 0x440 (omega arith) refl))
          (x_at 5 0x300 (omega arith) refl))
        (x_at 6 0x800 (omega arith) refl))
      (x_at 9 0xA000 (omega arith) refl)
  where
    x_at : (k mask : ℕ) → mask < 2 ^ 16 → mask % 4 ≡ 0 → InBlock (shifted_mask x k mask)
    x_at k mask h g = shifted_mask-InBlock x k mask (word mask h g)

    y_at : (k mask : ℕ) → mask < 2 ^ 16 → mask % 4 ≡ 0 → InBlock (shifted_mask y k mask)
    y_at k mask h g = shifted_mask-InBlock y k mask (word mask h g)

    y3 : InBlock (
        bit_xor
          (bit_xor
            (bit_xor
              (bit_xor (shifted_mask y 3 0x8) (shifted_mask y 4 0x20))
              (shifted_mask y 5 0xF80))
            (shifted_mask y 9 0x1000))
          (shifted_mask y 8 0x4000))
    y3 =
        bit_xor-InBlock
          (bit_xor-InBlock
            (bit_xor-InBlock
              (bit_xor-InBlock (y_at 3 0x8 (omega arith) refl) (y_at 4 0x20 (omega arith) refl))
              (y_at 5 0xF80 (omega arith) refl))
            (y_at 9 0x1000 (omega arith) refl))
          (y_at 8 0x4000 (omega arith) refl)
