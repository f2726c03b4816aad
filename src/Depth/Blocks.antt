-- ===== src/Depth/Blocks.antt =====
-- A block of 128 by 128 pixels: the offset inside it tells the pixel.
use mkwii_ps.Base.{
  ℕ, zero, suc, ◌+◌, ◌*◌, ◌/◌, ◌%◌, ◌^◌, ◌≤◌, ◌<◌, ◌≡◌, refl, sym, ap, ◌∙◌, arith, Bool, true, ◌&&◌,
  ◌==◌, bit_and, bit_and_digit, bit_and_mask, bit, all_below, all_below-test,
}
use Prim.Native.Nat.{bit_and-bitwise}
use mkwii_ps.Depth.{shifted_mask, in_block}
use mkwii_ps.Depth.Words.{bit_and_high}

-- The column and the row of the word at `n`.
abbrev column_of : ℕ → ℕ
column_of n =
    bit 2 n
    + bit 4 n * 2
    + bit 6 n * 4
    + (bit 8 n + bit 12 n) % 2 * 8
    + bit 13 n * 16
    + (bit 11 n + bit 14 n) % 2 * 32
    + bit 15 n * 64

abbrev row_of : ℕ → ℕ
row_of n =
    bit 3 n
    + bit 5 n * 2
    + bit 7 n * 4
    + bit 12 n * 8
    + (bit 9 n + bit 13 n) % 2 * 16
    + (bit 10 n + bit 15 n) % 2 * 32
    + bit 14 n * 64

abbrev found : ℕ → ℕ → Bool
found x y = column_of (in_block x y) == x && row_of (in_block x y) == y

all_found : all_below 128 (λ x. all_below 128 (found x)) ≡ true
unfolding all_below in_block shifted_mask
all_found = refl

zero-bit_and : (b : ℕ) → bit_and 0 b ≡ 0
zero-bit_and b = simp bit_and-bitwise refl

bit_and_assoc : (n a b c : ℕ) → a ≤ n → bit_and (bit_and a b) c ≡ bit_and a (bit_and b c)
bit_and_assoc zero zero b c h = rw (zero-bit_and b, zero-bit_and c, zero-bit_and (bit_and b c)) refl
bit_and_assoc zero (suc a) b c h = absurd (omega arith)
bit_and_assoc (suc n) a b c h = omega (
  arith,
  bit_and_digit a b,
  bit_and_digit b c,
  bit_and_digit (bit_and a b) c,
  bit_and_digit a (bit_and b c),
  ap (λ x. bit_and x (c / 2)) (halves a b),
  ap (bit_and (a / 2)) (halves b c),
  bit_and_assoc n (a / 2) (b / 2) (c / 2) (omega arith),
)
  where
    halves : (x y : ℕ) → bit_and x y / 2 ≡ bit_and (x / 2) (y / 2)
    halves x y = omega (arith, bit_and_digit x y)

-- A mask of seven bits.
low_bits : (x m : ℕ) → bit_and 127 m ≡ m → bit_and (x % 128) m ≡ bit_and x m
low_bits x m e =
    ap (λ a. bit_and a m) (sym (bit_and_mask 7 x))
    ∙ bit_and_assoc x x 127 m (omega arith)
    ∙ ap (bit_and x) e

-- A shifted mask of seven bits looks at the coordinate inside the block.
shifted_mask-low :
    (x k m : ℕ)
    → x < 2 ^ 16
    → x * 2 ^ k % 2 ^ 32 / 2 ^ k ≡ x
    → x % 128 * 2 ^ k % 2 ^ 32 / 2 ^ k ≡ x % 128
    → bit_and 127 m ≡ m
    → shifted_mask (x % 128) k (m * 2 ^ k) ≡ shifted_mask x k (m * 2 ^ k)
unfolding shifted_mask
shifted_mask-low x k m h e f g =
    rw (bit_and_high k (x % 128 * 2 ^ k % 2 ^ 32) m, bit_and_high k (x * 2 ^ k % 2 ^ 32) m, e, f)
      (ap (λ a. a * 2 ^ k) (low_bits x m g))

in_block-low : (x y : ℕ) → x < 2 ^ 16 → y < 2 ^ 16 → in_block (x % 128) (y % 128) ≡ in_block x y
unfolding in_block
in_block-low x y h g =
    rw
      (
        shifted_mask-low y 3 0x1 g (omega arith) (omega arith) refl,
        shifted_mask-low y 4 0x2 g (omega arith) (omega arith) refl,
        shifted_mask-low y 5 0x7C g (omega arith) (omega arith) refl,
        shifted_mask-low y 9 0x8 g (omega arith) (omega arith) refl,
        shifted_mask-low y 8 0x40 g (omega arith) (omega arith) refl,
        shifted_mask-low x 2 0x1 h (omega arith) (omega arith) refl,
        shifted_mask-low x 3 0x2 h (omega arith) (omega arith) refl,
        shifted_mask-low x 4 0x44 h (omega arith) (omega arith) refl,
        shifted_mask-low x 5 0x18 h (omega arith) (omega arith) refl,
        shifted_mask-low x 6 0x20 h (omega arith) (omega arith) refl,
        shifted_mask-low x 9 0x50 h (omega arith) (omega arith) refl,
      )
      refl

-- The offset inside a block tells the column and the row there.
record Found (x y n : ℕ) : Type 0 where
  column : column_of n ≡ x % 128
  row : row_of n ≡ y % 128

in_block-Found : (x y : ℕ) → x < 2 ^ 16 → y < 2 ^ 16 → Found x y (in_block x y)
in_block-Found x y h g =
    rw⁻¹ (in_block-low x y h g)
      (record { column = ground (arith, here); row = ground (arith, here) })
  where
    here : found (x % 128) (y % 128) ≡ true
    here =
        all_below-test 128 (found (x % 128)) (y % 128)
          (all_below-test 128 (λ a. all_below 128 (found a)) (x % 128) all_found (omega arith))
          (omega arith)

-- Two pixels at the same place of their blocks.
pub in_block-same :
    (x y x' y' : ℕ)
    → x < 2 ^ 16
    → y < 2 ^ 16
    → x' < 2 ^ 16
    → y' < 2 ^ 16
    → in_block x y ≡ in_block x' y'
    → (x % 128 ≡ x' % 128) × (y % 128 ≡ y' % 128)
in_block-same x y x' y' a b c d e =
    let f = in_block-Found x y a b in
    let g = in_block-Found x' y' c d in
    (sym f.column ∙ ap column_of e ∙ g.column, sym f.row ∙ ap row_of e ∙ g.row)
