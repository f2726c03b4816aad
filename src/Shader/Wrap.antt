-- ===== src/Shader/Wrap.antt =====
-- `tev_s24_wrap`: two's complement of 24 bits.
use mkwii_ps.Base.{
  ℕ, ◌-◌, ◌*◌, ◌%◌, ◌^◌, ◌≤◌, ◌<◌, ◌≡◌, refl, ◌!=◌, ltb, if◌then◌else◌, arith, bit, bit_and_mask,
  bit_and_power, ℤ, pos, negsuc, pos_part, neg_part,
}
use mkwii_ps.Shader.{word32, tev_s24_wrap}

-- A number of 24 bits with its sign.
abbrev pub signed24 : ℕ → ℤ
signed24 w = if ltb w (2 ^ 23) then pos w else negsuc (2 ^ 24 - w - 1)

by_sign_bit :
    (w : ℕ)
    → w < 2 ^ 24
    → (if bit 23 w * 2 ^ 23 != 0 then negsuc (0x01000000 - w - 1) else pos w) ≡ signed24 w
by_sign_bit w lt = ground arith

wrapped : (value : ℤ) → tev_s24_wrap value ≡ signed24 (word32 value % 2 ^ 24)
unfolding tev_s24_wrap
wrapped value =
    rw (bit_and_mask 24 (word32 value), bit_and_power 23 (word32 value % 2 ^ 24))
      (by_sign_bit (word32 value % 2 ^ 24) (omega arith))

-- In 24 bits with a sign, and the same number in the low 24 bits of the word.
pub record IsWrapped (value r : ℤ) : Type 0 where
  pub below : pos_part r < 2 ^ 23
  pub above : neg_part r ≤ 2 ^ 23
  pub congruent : word32 r % 2 ^ 24 ≡ word32 value % 2 ^ 24

signed24-IsWrapped : (value : ℤ) (w : ℕ) → w ≡ word32 value % 2 ^ 24 → IsWrapped value (signed24 w)
signed24-IsWrapped value w e = record {
  below = ground arith;
  above = ground arith;
  congruent = ground arith;
}

-- A number that is in range is the one that its word stands for.
signed24-fixed :
    (value : ℤ)
    → pos_part value < 2 ^ 23
    → neg_part value ≤ 2 ^ 23
    → signed24 (word32 value % 2 ^ 24) ≡ value
signed24-fixed (pos n) below above = ground arith
signed24-fixed (negsuc n) below above = ground arith

-- The result lies from -2^23 to 2^23 - 1, has the low 24 bits of the value, and a second wrap does not
-- change it.
pub tev_s24_wrap-IsWrapped :
    (value : ℤ)
    → IsWrapped value (tev_s24_wrap value)
      × (tev_s24_wrap (tev_s24_wrap value) ≡ tev_s24_wrap value)
tev_s24_wrap-IsWrapped value =
    (once, rw (wrapped (tev_s24_wrap value)) (signed24-fixed _ once.below once.above))
  where
    once : IsWrapped value (tev_s24_wrap value)
    once = rw (wrapped value) (signed24-IsWrapped value _ refl)
