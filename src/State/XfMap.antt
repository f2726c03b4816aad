-- ===== src/State/XfMap.antt =====
-- `xfRegCache` of lib/gx/register_state.hpp as a finite map from registers to values.
use mkwii_ps.Base.{
  ℕ, ◌-◌, ◌/◌, ◌%◌, ◌^◌, ◌<◌, ◌≡◌, ◌↔◌, true, ◌==◌, if◌then◌else◌, bit_and, arith, Option, none,
  some, bit, bit-bit_and, bit-bit_or, bit_complement, bit_power, bit_and_mask,
}
use native.Mathlib.Nat.{pow-le-pow_right}
use mkwii_ps.State.Cache.{
  XfCache, xf_reg_matches, store_xf_reg, invalidate_xf_reg, valid_bit, all_ones,
}

-- The value that the cache holds for a register.
unfoldable pub lookup : XfCache → ℕ → Option ℕ
lookup c reg = if bit (reg % 64) (c.valid (reg / 64)) == 1 then some (c.values reg) else none

low_bit : (x : ℕ) → bit_and x 1 ≡ x % 2
low_bit x = bit_and_mask 1 x

-- A number below 64 and its word name a register.
same_register : (r s : ℕ) → r / 64 ≡ s / 64 → r % 64 ≡ s % 64 → r ≡ s
same_register r s h k = omega arith

-- The bits of the complement of one bit.
bit-clear : (i j : ℕ) → i < 64 → j < 64 → bit i (all_ones - 2 ^ j) ≡ (if i == j then 0 else 1)
bit-clear i j h k =
    let fits : 2 ^ j < 2 ^ 64 =
      omega (arith, pow-le-pow_right {n = 2} (omega arith) {i = j} {j = 63} (omega arith)) in
    ground (arith, bit_power i j, bit_complement i 64 (2 ^ j) h fits)

-- After a store the register has the value; the others are as before.
lookup-store_xf_reg :
    (c : XfCache) (r v s : ℕ)
    → lookup (store_xf_reg r v c) s ≡ (if s == r then some v else lookup c s)
unfolding lookup store_xf_reg
lookup-store_xf_reg c r v s = ground (
  arith,
  same_register r s,
  bit-bit_or (s % 64) (c.valid (r / 64)) (valid_bit r),
  bit_power (s % 64) (r % 64),
)

lookup-invalidate_xf_reg :
    (c : XfCache) (r s : ℕ)
    → lookup (invalidate_xf_reg r c) s ≡ (if s == r then none else lookup c s)
unfolding lookup invalidate_xf_reg
lookup-invalidate_xf_reg c r s = ground (
  arith,
  same_register r s,
  bit-bit_and (s % 64) (c.valid (r / 64)) (all_ones - valid_bit r),
  bit-clear (s % 64) (r % 64),
)

xf_reg_matches-lookup :
    (c : XfCache) (r v : ℕ) → (xf_reg_matches c r v ≡ true) ↔ (lookup c r ≡ some v)
unfolding lookup xf_reg_matches
xf_reg_matches-lookup c r v = ground (arith, low_bit (c.valid (r / 64) / 2 ^ (r % 64)))

-- The cache and its three operations as a finite map.
pub record RefinesMap (c : XfCache) : Type 0 where
  pub stores : (r v s : ℕ) → lookup (store_xf_reg r v c) s ≡ (if s == r then some v else lookup c s)
  pub clears : (r s : ℕ) → lookup (invalidate_xf_reg r c) s ≡ (if s == r then none else lookup c s)
  pub matches : (r v : ℕ) → (xf_reg_matches c r v ≡ true) ↔ (lookup c r ≡ some v)

-- The cache of XF registers is a finite map: a store sets the one register and no other, an
-- invalidation removes the one register and no other, and a match says that the register has the value.
pub xf_cache-RefinesMap : (c : XfCache) → RefinesMap c
xf_cache-RefinesMap c = record {
  stores = lookup-store_xf_reg c;
  clears = lookup-invalidate_xf_reg c;
  matches = xf_reg_matches-lookup c;
}
