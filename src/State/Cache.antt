-- ===== src/State/Cache.antt =====
-- lib/gx/register_state.hpp: `xfRegCache`, a value and a validity bit for each XF register below 0x60.
use mkwii_ps.Base.{ℕ, ◌-◌, ◌/◌, ◌%◌, ◌^◌, Bool, ◌&&◌, ◌==◌, ◌!=◌, Array, update, bit_and, bit_or}

-- `xfRegCacheValid` holds 64 bits in each of its two words.
pub record XfCache : Type 0 where
  pub values : Array ℕ
  pub valid : Array ℕ

-- `u64{1} << (reg & 63)`.
abbrev pub valid_bit : ℕ → ℕ
valid_bit reg = 2 ^ (reg % 64)

abbrev pub all_ones : ℕ
all_ones = 2 ^ 64 - 1

unfoldable pub xf_reg_matches : XfCache → ℕ → ℕ → Bool
xf_reg_matches c reg val =
    (bit_and (c.valid (reg / 64) / 2 ^ (reg % 64)) 1 != 0) && (c.values reg == val)

unfoldable pub store_xf_reg : ℕ → ℕ → XfCache → XfCache
store_xf_reg reg val c = record {
  values = update c.values reg val;
  valid = update c.valid (reg / 64) (bit_or (c.valid (reg / 64)) (valid_bit reg));
}

-- `&= ~(u64{1} << (reg & 63))`.
unfoldable pub invalidate_xf_reg : ℕ → XfCache → XfCache
invalidate_xf_reg reg c = record c {
  valid = update c.valid (reg / 64) (bit_and (c.valid (reg / 64)) (all_ones - valid_bit reg));
}
