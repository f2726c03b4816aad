-- ===== src/Bp/Field.antt =====
-- `bp_get` and the sign extension of lib/gx/register_decoder.cpp.
use mkwii_ps.Base.{
  ℕ, ◌-◌, ◌/◌, ◌%◌, ◌^◌, ◌<◌, ◌≡◌, bit_and, bit_or, bit_and_mask, ◌!=◌, if◌then◌else◌, arith,
}
use native.Mathlib.Nat.{one-le-pow, mod-lt}

-- `reg >> shift & (1u << size) - 1`.
unfoldable pub bp_get : ℕ → ℕ → ℕ → ℕ
bp_get reg size shift = bit_and (reg / 2 ^ shift) (2 ^ size - 1)

pub bp_get_lem : (reg size shift : ℕ) → bp_get reg size shift ≡ reg / 2 ^ shift % 2 ^ size
unfolding bp_get
bp_get_lem reg size shift = bit_and_mask size (reg / 2 ^ shift)

pub bp_get-lt : (reg size shift : ℕ) → bp_get reg size shift < 2 ^ size
bp_get-lt reg size shift =
    rw (bp_get_lem reg size shift) (mod-lt _ (one-le-pow size 2 (omega arith)))

-- `if (r & 0x400) r |= ~0x7FF;` on an s32, as its bit pattern.
unfoldable pub sign_extend_11 : ℕ → ℕ
sign_extend_11 r = if bit_and r 0x400 != 0 then bit_or r 0xFFFFF800 else r
