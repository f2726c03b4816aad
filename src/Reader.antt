-- ===== src/Reader.antt =====
-- lib/gx/command_reader.hpp. A pointer is the function from an offset to the byte there, `none`
-- where no byte of the buffer stands: a read past the buffer is a fault of the model.
-- The host is little-endian.
pub mod Total
use mkwii_ps.Base.{ℕ, ◌+◌, ◌*◌, ◌^◌, Bool, if◌then◌else◌, Option, some, ◌>>=◌}
use mkwii_ps.Platform.{Platform}

abbrev pub Bytes : Type 0
Bytes = ℕ → Option ℕ

-- `ptr + n`.
abbrev pub advance : Bytes → ℕ → Bytes
advance ptr n i = ptr (n + i)

module _ ⦃p : Platform⦄ where
  unfoldable pub read_u16 : Bytes → Bool → Option ℕ
  read_u16 ptr big_endian = do
    b0 ← ptr 0
    b1 ← ptr 1
    some (if big_endian then p.bswap16 (b0 + b1 * 2 ^ 8) else b0 + b1 * 2 ^ 8)

  unfoldable pub read_u32 : Bytes → Bool → Option ℕ
  read_u32 ptr big_endian = do
    b0 ← ptr 0
    b1 ← ptr 1
    b2 ← ptr 2
    b3 ← ptr 3
    let val = b0 + b1 * 2 ^ 8 + b2 * 2 ^ 16 + b3 * 2 ^ 24
    some (if big_endian then p.bswap32 val else val)

  -- Two words of the host.
  unfoldable pub read_u64 : Bytes → Bool → Option ℕ
  unfolding read_u32
  read_u64 ptr big_endian = do
    lo ← read_u32 ptr Bool.false
    hi ← read_u32 (advance ptr 4) Bool.false
    let loaded = lo + hi * 2 ^ 32
    some (if big_endian then p.bswap64 loaded else loaded)

  -- The bits of the word are the float.
  unfoldable pub read_f32 : Bytes → Bool → Option ℕ
  unfolding read_u32
  read_f32 ptr big_endian = read_u32 ptr big_endian
