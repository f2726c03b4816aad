-- ===== src/Input/Sample.antt =====
-- ps5/input/native_pad.h and pad_sample.cpp: a sample of the pad, decoded from the driver's bytes.
-- A null pointer is the empty buffer. A byte read outside the buffer is a fault.
use mkwii_ps.Base.{
  ℕ, zero, suc, ◌+◌, ◌-◌, ◌*◌, ◌/◌, ◌^◌, Bool, false, not, ◌||◌, ltb, ◌==◌, ◌!=◌, if◌then◌else◌, ℤ,
  pos, sub_ℕ, Array, Option, some, ◌>>=◌, List, get_elem?, length, bit_and,
}

pub record PadSample : Type 0 where
  pub buttons : ℕ
  pub axes : Array ℤ
  pub connected : Bool
  pub intercepted : Bool
  pub timestamp : ℕ

abbrev pub no_sample : PadSample
no_sample = record {
  buttons = 0;
  axes = λ _. pos 0;
  connected = false;
  intercepted = false;
  timestamp = 0;
}

-- `memcpy` of `n` bytes into a little-endian number.
unfoldable pub little_endian : List ℕ → ℕ → ℕ → Option ℕ
little_endian bytes at zero = some 0
little_endian bytes at (suc n) = do
  b ← get_elem? bytes at
  rest ← little_endian bytes (at + 1) n
  some (b + rest * 2 ^ 8)

-- A stick from its byte: `delta * 256` below the middle, `delta * 32767 / 127` from it on.
unfoldable pub stick_axis : ℕ → ℤ
stick_axis b = if ltb b 128 then sub_ℕ 0 ((128 - b) * 256) else pos ((b - 128) * 32767 / 127)

unfoldable pub trigger_axis : ℕ → ℤ
trigger_axis b = pos (b * 32767 / 255)

-- The axes of four sticks and two triggers.
abbrev pub axes_of : Array ℕ → Array ℤ
axes_of b i = if ltb i 4 then stick_axis (b i) else if ltb i 6 then trigger_axis (b i) else pos 0

unfoldable pub decode_pad_sample : List ℕ → Option PadSample
decode_pad_sample bytes =
    let run : Option PadSample = do
      buttons ← little_endian bytes 0 4
      present ← get_elem? bytes 76
      timestamp ← little_endian bytes 80 8
      b4 ← get_elem? bytes 4
      b5 ← get_elem? bytes 5
      b6 ← get_elem? bytes 6
      b7 ← get_elem? bytes 7
      b8 ← get_elem? bytes 8
      b9 ← get_elem? bytes 9
      let connected = present != 0
      let intercepted = bit_and buttons 0x80000000 != 0
      let seen = record no_sample {
        connected = connected;
        intercepted = intercepted;
        timestamp = timestamp;
      }
      let read : Array ℕ = λ i.
          if i == 0
          then b4
          else if i == 1
          then b5
          else if i == 2
          then b6
          else if i == 3
          then b7
          else if i == 4
          then b8
          else b9
      some (
          if not connected || intercepted
          then seen
          else record seen { buttons = buttons; axes = axes_of read })
    in if ltb (length bytes) 88 then some no_sample else run
