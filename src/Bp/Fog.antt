-- ===== src/Bp/Fog.antt =====
-- BP registers 0xEE to 0xF2: fog.
use mkwii_ps.Base.{ℕ, ◌*◌, ◌^◌, pos, ◌-ℤ◌, bit_and, bit_or}
use mkwii_ps.Platform.{Platform}
use mkwii_ps.State.Pixel.{FogState}
use mkwii_ps.State.Machine.{Machine, mark_pipeline_state_dirty, mark_state_dirty}
use mkwii_ps.Bp.Field.{bp_get}
use mkwii_ps.Bp.Colors.{unorm8}

-- The partial float of A and C: sign, eight bits of exponent, eleven of mantissa.
unfoldable pub partial_float : ℕ → ℕ
partial_float value =
    bit_or (bit_or (bp_get value 1 19 * 2 ^ 31) (bp_get value 8 11 * 2 ^ 23))
      (bp_get value 11 0 * 2 ^ 12)

abbrev with_fog : FogState → Machine → Machine
with_fog f m = record m { fog = f }

module _ ⦃p : Platform⦄ where
  -- `static_cast<float>(bMagnitude) / 8388638.0f`, shifted.
  unfoldable pub fog_b : ℕ → ℕ → ℕ
  fog_b magnitude b_s = p.ldexp (p.fdiv (p.of_u32 magnitude) (p.of_u32 8388638)) (pos b_s -ℤ pos 1)

  unfoldable pub fog0 : ℕ → Machine → Machine
  fog0 value m = mark_state_dirty (
      with_fog
        (record m.fog {
          fog0_raw = value;
          a_raw = partial_float value;
          a = p.ldexp (partial_float value) (pos (bit_and m.fog.fog2_raw 0x1F));
        })
        m)

  unfoldable pub fog1 : ℕ → Machine → Machine
  fog1 value m = mark_state_dirty (
      with_fog
        (record m.fog {
          fog1_raw = value;
          b_magnitude = bp_get value 24 0;
          b = fog_b (bp_get value 24 0) (bit_and m.fog.fog2_raw 0x1F);
        })
        m)

  unfoldable pub fog2 : ℕ → Machine → Machine
  fog2 value m =
      let b_s = bp_get value 5 0 in
      mark_state_dirty (
        with_fog
          (record m.fog {
            fog2_raw = value;
            b_shift = b_s;
            a_raw = partial_float m.fog.fog0_raw;
            a = p.ldexp (partial_float m.fog.fog0_raw) (pos b_s);
            b_magnitude = bp_get m.fog.fog1_raw 24 0;
            b = fog_b (bp_get m.fog.fog1_raw 24 0) b_s;
          })
          m)

  unfoldable pub fog3 : ℕ → Machine → Machine
  fog3 value m = mark_pipeline_state_dirty (
      with_fog
        (record m.fog {
          fog_type = bit_or (bp_get value 3 21) (bp_get value 1 20 * 2 ^ 3);
          c = partial_float value;
        })
        m)

  unfoldable pub fog_color : ℕ → Machine → Machine
  fog_color value m = mark_state_dirty (
      with_fog
        (record m.fog {
          color = record {
            x = unorm8 (bp_get value 8 16);
            y = unorm8 (bp_get value 8 8);
            z = unorm8 (bp_get value 8 0);
            w = p.of_u32 1;
          };
        })
        m)
