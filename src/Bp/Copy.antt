-- ===== src/Bp/Copy.antt =====
-- BP registers of the frame-buffer copies: 0x01 to 0x04, 0x49 to 0x54.
use mkwii_ps.Base.{
  ℕ, zero, suc, ◌+◌, ◌-◌, ◌*◌, ◌/◌, ◌%◌, ◌^◌, Bool, false, ◌||◌, ◌!=◌, if◌then◌else◌, pos, Array,
  update, modify, get_or, List, [], ◌∷◌,
}
use mkwii_ps.Platform.{Platform}
use mkwii_ps.State.Copy.{CopyState}
use mkwii_ps.State.Machine.{Machine, mark_state_dirty}
use mkwii_ps.Bp.Field.{bp_get}
use mkwii_ps.Bp.Colors.{unorm8}

abbrev with_copy : CopyState → Machine → Machine
with_copy c m = record m { copy = c }

abbrev pub default_vfilter : List ℕ
default_vfilter = 0 ∷ 0 ∷ 21 ∷ 22 ∷ 21 ∷ 0 ∷ 0 ∷ []

-- `aa |= sample[0] != 6 || sample[1] != 6` over the samples from `i` on.
unfoldable pub any_sample_moved : ℕ → ℕ → Array (Array ℕ) → Bool
any_sample_moved zero i t = false
any_sample_moved (suc n) i t = (t i 0 != 6 || t i 1 != 6) || any_sample_moved n (i + 1) t

-- `vf |= copyFilterVFilter[i] != DefaultVFilter[i]`.
unfoldable pub any_tap_changed : ℕ → ℕ → Array ℕ → Bool
any_tap_changed zero i t = false
any_tap_changed (suc n) i t = t i != get_or default_vfilter i 0 || any_tap_changed n (i + 1) t

unfoldable pub refresh_copy_filter_flags : CopyState → CopyState
refresh_copy_filter_flags c = record c {
  copy_filter_aa = any_sample_moved 12 0 c.copy_filter_sample_pattern;
  copy_filter_vf = any_tap_changed 7 0 c.copy_filter_vfilter;
}

-- Six 4-bit samples from `first` on: `[sample / 2][sample % 2]`.
unfoldable pub store_samples : ℕ → ℕ → ℕ → ℕ → Array (Array ℕ) → Array (Array ℕ)
store_samples zero i first value t = t
store_samples (suc n) i first value t = store_samples n (i + 1) first value (
    modify t ((first + i) / 2) (λ sample. update sample ((first + i) % 2) (bp_get value 4 (i * 4))))

unfoldable pub sample_pattern : ℕ → ℕ → Machine → Machine
sample_pattern reg_id value m =
    with_copy
      (refresh_copy_filter_flags (record m.copy {
        copy_filter_sample_pattern =
            store_samples 6 0 ((reg_id - 0x01) * 6) value m.copy.copy_filter_sample_pattern;
      }))
      m

unfoldable pub vfilter_low : ℕ → Machine → Machine
vfilter_low value m =
    with_copy
      (refresh_copy_filter_flags (record m.copy {
        copy_filter_vfilter =
            update
              (update
                (update (update m.copy.copy_filter_vfilter 0 (bp_get value 6 0)) 1
                  (bp_get value 6 6))
                2 (bp_get value 6 12))
              3 (bp_get value 6 18);
      }))
      m

unfoldable pub vfilter_high : ℕ → Machine → Machine
vfilter_high value m =
    with_copy
      (refresh_copy_filter_flags (record m.copy {
        copy_filter_vfilter =
            update
              (update (update m.copy.copy_filter_vfilter 4 (bp_get value 6 0)) 5 (bp_get value 6 6))
              6 (bp_get value 6 12);
      }))
      m

unfoldable pub disp_copy_origin : ℕ → Machine → Machine
disp_copy_origin value m =
    with_copy
      (record m.copy {
        disp_copy_src = record m.copy.disp_copy_src {
          x = pos (bp_get value 10 0);
          y = pos (bp_get value 10 10);
        };
      })
      m

unfoldable pub disp_copy_size : ℕ → Machine → Machine
disp_copy_size value m =
    with_copy
      (record m.copy {
        disp_copy_src = record m.copy.disp_copy_src {
          width = pos (bp_get value 10 0 + 1);
          height = pos (bp_get value 10 10 + 1);
        };
      })
      m

-- The cast to u16 keeps all fourteen bits.
unfoldable pub disp_copy_stride : ℕ → Machine → Machine
disp_copy_stride value m =
    with_copy (record m.copy { disp_copy_dst_width = bp_get value 10 0 * 2 ^ 4 % 2 ^ 16 }) m

unfoldable pub copy_control : ℕ → Machine → Machine
copy_control value m =
    with_copy
      (record m.copy {
        copy_clamp = bp_get value 2 0;
        tex_copy_fmt = bp_get value 4 3;
        disp_copy_gamma = bp_get value 2 7;
        tex_copy_half_scale = bp_get value 1 9 != 0;
        disp_copy_frame2_field = bp_get value 2 12;
      })
      m

unfoldable pub clear_depth_reg : ℕ → Machine → Machine
clear_depth_reg value m =
    mark_state_dirty (with_copy (record m.copy { clear_depth = bp_get value 24 0 }) m)

module _ ⦃p : Platform⦄ where
  unfoldable pub disp_copy_scale : ℕ → Machine → Machine
  disp_copy_scale value m =
      let i_scale = bp_get value 9 0 in
      if i_scale != 0
      then with_copy
          (record m.copy { disp_copy_y_scale = p.fdiv (p.of_u32 256) (p.of_u32 i_scale) }) m
      else m

  unfoldable pub clear_color_ra : ℕ → Machine → Machine
  clear_color_ra value m = mark_state_dirty (
      with_copy
        (record m.copy {
          clear_color = record m.copy.clear_color {
            x = unorm8 (bp_get value 8 0);
            w = unorm8 (bp_get value 8 8);
          };
        })
        m)

  unfoldable pub clear_color_bg : ℕ → Machine → Machine
  clear_color_bg value m = mark_state_dirty (
      with_copy
        (record m.copy {
          clear_color = record m.copy.clear_color {
            z = unorm8 (bp_get value 8 0);
            y = unorm8 (bp_get value 8 8);
          };
        })
        m)
