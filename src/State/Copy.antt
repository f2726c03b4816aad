-- ===== src/State/Copy.antt =====
-- lib/gx/register_state.hpp: copies out of the embedded frame buffer, and the clear values.
use mkwii_ps.Base.{ℕ, Bool, Array}
use mkwii_ps.View.{ClipRect}
use mkwii_ps.State.Vec.{Vec4}

pub record CopyState : Type 0 where
  pub disp_copy_src : ClipRect
  pub tex_copy_fmt : ℕ
  pub tex_copy_half_scale : Bool
  pub disp_copy_dst_width : ℕ
  pub disp_copy_y_scale : ℕ
  pub disp_copy_gamma : ℕ
  pub disp_copy_frame2_field : ℕ
  pub copy_clamp : ℕ
  pub copy_filter_aa : Bool
  pub copy_filter_vf : Bool
  -- Twelve pairs, `[sample][0]` and `[sample][1]`.
  pub copy_filter_sample_pattern : Array (Array ℕ)
  pub copy_filter_vfilter : Array ℕ
  pub clear_color : Vec4
  pub clear_depth : ℕ
