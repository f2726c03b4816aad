-- ===== src/State/Pixel.antt =====
-- lib/gx/register_state.hpp: the pixel engine (culling, blending, depth, alpha test, fog).
use mkwii_ps.Base.{ℕ, Bool, Array}
use mkwii_ps.State.Vec.{Vec4}

pub data PixelFmt : Type 0 where
  rgb8_z24 rgba6_z24 rgb565_z16 z24 y8 u8 v8 yuv420 : PixelFmt

pub data BlendMode : Type 0 where
  bm_none bm_blend bm_logic bm_subtract : BlendMode

pub record AlphaCompare : Type 0 where
  pub comp0 : ℕ
  pub ref0 : ℕ
  pub op : ℕ
  pub comp1 : ℕ
  pub ref1 : ℕ

pub record FogState : Type 0 where
  pub fog_type : ℕ
  pub a : ℕ
  pub b : ℕ
  pub c : ℕ
  pub a_raw : ℕ
  pub color : Vec4
  pub fog0_raw : ℕ
  pub fog1_raw : ℕ
  pub fog2_raw : ℕ
  pub b_magnitude : ℕ
  pub b_shift : ℕ

pub record PixelState : Type 0 where
  pub cull_mode : ℕ
  pub blend_mode : BlendMode
  pub blend_fac_src : ℕ
  pub blend_fac_dst : ℕ
  pub blend_op : ℕ
  pub color_update : Bool
  pub alpha_update : Bool
  pub depth_compare : Bool
  pub depth_func : ℕ
  pub depth_update : Bool
  pub pixel_fmt : PixelFmt
  pub z_fmt : ℕ
  pub z_comp_loc_before_tex : Bool
  pub z_texture_op : ℕ
  pub z_texture_fmt : ℕ
  pub z_texture_bias : ℕ
  pub dst_alpha : ℕ
  pub alpha_compare : AlphaCompare
  pub fog_range : Array ℕ

-- Values that a draw passes to its shader, and the bounding box.
pub record RasterState : Type 0 where
  pub line_width : ℕ
  pub point_size : ℕ
  pub line_tex_offset : ℕ
  pub point_tex_offset : ℕ
  pub line_half_aspect : Bool
  pub bounding_box : Array ℕ
  pub field_mask : ℕ
  pub field_mode : ℕ
  pub rev_bits : ℕ
