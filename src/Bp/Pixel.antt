-- ===== src/Bp/Pixel.antt =====
-- BP registers of the pixel engine and the rasteriser: 0x00, 0x22, 0x40 to 0x44, 0x55 to 0x58, 0x68,
-- 0xE8 to 0xED, 0xF3 to 0xF5.
use mkwii_ps.Base.{ℕ, ◌+◌, ◌-◌, ◌/◌, ◌^◌, Bool, ◌==◌, ◌!=◌, if◌then◌else◌, update, bit_and}
use mkwii_ps.Platform.{Platform}
use mkwii_ps.State.Pixel.{PixelFmt, BlendMode, PixelState, RasterState}
use mkwii_ps.State.Cache.{invalidate_xf_reg}
use mkwii_ps.State.Machine.{Machine, mark_pipeline_state_dirty, mark_state_dirty}
use mkwii_ps.Bp.Field.{bp_get}

-- An unsupported format falls back with a warning.
unfoldable pub decode_pixel_fmt : ℕ → ℕ → PixelFmt
decode_pixel_fmt pe_ctrl cmode1 =
    let fmt = bp_get pe_ctrl 3 0 in
    let subtype = bp_get cmode1 2 9 in
    if fmt == 0
    then PixelFmt.rgb8_z24
    else if fmt == 1
    then PixelFmt.rgba6_z24
    else if fmt == 2
    then PixelFmt.rgb565_z16
    else if fmt == 3
    then PixelFmt.z24
    else if fmt == 4
    then (if subtype == 0
        then PixelFmt.y8
        else if subtype == 1
        then PixelFmt.u8
        else if subtype == 2
        then PixelFmt.v8
        else PixelFmt.y8)
    else if fmt == 5
    then PixelFmt.yuv420
    else PixelFmt.rgb8_z24

abbrev with_pixel : PixelState → Machine → Machine
with_pixel px m = mark_pipeline_state_dirty (record m { pixel = px })

abbrev with_raster : RasterState → Machine → Machine
with_raster r m = record m { raster = r }

unfoldable pub z_mode : ℕ → Machine → Machine
z_mode value m =
    with_pixel
      (record m.pixel {
        depth_compare = bp_get value 1 0 != 0;
        depth_func = bp_get value 3 1;
        depth_update = bp_get value 1 4 != 0;
      })
      m

unfoldable pub blend_mode_of : Bool → Bool → Bool → BlendMode
blend_mode_of subtract blend_en logic_en =
    if subtract
    then BlendMode.bm_subtract
    else if blend_en
    then BlendMode.bm_blend
    else if logic_en
    then BlendMode.bm_logic
    else BlendMode.bm_none

unfoldable pub cmode0 : ℕ → Machine → Machine
cmode0 value m =
    with_pixel
      (record m.pixel {
        color_update = bp_get value 1 3 != 0;
        alpha_update = bp_get value 1 4 != 0;
        blend_fac_dst = bp_get value 3 5;
        blend_fac_src = bp_get value 3 8;
        blend_op = bp_get value 4 12;
        blend_mode =
            blend_mode_of (bp_get value 1 11 != 0) (bp_get value 1 0 != 0) (bp_get value 1 1 != 0);
      })
      m

unfoldable pub cmode1 : ℕ → Machine → Machine
cmode1 value m =
    with_pixel
      (record m.pixel {
        dst_alpha = if bp_get value 1 8 != 0 then bp_get value 8 0 else 0xFFFFFFFF;
        pixel_fmt = decode_pixel_fmt (m.bp_reg_cache 0x43) value;
      })
      m

unfoldable pub pe_control : ℕ → Machine → Machine
pe_control value m =
    with_pixel
      (record m.pixel {
        pixel_fmt = decode_pixel_fmt value (m.bp_reg_cache 0x42);
        z_fmt = bp_get value 3 3;
        z_comp_loc_before_tex = bp_get value 1 6 != 0;
      })
      m

unfoldable pub set_field_mask : ℕ → Machine → Machine
set_field_mask value m = with_raster (record m.raster { field_mask = bit_and value 0x3 }) m

unfoldable pub set_field_mode : ℕ → Machine → Machine
set_field_mode value m = with_raster (record m.raster { field_mode = bit_and value 0x1 }) m

unfoldable pub set_rev_bits : ℕ → Machine → Machine
set_rev_bits value m = with_raster (record m.raster { rev_bits = bit_and value 0x00FFFFFF }) m

unfoldable pub set_bounding_box : ℕ → ℕ → Machine → Machine
set_bounding_box reg_id value m =
    let offset = bit_and reg_id 2 in
    with_raster
      (record m.raster {
        bounding_box =
            update (update m.raster.bounding_box offset (bit_and value 0x3ff)) (offset + 1)
              (bit_and (value / 2 ^ 10) 0x3ff);
      })
      m

unfoldable pub line_point_size : ℕ → Machine → Machine
line_point_size value m = mark_state_dirty (
    with_raster
      (record m.raster {
        line_width = bp_get value 8 0;
        point_size = bp_get value 8 8;
        line_tex_offset = bp_get value 3 16;
        point_tex_offset = bp_get value 3 19;
        line_half_aspect = bp_get value 1 22 != 0;
      })
      m)

unfoldable pub set_alpha_compare : ℕ → Machine → Machine
set_alpha_compare value m =
    with_pixel
      (record m.pixel {
        alpha_compare = record {
          comp0 = bp_get value 3 16;
          ref0 = bp_get value 8 0;
          op = bp_get value 2 22;
          comp1 = bp_get value 3 19;
          ref1 = bp_get value 8 8;
        };
      })
      m

unfoldable pub z_texture_bias_reg : ℕ → Machine → Machine
z_texture_bias_reg value m =
    with_pixel (record m.pixel { z_texture_bias = bit_and value 0x00FFFFFF }) m

unfoldable pub z_texture_reg : ℕ → Machine → Machine
z_texture_reg value m =
    with_pixel
      (record m.pixel { z_texture_fmt = bp_get value 2 0; z_texture_op = bp_get value 2 2 }) m

unfoldable pub fog_range_reg : ℕ → ℕ → Machine → Machine
fog_range_reg reg_id value m =
    with_pixel
      (record m.pixel {
        fog_range = update m.pixel.fog_range (reg_id - 0xE8) (bit_and value 0x00FFFFFF);
      })
      m

module _ ⦃p : Platform⦄ where
  -- Front and back are swapped to match the GX convention.
  unfoldable pub cull_of_hw : ℕ → ℕ
  cull_of_hw hw_cull =
      if hw_cull == p.cull_front
      then p.cull_back
      else if hw_cull == p.cull_back
      then p.cull_front
      else hw_cull

  unfoldable pub gen_mode : ℕ → Machine → Machine
  gen_mode value m = mark_pipeline_state_dirty (record m {
    tev = record m.tev {
      num_tex_gens = bp_get value 4 0;
      num_chans = bp_get value 3 4;
      num_tev_stages = bp_get value 4 10 + 1;
      num_ind_stages = bp_get value 3 16;
    };
    xf_reg_cache = invalidate_xf_reg 0x09 (invalidate_xf_reg 0x3F m.xf_reg_cache);
    pixel = record m.pixel { cull_mode = cull_of_hw (bp_get value 2 14) };
  })
