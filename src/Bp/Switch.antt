-- ===== src/Bp/Switch.antt =====
-- The control flow of `handle_bp`: which case a register takes, and what the case does.
use mkwii_ps.Base.{ℕ, ◌&&◌, ◌==◌, within, if◌then◌else◌, bit_and}
use mkwii_ps.Platform.{Platform}
use mkwii_ps.State.Machine.{Machine, mark_pipeline_state_dirty, mark_state_dirty}
use mkwii_ps.Backend.{apply, set_logical_scissor, set_render_viewport, set_render_scissor}
use mkwii_ps.Bp.Tev.{tev_color_env, tev_alpha_env, tref, ksel}
use mkwii_ps.Bp.Indirect.{set_ind_tex_mask, tev_indirect, ind_scale, ind_ref, ind_mtx}
use mkwii_ps.Bp.Colors.{color_reg}
use mkwii_ps.Bp.Pixel.{
  gen_mode, line_point_size, z_mode, cmode0, cmode1, pe_control, set_field_mask, set_field_mode,
  set_rev_bits, set_bounding_box, set_alpha_compare, z_texture_bias_reg, z_texture_reg,
  fog_range_reg,
}
use mkwii_ps.Bp.Fog.{fog0, fog1, fog2, fog3, fog_color}
use mkwii_ps.Bp.Copy.{
  sample_pattern, vfilter_low, vfilter_high, disp_copy_origin, disp_copy_size, disp_copy_stride,
  disp_copy_scale, copy_control, clear_color_ra, clear_color_bg, clear_depth_reg,
}
use mkwii_ps.Bp.Scissor.{scissor, scissor_offset}
use mkwii_ps.Bp.Texture.{load_tlut, su_scale, texture_reg, texture_write}

-- The two ranges that return early, then the labels of the switch.
pub data BpCase : Type 0 where
  color_env_case alpha_env_case gen_mode_case sample_pattern_case ind_mtx_case : BpCase
  ind_mask_case ind_cmd_case scissor_case line_size_case ind_scale0_case ind_scale1_case : BpCase
  ind_ref_case tref_case su_scale_case z_mode_case cmode0_case cmode1_case : BpCase
  pe_control_case field_mask_case origin_case size_case stride_case scale_case : BpCase
  clear_ra_case clear_bg_case clear_depth_case copy_control_case vfilter0_case : BpCase
  vfilter1_case bounding_box_case rev_bits_case scissor_offset_case load_tlut0_case : BpCase
  load_tlut_case field_mode_case color_reg_case fog_range_case fog0_case fog1_case : BpCase
  fog2_case fog3_case fog_color_case alpha_compare_case z_bias_case z_texture_case : BpCase
  ksel_case default_case : BpCase

unfoldable pub bp_case : ℕ → BpCase
bp_case r =
    if within 0xC0 0xDE r && (bit_and r 1 == 0)
    then color_env_case
    else if within 0xC1 0xDF r && (bit_and r 1 == 1)
    then alpha_env_case
    else if r == 0x00
    then gen_mode_case
    else if within 0x01 0x04 r
    then sample_pattern_case
    else if within 0x06 0x0E r
    then ind_mtx_case
    else if r == 0x0F
    then ind_mask_case
    else if within 0x10 0x1F r
    then ind_cmd_case
    else if within 0x20 0x21 r
    then scissor_case
    else if r == 0x22
    then line_size_case
    else if r == 0x25
    then ind_scale0_case
    else if r == 0x26
    then ind_scale1_case
    else if r == 0x27
    then ind_ref_case
    else if within 0x28 0x2F r
    then tref_case
    else if within 0x30 0x3F r
    then su_scale_case
    else if r == 0x40
    then z_mode_case
    else if r == 0x41
    then cmode0_case
    else if r == 0x42
    then cmode1_case
    else if r == 0x43
    then pe_control_case
    else if r == 0x44
    then field_mask_case
    else if r == 0x49
    then origin_case
    else if r == 0x4A
    then size_case
    else if r == 0x4D
    then stride_case
    else if r == 0x4E
    then scale_case
    else if r == 0x4F
    then clear_ra_case
    else if r == 0x50
    then clear_bg_case
    else if r == 0x51
    then clear_depth_case
    else if r == 0x52
    then copy_control_case
    else if r == 0x53
    then vfilter0_case
    else if r == 0x54
    then vfilter1_case
    else if within 0x55 0x56 r
    then bounding_box_case
    else if r == 0x58
    then rev_bits_case
    else if r == 0x59
    then scissor_offset_case
    else if r == 0x64
    then load_tlut0_case
    else if r == 0x65
    then load_tlut_case
    else if r == 0x68
    then field_mode_case
    else if within 0xE0 0xE7 r
    then color_reg_case
    else if within 0xE8 0xED r
    then fog_range_case
    else if r == 0xEE
    then fog0_case
    else if r == 0xEF
    then fog1_case
    else if r == 0xF0
    then fog2_case
    else if r == 0xF1
    then fog3_case
    else if r == 0xF2
    then fog_color_case
    else if r == 0xF3
    then alpha_compare_case
    else if r == 0xF4
    then z_bias_case
    else if r == 0xF5
    then z_texture_case
    else if within 0xF6 0xFD r
    then ksel_case
    else default_case

module _ ⦃p : Platform⦄ where
  -- The body of a case.
  unfoldable pub run_case : BpCase → ℕ → ℕ → Machine → Machine
  unfolding tev_color_env tev_alpha_env tref ksel set_ind_tex_mask tev_indirect ind_scale ind_ref
      ind_mtx color_reg gen_mode line_point_size z_mode cmode0 cmode1 pe_control set_field_mask
      set_field_mode set_rev_bits set_bounding_box set_alpha_compare z_texture_bias_reg
      z_texture_reg fog_range_reg fog0 fog1 fog2 fog3 fog_color sample_pattern vfilter_low
      vfilter_high disp_copy_origin disp_copy_size disp_copy_stride disp_copy_scale copy_control
      clear_color_ra clear_color_bg clear_depth_reg scissor scissor_offset set_logical_scissor apply
      set_render_viewport set_render_scissor load_tlut su_scale texture_reg texture_write
      mark_pipeline_state_dirty mark_state_dirty
  run_case color_env_case r value m = tev_color_env r value m
  run_case alpha_env_case r value m = tev_alpha_env r value m
  run_case gen_mode_case r value m = gen_mode value m
  run_case sample_pattern_case r value m = sample_pattern r value m
  run_case ind_mtx_case r value m = ind_mtx r value m
  run_case ind_mask_case r value m = set_ind_tex_mask value m
  run_case ind_cmd_case r value m = tev_indirect r value m
  run_case scissor_case r value m = scissor m
  run_case line_size_case r value m = line_point_size value m
  run_case ind_scale0_case r value m = ind_scale 0 value m
  run_case ind_scale1_case r value m = ind_scale 2 value m
  run_case ind_ref_case r value m = ind_ref value m
  run_case tref_case r value m = tref r value m
  run_case su_scale_case r value m = su_scale r value m
  run_case z_mode_case r value m = z_mode value m
  run_case cmode0_case r value m = cmode0 value m
  run_case cmode1_case r value m = cmode1 value m
  run_case pe_control_case r value m = pe_control value m
  run_case field_mask_case r value m = set_field_mask value m
  run_case origin_case r value m = disp_copy_origin value m
  run_case size_case r value m = disp_copy_size value m
  run_case stride_case r value m = disp_copy_stride value m
  run_case scale_case r value m = disp_copy_scale value m
  run_case clear_ra_case r value m = clear_color_ra value m
  run_case clear_bg_case r value m = clear_color_bg value m
  run_case clear_depth_case r value m = clear_depth_reg value m
  run_case copy_control_case r value m = copy_control value m
  run_case vfilter0_case r value m = vfilter_low value m
  run_case vfilter1_case r value m = vfilter_high value m
  run_case bounding_box_case r value m = set_bounding_box r value m
  run_case rev_bits_case r value m = set_rev_bits value m
  run_case scissor_offset_case r value m = scissor_offset value m
  run_case load_tlut0_case r value m = m
  run_case load_tlut_case r value m = load_tlut value m
  run_case field_mode_case r value m = set_field_mode value m
  run_case color_reg_case r value m = color_reg r value m
  run_case fog_range_case r value m = fog_range_reg r value m
  run_case fog0_case r value m = fog0 value m
  run_case fog1_case r value m = fog1 value m
  run_case fog2_case r value m = fog2 value m
  run_case fog3_case r value m = fog3 value m
  run_case fog_color_case r value m = fog_color value m
  run_case alpha_compare_case r value m = set_alpha_compare value m
  run_case z_bias_case r value m = z_texture_bias_reg value m
  run_case z_texture_case r value m = z_texture_reg value m
  run_case ksel_case r value m = ksel r value m
  run_case default_case r value m = texture_reg r value m
