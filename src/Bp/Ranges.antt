-- ===== src/Bp/Ranges.antt =====
-- Which registers take which case of the switch.
use mkwii_ps.Base.{
  ℕ, ◌≤◌, ◌≡◌, refl, subst, Bool, true, false, ◌&&◌, ◌==◌, within, if◌then◌else◌, bit_and, arith,
}
use mkwii_ps.Bp.Switch.{
  BpCase, bp_case, color_env_case, alpha_env_case, gen_mode_case, sample_pattern_case, ind_mtx_case,
  ind_mask_case, ind_cmd_case, scissor_case, line_size_case, ind_scale0_case, ind_scale1_case,
  ind_ref_case, tref_case, su_scale_case, z_mode_case, cmode0_case, cmode1_case, pe_control_case,
  field_mask_case, origin_case, size_case, stride_case, scale_case, clear_ra_case, clear_bg_case,
  clear_depth_case, copy_control_case, vfilter0_case, vfilter1_case, bounding_box_case,
  rev_bits_case, scissor_offset_case, load_tlut0_case, load_tlut_case, field_mode_case,
  color_reg_case, fog_range_case, fog0_case, fog1_case, fog2_case, fog3_case, fog_color_case,
  alpha_compare_case, z_bias_case, z_texture_case, ksel_case, default_case,
}

-- The registers of a case. Those of the default case are all others.
abbrev pub CaseRange : BpCase → ℕ → Type 0
CaseRange color_env_case r = (0xC0 ≤ r) × (r ≤ 0xDE)
CaseRange alpha_env_case r = (0xC1 ≤ r) × (r ≤ 0xDF)
CaseRange gen_mode_case r = r ≡ 0x00
CaseRange sample_pattern_case r = (0x01 ≤ r) × (r ≤ 0x04)
CaseRange ind_mtx_case r = (0x06 ≤ r) × (r ≤ 0x0E)
CaseRange ind_mask_case r = r ≡ 0x0F
CaseRange ind_cmd_case r = (0x10 ≤ r) × (r ≤ 0x1F)
CaseRange scissor_case r = (0x20 ≤ r) × (r ≤ 0x21)
CaseRange line_size_case r = r ≡ 0x22
CaseRange ind_scale0_case r = r ≡ 0x25
CaseRange ind_scale1_case r = r ≡ 0x26
CaseRange ind_ref_case r = r ≡ 0x27
CaseRange tref_case r = (0x28 ≤ r) × (r ≤ 0x2F)
CaseRange su_scale_case r = (0x30 ≤ r) × (r ≤ 0x3F)
CaseRange z_mode_case r = r ≡ 0x40
CaseRange cmode0_case r = r ≡ 0x41
CaseRange cmode1_case r = r ≡ 0x42
CaseRange pe_control_case r = r ≡ 0x43
CaseRange field_mask_case r = r ≡ 0x44
CaseRange origin_case r = r ≡ 0x49
CaseRange size_case r = r ≡ 0x4A
CaseRange stride_case r = r ≡ 0x4D
CaseRange scale_case r = r ≡ 0x4E
CaseRange clear_ra_case r = r ≡ 0x4F
CaseRange clear_bg_case r = r ≡ 0x50
CaseRange clear_depth_case r = r ≡ 0x51
CaseRange copy_control_case r = r ≡ 0x52
CaseRange vfilter0_case r = r ≡ 0x53
CaseRange vfilter1_case r = r ≡ 0x54
CaseRange bounding_box_case r = (0x55 ≤ r) × (r ≤ 0x56)
CaseRange rev_bits_case r = r ≡ 0x58
CaseRange scissor_offset_case r = r ≡ 0x59
CaseRange load_tlut0_case r = r ≡ 0x64
CaseRange load_tlut_case r = r ≡ 0x65
CaseRange field_mode_case r = r ≡ 0x68
CaseRange color_reg_case r = (0xE0 ≤ r) × (r ≤ 0xE7)
CaseRange fog_range_case r = (0xE8 ≤ r) × (r ≤ 0xED)
CaseRange fog0_case r = r ≡ 0xEE
CaseRange fog1_case r = r ≡ 0xEF
CaseRange fog2_case r = r ≡ 0xF0
CaseRange fog3_case r = r ≡ 0xF1
CaseRange fog_color_case r = r ≡ 0xF2
CaseRange alpha_compare_case r = r ≡ 0xF3
CaseRange z_bias_case r = r ≡ 0xF4
CaseRange z_texture_case r = r ≡ 0xF5
CaseRange ksel_case r = (0xF6 ≤ r) × (r ≤ 0xFD)
CaseRange default_case r = Unit {0}

data InRange (r : ℕ) : BpCase → Type 0 where
  in_range : {c : BpCase} → CaseRange c r → InRange r c

pick :
    {r : ℕ} (b : Bool) (x : BpCase) {y : BpCase}
    → (b ≡ true → CaseRange x r)
    → (b ≡ false → InRange r y)
    → InRange r (if b then x else y)
pick true x h k = in_range (h refl)
pick false x h k = k refl

bp_case-InRange : (r : ℕ) → InRange r (bp_case r)
unfolding bp_case
bp_case-InRange r =
    pick (within 0xC0 0xDE r && (bit_and r 1 == 0)) color_env_case (λ h. ground arith)
      λ _.
        pick (within 0xC1 0xDF r && (bit_and r 1 == 1)) alpha_env_case (λ h. ground arith)
          λ _.
            pick (r == 0x00) gen_mode_case (λ h. ground arith)
              λ _.
                pick (within 0x01 0x04 r) sample_pattern_case (λ h. ground arith)
                  λ _.
                    pick (within 0x06 0x0E r) ind_mtx_case (λ h. ground arith)
                      λ _.
                        pick (r == 0x0F) ind_mask_case (λ h. ground arith)
                          λ _.
                            pick (within 0x10 0x1F r) ind_cmd_case (λ h. ground arith)
                              λ _.
                                pick (within 0x20 0x21 r) scissor_case (λ h. ground arith)
                                  λ _.
                                    pick (r == 0x22) line_size_case (λ h. ground arith)
                                      λ _.
                                        pick (r == 0x25) ind_scale0_case (λ h. ground arith)
                                          λ _.
                                            pick (r == 0x26) ind_scale1_case (λ h. ground arith)
                                              λ _.
                                                pick (r == 0x27) ind_ref_case (λ h. ground arith)
                                                  λ _.
                                                    pick (within 0x28 0x2F r) tref_case
                                                      (λ h. ground arith)
                                                      λ _.
                                                        pick (within 0x30 0x3F r) su_scale_case
                                                          (λ h. ground arith)
                                                          λ _.
                                                            pick (r == 0x40) z_mode_case
                                                            (λ h. ground arith)
                                                            λ _.
                                                            pick (r == 0x41) cmode0_case
                                                            (λ h. ground arith)
                                                            λ _.
                                                            pick (r == 0x42) cmode1_case
                                                            (λ h. ground arith)
                                                            λ _.
                                                            pick (r == 0x43) pe_control_case
                                                            (λ h. ground arith)
                                                            λ _.
                                                            pick (r == 0x44) field_mask_case
                                                            (λ h. ground arith)
                                                            λ _.
                                                            pick (r == 0x49) origin_case
                                                            (λ h. ground arith)
                                                            λ _.
                                                            pick (r == 0x4A) size_case
                                                            (λ h. ground arith)
                                                            λ _.
                                                            pick (r == 0x4D) stride_case
                                                            (λ h. ground arith)
                                                            λ _.
                                                            pick (r == 0x4E) scale_case
                                                            (λ h. ground arith)
                                                            λ _.
                                                            pick (r == 0x4F) clear_ra_case
                                                            (λ h. ground arith)
                                                            λ _.
                                                            pick (r == 0x50) clear_bg_case
                                                            (λ h. ground arith)
                                                            λ _.
                                                            pick (r == 0x51) clear_depth_case
                                                            (λ h. ground arith)
                                                            λ _.
                                                            pick (r == 0x52) copy_control_case
                                                            (λ h. ground arith)
                                                            λ _.
                                                            pick (r == 0x53) vfilter0_case
                                                            (λ h. ground arith)
                                                            λ _.
                                                            pick (r == 0x54) vfilter1_case
                                                            (λ h. ground arith)
                                                            λ _.
                                                            pick (within 0x55 0x56 r)
                                                            bounding_box_case (λ h. ground arith)
                                                            λ _.
                                                            pick (r == 0x58) rev_bits_case
                                                            (λ h. ground arith)
                                                            λ _.
                                                            pick (r == 0x59) scissor_offset_case
                                                            (λ h. ground arith)
                                                            λ _.
                                                            pick (r == 0x64) load_tlut0_case
                                                            (λ h. ground arith)
                                                            λ _.
                                                            pick (r == 0x65) load_tlut_case
                                                            (λ h. ground arith)
                                                            λ _.
                                                            pick (r == 0x68) field_mode_case
                                                            (λ h. ground arith)
                                                            λ _.
                                                            pick (within 0xE0 0xE7 r) color_reg_case
                                                            (λ h. ground arith)
                                                            λ _.
                                                            pick (within 0xE8 0xED r) fog_range_case
                                                            (λ h. ground arith)
                                                            λ _.
                                                            pick (r == 0xEE) fog0_case
                                                            (λ h. ground arith)
                                                            λ _.
                                                            pick (r == 0xEF) fog1_case
                                                            (λ h. ground arith)
                                                            λ _.
                                                            pick (r == 0xF0) fog2_case
                                                            (λ h. ground arith)
                                                            λ _.
                                                            pick (r == 0xF1) fog3_case
                                                            (λ h. ground arith)
                                                            λ _.
                                                            pick (r == 0xF2) fog_color_case
                                                            (λ h. ground arith)
                                                            λ _.
                                                            pick (r == 0xF3) alpha_compare_case
                                                            (λ h. ground arith)
                                                            λ _.
                                                            pick (r == 0xF4) z_bias_case
                                                            (λ h. ground arith)
                                                            λ _.
                                                            pick (r == 0xF5) z_texture_case
                                                            (λ h. ground arith)
                                                            λ _.
                                                            pick (within 0xF6 0xFD r) ksel_case
                                                            (λ h. ground arith) λ _. in_range tt

pub bp_case-range : (r : ℕ) {c : BpCase} → bp_case r ≡ c → CaseRange c r
bp_case-range r e = subst (λ c. CaseRange c r) e (unwrap (bp_case-InRange r))
  where
    unwrap : {c : BpCase} → InRange r c → CaseRange c r
    unwrap (in_range h) = h
