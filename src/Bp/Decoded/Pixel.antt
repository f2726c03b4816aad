-- ===== src/Bp/Decoded/Pixel.antt =====
-- The pixel engine's state and its registers.
use mkwii_ps.Base.{
  ℕ, zero, suc, ◌+◌, ◌<◌, ◌≡◌, ◌≢◌, refl, sym, subst, Bool, true, false, ◌!=◌, if◌then◌else◌, Array,
  update, bit_and, arith,
}
use mkwii_ps.Platform.{Platform}
use mkwii_ps.State.Pixel.{PixelState}
use mkwii_ps.State.Machine.{Machine}
use mkwii_ps.Bp.Field.{bp_get}
use mkwii_ps.Bp.Pixel.{decode_pixel_fmt, blend_mode_of, cull_of_hw}
use mkwii_ps.Bp.Switch.{
  BpCase, bp_case, run_case, gen_mode_case, z_mode_case, cmode0_case, cmode1_case, pe_control_case,
  alpha_compare_case, z_bias_case, z_texture_case, fog_range_case,
}
use mkwii_ps.Bp.Frame.{run_case-bp_reg_cache}
use mkwii_ps.Bp.Ranges.{bp_case-range}
use mkwii_ps.Bp.Keeps.{written, handle_bp-keeps, other_register}
use mkwii_ps.Bp.Handle.{handle_bp}

-- Each field of the pixel engine, read off the register file.
pub record PixelAgrees ⦃p : Platform⦄ (px : PixelState) (c : Array ℕ) : Type 0 where
  pub cull : px.cull_mode ≡ cull_of_hw (bp_get (c 0x00) 2 14)
  pub compare_on : px.depth_compare ≡ (bp_get (c 0x40) 1 0 != 0)
  pub func : px.depth_func ≡ bp_get (c 0x40) 3 1
  pub depth_on : px.depth_update ≡ (bp_get (c 0x40) 1 4 != 0)
  pub color_on : px.color_update ≡ (bp_get (c 0x41) 1 3 != 0)
  pub alpha_on : px.alpha_update ≡ (bp_get (c 0x41) 1 4 != 0)
  pub dst_factor : px.blend_fac_dst ≡ bp_get (c 0x41) 3 5
  pub src_factor : px.blend_fac_src ≡ bp_get (c 0x41) 3 8
  pub logic : px.blend_op ≡ bp_get (c 0x41) 4 12
  pub mode :
      px.blend_mode
      ≡ blend_mode_of
          (bp_get (c 0x41) 1 11 != 0)
          (bp_get (c 0x41) 1 0 != 0)
          (bp_get (c 0x41) 1 1 != 0)
  pub constant_alpha :
      px.dst_alpha ≡ (if bp_get (c 0x42) 1 8 != 0 then bp_get (c 0x42) 8 0 else 0xFFFFFFFF)
  pub format : px.pixel_fmt ≡ decode_pixel_fmt (c 0x43) (c 0x42)
  pub z_format : px.z_fmt ≡ bp_get (c 0x43) 3 3
  pub z_early : px.z_comp_loc_before_tex ≡ (bp_get (c 0x43) 1 6 != 0)
  pub z_bias : px.z_texture_bias ≡ bit_and (c 0xF4) 0x00FFFFFF
  pub z_fmt_bits : px.z_texture_fmt ≡ bp_get (c 0xF5) 2 0
  pub z_op : px.z_texture_op ≡ bp_get (c 0xF5) 2 2
  pub alpha_test : px.alpha_compare ≡ record {
    comp0 = bp_get (c 0xF3) 3 16;
    ref0 = bp_get (c 0xF3) 8 0;
    op = bp_get (c 0xF3) 2 22;
    comp1 = bp_get (c 0xF3) 3 19;
    ref1 = bp_get (c 0xF3) 8 8;
  }
  pub range : (i : ℕ) → i < 6 → px.fog_range i ≡ bit_and (c (0xE8 + i)) 0x00FFFFFF

is_pixel_case : BpCase → Bool
is_pixel_case gen_mode_case = true
is_pixel_case z_mode_case = true
is_pixel_case cmode0_case = true
is_pixel_case cmode1_case = true
is_pixel_case pe_control_case = true
is_pixel_case alpha_compare_case = true
is_pixel_case z_bias_case = true
is_pixel_case z_texture_case = true
is_pixel_case fog_range_case = true
is_pixel_case _ = false

-- A register that the pixel engine does not read.
record NotPixel (r : ℕ) : Type 0 where
  r00 : r ≢ 0x00
  r40 : r ≢ 0x40
  r41 : r ≢ 0x41
  r42 : r ≢ 0x42
  r43 : r ≢ 0x43
  rf3 : r ≢ 0xF3
  rf4 : r ≢ 0xF4
  rf5 : r ≢ 0xF5
  rfog : (i : ℕ) → i < 6 → r ≢ 0xE8 + i

fog_register : (i : ℕ) → i < 6 → is_pixel_case (bp_case (0xE8 + i)) ≡ true
unfolding is_pixel_case bp_case
fog_register zero lt = refl
fog_register (suc zero) lt = refl
fog_register (suc (suc zero)) lt = refl
fog_register (suc (suc (suc zero))) lt = refl
fog_register (suc (suc (suc (suc zero)))) lt = refl
fog_register (suc (suc (suc (suc (suc zero))))) lt = refl
fog_register (suc (suc (suc (suc (suc (suc i)))))) lt = absurd (omega arith)

not_pixel : (r : ℕ) (c : BpCase) → bp_case r ≡ c → is_pixel_case c ≡ false → NotPixel r
unfolding is_pixel_case bp_case
not_pixel r c e no_case = record {
  r00 = other_register is_pixel_case r 0x00 c e no_case refl;
  r40 = other_register is_pixel_case r 0x40 c e no_case refl;
  r41 = other_register is_pixel_case r 0x41 c e no_case refl;
  r42 = other_register is_pixel_case r 0x42 c e no_case refl;
  r43 = other_register is_pixel_case r 0x43 c e no_case refl;
  rf3 = other_register is_pixel_case r 0xF3 c e no_case refl;
  rf4 = other_register is_pixel_case r 0xF4 c e no_case refl;
  rf5 = other_register is_pixel_case r 0xF5 c e no_case refl;
  rfog = λ i lt. other_register is_pixel_case r (0xE8 + i) c e no_case (fog_register i lt);
}

mask_register : NotPixel 0xFE
unfolding bp_case is_pixel_case
mask_register = not_pixel 0xFE _ refl refl

module _ ⦃p : Platform⦄ where
  -- A write elsewhere keeps the agreement.
  update-PixelAgrees :
      (r v : ℕ) (px : PixelState) (c : Array ℕ)
      → NotPixel r
      → PixelAgrees px c
      → PixelAgrees px (update c r v)
  update-PixelAgrees r v px c n h = record {
    cull = ground arith;
    compare_on = ground arith;
    func = ground arith;
    depth_on = ground arith;
    color_on = ground arith;
    alpha_on = ground arith;
    dst_factor = ground arith;
    src_factor = ground arith;
    logic = ground arith;
    mode = ground arith;
    constant_alpha = ground arith;
    format = ground arith;
    z_format = ground arith;
    z_early = ground arith;
    z_bias = ground arith;
    z_fmt_bits = ground arith;
    z_op = ground arith;
    alpha_test = ground arith;
    range = λ i lt. ground (arith, h.range i lt, n.rfog i lt);
  }

  run_case-pixel :
      (c : BpCase) (r v : ℕ) (m : Machine)
      → is_pixel_case c ≡ false
      → (run_case c r v m).pixel ≡ m.pixel
  unfolding run_case is_pixel_case
  run_case-pixel gen_mode_case r v m e = cc
  run_case-pixel _ r v m e = ground arith

  pixel_write :
      (c : BpCase) (r v : ℕ) (m : Machine)
      → bp_case r ≡ c
      → PixelAgrees m.pixel m.bp_reg_cache
      → PixelAgrees (run_case c r v (written r v m)).pixel (update m.bp_reg_cache r v)
  unfolding run_case is_pixel_case
  pixel_write gen_mode_case r v m e h = ground (arith, bp_case-range r e)
  pixel_write z_mode_case r v m e h = ground (arith, bp_case-range r e)
  pixel_write cmode0_case r v m e h = ground (arith, bp_case-range r e)
  pixel_write cmode1_case r v m e h = ground (arith, bp_case-range r e)
  pixel_write pe_control_case r v m e h = ground (arith, bp_case-range r e)
  pixel_write alpha_compare_case r v m e h = ground (arith, bp_case-range r e)
  pixel_write z_bias_case r v m e h = ground (arith, bp_case-range r e)
  pixel_write z_texture_case r v m e h = ground (arith, bp_case-range r e)
  pixel_write fog_range_case r v m e h =
      let k = bp_case-range r e in
      record {
        cull = ground arith;
        compare_on = ground arith;
        func = ground arith;
        depth_on = ground arith;
        color_on = ground arith;
        alpha_on = ground arith;
        dst_factor = ground arith;
        src_factor = ground arith;
        logic = ground arith;
        mode = ground arith;
        constant_alpha = ground arith;
        format = ground arith;
        z_format = ground arith;
        z_early = ground arith;
        z_bias = ground arith;
        z_fmt_bits = ground arith;
        z_op = ground arith;
        alpha_test = ground arith;
        range = λ i lt. ground (arith, h.range i lt);
      }
  pixel_write c r v m e h =
      subst (λ px. PixelAgrees px (update m.bp_reg_cache r v))
        (sym (run_case-pixel c r v (written r v m) refl))
        (update-PixelAgrees r v m.pixel m.bp_reg_cache (not_pixel r c e refl) h)

  -- Where the pixel engine's state is what its registers say, it is so after a write to any register.
  pub handle_bp-PixelAgrees :
      (value : ℕ) (m : Machine)
      → PixelAgrees m.pixel m.bp_reg_cache
      → PixelAgrees (handle_bp value m).pixel (handle_bp value m).bp_reg_cache
  handle_bp-PixelAgrees =
      handle_bp-keeps (λ m. PixelAgrees m.pixel m.bp_reg_cache)
        (λ v m h. update-PixelAgrees 0xFE v m.pixel m.bp_reg_cache mask_register h)
        λ r v m h.
          rw (run_case-bp_reg_cache (bp_case r) r v (written r v m))
            (pixel_write (bp_case r) r v m refl h)
