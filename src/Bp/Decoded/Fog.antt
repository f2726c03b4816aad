-- ===== src/Bp/Decoded/Fog.antt =====
-- Fog: the parameters A and B are split over two registers each.
use mkwii_ps.Base.{
  ℕ, ◌*◌, ◌/◌, ◌^◌, ◌≡◌, ◌≢◌, refl, sym, subst, Bool, true, false, Array, update, bit_and, bit_or,
  pos, arith,
}
use mkwii_ps.Platform.{Platform}
use mkwii_ps.State.Pixel.{FogState}
use mkwii_ps.State.Machine.{Machine}
use mkwii_ps.Bp.Field.{bp_get}
use mkwii_ps.Bp.Colors.{unorm8}
use mkwii_ps.Bp.Fog.{partial_float, fog_b}
use mkwii_ps.Bp.Switch.{
  BpCase, bp_case, run_case, gen_mode_case, fog0_case, fog1_case, fog2_case, fog3_case,
  fog_color_case,
}
use mkwii_ps.Bp.Frame.{run_case-bp_reg_cache}
use mkwii_ps.Bp.Ranges.{bp_case-range}
use mkwii_ps.Bp.Keeps.{written, handle_bp-keeps, other_register}
use mkwii_ps.Bp.Handle.{handle_bp}

-- The shift of A and B: the low five bits of 0xF0.
abbrev pub fog_shift : Array ℕ → ℕ
fog_shift c = bp_get (c 0xF0) 5 0

pub record FogAgrees ⦃p : Platform⦄ (f : FogState) (c : Array ℕ) : Type 0 where
  pub raw0 : f.fog0_raw ≡ c 0xEE
  pub raw1 : f.fog1_raw ≡ c 0xEF
  pub raw2 : f.fog2_raw ≡ c 0xF0
  pub a_bits : f.a_raw ≡ partial_float (c 0xEE)
  pub a_scaled : f.a ≡ p.ldexp (partial_float (c 0xEE)) (pos (fog_shift c))
  pub shift : f.b_shift ≡ fog_shift c
  pub magnitude : f.b_magnitude ≡ bp_get (c 0xEF) 24 0
  pub b_scaled : f.b ≡ fog_b (bp_get (c 0xEF) 24 0) (fog_shift c)
  pub kind : f.fog_type ≡ bit_or (bp_get (c 0xF1) 3 21) (bp_get (c 0xF1) 1 20 * 2 ^ 3)
  pub c_bits : f.c ≡ partial_float (c 0xF1)
  pub tint : f.color ≡ record {
    x = unorm8 (bp_get (c 0xF2) 8 16);
    y = unorm8 (bp_get (c 0xF2) 8 8);
    z = unorm8 (bp_get (c 0xF2) 8 0);
    w = p.of_u32 1;
  }

is_fog_case : BpCase → Bool
is_fog_case fog0_case = true
is_fog_case fog1_case = true
is_fog_case fog2_case = true
is_fog_case fog3_case = true
is_fog_case fog_color_case = true
is_fog_case _ = false

-- The five low bits, as the two handlers of A and B spell them.
shift_bits : (x : ℕ) → bit_and x 0x1F ≡ bp_get x 5 0
unfolding bp_get
shift_bits x = rw div-one
  where
    div-one : x / 2 ^ 0 ≡ x
    div-one = omega arith

record NotFog (r : ℕ) : Type 0 where
  ree : r ≢ 0xEE
  ref : r ≢ 0xEF
  rf0 : r ≢ 0xF0
  rf1 : r ≢ 0xF1
  rf2 : r ≢ 0xF2

not_fog : (r : ℕ) (c : BpCase) → bp_case r ≡ c → is_fog_case c ≡ false → NotFog r
unfolding is_fog_case bp_case
not_fog r c e no_case = record {
  ree = other_register is_fog_case r 0xEE c e no_case refl;
  ref = other_register is_fog_case r 0xEF c e no_case refl;
  rf0 = other_register is_fog_case r 0xF0 c e no_case refl;
  rf1 = other_register is_fog_case r 0xF1 c e no_case refl;
  rf2 = other_register is_fog_case r 0xF2 c e no_case refl;
}

mask_register : NotFog 0xFE
unfolding bp_case is_fog_case
mask_register = not_fog 0xFE _ refl refl

module _ ⦃p : Platform⦄ where
  update-FogAgrees :
      (r v : ℕ) (f : FogState) (c : Array ℕ) → NotFog r → FogAgrees f c → FogAgrees f (update c r v)
  update-FogAgrees r v f c n h = ground arith

  run_case-fog :
      (c : BpCase) (r v : ℕ) (m : Machine) → is_fog_case c ≡ false → (run_case c r v m).fog ≡ m.fog
  unfolding run_case is_fog_case
  run_case-fog gen_mode_case r v m e = refl
  run_case-fog _ r v m e = ground arith

  fog_write :
      (c : BpCase) (r v : ℕ) (m : Machine)
      → bp_case r ≡ c
      → FogAgrees m.fog m.bp_reg_cache
      → FogAgrees (run_case c r v (written r v m)).fog (update m.bp_reg_cache r v)
  unfolding run_case is_fog_case
  fog_write fog0_case r v m e h = ground (arith, bp_case-range r e, shift_bits m.fog.fog2_raw)
  fog_write fog1_case r v m e h = ground (arith, bp_case-range r e, shift_bits m.fog.fog2_raw)
  fog_write fog2_case r v m e h = ground (arith, bp_case-range r e)
  fog_write fog3_case r v m e h = ground (arith, bp_case-range r e)
  fog_write fog_color_case r v m e h = ground (arith, bp_case-range r e)
  fog_write c r v m e h =
      subst (λ f. FogAgrees f (update m.bp_reg_cache r v))
        (sym (run_case-fog c r v (written r v m) refl))
        (update-FogAgrees r v m.fog m.bp_reg_cache (not_fog r c e refl) h)

  -- Where the fog parameters are what the five fog registers say, they are so after a write to any
  -- register: A is the partial float of 0xEE and B the magnitude of 0xEF, both scaled by the shift
  -- that 0xF0 holds.
  pub handle_bp-FogAgrees :
      (value : ℕ) (m : Machine)
      → FogAgrees m.fog m.bp_reg_cache
      → FogAgrees (handle_bp value m).fog (handle_bp value m).bp_reg_cache
  handle_bp-FogAgrees =
      handle_bp-keeps (λ m. FogAgrees m.fog m.bp_reg_cache)
        (λ v m h. update-FogAgrees 0xFE v m.fog m.bp_reg_cache mask_register h)
        λ r v m h.
          rw (run_case-bp_reg_cache (bp_case r) r v (written r v m))
            (fog_write (bp_case r) r v m refl h)
