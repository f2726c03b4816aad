-- ===== src/Tev/Limits.antt =====
-- The ranges of a program's fields, and that the tests of the code hold exactly in them.
use mkwii_ps.Base.{ℕ, ◌≤◌, ◌<◌, ◌≡◌, ◌⊎◌, ◌↔◌, arith, true, ℤ}
use mkwii_ps.Platform.{Platform}
use mkwii_ps.State.Vec.{Vec4}
use mkwii_ps.State.Tev.{TevPass, TevOp, TevSwap, TevStage, TevState}
use mkwii_ps.State.Pixel.{AlphaCompare}
use mkwii_ps.Shader.{ShaderEnums}
use mkwii_ps.Tev.{TevEnums, args_within, uses, channel_number, stage_accepted}
use mkwii_ps.Tev.Checked.{
  swizzle_ok, alpha_ok, operation_ok, color_ok, konst_ok, stage_konst_ok, stage_ok,
}

-- The four arguments of a combiner are numbers up to `n`.
pub record Args (n : ℕ) (p : TevPass) : Type 0 where
  pub first : p.a ≤ n
  pub second : p.b ≤ n
  pub third : p.c ≤ n
  pub fourth : p.d ≤ n

-- Some argument is `n`.
abbrev pub Reads : ℕ → TevPass → Type 0
Reads n p = (p.a ≡ n) ⊎ ((p.b ≡ n) ⊎ ((p.c ≡ n) ⊎ (p.d ≡ n)))

pub record Swap (s : TevSwap) : Type 0 where
  pub red : s.red ≤ 3
  pub green : s.green ≤ 3
  pub blue : s.blue ≤ 3
  pub alpha : s.alpha ≤ 3

pub record Alpha (ac : AlphaCompare) : Type 0 where
  pub comp0 : ac.comp0 ≤ 7
  pub comp1 : ac.comp1 ≤ 7
  pub op : ac.op ≤ 3
  pub ref0 : ac.ref0 ≤ 255
  pub ref1 : ac.ref1 ≤ 255

Args-args_within : (n : ℕ) (p : TevPass) → (args_within n p ≡ true) ↔ Args n p
unfolding args_within
Args-args_within n p = ground arith

Swap-swizzle_ok : (s : TevSwap) → (swizzle_ok s ≡ true) ↔ Swap s
unfolding swizzle_ok
Swap-swizzle_ok s = ground arith

pub Alpha-alpha_ok : (ac : AlphaCompare) → (alpha_ok ac ≡ true) ↔ Alpha ac
unfolding alpha_ok
Alpha-alpha_ok ac = ground arith

Reads-uses : (n : ℕ) (p : TevPass) → (uses n p ≡ true) ↔ Reads n p
Reads-uses n p = ground arith

module _ ⦃e : TevEnums⦄ where
  -- An addition, a subtraction or one of eight comparisons; only the first two have a bias.
  pub record Operation (v : TevOp) : Type 0 where
    pub kind : (v.op ≤ 1) ⊎ ((8 ≤ v.op) × (v.op ≤ 15))
    pub scale : v.scale ≤ e.cs_divide_2
    pub out : v.out_reg ≤ 3
    pub bias : v.op < 8 → v.bias ≤ e.tb_subhalf

  -- Each component times 255 is a number between the bounds.
  pub record Color (lo hi : ℤ) (v : Vec4) : Type 0 where
    pub red : e.is_byte_range lo hi (e.times_255 v.x) ≡ true
    pub green : e.is_byte_range lo hi (e.times_255 v.y) ≡ true
    pub blue : e.is_byte_range lo hi (e.times_255 v.z) ≡ true
    pub alpha : e.is_byte_range lo hi (e.times_255 v.w) ≡ true

  Operation-operation_ok : (v : TevOp) → (operation_ok v ≡ true) ↔ Operation v
  unfolding operation_ok
  Operation-operation_ok v = ground arith

  pub Color-color_ok : (v : Vec4) (lo hi : ℤ) → (color_ok v lo hi ≡ true) ↔ Color lo hi v
  unfolding color_ok
  Color-color_ok v lo hi = ground arith

  -- A selector names a fraction, a constant color (for the color only) or a lane of one.
  pub record Konst (s : TevStage) : Type 0 where
    pub color : Reads e.cc_konst s.color_pass → (s.kc_sel < 8) ⊎ ((12 ≤ s.kc_sel) × (s.kc_sel ≤ 31))
    pub alpha : Reads e.ca_konst s.alpha_pass → (s.ka_sel < 8) ⊎ ((16 ≤ s.ka_sel) × (s.ka_sel ≤ 31))

  Konst-stage_konst_ok : (s : TevStage) → (stage_konst_ok s ≡ true) ↔ Konst s
  unfolding stage_konst_ok konst_ok
  Konst-stage_konst_ok s = ground arith

  module _ ⦃p : Platform⦄ ⦃se : ShaderEnums⦄ where
    -- The stage `i`: every field is in the range that the shader reads.
    pub record Stage (state : TevState) (i : ℕ) : Type 0 where
      pub color_args : Args 15 (state.tev_stages i).color_pass
      pub alpha_args : Args 7 (state.tev_stages i).alpha_pass
      pub color_op : Operation (state.tev_stages i).color_op
      pub alpha_op : Operation (state.tev_stages i).alpha_op
      pub texture_table : (state.tev_stages i).tev_swap_tex ≤ 3
      pub raster_table : (state.tev_stages i).tev_swap_ras ≤ 3
      pub texture_swap : Swap (state.tev_swap_table (state.tev_stages i).tev_swap_tex)
      pub raster_swap : Swap (state.tev_swap_table (state.tev_stages i).tev_swap_ras)
      pub channel :
          (channel_number (state.tev_stages i).channel_id ≤ 8)
          ⊎ (channel_number (state.tev_stages i).channel_id ≡ e.color_null_id)
      pub indirect_format : (state.tev_stages i).ind_tex_format ≤ 3
      pub indirect_alpha : (state.tev_stages i).ind_tex_alpha_sel ≤ 3
      pub konst : Konst (state.tev_stages i)

    pub Stage-stage_ok : (state : TevState) (i : ℕ) → (stage_ok state i ≡ true) ↔ Stage state i
    unfolding stage_ok stage_accepted
    Stage-stage_ok state i = ground (
      arith,
      Args-args_within 15 (state.tev_stages i).color_pass,
      Args-args_within 7 (state.tev_stages i).alpha_pass,
      Operation-operation_ok (state.tev_stages i).color_op,
      Operation-operation_ok (state.tev_stages i).alpha_op,
      Swap-swizzle_ok (state.tev_swap_table (state.tev_stages i).tev_swap_tex),
      Swap-swizzle_ok (state.tev_swap_table (state.tev_stages i).tev_swap_ras),
      Konst-stage_konst_ok (state.tev_stages i),
    )
