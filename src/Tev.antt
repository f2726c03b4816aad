-- ===== src/Tev.antt =====
-- ps5/gpu/gx_tev_program.cpp: the program of the texture environment that a draw gives to its shader.
-- A color is a Vec4 of floats, its members r, g, b, a.
pub mod Fields
pub mod Packed
pub mod Used
pub mod Checked
pub mod Limits
pub mod Accepted
use mkwii_ps.Base.{
  ℕ, zero, suc, ◌+◌, ◌-◌, ◌*◌, ◌/◌, ◌%◌, ◌^◌, Bool, true, false, ◌&&◌, ◌||◌, not, ltb, leb, ◌==◌,
  ◌!=◌, if◌then◌else◌, Array, ℤ, pos, negsuc, bit_and, bit_or, List, [], ◌∷◌,
}
use mkwii_ps.Base.Outcome.{Outcome, ok, require, ◌>>=◌, ◌>>◌}
use mkwii_ps.Platform.{Platform}
use mkwii_ps.State.Vec.{Vec4}
use mkwii_ps.State.Tev.{
  TevPass, TevOp, TevSwap, TevStage, TevState, ChannelId, color0a0, color1a1, alpha_bump,
  alpha_bumpn, color_zero, color_null,
}
use mkwii_ps.State.Pixel.{AlphaCompare}
use mkwii_ps.Shader.{
  ShaderEnums, ShaderConfig, TextureDependency, word32, is_found, tev_stage_texture_dependency,
  tev_effective_texcoord,
}

-- The enumerators whose values the file does not assert, and its arithmetic of floats: the product
-- with 255, whether a float is finite and between two bounds up to 0.001, rounding to an even
-- number, and multiples of 255/8.
pub record TevEnums : Type 0 where
  pub tb_addhalf : ℕ
  pub tb_subhalf : ℕ
  pub cs_divide_2 : ℕ
  pub cc_konst : ℕ
  pub ca_konst : ℕ
  pub color0a0_id : ℕ
  pub color1a1_id : ℕ
  pub color_null_id : ℕ
  pub times_255 : ℕ → ℕ
  pub is_byte_range : ℤ → ℤ → ℕ → Bool
  pub round_even : ℕ → ℕ
  pub eighths : ℕ → ℕ

pub record PackedStage : Type 0 where
  pub color_args : ℕ
  pub alpha_args : ℕ
  pub color_op : ℕ
  pub alpha_op : ℕ
  pub texture_swap : ℕ
  pub raster_swap : ℕ
  pub tex_map : ℕ
  pub tex_coord : ℕ
  pub channel : ℕ
  pub sample_enabled : Bool
  pub indirect_stage : ℕ
  pub indirect_format : ℕ
  pub indirect_alpha : ℕ
  pub indirect_matrix : ℕ
  pub indirect_wrap : ℕ
  pub indirect_flags : ℕ
  pub konst : Vec4

pub record TevProgram : Type 0 where
  pub stage_count : ℕ
  pub alpha_flags : ℕ
  pub disabled_texture_value : ℕ
  pub num_texgens : ℕ
  pub initial : Array Vec4
  pub stages : List PackedStage

abbrev pub flag : Bool → ℕ
flag true = 1
flag false = 0

-- The lane of a number below 4.
abbrev pub lane : Vec4 → ℕ → ℕ
lane v i = if i == 0 then v.x else if i == 1 then v.y else if i == 2 then v.z else v.w

abbrev pub splat : ℕ → Vec4
splat f = record { x = f; y = f; z = f; w = f }

unfoldable pub swizzle : TevSwap → Outcome ℕ
swizzle s = do
  require (leb s.red 3 && leb s.green 3 && leb s.blue 3 && leb s.alpha 3)
  ok (bit_or (bit_or (bit_or s.red (s.green * 2 ^ 2)) (s.blue * 2 ^ 4)) (s.alpha * 2 ^ 6))

-- The loops over the four selectors.
unfoldable pub pack_args : ℕ → TevPass → ℕ
pack_args bits p =
    bit_or (bit_or (bit_or p.a (p.b * 2 ^ bits)) (p.c * 2 ^ (2 * bits))) (p.d * 2 ^ (3 * bits))

unfoldable pub args_within : ℕ → TevPass → Bool
args_within n p = leb p.a n && leb p.b n && leb p.c n && leb p.d n

abbrev pub uses : ℕ → TevPass → Bool
uses n p = p.a == n || p.b == n || p.c == n || p.d == n

-- `if(coord>=0 && wanted)used|=1u<<coord`.
abbrev pub mark : ℕ → ℤ → Bool → ℕ
mark used (pos c) wanted = if wanted then bit_or used (2 ^ c) else used
mark used (negsuc n) wanted = used

module _ ⦃e : TevEnums⦄ where
  unfoldable pub operation : TevOp → Outcome ℕ
  operation v =
      let bias = if leb 8 v.op then 0 else v.bias in
      let shifted_bias =
        if bias == e.tb_addhalf then 2 else if bias == e.tb_subhalf then 0 else 1 in
      do
        require (
            (leb v.op 1 || leb 8 v.op && leb v.op 15)
            && leb v.scale e.cs_divide_2
            && leb v.out_reg 3)
        require (leb bias e.tb_subhalf)
        ok (
            bit_or
              (bit_or (bit_or (bit_or v.op (v.scale * 2 ^ 4)) (flag v.clamp * 2 ^ 6))
                (shifted_bias * 2 ^ 8))
              (v.out_reg * 2 ^ 10))

  unfoldable pub byte_component : ℤ → ℤ → ℕ → Outcome ℕ
  byte_component lo hi f = do
    require (e.is_byte_range lo hi (e.times_255 f))
    ok (e.round_even (e.times_255 f))

  unfoldable pub byte_color : Vec4 → ℤ → ℤ → Outcome Vec4
  byte_color v lo hi = do
    r ← byte_component lo hi v.x
    g ← byte_component lo hi v.y
    b ← byte_component lo hi v.z
    a ← byte_component lo hi v.w
    ok (record { x = r; y = g; z = b; w = a })

  unfoldable pub konst_color : ℕ → Array Vec4 → Bool → Outcome Vec4
  konst_color sel colors alpha = if ltb sel 8 then ok (splat (e.eighths (8 - sel))) else do
    require (leb 12 sel && leb sel 31 && (not alpha || leb 16 sel))
    ok (
        if ltb sel 16
        then colors (sel - 12)
        else splat (lane (colors (bit_and (sel - 16) 3)) ((sel - 16) / 2 ^ 2)))

  -- `unsigned(s.channelId)`.
  abbrev pub channel_number : ChannelId → ℕ
  channel_number color0a0 = e.color0a0_id
  channel_number color1a1 = e.color1a1_id
  channel_number color_zero = 6
  channel_number alpha_bump = 7
  channel_number alpha_bumpn = 8
  channel_number color_null = e.color_null_id

  -- The konstant color of a stage: a selector that no argument reads is not checked.
  unfoldable pub stage_konst : TevStage → Array Vec4 → Outcome Vec4
  stage_konst s konst = do
    rgb ← (if uses e.cc_konst s.color_pass then konst_color s.kc_sel konst false else ok (splat 0))
    alpha ← (if uses e.ca_konst s.alpha_pass then konst_color s.ka_sel konst true else ok rgb)
    ok (record { x = rgb.x; y = rgb.y; z = rgb.z; w = alpha.w })

  module _ ⦃p : Platform⦄ ⦃se : ShaderEnums⦄ where
    -- The configuration that is analysed; its other members stay zero.
    unfoldable pub config_of : TevState → ShaderConfig
    config_of state = record {
      attr_types = λ _. 0;
      tev_stages = state.tev_stages;
      tev_stage_count = state.num_tev_stages;
      num_tex_gens = state.num_tex_gens;
      z_texture = 0;
    }

    -- The checks of a stage on its own fields, those of packed fields left out.
    unfoldable pub stage_accepted : TevStage → Bool
    stage_accepted s =
        args_within 15 s.color_pass
        && args_within 7 s.alpha_pass
        && ltb s.tev_swap_tex 4
        && ltb s.tev_swap_ras 4
        && (leb (channel_number s.channel_id) 8 || channel_number s.channel_id == e.color_null_id)
        && leb s.ind_tex_format 3
        && leb s.ind_tex_alpha_sel 3

    -- The body of the loop over the stages. All its exceptions are one exception, so the checks
    -- of the stage's own fields stand first.
    unfoldable pub pack_stage : TevState → Array Vec4 → ℕ → Outcome PackedStage
    pack_stage state konst i =
        let s = state.tev_stages i in
        let dep = tev_stage_texture_dependency (config_of state) i in
        let feeds =
          ltb (i + 1) state.num_tev_stages && (state.tev_stages (i + 1)).ind_tex_add_prev in
        do
          require (stage_accepted s)
          color_op ← operation s.color_op
          alpha_op ← operation s.alpha_op
          texture_swap ← swizzle (state.tev_swap_table s.tev_swap_tex)
          raster_swap ← swizzle (state.tev_swap_table s.tev_swap_ras)
          value ← stage_konst s konst
          ok (record {
            color_args = pack_args 4 s.color_pass;
            alpha_args = pack_args 3 s.alpha_pass;
            color_op = color_op;
            alpha_op = alpha_op;
            texture_swap = texture_swap;
            raster_swap = raster_swap;
            tex_map = word32 dep.tex_map_id;
            tex_coord = word32 dep.tex_coord_id;
            channel = channel_number s.channel_id;
            sample_enabled = dep.can_sample_texture && dep.combiner_uses_texture;
            indirect_stage =
                if ltb s.ind_tex_stage state.num_ind_stages then s.ind_tex_stage else 2 ^ 32 - 1;
            indirect_format = s.ind_tex_format;
            indirect_alpha = s.ind_tex_alpha_sel;
            indirect_matrix = s.ind_tex_mtx_id;
            indirect_wrap = bit_or s.ind_tex_wrap_s (s.ind_tex_wrap_t * 2 ^ 8 % 2 ^ 32);
            indirect_flags =
                bit_or
                  (bit_or (bit_or s.ind_tex_bias_sel (flag s.ind_tex_use_orig_lod * 2 ^ 8))
                    (flag s.ind_tex_add_prev * 2 ^ 9))
                  (if feeds then 1024 else 0);
            konst = value;
          })

    -- `n` stages from the stage `i` on.
    unfoldable pub pack_stages : TevState → Array Vec4 → ℕ → ℕ → Outcome (List PackedStage)
    pack_stages state konst zero i = ok []
    pack_stages state konst (suc n) i = do
      first ← pack_stage state konst i
      rest ← pack_stages state konst n (i + 1)
      ok (first ∷ rest)

    -- The four colors of an array.
    unfoldable pub byte_colors : Array Vec4 → ℤ → ℤ → Outcome (Array Vec4)
    byte_colors v lo hi = do
      c0 ← byte_color (v 0) lo hi
      c1 ← byte_color (v 1) lo hi
      c2 ← byte_color (v 2) lo hi
      c3 ← byte_color (v 3) lo hi
      ok (λ i. if i == 0 then c0 else if i == 1 then c1 else if i == 2 then c2 else c3)

    unfoldable pub alpha_flags_of : AlphaCompare → Outcome ℕ
    alpha_flags_of ac = do
      require
          (leb ac.comp0 7 && leb ac.comp1 7 && leb ac.op 3 && leb ac.ref0 255 && leb ac.ref1 255)
      ok (
          bit_or
            (bit_or (bit_or (bit_or ac.comp0 (ac.comp1 * 2 ^ 3)) (ac.op * 2 ^ 6)) (ac.ref0 * 2 ^ 8))
            (ac.ref1 * 2 ^ 16))

    unfoldable pub build_tev_program : TevState → AlphaCompare → Outcome TevProgram
    build_tev_program state ac = do
      require (
          leb 1 state.num_tev_stages
          && leb state.num_tev_stages 16
          && leb state.num_tex_gens 8
          && leb state.num_ind_stages 4)
      flags ← alpha_flags_of ac
      initial ← byte_colors state.color_regs (negsuc 1023) (pos 1023)
      konst ← byte_colors state.kcolors (pos 0) (pos 255)
      stages ← pack_stages state konst state.num_tev_stages 0
      ok (record {
        stage_count = state.num_tev_stages;
        alpha_flags = flags;
        disabled_texture_value = if state.num_tex_gens != 0 then 255 else 0;
        num_texgens = state.num_tex_gens;
        initial = initial;
        stages = stages;
      })

    -- The coordinates that a stage reads, as bits.
    unfoldable pub stage_texcoords : TevState → ℕ → ℕ → ℕ
    stage_texcoords state i used =
        let s = state.tev_stages i in
        let dep = tev_stage_texture_dependency (config_of state) i in
        let own =
          mark used dep.tex_coord_id (
            dep.needs_fixed_texcoord_state
            || dep.can_sample_texture && dep.combiner_uses_texture) in
        mark own
          (tev_effective_texcoord (config_of state) (state.ind_stages s.ind_tex_stage).tex_coord_id)
          (ltb s.ind_tex_stage state.num_ind_stages)

    unfoldable pub stages_texcoords : TevState → ℕ → ℕ → ℕ → ℕ
    stages_texcoords state zero i used = used
    stages_texcoords state (suc n) i used =
        stages_texcoords state n (i + 1) (stage_texcoords state i used)

    unfoldable pub tev_program_used_texcoords : TevState → Outcome ℕ
    tev_program_used_texcoords state = do
      require
          (leb state.num_tev_stages 16 && leb state.num_tex_gens 8 && leb state.num_ind_stages 4)
      ok (stages_texcoords state state.num_tev_stages 0 0)
