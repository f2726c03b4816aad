-- ===== src/Shader.antt =====
-- lib/gx/register_state.hpp: the analysis of a shader's configuration, what its stages sample and
-- which of them keep a coordinate. An `int` that is -1 for nothing is an integer here too.
pub mod Formats
pub mod Dependencies
pub mod Stages
pub mod Wrap
use mkwii_ps.Base.{
  ℕ, zero, suc, ◌+◌, ◌-◌, ◌*◌, ◌/◌, ◌%◌, ◌^◌, Bool, true, false, ◌&&◌, ◌||◌, ltb, leb, ◌==◌, ◌!=◌,
  if◌then◌else◌, Array, ℤ, pos, negsuc, pos_part, neg_part, bit_and,
}
use mkwii_ps.Platform.{Platform}
use mkwii_ps.State.Tev.{TevPass, TevStage}
use mkwii_ps.State.Vertex.{va_clr0, va_clr1}

-- The enumerators of `<dolphin/gx.h>` that only the analysis reads.
pub record ShaderEnums : Type 0 where
  pub itm_off : ℕ
  pub itw_off : ℕ
  pub itw_256 : ℕ
  pub itw_128 : ℕ
  pub itw_64 : ℕ
  pub itw_32 : ℕ
  pub itw_16 : ℕ
  pub itw_0 : ℕ
  pub cc_texc : ℕ
  pub cc_texa : ℕ
  pub ca_texa : ℕ
  pub zt_disable : ℕ

-- The members of `ShaderConfig` that the analysis reads. Of an attribute it reads the type alone.
pub record ShaderConfig : Type 0 where
  pub attr_types : Array ℕ
  pub tev_stages : Array TevStage
  pub tev_stage_count : ℕ
  pub num_tex_gens : ℕ
  pub z_texture : ℕ

-- `tevStageCount` for stages, and an `int` that is -1 where there is none.
abbrev pub none_found : ℤ
none_found = negsuc 0

-- `static_cast<u32>` of an s32.
abbrev pub word32 : ℤ → ℕ
word32 (pos n) = n % 2 ^ 32
word32 (negsuc n) = 2 ^ 32 - 1 - n % 2 ^ 32

-- Two's complement of 24 bits.
unfoldable pub tev_s24_wrap : ℤ → ℤ
tev_s24_wrap value =
    let wrapped = bit_and (word32 value) 0x00FFFFFF in
    if bit_and wrapped 0x00800000 != 0 then negsuc (0x01000000 - wrapped - 1) else pos wrapped

pub record TextureDependency : Type 0 where
  pub tex_coord_id : ℤ
  pub tex_map_id : ℤ
  pub needs_fixed_texcoord_state : Bool
  pub combiner_uses_texture : Bool
  pub can_sample_texture : Bool

-- A default `TevStageTextureDependency`.
unfoldable pub no_dependency : TextureDependency
no_dependency = record {
  tex_coord_id = none_found;
  tex_map_id = none_found;
  needs_fixed_texcoord_state = false;
  combiner_uses_texture = false;
  can_sample_texture = false;
}

unfoldable pub tev_texture_sample_enabled : TextureDependency → Bool → Bool
tev_texture_sample_enabled dependency sample_requested =
    sample_requested && dependency.can_sample_texture

-- `x >= 0`.
abbrev pub is_found : ℤ → Bool
is_found (pos n) = true
is_found (negsuc n) = false

module _ ⦃p : Platform⦄ where
  unfoldable pub shader_vertex_color_attr : ShaderConfig → ℕ → ℤ
  shader_vertex_color_attr config channel =
      let has_color0 = config.attr_types va_clr0 != p.attr_none in
      let has_color1 = config.attr_types va_clr1 != p.attr_none in
      if channel == 0
      then (if has_color0 then pos va_clr0 else if has_color1 then pos va_clr1 else none_found)
      else if channel == 1 && has_color0 && has_color1
      then pos va_clr1
      else none_found

  unfoldable pub tev_stage_has_texture_map : TevStage → Bool
  tev_stage_has_texture_map stage =
      stage.tex_map_id != p.texmap_null && ltb stage.tex_map_id p.max_texmap

  unfoldable pub tev_effective_texcoord : ShaderConfig → ℕ → ℤ
  tev_effective_texcoord config raw =
      if config.num_tex_gens == 0
      then none_found
      else if ltb raw config.num_tex_gens && ltb raw p.max_texcoord
      then pos raw
      else pos 0

  module _ ⦃s : ShaderEnums⦄ where
    unfoldable pub has_coord_operation : TevStage → Bool
    has_coord_operation stage =
        stage.ind_tex_mtx_id != s.itm_off
        || stage.ind_tex_wrap_s != s.itw_off
        || stage.ind_tex_wrap_t != s.itw_off
        || stage.ind_tex_add_prev

    unfoldable pub tev_stage_needs_fixed_texcoord_state : ShaderConfig → ℕ → Bool
    tev_stage_needs_fixed_texcoord_state config stage_idx =
        if leb config.tev_stage_count stage_idx
        then false
        else has_coord_operation (config.tev_stages stage_idx)
          || (ltb (stage_idx + 1) config.tev_stage_count
              && (config.tev_stages (stage_idx + 1)).ind_tex_add_prev)

    unfoldable pub tev_indirect_wrap_mask : ℕ → ℤ
    tev_indirect_wrap_mask wrap =
        if wrap == s.itw_off
        then negsuc 0
        else if wrap == s.itw_256
        then pos (256 * 2 ^ 7 - 1)
        else if wrap == s.itw_128
        then pos (128 * 2 ^ 7 - 1)
        else if wrap == s.itw_64
        then pos (64 * 2 ^ 7 - 1)
        else if wrap == s.itw_32
        then pos (32 * 2 ^ 7 - 1)
        else if wrap == s.itw_16
        then pos (16 * 2 ^ 7 - 1)
        else if wrap == s.itw_0
        then pos 0
        else if leb s.itw_0 wrap
        then pos 0
        else negsuc 1

    unfoldable pub tev_stage_combiner_uses_texture : TevStage → Bool
    tev_stage_combiner_uses_texture stage =
        let color = stage.color_pass in
        let alpha = stage.alpha_pass in
        color.a == s.cc_texc
        || color.a == s.cc_texa
        || color.b == s.cc_texc
        || color.b == s.cc_texa
        || color.c == s.cc_texc
        || color.c == s.cc_texa
        || color.d == s.cc_texc
        || color.d == s.cc_texa
        || alpha.a == s.ca_texa
        || alpha.b == s.ca_texa
        || alpha.c == s.ca_texa
        || alpha.d == s.ca_texa

    unfoldable pub tev_stage_texture_dependency : ShaderConfig → ℕ → TextureDependency
    tev_stage_texture_dependency config stage_idx =
        let stage = config.tev_stages stage_idx in
        let coord = tev_effective_texcoord config stage.tex_coord_id in
        let map : ℤ =
          if tev_stage_has_texture_map stage then pos stage.tex_map_id else none_found in
        if leb config.tev_stage_count stage_idx then no_dependency else record {
          tex_coord_id = coord;
          tex_map_id = map;
          needs_fixed_texcoord_state = tev_stage_needs_fixed_texcoord_state config stage_idx;
          combiner_uses_texture = tev_stage_combiner_uses_texture stage;
          can_sample_texture = is_found coord && is_found map;
        }

    -- The loop over the stages from `i` on, `n` of them.
    unfoldable pub any_fixed : ShaderConfig → ℕ → ℕ → Bool
    any_fixed config zero i = false
    any_fixed config (suc n) i =
        (tev_stage_texture_dependency config i).needs_fixed_texcoord_state
        || any_fixed config n (i + 1)

    unfoldable pub shader_uses_fixed_texcoord_state : ShaderConfig → Bool
    shader_uses_fixed_texcoord_state config = any_fixed config config.tev_stage_count 0

    unfoldable pub tev_z_texture_enabled : ShaderConfig → Bool
    tev_z_texture_enabled config = bit_and (config.z_texture / 2 ^ 26) 0x3 != s.zt_disable

    -- The loop from the last stage down: `n` stages are left.
    unfoldable pub last_sampling : ShaderConfig → ℕ → ℤ
    last_sampling config zero = none_found
    last_sampling config (suc n) =
        if (tev_stage_texture_dependency config n).can_sample_texture
        then pos n
        else last_sampling config n

    unfoldable pub tev_z_texture_stage : ShaderConfig → ℤ
    tev_z_texture_stage config =
        if tev_z_texture_enabled config
        then last_sampling config config.tev_stage_count
        else none_found
