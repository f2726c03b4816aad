-- ===== src/Examples/Shaders.antt =====
-- The theorems on shaders at concrete inputs.
use mkwii_ps.Base.{◌≡◌, refl, true, false, ◌==◌, if◌then◌else◌, arith, negsuc}
use mkwii_ps.Shader.{
  ShaderEnums, ShaderConfig, none_found, tev_s24_wrap, tev_stage_texture_dependency,
  tev_z_texture_enabled, tev_z_texture_stage, tev_effective_texcoord, tev_stage_has_texture_map,
}
use mkwii_ps.Shader.Stages.{IsLast, tev_z_texture_stage-IsLast}
use mkwii_ps.Shader.Dependencies.{CanSample, tev_stage_texture_dependency-CanSample}
use mkwii_ps.Shader.Wrap.{IsWrapped, tev_s24_wrap-IsWrapped}
use mkwii_ps.Examples.Blank.{dolphin, no_stage}

instance abbrev pub shader_enums : ShaderEnums
shader_enums = record {
  itm_off = 0;
  itw_off = 0;
  itw_256 = 1;
  itw_128 = 2;
  itw_64 = 3;
  itw_32 = 4;
  itw_16 = 5;
  itw_0 = 6;
  cc_texc = 8;
  cc_texa = 9;
  ca_texa = 4;
  zt_disable = 0;
}

-- Three stages. The second has no map, the last adds the coordinate of the one before.
abbrev config : ShaderConfig
config = record {
  attr_types = λ _. 0;
  tev_stages = λ i.
      if i == 1
      then record no_stage { tex_map_id = 0xFF }
      else if i == 2
      then record no_stage { ind_tex_add_prev = true }
      else no_stage;
  tev_stage_count = 3;
  num_tex_gens = 1;
  z_texture = 0x04000000;
}

tev_z_texture_stage-IsLast_example :
    (tev_z_texture_enabled config ≡ true → IsLast config 3 (tev_z_texture_stage config))
    × (tev_z_texture_enabled config ≡ false → tev_z_texture_stage config ≡ none_found)
tev_z_texture_stage-IsLast_example = tev_z_texture_stage-IsLast config

tev_stage_texture_dependency-CanSample_example :
    CanSample config 2 (tev_stage_texture_dependency config 2)
unfolding tev_stage_texture_dependency tev_effective_texcoord tev_stage_has_texture_map
tev_stage_texture_dependency-CanSample_example =
    tev_stage_texture_dependency-CanSample (omega arith) config 2 refl

-- -2^23 - 1 wraps around to 2^23 - 1.
tev_s24_wrap-IsWrapped_example :
    IsWrapped (negsuc 0x00800000) (tev_s24_wrap (negsuc 0x00800000))
    × (tev_s24_wrap (tev_s24_wrap (negsuc 0x00800000)) ≡ tev_s24_wrap (negsuc 0x00800000))
tev_s24_wrap-IsWrapped_example = tev_s24_wrap-IsWrapped (negsuc 0x00800000)
