-- ===== src/Shader/Dependencies.antt =====
-- What a stage that samples a texture depends on.
use mkwii_ps.Base.{ℕ, ◌<◌, ◌≡◌, refl, true, false, leb, arith, ℤ, pos, negsuc}
use mkwii_ps.Platform.{Platform}
use mkwii_ps.State.Tev.{TevStage}
use mkwii_ps.Shader.{
  ShaderEnums, ShaderConfig, TextureDependency, is_found, no_dependency, tev_stage_has_texture_map,
  tev_effective_texcoord, tev_stage_texture_dependency,
}

-- A stage of the shader with a coordinate that is generated and a map that is bound.
pub record CanSample ⦃p : Platform⦄ ⦃s : ShaderEnums⦄ (config : ShaderConfig) (i : ℕ)
    (d : TextureDependency) : Type 0 where
  pub stage : i < config.tev_stage_count
  pub coord : ℕ
  pub map : ℕ
  pub is_coord : d.tex_coord_id ≡ pos coord
  pub is_map : d.tex_map_id ≡ pos map
  pub coord_generated : coord < config.num_tex_gens
  pub coord_low : coord < p.max_texcoord
  pub map_low : map < p.max_texmap
  pub map_named : map ≡ (config.tev_stages i).tex_map_id

module _ ⦃p : Platform⦄ ⦃s : ShaderEnums⦄ (some_coord : 0 < p.max_texcoord)
    (config : ShaderConfig) where
  coord_of : (z : ℤ) → is_found z ≡ true → (n : ℕ) × (z ≡ pos n)
  coord_of (pos n) e = (n, refl)
  coord_of (negsuc n) e = absurd (ground arith)

  bound :
      (stage : TevStage) → tev_stage_has_texture_map stage ≡ true → stage.tex_map_id < p.max_texmap
  unfolding tev_stage_has_texture_map
  bound stage e = ground arith

  coord_range :
      (raw n : ℕ)
      → tev_effective_texcoord config raw ≡ pos n
      → (n < config.num_tex_gens) × (n < p.max_texcoord)
  unfolding tev_effective_texcoord
  coord_range raw n e = ground arith

  dependency_parts :
      (i : ℕ)
      → (tev_stage_texture_dependency config i).can_sample_texture ≡ true
      → (leb config.tev_stage_count i ≡ false)
        × (is_found (tev_effective_texcoord config (config.tev_stages i).tex_coord_id) ≡ true)
        × (tev_stage_has_texture_map (config.tev_stages i) ≡ true)
  unfolding tev_stage_texture_dependency no_dependency
  dependency_parts i e = ground arith

  -- A stage samples a texture only inside the shader, at a coordinate that is generated and from a map
  -- that can be bound: the one that the stage names.
  pub tev_stage_texture_dependency-CanSample :
      (i : ℕ)
      → (tev_stage_texture_dependency config i).can_sample_texture ≡ true
      → CanSample config i (tev_stage_texture_dependency config i)
  unfolding tev_stage_texture_dependency
  tev_stage_texture_dependency-CanSample i e =
      let parts = dependency_parts i e in
      let found = coord_of _ parts.1 in
      let range = coord_range (config.tev_stages i).tex_coord_id found.0 found.1 in
      rw (parts.0, parts.2)
        (record {
          stage = ground (arith, parts.0);
          coord = found.0;
          map = (config.tev_stages i).tex_map_id;
          is_coord = found.1;
          is_map = refl;
          coord_generated = range.0;
          coord_low = range.1;
          map_low = bound (config.tev_stages i) parts.2;
          map_named = refl;
        })
