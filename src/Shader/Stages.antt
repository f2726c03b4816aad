-- ===== src/Shader/Stages.antt =====
-- The loops over the stages of a shader.
use mkwii_ps.Base.{
  ℕ, zero, suc, ◌<◌, ◌≡◌, refl, inl, inr, Bool, true, false, ltb, arith, Bool-cases, ℤ, pos,
}
use mkwii_ps.Platform.{Platform}
use mkwii_ps.Shader.{
  ShaderEnums, ShaderConfig, none_found, has_coord_operation, tev_stage_texture_dependency,
  tev_z_texture_enabled, last_sampling, tev_z_texture_stage,
}

module _ ⦃p : Platform⦄ ⦃s : ShaderEnums⦄ (config : ShaderConfig) where
  abbrev pub can_sample : ℕ → Bool
  can_sample i = (tev_stage_texture_dependency config i).can_sample_texture

  -- The last of `n` stages that samples a texture, or -1 where none does.
  pub data IsLast (n : ℕ) : ℤ → Type 0 where
    last :
        {i : ℕ}
        → i < n
        → can_sample i ≡ true
        → ((j : ℕ) → i < j → j < n → can_sample j ≡ false)
        → IsLast n (pos i)
    nothing : ((j : ℕ) → j < n → can_sample j ≡ false) → IsLast n none_found

  one_more : (n : ℕ) (z : ℤ) → can_sample n ≡ false → IsLast n z → IsLast (suc n) z
  one_more n z e (last lt on after) = last (omega arith) on λ j ij jn. elim (Bool-cases (ltb j n)) [
    | inl q ↦ after j ij (ground arith)
    | inr q ↦ let e' : j ≡ n = ground arith in rw e' e
  ]
  one_more n z e (nothing all) = nothing λ j jn. elim (Bool-cases (ltb j n)) [
    | inl q ↦ all j (ground arith)
    | inr q ↦ let e' : j ≡ n = ground arith in rw e' e
  ]

  last_sampling-IsLast : (n : ℕ) → IsLast n (last_sampling config n)
  unfolding last_sampling
  last_sampling-IsLast zero = nothing λ j lt. absurd (omega arith)
  last_sampling-IsLast (suc n) = elim (Bool-cases (can_sample n)) [
    | inl e ↦ rw e (last (omega arith) e λ j ij jn. absurd (omega arith))
    | inr e ↦ rw e (one_more n _ e (last_sampling-IsLast n))
  ]

  -- Where the depth texture is on, its stage is the last stage that samples a texture, and -1 where no
  -- stage does. Where it is off, it is -1.
  pub tev_z_texture_stage-IsLast :
      (tev_z_texture_enabled config ≡ true
        → IsLast config.tev_stage_count (tev_z_texture_stage config))
      × (tev_z_texture_enabled config ≡ false → tev_z_texture_stage config ≡ none_found)
  unfolding tev_z_texture_stage
  tev_z_texture_stage-IsLast =
      (λ e. rw e (last_sampling-IsLast config.tev_stage_count), λ e. rw e refl)

  -- A stage that changes the coordinate.
  abbrev pub operates : ℕ → Bool
  operates i = has_coord_operation (config.tev_stages i)

  abbrev Operating : Type 0
  Operating = (i : ℕ) × (i < config.tev_stage_count) × (operates i ≡ true)
