-- ===== src/Tev/Used.antt =====
-- Which texture coordinates the vertex shader must give.
use mkwii_ps.Base.{
  ℕ, zero, suc, ◌+◌, ◌^◌, ◌≤◌, ◌<◌, ◌≡◌, ◌↔◌, ◌⊎◌, arith, max, Bool, true, false, ◌&&◌, ◌||◌, ltb,
  leb, ◌==◌, ℤ, pos, negsuc, bit, bit-zero, bit-bit_or, bit_power, Bool-cases, inl, inr, subst,
}
use mkwii_ps.Base.Outcome.{Gives, gives}
use mkwii_ps.Platform.{Platform}
use mkwii_ps.State.Tev.{TevState}
use mkwii_ps.Shader.{ShaderEnums, tev_stage_texture_dependency, tev_effective_texcoord}
use mkwii_ps.Tev.{
  TevEnums, flag, mark, config_of, stage_texcoords, stages_texcoords, tev_program_used_texcoords,
}

-- The coordinate is found, and is `c`.
abbrev pub names : ℤ → ℕ → Bool
names (pos d) c = c == d
names (negsuc n) c = false

bit-mark :
    (c used : ℕ) (z : ℤ) (wanted : Bool)
    → bit c (mark used z wanted) ≡ max (bit c used) (flag (wanted && names z c))
bit-mark c used (pos d) true = ground (arith, bit-bit_or c used (2 ^ d), bit_power c d)
bit-mark c used (pos d) false = ground arith
bit-mark c used (negsuc n) wanted = ground arith

module _ ⦃e : TevEnums⦄ ⦃p : Platform⦄ ⦃se : ShaderEnums⦄ (state : TevState) where
  -- Stage `i` samples a texture at the coordinate `c` or keeps `c` across stages, or its indirect
  -- stage is active and uses `c`.
  pub reads : ℕ → ℕ → Bool
  reads i c =
      let dep = tev_stage_texture_dependency (config_of state) i in
      let stage = (state.tev_stages i).ind_tex_stage in
      (dep.needs_fixed_texcoord_state || dep.can_sample_texture && dep.combiner_uses_texture)
        && names dep.tex_coord_id c
      || ltb stage state.num_ind_stages
        && names (tev_effective_texcoord (config_of state) (state.ind_stages stage).tex_coord_id) c

  flags : (x : ℕ) (a b : Bool) → max (max x (flag a)) (flag b) ≡ max x (flag (a || b))
  flags x true true = ground arith
  flags x true false = ground arith
  flags x false b = ground arith

  bit-stage_texcoords :
      (c i used : ℕ) → bit c (stage_texcoords state i used) ≡ max (bit c used) (flag (reads i c))
  unfolding stage_texcoords reads
  bit-stage_texcoords c i used =
      let dep = tev_stage_texture_dependency (config_of state) i in
      let stage = (state.tev_stages i).ind_tex_stage in
      let wanted =
        dep.needs_fixed_texcoord_state || dep.can_sample_texture && dep.combiner_uses_texture in
      let indirect =
        tev_effective_texcoord (config_of state) (state.ind_stages stage).tex_coord_id in
      rw
        (
          bit-mark c (mark used dep.tex_coord_id wanted) indirect (ltb stage state.num_ind_stages),
          bit-mark c used dep.tex_coord_id wanted,
        )
        (flags (bit c used) (wanted && names dep.tex_coord_id c)
          (ltb stage state.num_ind_stages && names indirect c))

  -- A stage from `i` on, one of `n`, reads `c`.
  Reader : ℕ → ℕ → ℕ → Type 0
  Reader n i c = (k : ℕ) × (k < n) × (reads (i + k) c ≡ true)

  -- A bit is set by a stage, or was set before.
  stages_texcoords-found :
      (c n i used : ℕ)
      → bit c (stages_texcoords state n i used) ≡ 1
      → (bit c used ≡ 1) ⊎ Reader n i c
  unfolding stages_texcoords Reader
  stages_texcoords-found c zero i used h = inl h
  stages_texcoords-found c (suc n) i used h =
      elim (stages_texcoords-found c n (i + 1) (stage_texcoords state i used) h) [
        | inr (k, lt, r) ↦ inr (suc k, omega arith, subst (λ j. reads j c ≡ true) (omega arith) r)
        | inl b ↦ elim (Bool-cases (reads i c)) [
          | inl r ↦ inr (0, omega arith, subst (λ j. reads j c ≡ true) (omega arith) r)
          | inr r ↦ inl (ground (arith, bit-stage_texcoords c i used))
        ]
      ]

  stages_texcoords-kept :
      (c n i used : ℕ) → bit c used ≡ 1 → bit c (stages_texcoords state n i used) ≡ 1
  unfolding stages_texcoords
  stages_texcoords-kept c zero i used h = h
  stages_texcoords-kept c (suc n) i used h =
      stages_texcoords-kept c n (i + 1) (stage_texcoords state i used)
        (ground (arith, bit-stage_texcoords c i used))

  stages_texcoords-set :
      (c n i used k : ℕ)
      → k < n
      → reads (i + k) c ≡ true
      → bit c (stages_texcoords state n i used) ≡ 1
  unfolding stages_texcoords
  stages_texcoords-set c zero i used k lt r = absurd (omega arith)
  stages_texcoords-set c (suc n) i used zero lt r =
      stages_texcoords-kept c n (i + 1) (stage_texcoords state i used)
        (ground (arith, bit-stage_texcoords c i used, subst (λ j. reads j c ≡ true) here r))
    where
      here : i + 0 ≡ i
      here = omega arith
  stages_texcoords-set c (suc n) i used (suc k) lt r =
      stages_texcoords-set c n (i + 1) (stage_texcoords state i used) k (omega arith)
        (subst (λ j. reads j c ≡ true) (omega arith) r)

  -- Of a state with at most 16 stages, 8 coordinates and 4 indirect stages, the mask of the used
  -- coordinates has the bit `c` exactly where a stage of the program reads the coordinate `c`.
  pub tev_program_used_texcoords-reads :
      state.num_tev_stages ≤ 16
      → state.num_tex_gens ≤ 8
      → state.num_ind_stages ≤ 4
      → Gives
          (λ used.
            (c : ℕ)
            → (bit c used ≡ 1) ↔ ((i : ℕ) × (i < state.num_tev_stages) × (reads i c ≡ true)))
          (tev_program_used_texcoords state)
  unfolding tev_program_used_texcoords Reader
  tev_program_used_texcoords-reads few coords indirect =
      let in_range : (leb state.num_tev_stages 16
            && leb state.num_tex_gens 8
            && leb state.num_ind_stages 4)
          ≡ true =
        ground arith in
      rw in_range (
        gives λ c. (
          (λ h. elim (stages_texcoords-found c state.num_tev_stages 0 0 h) [
            | inl b ↦ absurd (omega (arith, bit-zero c))
            | inr (k, lt, r) ↦ (k, lt, subst (λ j. reads j c ≡ true) (omega arith) r)
          ]),
          (λ (i, lt, r).
              stages_texcoords-set c state.num_tev_stages 0 0 i lt
                (subst (λ j. reads j c ≡ true) (omega arith) r)),
        ))
