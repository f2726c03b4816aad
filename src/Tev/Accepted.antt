-- ===== src/Tev/Accepted.antt =====
-- Which states have a program.
use mkwii_ps.Base.{
  ℕ, zero, suc, ◌+◌, ◌≤◌, ◌<◌, ◌≡◌, inl, inr, ◌↔◌, refl, arith, Bool, true, ◌&&◌, leb, ◌==◌, Array,
  ℤ, pos, negsuc, subst, sym, ◌∙◌, Bool-cases,
}
use mkwii_ps.Base.Outcome.{is_ok}
use mkwii_ps.Platform.{Platform}
use mkwii_ps.State.Vec.{Vec4}
use mkwii_ps.State.Tev.{TevState}
use mkwii_ps.State.Pixel.{AlphaCompare}
use mkwii_ps.Shader.{ShaderEnums}
use mkwii_ps.Tev.{TevEnums, build_tev_program}
use mkwii_ps.Tev.Checked.{alpha_ok, counts_ok, colors_ok, stages_ok, build_tev_program-checks}
use mkwii_ps.Tev.Limits.{Alpha, Alpha-alpha_ok, Color, Color-color_ok, Stage, Stage-stage_ok}

module _ ⦃e : TevEnums⦄ where
  module _ ⦃p : Platform⦄ ⦃se : ShaderEnums⦄ where
    -- From the stage `i` on, `n` of them.
    abbrev Stages : TevState → ℕ → ℕ → Type 0
    Stages state n i = (j : ℕ) → i ≤ j → j < i + n → Stage state j

    from_stage : (state : TevState) (n i : ℕ) → stages_ok state n i ≡ true → Stages state n i
    unfolding stages_ok
    from_stage state zero i h j l r = absurd (omega arith)
    from_stage state (suc n) i h j l r = elim (Bool-cases (i == j)) [
      | inl q ↦
          let same : i ≡ j = ground arith in
          subst (Stage state) same ((Stage-stage_ok state i).0 (ground arith))
      | inr q ↦ from_stage state n (i + 1) (ground arith) j (ground arith) (omega arith)
    ]

    to_stage : (state : TevState) (n i : ℕ) → Stages state n i → stages_ok state n i ≡ true
    unfolding stages_ok
    to_stage state zero i h = refl
    to_stage state (suc n) i h =
        rw
          (
            (Stage-stage_ok state i).1 (h i (omega arith) (omega arith)),
            to_stage state n (i + 1) (λ j l r. h j (omega arith) (omega arith)),
          )
          refl

    -- A state that the shader can run: counts, alpha test, colors and each stage in range.
    pub record Accepted (state : TevState) (ac : AlphaCompare) : Type 0 where
      pub some_stages : 1 ≤ state.num_tev_stages
      pub few_stages : state.num_tev_stages ≤ 16
      pub tex_gens : state.num_tex_gens ≤ 8
      pub ind_stages : state.num_ind_stages ≤ 4
      pub alpha : Alpha ac
      pub registers : (i : ℕ) → i < 4 → Color (negsuc 1023) (pos 1023) (state.color_regs i)
      pub constants : (i : ℕ) → i < 4 → Color (pos 0) (pos 255) (state.kcolors i)
      pub stages : (i : ℕ) → i < state.num_tev_stages → Stage state i

    abbrev FourInRange : Array Vec4 → ℤ → ℤ → Type 0
    FourInRange v lo hi = (i : ℕ) → i < 4 → Color lo hi (v i)

    from_colors : (v : Array Vec4) (lo hi : ℤ) → colors_ok v lo hi ≡ true → FourInRange v lo hi
    unfolding colors_ok
    from_colors v lo hi h zero l = (Color-color_ok (v 0) lo hi).0 (ground arith)
    from_colors v lo hi h (suc zero) l = (Color-color_ok (v 1) lo hi).0 (ground arith)
    from_colors v lo hi h (suc (suc zero)) l = (Color-color_ok (v 2) lo hi).0 (ground arith)
    from_colors v lo hi h (suc (suc (suc zero))) l = (Color-color_ok (v 3) lo hi).0 (ground arith)
    from_colors v lo hi h (suc (suc (suc (suc i)))) l = absurd (omega arith)

    to_colors : (v : Array Vec4) (lo hi : ℤ) → FourInRange v lo hi → colors_ok v lo hi ≡ true
    unfolding colors_ok
    to_colors v lo hi h =
        rw
          (
            (Color-color_ok (v 0) lo hi).1 (h 0 (omega arith)),
            (Color-color_ok (v 1) lo hi).1 (h 1 (omega arith)),
            (Color-color_ok (v 2) lo hi).1 (h 2 (omega arith)),
            (Color-color_ok (v 3) lo hi).1 (h 3 (omega arith)),
          )
          refl

    abbrev all_tests : TevState → AlphaCompare → Bool
    all_tests state ac =
        counts_ok state
        && (alpha_ok ac
            && (colors_ok state.color_regs (negsuc 1023) (pos 1023)
                && (colors_ok state.kcolors (pos 0) (pos 255)
                    && stages_ok state state.num_tev_stages 0)))

    from_tests :
        (state : TevState) (ac : AlphaCompare) → all_tests state ac ≡ true → Accepted state ac
    unfolding counts_ok
    from_tests state ac h = record {
      some_stages = ground arith;
      few_stages = ground arith;
      tex_gens = ground arith;
      ind_stages = ground arith;
      alpha = (Alpha-alpha_ok ac).0 (ground arith);
      registers = from_colors state.color_regs (negsuc 1023) (pos 1023) (ground arith);
      constants = from_colors state.kcolors (pos 0) (pos 255) (ground arith);
      stages = λ i lt.
          from_stage state state.num_tev_stages 0 (ground arith) i (omega arith) (omega arith);
    }

    to_tests :
        (state : TevState) (ac : AlphaCompare) → Accepted state ac → all_tests state ac ≡ true
    unfolding counts_ok
    to_tests state ac a =
        rw
          (
            counts,
            (Alpha-alpha_ok ac).1 a.alpha,
            to_colors state.color_regs (negsuc 1023) (pos 1023) a.registers,
            to_colors state.kcolors (pos 0) (pos 255) a.constants,
            to_stage state state.num_tev_stages 0 (λ j l r. a.stages j (omega arith)),
          )
          refl
      where
        counts :
            (leb 1 state.num_tev_stages
              && leb state.num_tev_stages 16
              && leb state.num_tex_gens 8
              && leb state.num_ind_stages 4)
            ≡ true
        counts = ground (arith, a.some_stages, a.few_stages, a.tex_gens, a.ind_stages)

    -- A program is built exactly where the counts, the alpha test, the four colors of both kinds and
    -- each stage's arguments, operations, swizzles and their table numbers, channel, indirect fields
    -- and the constants that it reads are in range; otherwise the code throws.
    pub build_tev_program-is_ok :
        (state : TevState) (ac : AlphaCompare)
        → (is_ok (build_tev_program state ac) ≡ true) ↔ Accepted state ac
    build_tev_program-is_ok state ac = (
      λ h. from_tests state ac (sym (build_tev_program-checks state ac) ∙ h),
      λ a. build_tev_program-checks state ac ∙ to_tests state ac a,
    )
