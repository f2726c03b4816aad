-- ===== src/Tev/Checked.antt =====
-- The tests of a program in the order of the code, as one Boolean.
use mkwii_ps.Base.{
  ℕ, zero, suc, ◌+◌, ◌≡◌, refl, ◌∙◌, ap, arith, Bool, true, false, ◌&&◌, ◌||◌, not, ltb, leb,
  if◌then◌else◌, Array, ℤ, pos, negsuc,
}
use mkwii_ps.Base.Outcome.{Outcome, ok, require, ◌>>=◌, ◌>>◌, is_ok, >>=-is_ok, require-is_ok}
use mkwii_ps.Platform.{Platform}
use mkwii_ps.State.Vec.{Vec4}
use mkwii_ps.State.Tev.{TevOp, TevSwap, TevStage, TevState}
use mkwii_ps.State.Pixel.{AlphaCompare}
use mkwii_ps.Shader.{ShaderEnums}
use mkwii_ps.Tev.{
  TevEnums, swizzle, operation, byte_component, byte_color, byte_colors, konst_color, uses,
  stage_konst, splat, stage_accepted, pack_stage, pack_stages, alpha_flags_of, build_tev_program,
}

unfoldable pub swizzle_ok : TevSwap → Bool
swizzle_ok s = leb s.red 3 && leb s.green 3 && leb s.blue 3 && leb s.alpha 3

unfoldable pub alpha_ok : AlphaCompare → Bool
alpha_ok ac = leb ac.comp0 7 && leb ac.comp1 7 && leb ac.op 3 && leb ac.ref0 255 && leb ac.ref1 255

unfoldable pub counts_ok : TevState → Bool
counts_ok state =
    leb 1 state.num_tev_stages
    && leb state.num_tev_stages 16
    && leb state.num_tex_gens 8
    && leb state.num_ind_stages 4

and_true : (b : Bool) → (b && true) ≡ b
and_true true = refl
and_true false = refl

-- The code returns exactly where `b` holds.
record Exactly {A : Type 0} (b : Bool) (o : Outcome A) : Type 0 where
  is : is_ok o ≡ b

sure : {A : Type 0} {a : A} → Exactly true (ok a)
sure = record { is = refl }

-- Two steps, of which each is accepted by a test.
both :
    {A B : Type 0} {o : Outcome A} {f : A → Outcome B} {b c : Bool}
    → Exactly b o
    → ((a : A) → Exactly c (f a))
    → Exactly (b && c) (o >>= f)
both {o = o} {f = f} {c = c} h k = record {
  is = >>=-is_ok o f c (λ a. (k a).is) ∙ ap (λ b. b && c) h.is;
}

last :
    {A B : Type 0} {o : Outcome A} {f : A → Outcome B} {b : Bool}
    → Exactly b o
    → ((a : A) → Exactly true (f a))
    → Exactly b (o >>= f)
last {b = b} h k = record { is = (both h k).is ∙ and_true b }

checked :
    {B : Type 0} (test : Bool) {o : Outcome B} {c : Bool}
    → Exactly c o
    → Exactly (test && c) (require test >> o)
checked test {o = o} h = record { is = require-is_ok test o ∙ ap (λ b. test && b) h.is }

swizzle-is_ok : (s : TevSwap) → Exactly (swizzle_ok s) (swizzle s)
unfolding swizzle swizzle_ok
swizzle-is_ok s = record { is = ground arith }

module _ ⦃e : TevEnums⦄ where
  -- A comparison ignores its bias.
  unfoldable pub operation_ok : TevOp → Bool
  operation_ok v =
      ((leb v.op 1 || leb 8 v.op && leb v.op 15) && leb v.scale e.cs_divide_2 && leb v.out_reg 3)
      && leb (if leb 8 v.op then 0 else v.bias) e.tb_subhalf

  unfoldable pub color_ok : Vec4 → ℤ → ℤ → Bool
  color_ok v lo hi =
      e.is_byte_range lo hi (e.times_255 v.x)
      && (e.is_byte_range lo hi (e.times_255 v.y)
          && (e.is_byte_range lo hi (e.times_255 v.z) && e.is_byte_range lo hi (e.times_255 v.w)))

  unfoldable pub colors_ok : Array Vec4 → ℤ → ℤ → Bool
  colors_ok v lo hi =
      color_ok (v 0) lo hi
      && (color_ok (v 1) lo hi && (color_ok (v 2) lo hi && color_ok (v 3) lo hi))

  unfoldable pub konst_ok : ℕ → Bool → Bool
  konst_ok sel alpha = ltb sel 8 || leb 12 sel && leb sel 31 && (not alpha || leb 16 sel)

  -- A selector that no argument reads is not checked.
  unfoldable pub stage_konst_ok : TevStage → Bool
  stage_konst_ok s =
      (not (uses e.cc_konst s.color_pass) || konst_ok s.kc_sel false)
      && (not (uses e.ca_konst s.alpha_pass) || konst_ok s.ka_sel true)

  operation-is_ok : (v : TevOp) → Exactly (operation_ok v) (operation v)
  unfolding operation operation_ok
  operation-is_ok v = record { is = ground arith }

  color-is_ok : (v : Vec4) (lo hi : ℤ) → Exactly (color_ok v lo hi) (byte_color v lo hi)
  unfolding byte_color byte_component color_ok
  color-is_ok v lo hi = record { is = ground arith }

  konst-is_ok :
      (sel : ℕ) (konst : Array Vec4) (alpha : Bool)
      → Exactly (konst_ok sel alpha) (konst_color sel konst alpha)
  unfolding konst_color konst_ok
  konst-is_ok sel konst alpha = record { is = ground arith }

  optional :
      (used : Bool) (o : Outcome Vec4) (v : Vec4) {b : Bool}
      → Exactly b o
      → Exactly (not used || b) (if used then o else ok v)
  optional true o v h = h
  optional false o v h = sure

  stage_konst-is_ok :
      (s : TevStage) (konst : Array Vec4) → Exactly (stage_konst_ok s) (stage_konst s konst)
  unfolding stage_konst stage_konst_ok konst_color konst_ok
  stage_konst-is_ok s konst =
      both (optional (uses e.cc_konst s.color_pass) _ (splat 0) (konst-is_ok s.kc_sel konst false))
        λ rgb.
          last (optional (uses e.ca_konst s.alpha_pass) _ rgb (konst-is_ok s.ka_sel konst true))
            λ a. sure

  module _ ⦃p : Platform⦄ ⦃se : ShaderEnums⦄ where
    colors-is_ok : (v : Array Vec4) (lo hi : ℤ) → Exactly (colors_ok v lo hi) (byte_colors v lo hi)
    unfolding byte_colors colors_ok
    colors-is_ok v lo hi = both (color-is_ok (v 0) lo hi) λ c0.
        both (color-is_ok (v 1) lo hi)
          λ c1. both (color-is_ok (v 2) lo hi) λ c2. last (color-is_ok (v 3) lo hi) λ c3. sure

    unfoldable pub stage_ok : TevState → ℕ → Bool
    stage_ok state i =
        let s = state.tev_stages i in
        stage_accepted s
        && (operation_ok s.color_op
            && (operation_ok s.alpha_op
                && (swizzle_ok (state.tev_swap_table s.tev_swap_tex)
                    && (swizzle_ok (state.tev_swap_table s.tev_swap_ras) && stage_konst_ok s))))

    -- The stages from `i` on, `n` of them.
    unfoldable pub stages_ok : TevState → ℕ → ℕ → Bool
    stages_ok state zero i = true
    stages_ok state (suc n) i = stage_ok state i && stages_ok state n (i + 1)

    pack_stage-is_ok :
        (state : TevState) (konst : Array Vec4) (i : ℕ)
        → Exactly (stage_ok state i) (pack_stage state konst i)
    unfolding pack_stage stage_ok
    pack_stage-is_ok state konst i =
        let s = state.tev_stages i in
        checked (stage_accepted s) (
          both (operation-is_ok s.color_op) λ c. both (operation-is_ok s.alpha_op) λ a.
            both (swizzle-is_ok (state.tev_swap_table s.tev_swap_tex)) λ t.
              both (swizzle-is_ok (state.tev_swap_table s.tev_swap_ras))
                λ r. last (stage_konst-is_ok s konst) λ v. sure)

    pack_stages-is_ok :
        (state : TevState) (konst : Array Vec4) (n i : ℕ)
        → Exactly (stages_ok state n i) (pack_stages state konst n i)
    unfolding pack_stages stages_ok
    pack_stages-is_ok state konst zero i = sure
    pack_stages-is_ok state konst (suc n) i =
        both (pack_stage-is_ok state konst i)
          λ d. last (pack_stages-is_ok state konst n (i + 1)) λ rest. sure

    alpha-is_ok : (ac : AlphaCompare) → Exactly (alpha_ok ac) (alpha_flags_of ac)
    unfolding alpha_flags_of alpha_ok
    alpha-is_ok ac = record { is = ground arith }

    -- All tests of the code together.
    pub build_tev_program-checks :
        (state : TevState) (ac : AlphaCompare)
        → is_ok (build_tev_program state ac) ≡ (
            counts_ok state
            && (alpha_ok ac
                && (colors_ok state.color_regs (negsuc 1023) (pos 1023)
                    && (colors_ok state.kcolors (pos 0) (pos 255)
                        && stages_ok state state.num_tev_stages 0))))
    unfolding build_tev_program counts_ok
    build_tev_program-checks state ac =
        (checked
          (leb 1 state.num_tev_stages
            && leb state.num_tev_stages 16
            && leb state.num_tex_gens 8
            && leb state.num_ind_stages 4)
          (both (alpha-is_ok ac) λ flags.
            both (colors-is_ok state.color_regs (negsuc 1023) (pos 1023)) λ initial.
              both (colors-is_ok state.kcolors (pos 0) (pos 255)) λ konst.
                last (pack_stages-is_ok state konst state.num_tev_stages 0) λ stages. sure)).is
