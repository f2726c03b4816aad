-- ===== src/Tev/Packed.antt =====
-- The shader reads from a program's stage what the registers hold.
use mkwii_ps.Base.{
  ℕ, zero, suc, ◌+◌, ◌<◌, ◌≡◌, refl, arith, Bool, true, false, ◌&&◌, ◌||◌, ltb, leb, Array, List,
  ◌∷◌, some, get_elem?, subst, ℤ, not,
}
use mkwii_ps.Base.Outcome.{Safe, done, >>=-Safe, require-Safe, if-Safe}
use mkwii_ps.Platform.{Platform}
use mkwii_ps.State.Vec.{Vec4}
use mkwii_ps.State.Tev.{TevStage, TevState}
use mkwii_ps.State.Pixel.{AlphaCompare}
use mkwii_ps.Shader.{ShaderEnums, tev_stage_texture_dependency}
use mkwii_ps.Tev.{
  TevEnums, PackedStage, args_within, konst_color, uses, byte_component, byte_color, byte_colors,
  stage_konst, config_of, stage_accepted, pack_stage, pack_stages, alpha_flags_of,
  build_tev_program,
}
use mkwii_ps.Tev.Fields.{
  op_fields, color_selectors, alpha_selectors, swap_lanes, fields_of, operation-fields,
  swizzle-lanes, color_selectors-pack_args, alpha_selectors-pack_args,
}

module _ ⦃e : TevEnums⦄ ⦃p : Platform⦄ ⦃se : ShaderEnums⦄ (state : TevState) where
  -- What the shader takes from a stage is what the stage's registers hold.
  pub record Decodes (i : ℕ) (d : PackedStage) : Type 0 where
    pub color_args : color_selectors d.color_args ≡ (state.tev_stages i).color_pass
    pub alpha_args : alpha_selectors d.alpha_args ≡ (state.tev_stages i).alpha_pass
    pub color_op : op_fields d.color_op ≡ fields_of (state.tev_stages i).color_op
    pub alpha_op : op_fields d.alpha_op ≡ fields_of (state.tev_stages i).alpha_op
    pub texture_swap :
        swap_lanes d.texture_swap ≡ state.tev_swap_table (state.tev_stages i).tev_swap_tex
    pub raster_swap :
        swap_lanes d.raster_swap ≡ state.tev_swap_table (state.tev_stages i).tev_swap_ras
    pub sampled : d.sample_enabled ≡ (
        (tev_stage_texture_dependency (config_of state) i).can_sample_texture
        && (tev_stage_texture_dependency (config_of state) i).combiner_uses_texture)

  pub Program : ℕ → ℕ → List PackedStage → Type 0
  Program i n stages =
      (k : ℕ) → k < n → (d : PackedStage) × (get_elem? stages k ≡ some d) × Decodes (i + k) d

  module _ (last : e.cs_divide_2 ≡ 3) where
    Accepted-args :
        (s : TevStage)
        → stage_accepted s ≡ true
        → (args_within 15 s.color_pass ≡ true) × (args_within 7 s.alpha_pass ≡ true)
    unfolding stage_accepted
    Accepted-args s h = ground arith

    component-Safe : (lo hi : ℤ) (f : ℕ) → Safe (λ _. Unit {0}) (byte_component lo hi f)
    unfolding byte_component
    component-Safe lo hi f = require-Safe (e.is_byte_range lo hi (e.times_255 f)) λ _. done tt

    color-Safe : (v : Vec4) (lo hi : ℤ) → Safe (λ _. Unit {0}) (byte_color v lo hi)
    unfolding byte_color
    color-Safe v lo hi = >>=-Safe (component-Safe lo hi v.x) λ r _.
        >>=-Safe (component-Safe lo hi v.y) λ g _.
          >>=-Safe (component-Safe lo hi v.z)
            λ b _. >>=-Safe (component-Safe lo hi v.w) λ a _. done tt

    colors-Safe : (v : Array Vec4) (lo hi : ℤ) → Safe (λ _. Unit {0}) (byte_colors v lo hi)
    unfolding byte_colors
    colors-Safe v lo hi = >>=-Safe (color-Safe (v 0) lo hi) λ r _.
        >>=-Safe (color-Safe (v 1) lo hi) λ g _.
          >>=-Safe (color-Safe (v 2) lo hi) λ b _. >>=-Safe (color-Safe (v 3) lo hi) λ a _. done tt

    konst-Safe :
        (sel : ℕ) (colors : Array Vec4) (alpha : Bool)
        → Safe (λ _. Unit {0}) (konst_color sel colors alpha)
    unfolding konst_color
    konst-Safe sel colors alpha =
        if-Safe (ltb sel 8) (λ _. done tt)
          λ _. require-Safe (leb 12 sel && leb sel 31 && (not alpha || leb 16 sel)) λ _. done tt

    stage_konst-Safe :
        (s : TevStage) (konst : Array Vec4) → Safe (λ _. Unit {0}) (stage_konst s konst)
    unfolding stage_konst
    stage_konst-Safe s konst =
        >>=-Safe
          (if-Safe (uses e.cc_konst s.color_pass) (λ _. konst-Safe _ konst false) (λ _. done tt))
          λ rgb _.
            >>=-Safe
              (if-Safe (uses e.ca_konst s.alpha_pass) (λ _. konst-Safe _ konst true) (λ _. done tt))
              λ a _. done tt

    pack_stage-Decodes : (konst : Array Vec4) (i : ℕ) → Safe (Decodes i) (pack_stage state konst i)
    unfolding pack_stage
    pack_stage-Decodes konst i =
        let s = state.tev_stages i in
        require-Safe (stage_accepted s) λ h.
          let args = Accepted-args s h in
          >>=-Safe (operation-fields s.color_op last) λ color_op c.
            >>=-Safe (operation-fields s.alpha_op last) λ alpha_op a.
              >>=-Safe (swizzle-lanes (state.tev_swap_table s.tev_swap_tex)) λ tex t.
                >>=-Safe (swizzle-lanes (state.tev_swap_table s.tev_swap_ras)) λ ras r.
                  >>=-Safe (stage_konst-Safe s konst) λ value _. done (record {
                    color_args = color_selectors-pack_args s.color_pass args.0;
                    alpha_args = alpha_selectors-pack_args s.alpha_pass args.1;
                    color_op = c;
                    alpha_op = a;
                    texture_swap = t;
                    raster_swap = r;
                    sampled = refl;
                  })

    Program-cons :
        (i n : ℕ) (d : PackedStage) (rest : List PackedStage)
        → Decodes i d
        → Program (i + 1) n rest
        → Program i (suc n) (d ∷ rest)
    unfolding Program
    Program-cons i n d rest h g zero lt = (d, refl, subst (λ j. Decodes j d) (omega arith) h)
    Program-cons i n d rest h g (suc k) lt =
        let (x, at, found) = g k (omega arith) in
        (x, at, subst (λ j. Decodes j x) (omega arith) found)

    pack_stages-Program :
        (konst : Array Vec4) (n i : ℕ) → Safe (Program i n) (pack_stages state konst n i)
    unfolding pack_stages Program
    pack_stages-Program konst zero i = done λ k lt. absurd (omega arith)
    pack_stages-Program konst (suc n) i = >>=-Safe (pack_stage-Decodes konst i) λ d h.
        >>=-Safe (pack_stages-Program konst n (i + 1)) λ rest g. done (Program-cons i n d rest h g)

    flags-Safe : (ac : AlphaCompare) → Safe (λ _. Unit {0}) (alpha_flags_of ac)
    unfolding alpha_flags_of
    flags-Safe ac =
        require-Safe
          (leb ac.comp0 7 && leb ac.comp1 7 && leb ac.op 3 && leb ac.ref0 255 && leb ac.ref1 255)
          λ _. done tt

    -- Where the last scale is numbered 3: a program is refused by an exception, or has all its
    -- stages, and from each of them the shader takes the selectors, operations, swizzles and the
    -- sampling that the registers hold.
    pub build_tev_program-Program :
        (ac : AlphaCompare)
        → Safe
            (λ program.
              (program.stage_count ≡ state.num_tev_stages)
              × Program 0 state.num_tev_stages program.stages)
            (build_tev_program state ac)
    unfolding build_tev_program
    build_tev_program-Program ac =
        require-Safe
          (leb 1 state.num_tev_stages
            && leb state.num_tev_stages 16
            && leb state.num_tex_gens 8
            && leb state.num_ind_stages 4)
          λ _. >>=-Safe (flags-Safe ac) λ flags _.
            >>=-Safe (colors-Safe state.color_regs _ _) λ initial _.
              >>=-Safe (colors-Safe state.kcolors _ _) λ konst _.
                >>=-Safe (pack_stages-Program konst state.num_tev_stages 0)
                  λ stages h. done (refl, h)
