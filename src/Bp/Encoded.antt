-- ===== src/Bp/Encoded.antt =====
-- The packed registers of the texture environment, and the numbers of the texture registers.
use mkwii_ps.Base.{
  ℕ, ◌+◌, ◌-◌, ◌*◌, ◌/◌, ◌%◌, ◌^◌, ◌<◌, ◌≡◌, refl, Bool, true, false, ◌&&◌, ◌==◌, ◌!=◌, within,
  if◌then◌else◌, arith, Option, none, some, all_below, all_below-test, sym, ap, ◌∙◌,
}
use mkwii_ps.Platform.{Platform}
use mkwii_ps.State.Tev.{TevStage}
use mkwii_ps.Bp.Field.{bp_get_lem}
use mkwii_ps.Bp.Tev.{color_env, tev_op}
use mkwii_ps.Bp.Texture.{
  Kind, mode0, mode1, image0, image1, image2, image3, tlut, TexBpRegMapping, find_mapping, kind_at,
  decode_tex_bp_reg,
}

-- The fields of a combiner's operation and their places in the register, from bit 16 on.
pub record OpFields : Type 0 where
  pub bias : ℕ
  pub op : ℕ
  pub clamp : ℕ
  pub scale : ℕ
  pub out_reg : ℕ
  pub small : (bias < 3) × (op < 2) × (clamp < 2) × (scale < 4) × (out_reg < 4)

abbrev pub pack_op : OpFields → ℕ
pack_op f =
    f.bias * 2 ^ 16 + f.op * 2 ^ 18 + f.clamp * 2 ^ 19 + f.scale * 2 ^ 20 + f.out_reg * 2 ^ 22

-- Which texture register has a number: two banks of 32 registers, four texture units each, and in a
-- bank four registers for each kind, the last four unused.
abbrev pub kind_of : ℕ → Option Kind
kind_of g =
    if g == 0
    then some mode0
    else if g == 1
    then some mode1
    else if g == 2
    then some image0
    else if g == 3
    then some image1
    else if g == 4
    then some image2
    else if g == 5
    then some image3
    else if g == 6
    then some tlut
    else none

abbrev pub tex_register : ℕ → Option TexBpRegMapping
tex_register r =
    if within 0x80 0xBF r
    then (elim (kind_of ((r - 0x80) % 32 / 4)) [
      | none ↦ none
      | some k ↦ some (record { tex_map_id = (r - 0x80) / 32 * 4 + r % 4; kind = k })
    ])
    else none

abbrev kind_number : Kind → ℕ
kind_number mode0 = 0
kind_number mode1 = 1
kind_number image0 = 2
kind_number image1 = 3
kind_number image2 = 4
kind_number image3 = 5
kind_number tlut = 6

kind_of-kind_number : (k : Kind) → kind_of (kind_number k) ≡ some k
kind_of-kind_number mode0 = refl
kind_of-kind_number mode1 = refl
kind_of-kind_number image0 = refl
kind_of-kind_number image1 = refl
kind_of-kind_number image2 = refl
kind_of-kind_number image3 = refl
kind_of-kind_number tlut = refl

abbrev same_mapping : Option TexBpRegMapping → Option TexBpRegMapping → Bool
same_mapping none none = true
same_mapping none (some u) = false
same_mapping (some t) none = false
same_mapping (some t) (some u) =
    (t.tex_map_id == u.tex_map_id) && (kind_number t.kind == kind_number u.kind)

kind_number_injective : (j k : Kind) → kind_number j ≡ kind_number k → some j ≡ some k
kind_number_injective j k e = sym (kind_of-kind_number j) ∙ ap kind_of e ∙ kind_of-kind_number k

same_mapping_sound : (o q : Option TexBpRegMapping) → same_mapping o q ≡ true → o ≡ q
same_mapping_sound none none e = refl
same_mapping_sound none (some u) e = ground arith
same_mapping_sound (some t) none e = ground arith
same_mapping_sound (some t) (some u) e = ground (arith, kind_number_injective t.kind u.kind)

eight_units : (r : ℕ) → r < 256 → find_mapping 8 0 r ≡ tex_register r
unfolding find_mapping kind_at all_below
eight_units r lt =
    same_mapping_sound _ _
      (all_below-test 256 (λ x. same_mapping (find_mapping 8 0 x) (tex_register x)) r refl lt)

-- The fields of `x` after those of a combiner's operation and of its inputs are packed into it.
abbrev pub packed : OpFields → ℕ → ℕ → ℕ → ℕ → ℕ
packed f a b c d = pack_op f + (a * 2 ^ 12 + b * 2 ^ 8 + c * 2 ^ 4 + d)

-- What `color_env` decodes from the packed fields.
pub record Decodes (f : OpFields) (a b c d : ℕ) (s : TevStage) : Type 0 where
  pub pass : s.color_pass ≡ record { a = a; b = b; c = c; d = d }
  pub op : s.color_op ≡ record {
    op = f.op;
    bias = f.bias;
    scale = f.scale;
    out_reg = f.out_reg;
    clamp = f.clamp != 0;
  }

module _ ⦃p : Platform⦄ where
  -- With as many texture units as the tables have entries, the search of `decode_tex_bp_reg` finds
  -- for each register number the unit and the kind that the number's bits name.
  pub decode_tex_bp_reg-tex_register :
      (r : ℕ) → p.max_texmap ≡ 8 → r < 256 → decode_tex_bp_reg r ≡ tex_register r
  unfolding decode_tex_bp_reg
  decode_tex_bp_reg-tex_register r units lt = rw units (eight_units r lt)

  -- A colour combiner packed into the register's bits, its bias not that of compare mode, is decoded to
  -- its fields.
  pub color_env-Decodes :
      (f : OpFields) (a b c d : ℕ) (s : TevStage)
      → a < 16
      → b < 16
      → c < 16
      → d < 16
      → Decodes f a b c d (color_env (packed f a b c d) s)
  unfolding color_env tev_op
  color_env-Decodes f a b c d s la lb lc ld =
      let field = bp_get_lem (packed f a b c d) in
      record {
        pass = ground (arith, f.small, field 4 12, field 4 8, field 4 4, field 4 0);
        op = ground (arith, f.small, field 2 16, field 1 18, field 1 19, field 2 20, field 2 22);
      }
