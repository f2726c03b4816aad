-- ===== src/Geometry/Layout/Accepted.antt =====
-- `GxVertexLayout::build`: the descriptors and formats that it accepts.
use mkwii_ps.Base.{
  ℕ, zero, suc, ◌+◌, ◌≡◌, refl, Bool, true, ◌&&◌, ◌||◌, ltb, leb, ◌==◌, within, if◌then◌else◌,
  arith, Bool-cases, inl, inr, ◌∙◌, ap,
}
use mkwii_ps.Base.Outcome.{Outcome, ok, is_ok, >>=-is_ok, require-is_ok, require, ◌>>=◌, ◌>>◌}
use mkwii_ps.Platform.{Platform}
use mkwii_ps.State.Vertex.{VtxAttrFmt, VertexState}
use mkwii_ps.Geometry.Layout.Formats.{color_bytes-color_size}
use mkwii_ps.Geometry.Layout.{
  attribute_count, direct, index8, index16, AttributeLayout, VertexLayout, is_color, empty_layout,
  matrix_format, color_format, position_count, normal_count, coordinate_count, numeric_count,
  numeric_format, describe, begin_attribute, place, format_at, add_attribute, add_attributes, build,
}

-- All of `n`, n + 1, ... pass the test, `k` numbers.
abbrev pub all_from : ℕ → ℕ → (ℕ → Bool) → Bool
all_from zero n test = true
all_from (suc k) n test = test n && all_from k (n + 1) test

module _ ⦃p : Platform⦄ where
  -- A matrix index is direct. A colour has one of six formats. A number has a known type, a fraction
  -- of at most 31 bits and a known count.
  abbrev pub format_accepted : ℕ → ℕ → VtxAttrFmt → Bool
  format_accepted attr mode f =
      if ltb attr 9
      then mode == 1
      else if attr == 11 || attr == 12
      then leb f.comp_type p.clr_rgba8
      else leb f.comp_type p.comp_f32
        && (leb f.frac 31
            && leb f.cnt
                (if attr == 9 then p.pos_xyz else if attr == 10 then p.nrm_nbt3 else p.tex_st))

  abbrev pub attribute_accepted : VertexState → ℕ → ℕ → Bool
  attribute_accepted v format attr =
      v.vtx_desc attr == p.attr_none
      || (within 1 3 (v.vtx_desc attr)
          && format_accepted attr (v.vtx_desc attr) (v.vtx_fmts format attr))

  -- The table has a size for every colour format that passes the test.
  color_format-is_ok :
      (f : VtxAttrFmt) (dst : AttributeLayout)
      → is_ok (color_format f dst) ≡ leb f.comp_type p.clr_rgba8
  unfolding color_format
  color_format-is_ok f dst = elim (Bool-cases (leb f.comp_type p.clr_rgba8)) [
    | inl e ↦ rw (e, color_bytes-color_size f.comp_type (ground (arith, p.six_colors))) refl
    | inr e ↦ rw e refl
  ]

  describe-is_ok :
      (attr : ℕ) (f : VtxAttrFmt) (dst : AttributeLayout)
      → is_ok (describe attr f dst) ≡ format_accepted attr dst.mode f
  unfolding describe is_color matrix_format numeric_format numeric_count position_count normal_count
      coordinate_count
  describe-is_ok attr f dst = ground (arith, color_format-is_ok f dst)

  module _ (v : VertexState) (format : ℕ) (in_range : ltb format p.max_vtxfmt ≡ true) where
    described-is_ok :
        (attr : ℕ) (out : VertexLayout)
        → is_ok (
            describe attr (v.vtx_fmts format attr) (begin_attribute v format attr out) >>= λ d.
            ok (place v attr out d))
          ≡ format_accepted attr (v.vtx_desc attr) (v.vtx_fmts format attr)
    described-is_ok attr out = ground (
      arith,
      >>=-is_ok (describe attr (v.vtx_fmts format attr) (begin_attribute v format attr out))
          (λ d. ok (place v attr out d)) true λ d. refl,
      describe-is_ok attr (v.vtx_fmts format attr) (begin_attribute v format attr out),
    )

    enabled-is_ok :
        (attr : ℕ) (o : Outcome VertexLayout)
        → is_ok o ≡ format_accepted attr (v.vtx_desc attr) (v.vtx_fmts format attr)
        → is_ok (
            require
              (v.vtx_desc attr == direct || v.vtx_desc attr == index8 || v.vtx_desc attr == index16)
            >> o)
          ≡ (within 1 3 (v.vtx_desc attr)
              && format_accepted attr (v.vtx_desc attr) (v.vtx_fmts format attr))
    enabled-is_ok attr o e =
        rw
          (
            require-is_ok
                (v.vtx_desc attr == direct
                  || v.vtx_desc attr == index8
                  || v.vtx_desc attr == index16)
                o,
            e,
          )
          (known (v.vtx_desc attr)
            (format_accepted attr (v.vtx_desc attr) (v.vtx_fmts format attr)))
      where
        known :
            (mode : ℕ) (b : Bool)
            → ((mode == direct || mode == index8 || mode == index16) && b) ≡ (within 1 3 mode && b)
        known mode b = ground arith

    add_attribute-is_ok :
        (attr : ℕ) (out : VertexLayout)
        → is_ok (add_attribute v format attr out) ≡ attribute_accepted v format attr
    unfolding add_attribute format_at
    add_attribute-is_ok attr out = elim (Bool-cases (v.vtx_desc attr == p.attr_none)) [
      | inl e ↦ rw e refl
      | inr e ↦ rw (e, in_range) (enabled-is_ok attr _ (described-is_ok attr out))
    ]

    add_attributes-is_ok :
        (k n : ℕ) (out : VertexLayout)
        → is_ok (add_attributes v format k n out) ≡ all_from k n (attribute_accepted v format)
    unfolding add_attributes
    add_attributes-is_ok zero n out = refl
    add_attributes-is_ok (suc k) n out =
        >>=-is_ok (add_attribute v format n out) (add_attributes v format k (n + 1))
          (all_from k (n + 1) (attribute_accepted v format)) (add_attributes-is_ok k (n + 1))
        ∙ ap (λ b. b && all_from k (n + 1) (attribute_accepted v format))
            (add_attribute-is_ok n out)

  module _ (v : VertexState) (format : ℕ) where
    -- A layout is built exactly where the format's number is in range and each of the 21 attributes
    -- is off or has an accepted descriptor and format. Otherwise `build` throws.
    pub build-is_ok :
        is_ok (build v format)
        ≡ (ltb format p.max_vtxfmt && all_from 21 0 (attribute_accepted v format))
    unfolding build
    build-is_ok = elim (Bool-cases (ltb format p.max_vtxfmt)) [
      | inl e ↦ rw e (add_attributes-is_ok v format e attribute_count 0 empty_layout)
      | inr e ↦ rw e refl
    ]
