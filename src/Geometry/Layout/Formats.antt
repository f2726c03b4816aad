-- ===== src/Geometry/Layout/Formats.antt =====
-- What the format of an enabled attribute can be.
use mkwii_ps.Base.{
  ℕ, zero, suc, ◌≤◌, ◌<◌, ◌≡◌, refl, ◌≢◌, ◌⊎◌, true, false, ltb, leb, ◌==◌, ◌||◌, if◌then◌else◌,
  arith,
}
use native.Mathlib.Nat.{mul-le-mul}
use mkwii_ps.Base.Outcome.{ok, Safe, done, require-Safe, if-Safe, Safe-weaken}
use mkwii_ps.Platform.{Platform}
use mkwii_ps.State.Vertex.{va_pos, va_nrm, VtxAttrFmt}
use mkwii_ps.Geometry.Layout.{
  direct, AttributeLayout, is_color, color_bytes, matrix_format, color_format, numeric_bytes,
  position_count, normal_count, coordinate_count, numeric_count, numeric_format, describe,
  record_bytes,
}

-- The bytes of a colour of six formats.
unfoldable pub color_size : ℕ → ℕ
color_size t =
    if t == 0 || t == 3
    then 2
    else if t == 1 || t == 4
    then 3
    else if t == 2 || t == 5
    then 4
    else 0

-- What an enabled attribute can be.
pub record Shape (attr : ℕ) (d : AttributeLayout) : Type 0 where
  pub mode_low : 1 ≤ d.mode
  pub mode_high : d.mode ≤ 3
  pub matrix : attr < 9 → (d.mode ≡ 1) × (d.component_bytes ≡ 1) × (d.components ≡ 1)
  pub color :
      is_color attr ≡ true → (d.components ≡ 1) × (d.component_bytes ≡ color_size d.comp_type)
  pub normal : attr ≡ 10 → (d.components ≡ 3) ⊎ (d.components ≡ 9)
  pub single : attr ≢ 10 → d.index_count ≡ 1
  pub indices : (d.index_count ≡ 1) ⊎ (d.index_count ≡ 3)
  pub bytes : d.component_bytes ≤ 4
  pub count : d.components ≤ 9

-- The mode and the place are given before the format is read.
pub record Described (attr : ℕ) (dst d : AttributeLayout) : Type 0 where
  pub shape : Shape attr d
  pub mode : d.mode ≡ dst.mode
  pub offset : d.offset ≡ dst.offset

-- A format of the table is read without a fault.
pub color_bytes-color_size : (t : ℕ) → t ≤ 5 → color_bytes t ≡ ok (color_size t)
unfolding color_bytes color_size
color_bytes-color_size zero h = refl
color_bytes-color_size (suc zero) h = refl
color_bytes-color_size (suc (suc zero)) h = refl
color_bytes-color_size (suc (suc (suc zero))) h = refl
color_bytes-color_size (suc (suc (suc (suc zero)))) h = refl
color_bytes-color_size (suc (suc (suc (suc (suc zero))))) h = refl
color_bytes-color_size (suc (suc (suc (suc (suc (suc t)))))) h = absurd (omega arith)

color_size-le : (t : ℕ) → color_size t ≤ 4
unfolding color_size
color_size-le t = ground arith

module _ ⦃p : Platform⦄ where
  numeric_bytes-le : (t : ℕ) → numeric_bytes t ≤ 4
  unfolding numeric_bytes
  numeric_bytes-le t = ground arith

  module _ (attr : ℕ) (f : VtxAttrFmt) (dst : AttributeLayout) (low : 1 ≤ dst.mode)
      (high : dst.mode ≤ 3) (one : dst.index_count ≡ 1) (kind : dst.comp_type ≡ f.comp_type) where
    matrix_format-Safe : attr < 9 → Safe (Described attr dst) (matrix_format dst)
    unfolding matrix_format is_color
    matrix_format-Safe lt =
        require-Safe (dst.mode == direct)
          λ e. done (record { shape = ground arith; mode = refl; offset = refl })

    color_format-Safe :
        9 ≤ attr → attr ≢ 10 → is_color attr ≡ true → Safe (Described attr dst) (color_format f dst)
    unfolding color_format
    color_format-Safe le ne c = require-Safe (leb f.comp_type p.clr_rgba8) λ e.
        rw (color_bytes-color_size f.comp_type (ground (arith, p.six_colors))) (
          done (record {
            shape = ground (arith, color_size-le f.comp_type);
            mode = refl;
            offset = refl;
          }))

    position_count-Safe :
        attr ≡ 9 → dst.component_bytes ≤ 4 → Safe (Described attr dst) (position_count f dst)
    unfolding position_count is_color
    position_count-Safe e fits =
        require-Safe (leb f.cnt p.pos_xyz)
          λ _. done (record { shape = ground arith; mode = refl; offset = refl })

    normal_count-Safe :
        attr ≡ 10 → dst.component_bytes ≤ 4 → Safe (Described attr dst) (normal_count f dst)
    unfolding normal_count is_color
    normal_count-Safe e fits =
        require-Safe (leb f.cnt p.nrm_nbt3)
          λ _. done (record { shape = ground arith; mode = refl; offset = refl })

    coordinate_count-Safe :
        9 ≤ attr
        → attr ≢ 10
        → is_color attr ≡ false
        → dst.component_bytes ≤ 4
        → Safe (Described attr dst) (coordinate_count f dst)
    unfolding coordinate_count
    coordinate_count-Safe le ne c fits =
        require-Safe (leb f.cnt p.tex_st)
          λ _. done (record { shape = ground arith; mode = refl; offset = refl })

  numeric_count-Safe :
      (attr : ℕ) (f : VtxAttrFmt) (dst : AttributeLayout)
      → 1 ≤ dst.mode
      → dst.mode ≤ 3
      → dst.index_count ≡ 1
      → dst.comp_type ≡ f.comp_type
      → dst.component_bytes ≤ 4
      → 9 ≤ attr
      → is_color attr ≡ false
      → Safe (Described attr dst) (numeric_count attr f dst)
  unfolding numeric_count
  numeric_count-Safe attr f dst low high one kind fits le c =
      if-Safe (attr == va_pos)
        (λ e. position_count-Safe attr f dst low high one kind (ground arith) fits)
        λ e.
          if-Safe (attr == va_nrm)
            (λ e'. normal_count-Safe attr f dst low high one kind (ground arith) fits)
            λ e'. coordinate_count-Safe attr f dst low high one kind le (ground arith) c fits

  pub describe-Safe :
      (attr : ℕ) (f : VtxAttrFmt) (dst : AttributeLayout)
      → 1 ≤ dst.mode
      → dst.mode ≤ 3
      → dst.index_count ≡ 1
      → dst.comp_type ≡ f.comp_type
      → Safe (Described attr dst) (describe attr f dst)
  unfolding describe numeric_format is_color
  describe-Safe attr f dst low high one kind =
      if-Safe (ltb attr va_pos)
        (λ e. matrix_format-Safe attr f dst low high one kind (ground arith))
        λ e.
          if-Safe (is_color attr)
            (λ c. color_format-Safe attr f dst low high one kind (ground arith) (ground arith) c)
            λ c. require-Safe _ λ _.
              Safe-weaken
                (numeric_count-Safe attr f
                  (record dst { component_bytes = numeric_bytes f.comp_type }) low high one kind
                  (numeric_bytes-le f.comp_type) (ground arith) c)
                λ d h. record { shape = h.shape; mode = h.mode; offset = h.offset }

  pub record_bytes-le : (attr : ℕ) (d : AttributeLayout) → Shape attr d → record_bytes d ≤ 36
  unfolding record_bytes
  record_bytes-le attr d s = ground (arith, mul-le-mul s.bytes s.count)
