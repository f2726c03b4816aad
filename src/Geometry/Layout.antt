-- ===== src/Geometry/Layout.antt =====
-- ps5/gpu/gx_geometry.cpp: `GxVertexLayout::build`, from the vertex descriptors and formats.
pub mod Formats
pub mod Placed
pub mod Accepted
use mkwii_ps.Base.{
  ℕ, zero, suc, ◌+◌, ◌*◌, ◌%◌, ◌^◌, Bool, false, ◌&&◌, ◌||◌, ltb, leb, ◌==◌, if◌then◌else◌, Array,
  update, get_elem?, List, [], ◌∷◌,
}
use mkwii_ps.Base.Outcome.{Outcome, ok, fault, ◌>>=◌, ◌>>◌, require, or_fault}
use mkwii_ps.Platform.{Platform}
use mkwii_ps.State.Vertex.{va_pos, va_nrm, va_clr0, va_clr1, va_tex7, VtxAttrFmt, VertexState}

-- `GxGeometryAttributeCount`.
abbrev pub attribute_count : ℕ
attribute_count = va_tex7 + 1

-- The numbers that ps5/gpu/gx_geometry_buffer.cpp asserts.
abbrev pub direct : ℕ
direct = 1

abbrev pub index8 : ℕ
index8 = 2

abbrev pub index16 : ℕ
index16 = 3

pub record AttributeLayout : Type 0 where
  pub mode : ℕ
  pub comp_type : ℕ
  pub offset : ℕ
  pub component_bytes : ℕ
  pub components : ℕ
  pub index_count : ℕ
  pub array_stride : ℕ
  pub fraction : ℕ
  pub array_little_endian : Bool

pub record VertexLayout : Type 0 where
  pub attributes : Array AttributeLayout
  pub stride : ℕ

unfoldable pub is_color : ℕ → Bool
is_color attr = attr == va_clr0 || attr == va_clr1

-- `sizes` of a colour's format.
abbrev pub color_sizes : List ℕ
color_sizes = 2 ∷ 3 ∷ 4 ∷ 2 ∷ 3 ∷ 4 ∷ []

-- `sizes[f.type]`: a fault past the table.
unfoldable pub color_bytes : ℕ → Outcome ℕ
color_bytes t = or_fault (get_elem? color_sizes t)

module _ ⦃p : Platform⦄ where
  -- Members of a default `GxVertexLayout`.
  unfoldable pub default_attribute : AttributeLayout
  default_attribute = record {
    mode = p.attr_none;
    comp_type = p.comp_f32;
    offset = 0;
    component_bytes = 0;
    components = 0;
    index_count = 1;
    array_stride = 0;
    fraction = 0;
    array_little_endian = false;
  }

  unfoldable pub empty_layout : VertexLayout
  empty_layout = record { attributes = λ _. default_attribute; stride = 0 }

  unfoldable pub matrix_format : AttributeLayout → Outcome AttributeLayout
  matrix_format dst = do
    require (dst.mode == direct)
    ok (record dst { comp_type = p.comp_u8; fraction = 0; components = 1; component_bytes = 1 })

  unfoldable pub color_format : VtxAttrFmt → AttributeLayout → Outcome AttributeLayout
  color_format f dst = do
    require (leb f.comp_type p.clr_rgba8)
    bytes ← color_bytes f.comp_type
    ok (record dst { components = 1; component_bytes = bytes; fraction = 0 })

  -- The bytes of a component of a number.
  unfoldable pub numeric_bytes : ℕ → ℕ
  numeric_bytes t = if leb t p.comp_s8 then 1 else if leb t p.comp_s16 then 2 else 4

  unfoldable pub position_count : VtxAttrFmt → AttributeLayout → Outcome AttributeLayout
  position_count f dst = do
    require (leb f.cnt p.pos_xyz)
    ok (record dst { components = if f.cnt == p.pos_xy then 2 else 3 })

  unfoldable pub normal_count : VtxAttrFmt → AttributeLayout → Outcome AttributeLayout
  normal_count f dst = do
    require (leb f.cnt p.nrm_nbt3)
    ok (record dst {
      components = if f.cnt == p.nrm_xyz then 3 else 9;
      index_count = if f.cnt == p.nrm_nbt3 then 3 else 1;
    })

  unfoldable pub coordinate_count : VtxAttrFmt → AttributeLayout → Outcome AttributeLayout
  coordinate_count f dst = do
    require (leb f.cnt p.tex_st)
    ok (record dst { components = if f.cnt == p.tex_s then 1 else 2 })

  unfoldable pub numeric_count : ℕ → VtxAttrFmt → AttributeLayout → Outcome AttributeLayout
  numeric_count attr f dst =
      if attr == va_pos
      then position_count f dst
      else if attr == va_nrm
      then normal_count f dst
      else coordinate_count f dst

  unfoldable pub numeric_format : ℕ → VtxAttrFmt → AttributeLayout → Outcome AttributeLayout
  numeric_format attr f dst = do
    require (leb f.comp_type p.comp_f32 && leb f.frac 31)
    numeric_count attr f (record dst { component_bytes = numeric_bytes f.comp_type })

  -- The format of an enabled attribute, by the kind of the attribute.
  unfoldable pub describe : ℕ → VtxAttrFmt → AttributeLayout → Outcome AttributeLayout
  describe attr f dst =
      if ltb attr va_pos
      then matrix_format dst
      else if is_color attr
      then color_format f dst
      else numeric_format attr f dst

  -- What an attribute takes in a vertex record.
  unfoldable pub record_bytes : AttributeLayout → ℕ
  record_bytes d =
      if d.mode == direct
      then d.component_bytes * d.components
      else (if d.mode == index16 then 2 else 1) * d.index_count

  module _ (v : VertexState) where
    -- An index has the stride and the byte order of its array.
    unfoldable pub with_array : ℕ → AttributeLayout → AttributeLayout
    with_array attr d = if d.mode == direct then d else record d {
      array_stride = (v.arrays attr).stride;
      array_little_endian = (v.arrays attr).le;
    }

    unfoldable pub place : ℕ → VertexLayout → AttributeLayout → VertexLayout
    place attr out d = record {
      attributes = update out.attributes attr (with_array attr d);
      stride = (out.stride + record_bytes d) % 2 ^ 32;
    }

  module _ (v : VertexState) (format : ℕ) where
    -- An enabled attribute before its format is read.
    abbrev pub begin_attribute : ℕ → VertexLayout → AttributeLayout
    begin_attribute attr out = record (out.attributes attr) {
      mode = v.vtx_desc attr;
      offset = out.stride;
      comp_type = (v.vtx_fmts format attr).comp_type;
      fraction = (v.vtx_fmts format attr).frac;
    }

    -- `vtxFmts[format].attrs[attr]`: a fault where there is no such format.
    unfoldable pub format_at : ℕ → Outcome VtxAttrFmt
    format_at attr = if ltb format p.max_vtxfmt then ok (v.vtx_fmts format attr) else fault

    unfoldable pub add_attribute : ℕ → VertexLayout → Outcome VertexLayout
    add_attribute attr out =
        let mode = v.vtx_desc attr in
        let go : Outcome VertexLayout = do
          require (mode == direct || mode == index8 || mode == index16)
          f ← format_at attr
          d ← describe attr f (begin_attribute attr out)
          ok (place v attr out d)
        in if mode == p.attr_none
          then ok (record out {
            attributes = update out.attributes attr (record (out.attributes attr) { mode = mode });
          })
          else go

    -- The attributes from `attr` on, `n` of them.
    unfoldable pub add_attributes : ℕ → ℕ → VertexLayout → Outcome VertexLayout
    add_attributes zero attr out = ok out
    add_attributes (suc n) attr out =
        add_attribute attr out >>= λ out'. add_attributes n (attr + 1) out'

    unfoldable pub build : Outcome VertexLayout
    build = do require (ltb format p.max_vtxfmt); add_attributes attribute_count 0 empty_layout
