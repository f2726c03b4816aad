-- ===== src/State/Vertex.antt =====
-- lib/gx/register_state.hpp: vertex descriptors, formats and arrays.
-- ps5/gpu/gx_geometry_buffer.cpp asserts the numbers of the attributes written out below.
use mkwii_ps.Base.{ℕ, Bool, Array}

abbrev pub va_pnmtxidx : ℕ
va_pnmtxidx = 0

abbrev pub va_pos : ℕ
va_pos = 9

abbrev pub va_nrm : ℕ
va_nrm = 10

abbrev pub va_clr0 : ℕ
va_clr0 = 11

abbrev pub va_clr1 : ℕ
va_clr1 = 12

abbrev pub va_tex0 : ℕ
va_tex0 = 13

abbrev pub va_tex7 : ℕ
va_tex7 = 20

pub record VtxAttrFmt : Type 0 where
  pub cnt : ℕ
  pub comp_type : ℕ
  pub frac : ℕ

pub record Range : Type 0 where
  pub offset : ℕ
  pub size : ℕ

-- `base` is the pointer `data`; 0 is `nullptr`.
pub record AttrArray : Type 0 where
  pub base : ℕ
  pub size : ℕ
  pub stride : ℕ
  pub le : Bool
  pub cached_range : Range

pub record VertexState : Type 0 where
  pub last_vtx_fmt : ℕ
  pub vtx_desc : Array ℕ
  pub source_vtx_desc : Array ℕ
  pub vtx_fmts : Array (Array VtxAttrFmt)
  pub arrays : Array AttrArray
