-- ===== src/Platform.antt =====
-- What the decoder uses of code that is not in the repository: the enumerators of `<dolphin/gx.h>`,
-- `bswap` and the arithmetic of floats. A float is its 32-bit pattern throughout.
-- The result of `map_gx_viewport` (ps5/gpu/gx_viewport.cpp, arithmetic on doubles) is an argument too.
use mkwii_ps.Base.{ℕ, ℤ, Bool, ◌≤◌}
use mkwii_ps.View.{Viewport, ClipRect, ViewState}

pub record Platform : Type 0 where
  -- Extents of the register arrays.
  pub max_texmap : ℕ
  pub max_tevstage : ℕ
  pub max_kcolor : ℕ
  pub max_texcoord : ℕ
  pub max_tevswap : ℕ
  pub max_indtexstage : ℕ
  pub max_vtxfmt : ℕ
  pub va_max_attr : ℕ
  -- Texture environment and culling.
  pub tb_zero : ℕ
  pub cs_scale_1 : ℕ
  pub texmap_null : ℕ
  pub cull_front : ℕ
  pub cull_back : ℕ
  pub cull_all : ℕ
  -- Vertex formats.
  pub nrm_xyz : ℕ
  pub nrm_nbt : ℕ
  pub nrm_nbt3 : ℕ
  pub comp_u8 : ℕ
  pub comp_s8 : ℕ
  pub comp_u16 : ℕ
  pub comp_s16 : ℕ
  pub comp_f32 : ℕ
  pub attr_none : ℕ
  pub pos_xy : ℕ
  pub pos_xyz : ℕ
  pub tex_s : ℕ
  pub tex_st : ℕ
  pub clr_rgb565 : ℕ
  pub clr_rgb8 : ℕ
  pub clr_rgbx8 : ℕ
  pub clr_rgba4 : ℕ
  pub clr_rgba8 : ℕ
  -- GX has six colour formats; the value in the header is 5.
  pub six_colors : clr_rgba8 ≤ 5
  -- Transform unit.
  pub tg_mtx3x4 : ℕ
  pub tg_mtx2x4 : ℕ
  pub tg_srtg : ℕ
  pub orthographic : ℕ
  pub pnmtx9 : ℕ
  pub color0 : ℕ
  pub color1 : ℕ
  pub alpha0 : ℕ
  pub alpha1 : ℕ
  -- Byte swaps of 16, 32 and 64 bits.
  pub bswap16 : ℕ → ℕ
  pub bswap32 : ℕ → ℕ
  pub bswap64 : ℕ → ℕ
  -- Floats: conversions, arithmetic, `std::ldexp`, comparison.
  pub of_u32 : ℕ → ℕ
  pub of_s32 : ℤ → ℕ
  pub fsub : ℕ → ℕ → ℕ
  pub fmul : ℕ → ℕ → ℕ
  pub fdiv : ℕ → ℕ → ℕ
  pub fneg : ℕ → ℕ
  pub ldexp : ℕ → ℤ → ℕ
  pub feq : ℕ → ℕ → Bool
  -- The viewport and the scissor that a draw uses.
  pub map_viewport : ViewState → Viewport
  pub map_scissor : ViewState → ClipRect
