-- ===== src/View.antt =====
-- Viewports and scissors: gfx/render_types.hpp, and the members of GXRegisterState that the
-- renderer's callbacks keep.
use mkwii_ps.Base.{ℕ, ℤ}

-- Floats, as 32-bit patterns.
pub record Viewport : Type 0 where
  pub left : ℕ
  pub top : ℕ
  pub width : ℕ
  pub height : ℕ
  pub znear : ℕ
  pub zfar : ℕ

pub record ClipRect : Type 0 where
  pub x : ℤ
  pub y : ℤ
  pub width : ℤ
  pub height : ℤ

pub record ViewState : Type 0 where
  pub viewport_policy : ℕ
  pub logical_viewport : Viewport
  pub render_viewport : Viewport
  pub logical_scissor : ClipRect
  pub render_scissor : ClipRect
  pub scissor_offset_x : ℤ
  pub scissor_offset_y : ℤ
