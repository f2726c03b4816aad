-- ===== src/Backend.antt =====
-- ps5/gpu/gx_viewport_backend.cpp: the callbacks of lib/gx/register_backend.hpp that keep the
-- viewports and scissors. Where a draw's viewport comes from is `Platform.map_viewport`.
use mkwii_ps.Base.{Bool, ◌&&◌, ◌==ℤ◌, if◌then◌else◌}
use mkwii_ps.View.{Viewport, ClipRect}
use mkwii_ps.Platform.{Platform}
use mkwii_ps.State.Machine.{Machine, mark_state_dirty}

-- `operator==` of `ClipRect`: a memcmp of four integers.
unfoldable pub rect_eq : ClipRect → ClipRect → Bool
rect_eq a b = (a.x ==ℤ b.x) && (a.y ==ℤ b.y) && (a.width ==ℤ b.width) && (a.height ==ℤ b.height)

unfoldable pub set_render_scissor : ClipRect → Machine → Machine
set_render_scissor value m =
    if rect_eq m.view.render_scissor value
    then m
    else mark_state_dirty (record m { view = record m.view { render_scissor = value } })

module _ ⦃p : Platform⦄ where
  -- `operator==` of `Viewport`: a comparison of floats.
  unfoldable pub viewport_eq : Viewport → Viewport → Bool
  viewport_eq a b =
      p.feq a.left b.left
      && p.feq a.top b.top
      && p.feq a.width b.width
      && p.feq a.height b.height
      && p.feq a.znear b.znear
      && p.feq a.zfar b.zfar

  unfoldable pub set_render_viewport : Viewport → Machine → Machine
  set_render_viewport value m =
      if viewport_eq m.view.render_viewport value
      then m
      else mark_state_dirty (record m { view = record m.view { render_viewport = value } })

  -- Both mapped values are computed before either is stored.
  unfoldable pub apply : Machine → Machine
  apply m =
      set_render_scissor (p.map_scissor m.view) (set_render_viewport (p.map_viewport m.view) m)

  unfoldable pub set_logical_viewport : Viewport → Machine → Machine
  set_logical_viewport value m = apply (
      if viewport_eq m.view.logical_viewport value
      then m
      else mark_state_dirty (record m { view = record m.view { logical_viewport = value } }))

  unfoldable pub set_logical_scissor : ClipRect → Machine → Machine
  set_logical_scissor value m =
      apply (record m { view = record m.view { logical_scissor = value } })
