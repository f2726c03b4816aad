-- ===== src/State/Machine.antt =====
-- The state that the decoder keeps, and the two ways in which it is marked as changed.
use mkwii_ps.Base.{ℕ, ◌+◌, ◌%◌, ◌^◌, Bool, true, List, ◌∷◌, Array}
use mkwii_ps.View.{ViewState}
use mkwii_ps.State.Tev.{TevState}
use mkwii_ps.State.Pixel.{PixelState, RasterState, FogState}
use mkwii_ps.State.Copy.{CopyState}
use mkwii_ps.State.Vertex.{VertexState}
use mkwii_ps.State.Transform.{TransformState}
use mkwii_ps.State.Texture.{TextureState}
use mkwii_ps.State.Cache.{XfCache}

-- Calls into the renderer, in order.
pub data Call : Type 0 where
  evict_texture_object : ℕ → Call
  evict_tlut_object : ℕ → Call
  evict_copy_texture : ℕ → Call
  invalidate_static_texture_cache : Call
  push_debug_group : List ℕ → Call
  pop_debug_group : Call
  insert_debug_marker : List ℕ → Call

pub record Machine : Type 0 where
  pub tev : TevState
  pub pixel : PixelState
  pub raster : RasterState
  pub fog : FogState
  pub copy : CopyState
  pub view : ViewState
  pub vertex : VertexState
  pub transform : TransformState
  pub texture : TextureState
  pub state_dirty : Bool
  pub pipeline_state_generation : ℕ
  pub bp_reg_cache : Array ℕ
  pub xf_reg_cache : XfCache
  -- `static u32 epoch` of `next_gx_state_epoch`.
  pub epoch : ℕ
  pub cp_register_cache : Array ℕ
  pub cp_register_cache_valid : Array Bool
  pub calls : List Call

-- `++epoch` on a u32.
abbrev pub next_gx_state_epoch : ℕ → ℕ
next_gx_state_epoch epoch = (epoch + 1) % 2 ^ 32

unfoldable pub mark_pipeline_state_dirty : Machine → Machine
mark_pipeline_state_dirty m = record m {
  state_dirty = true;
  pipeline_state_generation = next_gx_state_epoch m.epoch;
  epoch = next_gx_state_epoch m.epoch;
}

unfoldable pub mark_state_dirty : Machine → Machine
mark_state_dirty m = record m { state_dirty = true }

unfoldable pub call : Call → Machine → Machine
call c m = record m { calls = c ∷ m.calls }
