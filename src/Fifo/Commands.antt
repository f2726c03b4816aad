-- ===== src/Fifo/Commands.antt =====
-- The command bytes and sub-commands of `<dolphin/gx.h>` and `<dolphin/gx/GXAurora.h>`, and the
-- parts of the host: the renderer that takes draws, and the memory.
use mkwii_ps.Base.{ℕ, Option}
use mkwii_ps.Reader.{Bytes}
use mkwii_ps.State.Machine.{Machine}
use mkwii_ps.Draw.{Draws, DrawSink}

pub record Commands : Type 0 where
  pub opcode_mask : ℕ
  pub cmd_nop : ℕ
  pub cmd_load_bp_reg : ℕ
  pub cmd_load_cp_reg : ℕ
  pub cmd_load_xf_reg : ℕ
  pub cmd_load_indx_a : ℕ
  pub cmd_load_indx_b : ℕ
  pub cmd_load_indx_c : ℕ
  pub cmd_load_indx_d : ℕ
  pub cmd_call_dl : ℕ
  pub cmd_inval_vtx : ℕ
  pub load_aurora : ℕ
  pub pos_mtx_array : ℕ
  pub aurora_viewport_render : ℕ
  pub aurora_scissor_render : ℕ
  pub aurora_arraybase : ℕ
  -- `GX_LOAD_AURORA_ARRAYBASE | 0x0f`.
  pub aurora_arraybase_last : ℕ
  pub aurora_texobj : ℕ
  pub aurora_tlut : ℕ
  pub aurora_destroy_texobj : ℕ
  pub aurora_destroy_tlut : ℕ
  pub aurora_destroy_copy_tex : ℕ
  pub aurora_invalidate_tex_all : ℕ
  pub aurora_debug_group_push : ℕ
  pub aurora_debug_group_pop : ℕ
  pub aurora_debug_marker_insert : ℕ

-- Where a handler of registers leaves the loop of `process`: `stop` returns from it.
pub data Flow : Type 0 where
  stop : Machine → Flow
  go_on : ℕ → Machine → Flow

-- How `process` ends: it returns, or an exception of a draw leaves it.
pub data Exit : Type 0 where
  finished : Machine → Draws → Exit
  aborted : Machine → Draws → Exit

pub record Host : Type 0 where
  -- The renderer's receiver of draws, once it is installed.
  pub sink : Option DrawSink
  -- The bytes that vertex arrays point at, by address.
  pub memory : Bytes
