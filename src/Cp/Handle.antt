-- ===== src/Cp/Handle.antt =====
-- The switch of `handle_cp`.
use mkwii_ps.Base.{ℕ, ◌+◌, ◌-◌, ltb, ◌==◌, within, if◌then◌else◌}
use mkwii_ps.Platform.{Platform}
use mkwii_ps.State.Cache.{invalidate_xf_reg}
use mkwii_ps.State.Vertex.{va_pos}
use mkwii_ps.State.Machine.{Machine, mark_pipeline_state_dirty}
use mkwii_ps.MatrixIndex.{matrix_index_a, matrix_index_b}
use mkwii_ps.Cp.Cache.{cp_register_write_unchanged}
use mkwii_ps.Cp.Vertex.{vcd_low, vcd_high, vat_a, vat_b, vat_c, set_format, array_stride}

module _ ⦃p : Platform⦄ where
  -- XF 0x18 holds the same indices, written from another bank.
  unfoldable pub cp_matrix_a : ℕ → Machine → Machine
  cp_matrix_a value m = mark_pipeline_state_dirty (record m {
    transform = matrix_index_a value m.transform;
    xf_reg_cache = invalidate_xf_reg 0x18 m.xf_reg_cache;
  })

  unfoldable pub cp_matrix_b : ℕ → Machine → Machine
  cp_matrix_b value m = mark_pipeline_state_dirty (record m {
    transform = matrix_index_b value m.transform;
    xf_reg_cache = invalidate_xf_reg 0x19 m.xf_reg_cache;
  })

  unfoldable pub cp_switch : ℕ → ℕ → Machine → Machine
  cp_switch addr value m =
      if addr == 0x50
      then vcd_low value m
      else if addr == 0x60
      then vcd_high value m
      else if addr == 0x30
      then cp_matrix_a value m
      else if addr == 0x40
      then cp_matrix_b value m
      else if within 0x70 0x77 addr
      then set_format (addr - 0x70) (vat_a value) m
      else if within 0x80 0x87 addr
      then set_format (addr - 0x80) (vat_b value) m
      else if within 0x90 0x97 addr
      then set_format (addr - 0x90) (vat_c value) m
      else if within 0xB0 0xBF addr
      then (if ltb (addr - 0xB0 + va_pos) p.va_max_attr
          then array_stride (addr - 0xB0 + va_pos) value m
          else m)
      else m

  unfoldable pub handle_cp : ℕ → ℕ → Machine → Machine
  handle_cp addr value m =
      let (unchanged, m') = cp_register_write_unchanged addr value m in
      if unchanged then m' else cp_switch addr value m'
