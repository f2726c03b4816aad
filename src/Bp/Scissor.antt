-- ===== src/Bp/Scissor.antt =====
-- BP registers 0x20, 0x21 and 0x59: the scissor.
use mkwii_ps.Base.{ℕ, ◌+◌, ◌-◌, ◌*◌, ◌/◌, ◌%◌, ◌^◌, pos, ◌+ℤ◌, ◌-ℤ◌, max_zero, signed32, bit_and}
use mkwii_ps.Platform.{Platform}
use mkwii_ps.View.{ClipRect}
use mkwii_ps.State.Machine.{Machine}
use mkwii_ps.Backend.{set_logical_scissor}
use mkwii_ps.Bp.Field.{bp_get}

-- The rectangle of two scissor registers. Its eleven-bit fields cannot overflow an s32.
unfoldable pub scissor_rect : ℕ → ℕ → ClipRect
scissor_rect scis0 scis1 =
    let tp = pos (bp_get scis0 11 0) -ℤ pos 342 in
    let lf = pos (bp_get scis0 11 12) -ℤ pos 342 in
    let bm = pos (bp_get scis1 11 0) -ℤ pos 342 in
    let rt = pos (bp_get scis1 11 12) -ℤ pos 342 in
    record {
      x = lf;
      y = tp;
      width = max_zero (rt -ℤ lf +ℤ pos 1);
      height = max_zero (bm -ℤ tp +ℤ pos 1);
    }

module _ ⦃p : Platform⦄ where
  unfoldable pub scissor : Machine → Machine
  scissor m = set_logical_scissor (scissor_rect (m.bp_reg_cache 0x20) (m.bp_reg_cache 0x21)) m

  unfoldable pub scissor_offset : ℕ → Machine → Machine
  scissor_offset value m =
      let moved : Machine = record m {
        view = record m.view {
          scissor_offset_x = signed32 ((bit_and value 0x3ff * 2 + 2 ^ 32 - 0x156) % 2 ^ 32);
          scissor_offset_y = signed32 ((bit_and value 0xffc00 / 2 ^ 9 + 2 ^ 32 - 0x156) % 2 ^ 32);
        };
      } in
      set_logical_scissor moved.view.logical_scissor moved
