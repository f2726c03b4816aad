-- ===== src/Xf/Handle.antt =====
-- `handle_xf`: the header, the bounds, the loop over the registers with its skip.
use mkwii_ps.Base.{
  ℕ, zero, suc, ◌+◌, ◌-◌, ◌*◌, ◌/◌, ◌^◌, Bool, false, ◌&&◌, ◌||◌, ltb, leb, within, if◌then◌else◌,
  Option, some, ◌>>=◌, bit_and,
}
use mkwii_ps.Platform.{Platform}
use mkwii_ps.Reader.{Bytes, advance, read_u32}
use mkwii_ps.State.Cache.{xf_reg_matches, store_xf_reg}
use mkwii_ps.State.Machine.{Machine}
use mkwii_ps.Xf.Memory.{copy_xf_data}
use mkwii_ps.Xf.Registers.{xf_switch, apply_xf_viewport, apply_xf_projection}

-- The machine with the two local flags of the loop.
pub record XfRun : Type 0 where
  pub machine : Machine
  pub viewport_updated : Bool
  pub projection_updated : Bool

-- The extent of `xfRegCache`.
abbrev pub xf_cache_size : ℕ
xf_cache_size = 0x60

module _ ⦃p : Platform⦄ where
  -- One round. A cached write outside the viewport and the projection is skipped if it repeats.
  unfoldable pub xf_write : ℕ → ℕ → XfRun → XfRun
  xf_write reg val r =
      let m = r.machine in
      let cacheable = ltb reg xf_cache_size in
      let unchanged = cacheable && xf_reg_matches m.xf_reg_cache reg val in
      let m' : Machine =
        if cacheable then record m { xf_reg_cache = store_xf_reg reg val m.xf_reg_cache } else m in
      if unchanged && (leb reg 0x19 || leb 0x3F reg) then record r { machine = m' } else record {
        machine = xf_switch reg val m';
        viewport_updated = within 0x1A 0x1F reg || r.viewport_updated;
        projection_updated = within 0x20 0x26 reg || r.projection_updated;
      }

  -- By the registers left.
  unfoldable pub xf_loop : ℕ → ℕ → ℕ → Bytes → Bool → XfRun → Option XfRun
  xf_loop zero i xf_addr ptr big_endian r = some r
  xf_loop (suc n) i xf_addr ptr big_endian r = do
    val ← read_u32 (advance ptr (i * 4)) big_endian
    xf_loop n (i + 1) xf_addr ptr big_endian (xf_write (xf_addr + i) val r)

  unfoldable pub xf_finish : XfRun → Machine
  xf_finish r =
      let m : Machine = if r.viewport_updated then apply_xf_viewport r.machine else r.machine in
      if r.projection_updated then apply_xf_projection m else m

  unfoldable pub xf_registers : ℕ → Bytes → ℕ → Bool → Machine → Option Machine
  xf_registers xf_addr ptr count big_endian m = do
    r ←
        xf_loop count 0 xf_addr ptr big_endian
          (record { machine = m; viewport_updated = false; projection_updated = false })
    some (xf_finish r)

  -- The body behind the header, with `count` words at `ptr`.
  unfoldable pub xf_body : ℕ → Bytes → ℕ → Bool → Machine → Option Machine
  xf_body addr ptr count big_endian m = do
    (handled, m') ← copy_xf_data addr ptr count big_endian m
    let regs : Option Machine = xf_registers (addr - 0x1000) ptr count big_endian m'
    if handled then some m' else if leb 0x1000 addr then regs else some m'

  -- The new position and the new state. A command that overruns the buffer consumes the rest of it.
  unfoldable pub handle_xf : Bytes → ℕ → ℕ → Bool → Machine → Option (ℕ × Machine)
  handle_xf ptr at size big_endian m =
      let go : Option (ℕ × Machine) = do
        header ← read_u32 (advance ptr at) big_endian
        let count = bit_and (header / 2 ^ 16) 0xFFFF + 1
        let addr = bit_and header 0xFFFF
        let rest : Option (ℕ × Machine) = do
          m' ← xf_body addr (advance ptr (at + 4)) count big_endian m
          some (at + 4 + count * 4, m')
        if ltb (size - (at + 4)) (count * 4) then some (size, m) else rest
      in if ltb size at || ltb (size - at) 4 then some (size, m) else go
