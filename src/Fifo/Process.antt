-- ===== src/Fifo/Process.antt =====
-- `process`: the loop over the commands of a buffer.
use mkwii_ps.Base.{
  ℕ, zero, suc, ◌+◌, ◌-◌, ◌*◌, ◌/◌, ◌^◌, Bool, true, false, ◌||◌, ltb, ◌==◌, within, if◌then◌else◌,
  Option, none, some, ◌>>=◌, bit_and, List, get_elem?, length,
}
use mkwii_ps.Platform.{Platform}
use mkwii_ps.Reader.{Bytes, advance, read_u32}
use mkwii_ps.State.Vertex.{va_pos, va_tex7}
use mkwii_ps.State.Machine.{Machine}
use mkwii_ps.Bp.Handle.{handle_bp}
use mkwii_ps.Cp.Handle.{handle_cp}
use mkwii_ps.Xf.Handle.{handle_xf}
use mkwii_ps.Xf.Memory.{copy_xf_data}
use mkwii_ps.Draw.{Draws, DrawResult, refused, drawn, raised, handle_draw}
use mkwii_ps.Fifo.Commands.{Commands, Flow, stop, go_on, Exit, finished, aborted, Host}
use mkwii_ps.Fifo.Aurora.{has_bytes, handle_aurora}

unfoldable pub is_draw_cmd : ℕ → Bool
is_draw_cmd cmd = within 0x80 0xBF cmd

unfoldable pub invalidate_vertices : Machine → Machine
invalidate_vertices m = record m {
  vertex = record m.vertex {
    arrays = λ i.
        if within va_pos va_tex7 i
        then record (m.vertex.arrays i) { cached_range = record { offset = 0; size = 0 } }
        else m.vertex.arrays i;
  };
}

-- What a command does to the loop: `process` ends, or goes on.
pub data Step : Type 0 where
  halts : Exit → Step
  next : ℕ → Machine → Draws → Step

module _ ⦃p : Platform⦄ ⦃c : Commands⦄ (host : Host) where
  unfoldable pub process_bp : Bytes → ℕ → ℕ → Bool → Machine → Option Flow
  process_bp ptr at size big_endian m =
      let go : Option Flow = do
        value ← read_u32 (advance ptr at) big_endian
        some (go_on (at + 4) (handle_bp value m))
      in if has_bytes at size 4 then go else some (stop m)

  unfoldable pub process_cp : Bytes → ℕ → ℕ → Bool → Machine → Option Flow
  process_cp ptr at size big_endian m =
      let go : Option Flow = do
        addr ← ptr at
        value ← read_u32 (advance ptr (at + 1)) big_endian
        some (go_on (at + 5) (handle_cp addr value m))
      in if has_bytes at size 5 then go else some (stop m)

  unfoldable pub process_xf : Bytes → ℕ → ℕ → Bool → Machine → Option Flow
  process_xf ptr at size big_endian m = do
    (at', m') ← handle_xf ptr at size big_endian m
    some (go_on at' m')

  -- The array of an indexed load is skipped if it is null, of stride 0 or too short.
  unfoldable pub load_indexed : ℕ → ℕ → Bool → Machine → Option Machine
  load_indexed array_type value big_endian m =
      let a = m.vertex.arrays array_type in
      let len = bit_and (value / 2 ^ 12) 0x0f + 1 in
      let byte_offset = value / 2 ^ 16 * a.stride in
      let go : Option Machine = do
        (_, m') ←
            copy_xf_data (bit_and value 0x0fff) (advance host.memory (a.base + byte_offset)) len
              big_endian m
        some m'
      in if a.base == 0 || (a.stride == 0 || ltb a.size (byte_offset + len * 4)) then some m else go

  unfoldable pub process_indexed : ℕ → Bytes → ℕ → ℕ → Bool → Machine → Option Flow
  process_indexed opcode ptr at size big_endian m =
      let go : Option Flow = do
        value ← read_u32 (advance ptr at) big_endian
        m' ← load_indexed (c.pos_mtx_array + (opcode - c.cmd_load_indx_a) / 0x08) value big_endian m
        some (go_on (at + 4) m')
      in if has_bytes at size 4 then go else some (stop m)

  -- A nested display list is skipped.
  unfoldable pub process_call_dl : ℕ → ℕ → Machine → Option Flow
  process_call_dl at size m = if has_bytes at size 8 then some (go_on (at + 8) m) else some (stop m)

  -- A handler of registers does not touch the draws.
  unfoldable pub registers : Option Flow → Draws → Option Step
  registers none d = none
  registers (some (stop m)) d = some (halts (finished m d))
  registers (some (go_on at m)) d = some (next at m d)

  -- A draw does not touch the registers. Where it refuses, `process` returns.
  unfoldable pub draw_step : Option DrawResult → Machine → Draws → Option Step
  draw_step none m d = none
  draw_step (some refused) m d = some (halts (finished m d))
  draw_step (some (drawn at d')) m d = some (next at m d')
  draw_step (some (raised d')) m d = some (halts (aborted m d'))

  -- The command byte at `at - 1` has been read.
  unfoldable pub dispatch : ℕ → Bytes → ℕ → ℕ → Bool → Machine → Draws → Option Step
  dispatch cmd ptr at size big_endian m d =
      let opcode = bit_and cmd c.opcode_mask in
      if opcode == c.cmd_nop
      then some (next at m d)
      else if opcode == c.cmd_load_bp_reg
      then registers (process_bp ptr at size big_endian m) d
      else if opcode == c.cmd_load_cp_reg
      then registers (process_cp ptr at size big_endian m) d
      else if opcode == c.cmd_load_xf_reg
      then registers (process_xf ptr at size big_endian m) d
      else if opcode == c.cmd_load_indx_a
      then registers (process_indexed opcode ptr at size big_endian m) d
      else if opcode == c.cmd_load_indx_b
      then registers (process_indexed opcode ptr at size big_endian m) d
      else if opcode == c.cmd_load_indx_c
      then registers (process_indexed opcode ptr at size big_endian m) d
      else if opcode == c.cmd_load_indx_d
      then registers (process_indexed opcode ptr at size big_endian m) d
      else if opcode == c.cmd_call_dl
      then registers (process_call_dl at size m) d
      else if opcode == c.cmd_inval_vtx
      then some (next at (invalidate_vertices m) d)
      else if opcode == c.load_aurora
      then registers (handle_aurora ptr at size big_endian m) d
      else if is_draw_cmd cmd
      then draw_step (handle_draw host.sink m cmd ptr at size big_endian d) m d
      else some (next at m d)

  -- The loop, on fuel: `none` is a fault, or the fuel has run out.
  unfoldable pub process_loop : ℕ → Bytes → ℕ → ℕ → Bool → Machine → Draws → Option Exit
  process_loop zero ptr at size big_endian m d = none
  process_loop (suc fuel) ptr at size big_endian m d = elim (ltb at size) [
    | false ↦ some (finished m d)
    | true ↦ do
      cmd ← ptr at
      step ← dispatch cmd ptr (at + 1) size big_endian m d
      elim step [
        | halts e ↦ some e
        | next at' m' d' ↦ process_loop fuel ptr at' size big_endian m' d'
      ]
  ]

  -- Each round consumes its command byte, so one unit of fuel for each byte is enough.
  unfoldable pub process : List ℕ → Bool → Machine → Draws → Option Exit
  process buffer big_endian m d =
      process_loop (length buffer + 1) (get_elem? buffer) 0 (length buffer) big_endian m d
