-- ===== src/Fifo/Total/Dispatch.antt =====
-- One command of `process`, registers and draws. Between two draws of a group stands only padding.
use mkwii_ps.Base.{
  ℕ, ◌+◌, ◌*◌, ◌/◌, ◌≤◌, ◌<◌, ◌≡◌, refl, ◌⊎◌, inl, inr, Bool, true, false, ◌==◌, bit_and,
  bit_and_digit, bit_and_mask, arith, Option, none, some, Returns, returns, if-Returns, ap, sym,
  ◌∙◌,
}
use mkwii_ps.Platform.{Platform}
use mkwii_ps.Reader.{Bytes}
use mkwii_ps.Reader.Total.{Readable}
use mkwii_ps.State.Machine.{Machine}
use mkwii_ps.Draw.{Draws, DrawResult, refused, drawn, raised}
use mkwii_ps.Draw.Sink.{Empty}
use mkwii_ps.Draw.Joins.{JoinsAt, padded, command}
use mkwii_ps.Draw.Leaves.{Settled, Leaves}
use mkwii_ps.Draw.Settled.{Comes, handle_draw-Leaves}
use mkwii_ps.Fifo.Commands.{Commands, Flow, stop, go_on, Exit, finished, aborted, Host}
use mkwii_ps.Fifo.Process.{is_draw_cmd, Step, halts, next, registers, draw_step, dispatch}
use mkwii_ps.Fifo.Total.Aurora.{Onward, handle_aurora-Returns}
use mkwii_ps.Fifo.Total.Registers.{
  HostLaws, process_bp-Returns, process_cp-Returns, process_xf-Returns, process_indexed-Returns,
  process_call_dl-Returns,
}

-- The opcode is the upper five bits, padding is 0, and no other command has the opcode of a draw.
pub record CommandLaws ⦃c : Commands⦄ : Type 0 where
  pub mask : c.opcode_mask ≡ 0xF8
  pub nop : c.cmd_nop ≡ 0
  pub bp : c.cmd_load_bp_reg < 0x80
  pub cp : c.cmd_load_cp_reg < 0x80
  pub xf : c.cmd_load_xf_reg < 0x80
  pub indx_a : c.cmd_load_indx_a < 0x80
  pub indx_b : c.cmd_load_indx_b < 0x80
  pub indx_c : c.cmd_load_indx_c < 0x80
  pub indx_d : c.cmd_load_indx_d < 0x80
  pub call_dl : c.cmd_call_dl < 0x80
  pub inval_vtx : c.cmd_inval_vtx < 0x80
  pub aurora : c.load_aurora < 0x80

abbrev pub draws_of : Exit → Draws
draws_of (finished m d) = d
draws_of (aborted m d) = d

-- The loop ends with no group that waits, or goes on with one that the next command joins.
abbrev pub Continues : Bytes → ℕ → Bool → ℕ → Step → Type 0
Continues ptr size be at (halts e) = Empty (draws_of e)
Continues ptr size be at (next at' m d) = (at ≤ at') × Settled ptr size be at' d

abbrev value_of : Option ℕ → ℕ
value_of none = 0
value_of (some b) = b

-- A byte with the opcode of a triangle draw is a draw command.
is_draw_cmd-opcode :
    (cmd : ℕ)
    → cmd < 256
    → 0x80 ≤ bit_and cmd 0xF8
    → bit_and cmd 0xF8 ≤ 0xA0
    → is_draw_cmd cmd ≡ true
unfolding is_draw_cmd
is_draw_cmd-opcode cmd byte low high = ground (arith, eighth, bit_and_mask 5 (cmd / 2 / 2 / 2))
  where
    eighth : bit_and cmd 0xF8 ≡ bit_and (cmd / 2 / 2 / 2) 31 * 8
    eighth =
        omega (
          arith,
          bit_and_digit cmd 0xF8,
          bit_and_digit (cmd / 2) 124,
          bit_and_digit (cmd / 2 / 2) 62,
        )

module _ ⦃p : Platform⦄ ⦃c : Commands⦄ (codes : CommandLaws) (host : Host)
    (laws : HostLaws host) where
  module _ (ptr : Bytes) (size : ℕ) (be : Bool) (h : Readable ptr size) where
    registers-Returns :
        (at : ℕ) (o : Option Flow) (d : Draws)
        → Empty d
        → Returns (Onward at) o
        → Returns (Continues ptr size be at) (registers host o d)
    unfolding registers
    registers-Returns at o d e (returns {a = stop m} on) = returns e
    registers-Returns at o d e (returns {a = go_on at' m} on) = returns (on, inl e)

    draw_step-Returns :
        (at : ℕ) (o : Option DrawResult) (m : Machine) (d : Draws)
        → Returns (Leaves ptr size be d at) o
        → Returns (Continues ptr size be at) (draw_step host o m d)
    unfolding draw_step
    draw_step-Returns at o m d (returns {a = refused} l) = returns l
    draw_step-Returns at o m d (returns {a = drawn at' d'} l) = returns (l.0, l.2)
    draw_step-Returns at o m d (returns {a = raised d'} l) = returns l

    module _ (cmd pos : ℕ) (m : Machine) (d : Draws) (is_cmd : ptr pos ≡ some cmd)
        (byte : cmd < 256) where
      opcode_of :
          (j : JoinsAt ptr size be d.pending.format d.pending.layout.stride pos)
          → bit_and j.command 0xF8 ≡ bit_and cmd c.opcode_mask
      opcode_of j = rw (same, codes.mask) refl
        where
          same : j.command ≡ cmd
          same = ap value_of (sym j.is_command ∙ is_cmd)

      no_opcode : ptr pos ≡ some 0 → bit_and cmd c.opcode_mask ≡ 0
      no_opcode is = rw (zero, codes.mask) refl
        where
          zero : cmd ≡ 0
          zero = ap value_of (sym is_cmd ∙ is)

      -- Padding keeps the group.
      padding :
          (bit_and cmd c.opcode_mask == c.cmd_nop) ≡ true
          → Settled ptr size be pos d
          → Settled ptr size be (pos + 1) d
      padding e (inl empty) = inl empty
      padding e (inr (padded lt is j)) = inr j
      padding e (inr (command j)) = absurd (ground (arith, opcode_of j, codes.nop))

      -- Any other command finds no group, or joins it.
      comes :
          (bit_and cmd c.opcode_mask == c.cmd_nop) ≡ false
          → Settled ptr size be pos d
          → Empty d ⊎ JoinsAt ptr size be d.pending.format d.pending.layout.stride pos
      comes e (inl empty) = inl empty
      comes e (inr (padded lt is j)) = absurd (ground (arith, no_opcode is, codes.nop))
      comes e (inr (command j)) = inr j

      lone :
          (bit_and cmd c.opcode_mask == c.cmd_nop) ≡ false
          → Settled ptr size be pos d
          → bit_and cmd c.opcode_mask < 0x80
          → Empty d
      lone e s low = alone (comes e s)
        where
          alone :
              Empty d ⊎ JoinsAt ptr size be d.pending.format d.pending.layout.stride pos → Empty d
          alone (inl empty) = empty
          alone (inr j) = absurd (omega (arith, opcode_of j, j.opcode_low))

      drawing :
          Empty d ⊎ JoinsAt ptr size be d.pending.format d.pending.layout.stride pos
          → Comes host.sink laws.receiver m ptr size be h d (pos + 1) cmd
      drawing (inl empty) = inl empty
      drawing (inr j) = inr (pos, refl, is_cmd, j)

      unknown :
          is_draw_cmd cmd ≡ false
          → Empty d ⊎ JoinsAt ptr size be d.pending.format d.pending.layout.stride pos
          → Empty d
      unknown e (inl empty) = empty
      unknown e (inr j) = absurd (
          ground (
            arith,
            e,
            is_draw_cmd-opcode cmd byte (rw (← masked) (omega (arith, opcode_of j, j.opcode_low)))
                (rw (← masked) (omega (arith, opcode_of j, j.opcode_high))),
          ))
        where
          masked : bit_and cmd c.opcode_mask ≡ bit_and cmd 0xF8
          masked = rw codes.mask refl

      pub dispatch-Returns :
          pos < size
          → Settled ptr size be pos d
          → Returns (Continues ptr size be (pos + 1)) (dispatch host cmd ptr (pos + 1) size be m d)
      unfolding dispatch
      dispatch-Returns lt settled =
          let op = bit_and cmd c.opcode_mask in
          if-Returns (op == c.cmd_nop) (λ e. returns (omega arith, padding e settled))
            λ other.
              let quiet = lone other settled in
              if-Returns (op == c.cmd_load_bp_reg)
                (λ e.
                  registers-Returns (pos + 1) _ d (quiet (ground (arith, codes.bp)))
                    (process_bp-Returns host laws ptr size be h (pos + 1) m))
                λ _.
                  if-Returns (op == c.cmd_load_cp_reg)
                    (λ e.
                      registers-Returns (pos + 1) _ d (quiet (ground (arith, codes.cp)))
                        (process_cp-Returns host laws ptr size be h (pos + 1) m))
                    λ _.
                      if-Returns (op == c.cmd_load_xf_reg)
                        (λ e.
                          registers-Returns (pos + 1) _ d (quiet (ground (arith, codes.xf)))
                            (process_xf-Returns host laws ptr size be h (pos + 1) m (omega arith)))
                        λ _.
                          if-Returns (op == c.cmd_load_indx_a)
                            (λ e.
                              registers-Returns (pos + 1) _ d (quiet (ground (arith, codes.indx_a)))
                                (process_indexed-Returns host laws ptr size be h op (pos + 1) m))
                            λ _.
                              if-Returns (op == c.cmd_load_indx_b)
                                (λ e.
                                  registers-Returns (pos + 1) _ d
                                    (quiet (ground (arith, codes.indx_b)))
                                    (process_indexed-Returns host laws ptr size be h op (pos + 1)
                                      m))
                                λ _.
                                  if-Returns (op == c.cmd_load_indx_c)
                                    (λ e.
                                      registers-Returns (pos + 1) _ d
                                        (quiet (ground (arith, codes.indx_c)))
                                        (process_indexed-Returns host laws ptr size be h op
                                          (pos + 1) m))
                                    λ _.
                                      if-Returns (op == c.cmd_load_indx_d)
                                        (λ e.
                                          registers-Returns (pos + 1) _ d
                                            (quiet (ground (arith, codes.indx_d)))
                                            (process_indexed-Returns host laws ptr size be h op
                                              (pos + 1) m))
                                        λ _.
                                          if-Returns (op == c.cmd_call_dl)
                                            (λ e.
                                              registers-Returns (pos + 1) _ d
                                                (quiet (ground (arith, codes.call_dl)))
                                                (process_call_dl-Returns host laws ptr size be h
                                                  (pos + 1) m))
                                            λ _.
                                              if-Returns (op == c.cmd_inval_vtx)
                                                (λ e. returns (
                                                  omega arith,
                                                  inl (quiet (ground (arith, codes.inval_vtx))),
                                                ))
                                                λ _.
                                                  if-Returns (op == c.load_aurora)
                                                    (λ e.
                                                      registers-Returns (pos + 1) _ d
                                                        (quiet (ground (arith, codes.aurora)))
                                                        (handle_aurora-Returns ptr size be h
                                                          (pos + 1) m))
                                                    λ _.
                                                      if-Returns (is_draw_cmd cmd)
                                                        (λ _. draw_step-Returns (pos + 1) _ m d (
                                                          handle_draw-Leaves host.sink laws.receiver
                                                            m ptr size be h d (pos + 1) cmd
                                                            (omega arith)
                                                            (drawing (comes other settled))))
                                                        λ e. returns (
                                                          omega arith,
                                                          inl (unknown e (comes other settled)),
                                                        )
