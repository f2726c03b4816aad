-- ===== src/Fifo/Total.antt =====
-- `process` of lib/gx/register_dispatch.cpp: faults, the end of its loop, and the draws that wait.
pub mod Aurora
pub mod Registers
pub mod Dispatch
use mkwii_ps.Base.{
  ℕ, zero, suc, ◌+◌, ◌-◌, ◌≤◌, ◌<◌, ◌≡◌, Bool, true, false, ltb, arith, Bool-cases, Option, some,
  List, [], ◌∷◌, ◌&&◌, get_elem?, all_bytes, all_bytes-bound, length, inl, inr, Returns, returns,
  >>=-Returns, Returns-some, Returns-is,
}
use mkwii_ps.Platform.{Platform}
use mkwii_ps.Reader.{Bytes}
use mkwii_ps.Reader.Total.{Readable, Readable-get_elem?}
use mkwii_ps.State.Machine.{Machine}
use mkwii_ps.Draw.{Draws}
use mkwii_ps.Draw.Sink.{Empty}
use mkwii_ps.Draw.Joins.{padded, command}
use mkwii_ps.Draw.Leaves.{Settled}
use mkwii_ps.Fifo.Commands.{Commands, Exit, Host}
use mkwii_ps.Fifo.Process.{Step, halts, next, dispatch, process_loop, process}
use Registers.{HostLaws}
use Dispatch.{CommandLaws, draws_of, Continues, dispatch-Returns}

-- The entries of a buffer are bytes.
pub AreBytes : Bytes → Type 0
AreBytes ptr = (i b : ℕ) → ptr i ≡ some b → b < 256

pub AreBytes-get_elem? : (xs : List ℕ) → all_bytes xs ≡ true → AreBytes (get_elem? xs)
unfolding AreBytes
AreBytes-get_elem? xs e i b is = all_bytes-bound xs e i b is

module _ ⦃p : Platform⦄ ⦃c : Commands⦄ (codes : CommandLaws) (host : Host)
    (laws : HostLaws host) where
  module _ (ptr : Bytes) (size : ℕ) (be : Bool) (h : Readable ptr size) (bytes : AreBytes ptr) where
    -- Each round takes at least the command byte, so fuel above the bytes left is enough.
    process_loop-Returns :
        (fuel at : ℕ) (m : Machine) (d : Draws)
        → size - at < fuel
        → Settled ptr size be at d
        → Returns (λ e. Empty (draws_of e)) (process_loop host fuel ptr at size be m d)
    unfolding process_loop AreBytes
    process_loop-Returns zero at m d enough settled = absurd (omega arith)
    process_loop-Returns (suc fuel) at m d enough settled = elim (Bool-cases (ltb at size)) [
      | inr e ↦ rw (e, process_loop) (returns (ended e settled))
      | inl e ↦
          let lt : at < size = ground arith in
          rw (e, process_loop)
            (>>=-Returns (Returns-is (h at lt)) λ cmd is.
              >>=-Returns
                (dispatch-Returns codes host laws ptr size be h cmd at m d is.0 (bytes at cmd is.0)
                  lt settled)
                λ s on. continue fuel s on (λ at' m' d' le settled'.
                  process_loop-Returns fuel at' m' d' (omega arith) settled'))
    ]
      where
        ended : ltb at size ≡ false → Settled ptr size be at d → Empty d
        ended e (inl empty) = empty
        ended e (inr (padded lt is j)) = absurd (ground arith)
        ended e (inr (command j)) = absurd (ground (arith, j.room))

        continue :
            (fuel : ℕ) (s : Step)
            → Continues ptr size be (at + 1) s
            → ((at' : ℕ) (m' : Machine) (d' : Draws)
                → at + 1 ≤ at'
                → Settled ptr size be at' d'
                → Returns (λ e. Empty (draws_of e)) (process_loop host fuel ptr at' size be m' d'))
            → Returns
                (λ e. Empty (draws_of e))
                (elim s [
                  | halts e ↦ some e
                  | next at' m' d' ↦ process_loop host fuel ptr at' size be m' d'
                ])
        continue fuel (halts e) on k = returns on
        continue fuel (next at' m' d') on k = k at' m' d' on.0 on.1

  -- For every buffer of bytes, every state and every draws without a group that waits, the decoder
  -- ends: no read leaves the buffer and the loop terminates, by the end of the buffer or by an
  -- exception of a draw, and in both cases no group waits. It is assumed that vertex arrays point at
  -- mapped memory, that the renderer that takes draws does not fault, and that the opcodes are the
  -- upper five bits of a command, 0 for padding and below 0x80 for all but draws.
  pub process_total :
      (buffer : List ℕ) (be : Bool) (m : Machine) (d : Draws)
      → AreBytes (get_elem? buffer)
      → Empty d
      → (e : Exit) × (process host buffer be m d ≡ some e) × Empty (draws_of e)
  unfolding process
  process_total buffer be m d bytes empty = Returns-some (
      process_loop-Returns (get_elem? buffer) (length buffer) be (Readable-get_elem? buffer) bytes
        (length buffer + 1) 0 m d (omega arith) (inl empty))
