-- ===== src/Fifo/Total/Registers.antt =====
-- The register commands of `process` read inside the buffer.
use mkwii_ps.Base.{
  ℕ, ◌+◌, ◌*◌, ◌/◌, ◌^◌, ◌≤◌, Bool, ◌||◌, ltb, ◌==◌, bit_and, arith, Returns, returns, Anything,
  >>=-Returns, if-Returns,
}
use mkwii_ps.Platform.{Platform}
use mkwii_ps.Reader.{Bytes}
use mkwii_ps.Reader.Total.{Readable}
use mkwii_ps.State.Machine.{Machine}
use mkwii_ps.Xf.Total.{copy_xf_data-Returns, handle_xf-Returns}
use mkwii_ps.Fifo.Commands.{Commands, Host}
use mkwii_ps.Fifo.Aurora.{has_bytes}
use mkwii_ps.Fifo.Process.{
  process_bp, process_cp, process_xf, load_indexed, process_indexed, process_call_dl,
}
use mkwii_ps.Draw.Sink.{SinkSound}
use mkwii_ps.Fifo.Total.Aurora.{Onward, has_bytes-le, u32}

-- What the decoder relies on: arrays point at mapped memory, and the renderer that takes draws reads
-- only memory that it owns and does not fault.
pub record HostLaws (host : Host) : Type 0 where
  pub mapped : (a : ℕ) → Returns Anything (host.memory a)
  pub receiver : SinkSound host.sink

module _ ⦃p : Platform⦄ ⦃c : Commands⦄ (host : Host) (laws : HostLaws host) where
  load_indexed-Returns :
      (array_type value : ℕ) (be : Bool) (m : Machine)
      → Returns Anything (load_indexed host array_type value be m)
  unfolding load_indexed
  load_indexed-Returns array_type value be m =
      let a = m.vertex.arrays array_type in
      let len : ℕ = bit_and (value / 2 ^ 12) 0x0f + 1 in
      if-Returns
        (a.base == 0 || (a.stride == 0 || ltb a.size (value / 2 ^ 16 * a.stride + len * 4)))
        (λ _. returns tt)
        λ _.
          >>=-Returns (copy_xf_data-Returns _ _ len be m (λ i lt. laws.mapped _)) λ r _. returns tt

  module _ (ptr : Bytes) (size : ℕ) (be : Bool) (h : Readable ptr size) where
    pub process_bp-Returns :
        (at : ℕ) (m : Machine) → Returns (Onward at) (process_bp host ptr at size be m)
    unfolding process_bp
    process_bp-Returns at m =
        if-Returns (has_bytes at size 4)
          (λ e.
            >>=-Returns (u32 ptr size be h at (has_bytes-le at size 4 e))
              λ v _. returns (omega arith))
          λ _. returns tt

    pub process_cp-Returns :
        (at : ℕ) (m : Machine) → Returns (Onward at) (process_cp host ptr at size be m)
    unfolding process_cp
    process_cp-Returns at m =
        if-Returns (has_bytes at size 5)
          (λ e.
            let le : at + 5 ≤ size = has_bytes-le at size 5 e in
            >>=-Returns (h at (omega arith)) λ addr _.
              >>=-Returns (u32 ptr size be h (at + 1) (omega arith)) λ v _. returns (omega arith))
          λ _. returns tt

    pub process_xf-Returns :
        (at : ℕ) (m : Machine) → at ≤ size → Returns (Onward at) (process_xf host ptr at size be m)
    unfolding process_xf
    process_xf-Returns at m le =
        >>=-Returns (handle_xf-Returns ptr at size be m h le) λ r inside. returns inside.0

    pub process_indexed-Returns :
        (opcode at : ℕ) (m : Machine)
        → Returns (Onward at) (process_indexed host opcode ptr at size be m)
    unfolding process_indexed
    process_indexed-Returns opcode at m =
        if-Returns (has_bytes at size 4)
          (λ e.
            >>=-Returns (u32 ptr size be h at (has_bytes-le at size 4 e))
              λ v _. >>=-Returns (load_indexed-Returns _ v be m) λ m' _. returns (omega arith))
          λ _. returns tt

    pub process_call_dl-Returns :
        (at : ℕ) (m : Machine) → Returns (Onward at) (process_call_dl host at size m)
    unfolding process_call_dl
    process_call_dl-Returns at m =
        if-Returns (has_bytes at size 8) (λ _. returns (omega arith)) λ _. returns tt
