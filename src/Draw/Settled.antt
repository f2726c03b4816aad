-- ===== src/Draw/Settled.antt =====
-- `handle_draw`: a group waits only while the next command of the stream is a draw that joins it.
use mkwii_ps.Base.{
  ℕ, ◌+◌, ◌-◌, ◌*◌, ◌/◌, ◌≤◌, ◌≡◌, refl, ◌⊎◌, inl, inr, Bool, true, false, ◌&&◌, ◌||◌, not, ltb,
  ◌==◌, bit_and, bit_and_digit, arith, sym, ap, ◌∙◌, Option, none, some, Returns, returns,
  if-Returns, Anything, Bool-cases,
}
use mkwii_ps.Base.Outcome.{
  Outcome, ok, throws, fault, ◌>>=◌, Safe, done, thrown, >>=-Safe, if-Safe, Safe-weaken, Gives,
  gives, Gives-Safe,
}
use mkwii_ps.Platform.{Platform}
use mkwii_ps.Reader.{Bytes}
use mkwii_ps.Reader.Total.{Readable}
use mkwii_ps.State.Machine.{Machine}
use mkwii_ps.Geometry.Indices.{Primitive, gx_primitive_from_command}
use mkwii_ps.Geometry.Layout.{VertexLayout}
use mkwii_ps.Geometry.Layout.Placed.{build-Laid}
use mkwii_ps.Geometry.Snapshot.Segments.{or_throw}
use mkwii_ps.Draw.{
  DrawSink, Draws, triangle_class, is_empty, draw_count, raised, draw_with, draw_layout,
  handle_draw,
}
use mkwii_ps.Draw.Sink.{SinkSound, Empty}
use mkwii_ps.Draw.Leaves.{Leaves, Suits, draw_with-Leaves}
use mkwii_ps.Draw.Joins.{JoinsAt, draw_count-Gives}

abbrev command_of : Option ℕ → ℕ
command_of none = 0
command_of (some c) = c

abbrev is_triangle : Option Primitive → Bool
is_triangle none = false
is_triangle (some q) = triangle_class q

named :
    (o : Option Primitive)
    → is_triangle o ≡ true
    → (q : Primitive) × (o ≡ some q) × (triangle_class q ≡ true)
named none e = absurd (ground arith)
named (some q) e = (q, refl, e)

-- The opcodes of triangle draws.
triangle_opcode :
    (command : ℕ)
    → 0x80 ≤ bit_and command 0xF8
    → bit_and command 0xF8 ≤ 0xA0
    → (q : Primitive) × (gx_primitive_from_command command ≡ some q) × (triangle_class q ≡ true)
unfolding gx_primitive_from_command triangle_class
triangle_opcode command low high =
    named (gx_primitive_from_command command) (ground (arith, eighth))
  where
    eighth : bit_and command 0xF8 ≡ bit_and (command / 2 / 2 / 2) 31 * 8
    eighth = omega (
      arith,
      bit_and_digit command 0xF8,
      bit_and_digit (command / 2) 124,
      bit_and_digit (command / 2 / 2) 62,
    )

module _ ⦃p : Platform⦄ (sink : Option DrawSink) (sound : SinkSound sink) (m : Machine) where
  module _ (ptr : Bytes) (size : ℕ) (be : Bool) (h : Readable ptr size) (d₀ : Draws) (at : ℕ) where
    -- The state before a draw: no group, or a group that the command, a byte before `at`, joins.
    abbrev pub Comes : ℕ → Type 0
    Comes command =
        Empty d₀
        ⊎ ((pos : ℕ) × (at ≡ pos + 1)
            × (ptr pos ≡ some command)
            × JoinsAt ptr size be d₀.pending.format d₀.pending.layout.stride pos)

    -- What `handle_draw` has read.
    Ran : ℕ → Primitive × ℕ × VertexLayout → Type 0
    Ran command r =
        (at + 2 ≤ size)
        × Suits sink sound m ptr size be h d₀ at r.0 (bit_and command 7) r.2 (r.1 * r.2.stride)

    Ran-room : (command : ℕ) (r : Primitive × ℕ × VertexLayout) → Ran command r → at + 2 ≤ size
    unfolding Ran
    Ran-room command r ran = ran.0

    Ran-Suits :
        (command : ℕ) (r : Primitive × ℕ × VertexLayout)
        → Ran command r
        → Suits sink sound m ptr size be h d₀ at r.0 (bit_and command 7) r.2 (r.1 * r.2.stride)
    unfolding Ran
    Ran-Suits command r ran = ran.1

    run-fresh :
        (command : ℕ)
        → at + 2 ≤ size
        → Empty d₀
        → Safe (Ran command) (
            or_throw (gx_primitive_from_command command) >>= λ primitive.
            draw_count ptr at be >>= λ count.
            draw_layout sink m primitive (bit_and command 7) d₀.pending >>= λ layout.
            ok (primitive, count, layout))
    unfolding Ran Suits draw_layout
    run-fresh command room e = named-Safe (gx_primitive_from_command command)
      where
        named-Safe :
            (o : Option Primitive)
            → Safe (Ran command) (
                or_throw o >>= λ primitive. draw_count ptr at be >>= λ count.
                draw_layout sink m primitive (bit_and command 7) d₀.pending >>= λ layout.
                ok (primitive, count, layout))
        named-Safe none = thrown
        named-Safe (some primitive) =
            >>=-Safe (Gives-Safe (draw_count-Gives ptr size be h at room)) λ count _.
              >>=-Safe {P = Anything}
                (if-Safe
                  (not (is_empty d₀.pending.segments)
                    && triangle_class primitive
                    && d₀.pending.format == bit_and command 7)
                  (λ _. done tt)
                  λ _. Safe-weaken (build-Laid m.vertex (bit_and command 7)) λ _ _. tt)
                λ layout _. done (room, inl e)

    run-joined :
        (command : ℕ)
        → is_empty d₀.pending.segments ≡ false
        → (pos : ℕ) → at ≡ pos + 1
        → ptr pos ≡ some command
        → JoinsAt ptr size be d₀.pending.format d₀.pending.layout.stride pos
        → Gives (Ran command) (
            or_throw (gx_primitive_from_command command) >>= λ primitive.
            draw_count ptr at be >>= λ count.
            draw_layout sink m primitive (bit_and command 7) d₀.pending >>= λ layout.
            ok (primitive, count, layout))
    unfolding Ran Suits draw_layout
    run-joined command e pos is_at is_command j =
        rw (is_q, is_count, joined)
          (gives (omega (arith, j.room), inr (fits, is_triangle_q, same, refl)))
      where
        same_command : j.command ≡ command
        same_command = ap (λ (o : Option ℕ). command_of o) (sym j.is_command ∙ is_command)

        opcode :
            (q : Primitive) × (gx_primitive_from_command command ≡ some q)
            × (triangle_class q ≡ true)
        opcode =
            triangle_opcode command (rw (← same_command) j.opcode_low)
              (rw (← same_command) j.opcode_high)

        is_q : gx_primitive_from_command command ≡ some opcode.0
        is_q = opcode.1

        is_triangle_q : triangle_class opcode.0 ≡ true
        is_triangle_q = opcode.2

        is_count : draw_count ptr at be ≡ ok j.count
        is_count = rw is_at j.is_count

        same : d₀.pending.format ≡ bit_and command 7
        same = rw (← same_command) (sym j.same_format)

        joined :
            (not (is_empty d₀.pending.segments)
              && triangle_class opcode.0
              && d₀.pending.format == bit_and command 7)
            ≡ true
        joined = ground (arith, e, is_triangle_q, same)

        fits : j.count * d₀.pending.layout.stride ≤ size - at - 2
        fits = omega (arith, j.complete)

    -- No read leaves the stream. Where no group waits, or the command joins the group, the call leaves
    -- no group, or one that the next command joins.
    pub handle_draw-Leaves :
        (command : ℕ)
        → at ≤ size
        → Comes command
        → Returns (Leaves ptr size be d₀ at) (handle_draw sink m command ptr at size be d₀)
    unfolding handle_draw
    handle_draw-Leaves command le comes = elim (Bool-cases (is_empty d₀.pending.segments)) [
      | inl e ↦
          if-Returns (ltb size at || ltb (size - at) 2) (λ _. returns e)
            λ room. fresh e _ (run-fresh command (ground arith) e)
      | inr e ↦ joining e comes
    ]
      where
        fresh :
            Empty d₀
            → (o : Outcome (Primitive × ℕ × VertexLayout)) → Safe (Ran command) o
            → Returns (Leaves ptr size be d₀ at) (elim o [
              | ok r ↦ draw_with sink m r.0 (bit_and command 7) r.1 r.2 ptr at size be d₀
              | throws e ↦ some (raised d₀)
              | fault ↦ none
            ])
        fresh e o (done {a = r} ran) =
            draw_with-Leaves sink sound m ptr size be h d₀ at r.0 (bit_and command 7) r.1 r.2
              (Ran-room command r ran) (Ran-Suits command r ran)
        fresh e o thrown = returns e

        run :
            (o : Outcome (Primitive × ℕ × VertexLayout))
            → Gives (Ran command) o
            → Returns (Leaves ptr size be d₀ at) (elim o [
              | ok r ↦ draw_with sink m r.0 (bit_and command 7) r.1 r.2 ptr at size be d₀
              | throws e ↦ some (raised d₀)
              | fault ↦ none
            ])
        run o (gives {a = r} ran) =
            draw_with-Leaves sink sound m ptr size be h d₀ at r.0 (bit_and command 7) r.1 r.2
              (Ran-room command r ran) (Ran-Suits command r ran)

        joining :
            is_empty d₀.pending.segments ≡ false
            → Comes command
            → Returns (Leaves ptr size be d₀ at) (handle_draw sink m command ptr at size be d₀)
        joining e (inl e') = absurd (ground arith)
        joining e (inr (pos, is_at, is_command, j)) =
            let room : (ltb size at || ltb (size - at) 2) ≡ false = ground (arith, j.room) in
            rw room (run _ (run-joined command e pos is_at is_command j))
