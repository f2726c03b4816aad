-- ===== src/Draw/Leaves.antt =====
-- The end of a draw: the group waits only if the next command of the stream joins it.
use mkwii_ps.Base.{
  ℕ, zero, suc, ◌+◌, ◌-◌, ◌*◌, ◌≤◌, ◌≡◌, refl, ◌⊎◌, inl, inr, Bool, true, false, ltb, if◌then◌else◌,
  arith, subst, sym, ap, Option, none, some, List, Returns, returns, if-Returns, Anything,
  Bool-cases,
}
use mkwii_ps.Base.Outcome.{
  Outcome, ok, throws, fault, Safe, done, thrown, Gives, gives, >>=-Gives, if-Gives,
}
use mkwii_ps.Platform.{Platform}
use mkwii_ps.Reader.{Bytes}
use mkwii_ps.Reader.Total.{Readable}
use mkwii_ps.State.Machine.{Machine}
use mkwii_ps.Geometry.Indices.{Primitive}
use mkwii_ps.Geometry.Layout.{VertexLayout}
use mkwii_ps.Draw.{
  DrawSink, Draws, clear_pending, triangle_class, is_empty, DrawResult, refused, drawn, raised,
  read_bytes, submit, end_draw, submit_pending, join, has_room, wait_or_submit, draw_with,
}
use mkwii_ps.Draw.Sink.{SinkSound, Empty, SamePending, submit-Safe, submit_group-Safe}
use mkwii_ps.Draw.Joins.{Joins, read-Gives, next_draw_joins-Joins}

read_bytes-Gives :
    (ptr : Bytes) (size : ℕ)
    → Readable ptr size
    → (n at : ℕ) → at + n ≤ size
    → Gives Anything (read_bytes ptr at n)
unfolding read_bytes
read_bytes-Gives ptr size h zero at le = gives tt
read_bytes-Gives ptr size h (suc n) at le =
    >>=-Gives (read-Gives (h at (omega arith)))
      λ b _. >>=-Gives (read_bytes-Gives ptr size h n (at + 1) (omega arith)) λ rest _. gives tt

-- No group waits, or a draw that joins it follows at `at`.
abbrev pub Settled : Bytes → ℕ → Bool → ℕ → Draws → Type 0
Settled ptr size be at d = Empty d ⊎ Joins ptr size be d.pending.format d.pending.layout.stride at

-- `refused` and an exception leave no group. A draw moves on inside the stream.
abbrev pub Leaves : Bytes → ℕ → Bool → Draws → ℕ → DrawResult → Type 0
Leaves ptr size be d at refused = Empty d
Leaves ptr size be d at (drawn at' d') = (at ≤ at') × (at' ≤ size) × Settled ptr size be at' d'
Leaves ptr size be d at (raised d') = Empty d'

module _ ⦃p : Platform⦄ (sink : Option DrawSink) (sound : SinkSound sink) (m : Machine) where
  module _ (ptr : Bytes) (size : ℕ) (be : Bool) (h : Readable ptr size) (d₀ : Draws) (at : ℕ) where
    end_draw-Leaves :
        (at' : ℕ) (before : Draws) (o : Outcome Draws)
        → at ≤ at'
        → at' ≤ size
        → Empty before
        → Safe (SamePending before) o
        → Returns (Leaves ptr size be d₀ at) (end_draw at' before o)
    unfolding end_draw
    end_draw-Leaves at' before o le le' e (done {a = d} same) =
        returns (le, le', inl (subst (λ q. is_empty q.segments ≡ true) (sym same) e))
    end_draw-Leaves at' before o le le' e thrown = returns e

    submit_pending-Leaves :
        (at' : ℕ) (d : Draws)
        → at ≤ at'
        → at' ≤ size
        → Returns (Leaves ptr size be d₀ at) (submit_pending sink m at' d)
    unfolding submit_pending clear_pending
    submit_pending-Leaves at' d le le' =
        end_draw-Leaves at' (clear_pending d) _ le le' refl
          (submit_group-Safe sink sound m d.pending d.pending.segments (clear_pending d))

    wait_or_submit-Leaves :
        (at' format stride : ℕ) (d : Draws)
        → at ≤ at'
        → at' ≤ size
        → d.pending.format ≡ format
        → d.pending.layout.stride ≡ stride
        → Returns (Leaves ptr size be d₀ at) (wait_or_submit sink m ptr at' size be format stride d)
    unfolding wait_or_submit
    wait_or_submit-Leaves at' format stride d le le' ef es = decide _ (
        if-Gives (has_room d.pending)
          (λ _. next_draw_joins-Joins ptr size be h format stride at' le')
          λ _. gives λ no. absurd (ground arith))
      where
        decide :
            (o : Outcome Bool)
            → Gives (λ b. b ≡ true → Joins ptr size be format stride at') o
            → Returns (Leaves ptr size be d₀ at) (elim o [
              | ok joins ↦ if joins then some (drawn at' d) else submit_pending sink m at' d
              | throws e ↦ some (raised (clear_pending d))
              | fault ↦ none
            ])
        decide o (gives {a = b} j) =
            if-Returns b (λ e. returns (le, le', inr (rw (ef, es) (j e))))
              λ _. submit_pending-Leaves at' d le le'

    -- The layout and the format of a group after a draw has joined it.
    unfoldable pub Suits : Primitive → ℕ → VertexLayout → ℕ → Type 0
    Suits primitive format layout total =
        Empty d₀
        ⊎ ((total ≤ size - at - 2)
            × (triangle_class primitive ≡ true)
            × (d₀.pending.format ≡ format)
            × (d₀.pending.layout ≡ layout))

    join-fields :
        (primitive : Primitive) (count : ℕ) (layout : VertexLayout) (format : ℕ) (records : List ℕ)
        (total : ℕ)
        → Suits primitive format layout total
        → ((join primitive count layout format records d₀).pending.format ≡ format)
          × ((join primitive count layout format records d₀).pending.layout.stride ≡ layout.stride)
    unfolding join Suits
    join-fields primitive count layout format records total (inl e) = rw e (refl, refl)
    join-fields primitive count layout format records total (inr s) =
        elim (Bool-cases (is_empty d₀.pending.segments)) [
          | inl e ↦ rw e (refl, refl)
          | inr e ↦ rw e (s.2, ap (λ (l : VertexLayout). l.stride) s.3)
        ]

    pub draw_with-Leaves :
        (primitive : Primitive) (format count : ℕ) (layout : VertexLayout)
        → at + 2 ≤ size
        → Suits primitive format layout (count * layout.stride)
        → Returns
            (Leaves ptr size be d₀ at)
            (draw_with sink m primitive format count layout ptr at size be d₀)
    unfolding draw_with Suits
    draw_with-Leaves primitive format count layout room suits =
        if-Returns (ltb (size - at - 2) (count * layout.stride)) (λ e. returns (refuses e suits))
          λ e.
            take_records _
              (read_bytes-Gives ptr size h (count * layout.stride) (at + 2) (ground arith))
              (ground arith)
      where
        refuses :
            ltb (size - at - 2) (count * layout.stride) ≡ true
            → Suits primitive format layout (count * layout.stride)
            → Empty d₀
        refuses e (inl empty) = empty
        refuses e (inr s) = absurd (ground (arith, s.0))

        single :
            triangle_class primitive ≡ false
            → Suits primitive format layout (count * layout.stride)
            → Empty d₀
        single e (inl empty) = empty
        single e (inr s) = absurd (ground (arith, s.1))

        take_records :
            (o : Outcome (List ℕ))
            → Gives Anything o
            → at + 2 + count * layout.stride ≤ size
            → Returns (Leaves ptr size be d₀ at) (elim o [
              | throws e ↦ some (raised d₀)
              | fault ↦ none
              | ok records ↦
                  if triangle_class primitive
                  then wait_or_submit sink m ptr
                      (at + 2 + count * layout.stride)
                      size
                      be
                      format
                      layout.stride
                      (join primitive count layout format records d₀)
                  else end_draw
                      (at + 2 + count * layout.stride)
                      d₀
                      (submit sink m layout primitive count records d₀)
            ])
        take_records o (gives {a = records} _) le =
            if-Returns (triangle_class primitive)
              (λ _.
                let fields = join-fields primitive count layout format records _ suits in
                wait_or_submit-Leaves (at + 2 + count * layout.stride) format layout.stride
                  (join primitive count layout format records d₀) (omega arith) le fields.0
                  fields.1)
              λ e.
                end_draw-Leaves (at + 2 + count * layout.stride) d₀ _ (omega arith) le
                  (single e suits) (submit-Safe sink sound m layout primitive count records d₀)
