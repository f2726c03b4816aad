-- ===== src/Draw/Sink.antt =====
-- The submission of a geometry: it does not fault, and does not change the group that waits.
use mkwii_ps.Base.{
  ℕ, ◌-◌, ◌≡◌, refl, true, ◌&&◌, ◌||◌, ltb, ◌==◌, Option, none, some, List, [], ◌∷◌, length,
  Anything,
}
use mkwii_ps.Base.Outcome.{Safe, done, thrown, >>=-Safe, if-Safe}
use mkwii_ps.Platform.{Platform}
use mkwii_ps.State.Machine.{Machine}
use mkwii_ps.Geometry.Indices.{Primitive, DrawSegment}
use mkwii_ps.Geometry.Layout.{VertexLayout}
use mkwii_ps.Geometry.Snapshot.{Geometry, snapshot_with}
use mkwii_ps.Geometry.Snapshot.Ranges.{Sound, snapshot_records-Safe}
use mkwii_ps.Geometry.Snapshot.Segments.{snapshot_segments-Safe}
use mkwii_ps.Draw.{
  DrawSink, resolve_gx_array, PendingDraws, Draws, submit_gx_geometry, triangle_class, is_empty,
  submit_packet, submit, submit_merged, submit_group,
}

-- A receiver reads only memory that it owns, and takes a geometry or throws.
unfoldable pub SinkSound : Option DrawSink → Type 0
SinkSound none = Unit {0}
SinkSound (some active) =
    Sound active.resolve × ((g : Geometry) (m : Machine) → Safe Anything (active.submit g m))

resolve_gx_array-Sound : (sink : Option DrawSink) → SinkSound sink → Sound (resolve_gx_array sink)
unfolding resolve_gx_array SinkSound
resolve_gx_array-Sound none s attr a offset bytes = thrown
resolve_gx_array-Sound (some active) s attr a offset bytes =
    if-Safe (a.base == 0 || ltb a.size offset || ltb (a.size - offset) bytes) (λ _. thrown)
      λ _.
        >>=-Safe (s.0 attr a offset bytes)
          λ range _. if-Safe (ltb (length range) bytes) (λ _. thrown) λ _. done tt

abbrev pub Empty : Draws → Type 0
Empty d = is_empty d.pending.segments ≡ true

-- The group is the same, whatever was submitted.
abbrev pub SamePending : Draws → Draws → Type 0
SamePending d d' = d'.pending ≡ d.pending

module _ ⦃p : Platform⦄ (sink : Option DrawSink) (sound : SinkSound sink) (m : Machine) where
  submit_gx_geometry-Safe :
      (s : Option DrawSink)
      → SinkSound s
      → (g : Geometry) (d : Draws) → Safe (SamePending d) (submit_gx_geometry s g m d)
  unfolding submit_gx_geometry SinkSound
  submit_gx_geometry-Safe none s g d = thrown
  submit_gx_geometry-Safe (some active) s g d = >>=-Safe (s.1 g m) λ _ _. done refl

  submit_packet-Safe : (g : Geometry) (d : Draws) → Safe (SamePending d) (submit_packet sink m g d)
  unfolding submit_packet
  submit_packet-Safe g d =
      if-Safe (is_empty g.indices) (λ _. done refl) λ _. submit_gx_geometry-Safe sink sound g d

  pub submit-Safe :
      (layout : VertexLayout) (primitive : Primitive) (count : ℕ) (records : List ℕ) (d : Draws)
      → Safe (SamePending d) (submit sink m layout primitive count records d)
  unfolding submit snapshot_with
  submit-Safe layout primitive count records d =
      if-Safe (count == 0) (λ _. done refl)
        λ _.
          if-Safe (m.pixel.cull_mode == p.cull_all && triangle_class primitive) (λ _. done refl)
            λ _.
              >>=-Safe {P = Anything}
                (>>=-Safe
                  (snapshot_records-Safe (resolve_gx_array sink) (resolve_gx_array-Sound sink sound)
                    m.vertex layout count m.transform.current_pn_mtx records)
                  λ _ _. done tt)
                λ packet _. submit_packet-Safe packet d

  pub submit_group-Safe :
      (pending : PendingDraws) (segments : List DrawSegment) (d : Draws)
      → Safe (SamePending d) (submit_group sink m pending segments d)
  unfolding submit_group submit_merged
  submit_group-Safe pending [] d = done refl
  submit_group-Safe pending (s ∷ []) d =
      submit-Safe pending.layout s.primitive s.count pending.records d
  submit_group-Safe pending (s ∷ (t ∷ rest)) d =
      if-Safe (m.pixel.cull_mode == p.cull_all) (λ _. done refl)
        λ _.
          >>=-Safe
            (snapshot_segments-Safe (resolve_gx_array sink) (resolve_gx_array-Sound sink sound)
              m.vertex m.transform.current_pn_mtx pending.layout pending.segments pending.records)
            λ packet _. submit_packet-Safe packet d
