-- ===== src/Geometry/Snapshot/Segments.antt =====
-- ps5/gpu/gx_geometry.cpp: `snapshot_segments`, the geometry of a merged draw.
use mkwii_ps.Base.{
  ℕ, ◌%◌, ◌^◌, ◌<◌, ◌≡◌, refl, true, leb, ◌==◌, if◌then◌else◌, arith, Option, none, some, List,
  length, Anything, Returns-some,
}
use mkwii_ps.Base.Outcome.{
  Exception, Outcome, ok, throws, fault, ◌>>=◌, ◌>>◌, require, Safe, done, thrown, >>=-Safe,
  require-Safe,
}
use mkwii_ps.Platform.{Platform}
use mkwii_ps.State.Vertex.{VertexState}
use mkwii_ps.Geometry.Indices.{Primitive, DrawSegment, count_segments, write_segments}
use mkwii_ps.Geometry.Merged.{write_segments-Returns}
use mkwii_ps.Geometry.Layout.{VertexLayout}
use mkwii_ps.Geometry.Snapshot.{Geometry, Resolver, snapshot_records}
use mkwii_ps.Geometry.Snapshot.Ranges.{Sound, snapshot_records-Safe}

-- `throw std::invalid_argument`.
abbrev pub or_throw : {A : Type 0} → Option A → Outcome A
or_throw none = throws Exception.invalid_argument
or_throw (some a) = ok a

-- The indices are written through a pointer into a buffer of `index_count` entries.
unfoldable pub write_buffer : List DrawSegment → ℕ → Geometry → Outcome Geometry
write_buffer segments index_count out = do
  written ← or_throw (write_segments segments 0)
  if length written == index_count
      then ok (record out { indices = written; primitive = Primitive.triangles })
      else fault

unfoldable pub snapshot_segments :
    ⦃p : Platform⦄
    → Resolver
    → VertexState
    → ℕ
    → VertexLayout
    → List DrawSegment
    → List ℕ
    → Outcome Geometry
snapshot_segments ⦃p⦄ resolve v current_pn_mtx layout segments records = do
  (total, index_count) ← or_throw (count_segments segments)
  require (leb total 0xFFFFFFFF)
  out ← snapshot_records resolve v current_pn_mtx layout (total % 2 ^ 32) records
  write_buffer segments index_count out

write_buffer-Safe :
    (segments : List DrawSegment) (total n : ℕ) (out : Geometry)
    → count_segments segments ≡ some (total, n)
    → total < 2 ^ 32
    → Safe Anything (write_buffer segments n out)
unfolding write_buffer
write_buffer-Safe segments total n out e small =
    let (written, is, fills) =
      Returns-some (write_segments-Returns segments 0 total n total e (omega arith) small) in
    let full : (length written == n) ≡ true = ground (arith, fills.size) in rw (is, full) (done tt)

counted-Safe :
    ⦃p : Platform⦄
    → (resolve : Resolver) (sound : Sound resolve) (v : VertexState) (mtx : ℕ)
      (layout : VertexLayout)
    → (segments : List DrawSegment) (records : List ℕ) → (o : Option (ℕ × ℕ))
    → count_segments segments ≡ o
    → Safe Anything (
        or_throw o >>= λ counts.
        require (leb counts.0 0xFFFFFFFF)
        >> (snapshot_records resolve v mtx layout (counts.0 % 2 ^ 32) records
            >>= write_buffer segments counts.1))
counted-Safe resolve sound v mtx layout segments records none e = thrown
counted-Safe resolve sound v mtx layout segments records (some (total, n)) e =
    require-Safe (leb total 0xFFFFFFFF) λ le.
      >>=-Safe (snapshot_records-Safe resolve sound v layout (total % 2 ^ 32) mtx records)
        λ out _. write_buffer-Safe segments total n out e (ground arith)

-- No index is written past the buffer.
pub snapshot_segments-Safe :
    ⦃p : Platform⦄
    → (resolve : Resolver) (sound : Sound resolve) (v : VertexState) (mtx : ℕ)
      (layout : VertexLayout)
    → (segments : List DrawSegment) (records : List ℕ)
    → Safe Anything (snapshot_segments resolve v mtx layout segments records)
unfolding snapshot_segments
snapshot_segments-Safe resolve sound v mtx layout segments records =
    counted-Safe resolve sound v mtx layout segments records (count_segments segments) refl
