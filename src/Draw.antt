-- ===== src/Draw.antt =====
-- ps5/gpu/gx_draw.cpp and gx_draw_dispatch.cpp: draw commands, the group of consecutive triangle
-- draws that waits to be submitted as one geometry, and the renderer's receiver.
-- Timers and statistics are left out, and so is the exception of a vector that cannot grow.
-- Sizes and positions of a stream are u32 and stay below its size, so positions do not wrap around.
pub mod Joins
pub mod Sink
pub mod Leaves
pub mod Settled
use mkwii_ps.Base.{
  ℕ, zero, suc, ◌+◌, ◌-◌, ◌*◌, ◌%◌, ◌^◌, Bool, true, false, ◌&&◌, ◌||◌, not, ltb, leb, ◌==◌, ◌!=◌,
  if◌then◌else◌, bit_and, Option, none, some, List, [], ◌∷◌, ◌++◌, length, take,
}
use mkwii_ps.Base.Outcome.{Exception, Outcome, ok, throws, fault, ◌>>=◌, ◌>>◌, or_fault}
use mkwii_ps.Platform.{Platform}
use mkwii_ps.Reader.{Bytes}
use mkwii_ps.State.Vertex.{AttrArray}
use mkwii_ps.State.Machine.{Machine}
use mkwii_ps.Geometry.Indices.{
  Primitive, quads, triangles, triangle_strip, triangle_fan, lines, line_strip, points, DrawSegment,
  gx_primitive_from_command,
}
use mkwii_ps.Geometry.Layout.{VertexLayout, build}
use mkwii_ps.Geometry.Snapshot.{Geometry, Resolver, snapshot_with}
use mkwii_ps.Geometry.Snapshot.Segments.{or_throw, snapshot_segments}

-- `GxDrawSink`: the renderer resolves arrays and takes geometries.
pub record DrawSink : Type 0 where
  pub resolve : Resolver
  pub submit : Geometry → Machine → Outcome (Unit {0})

-- Behind its own test of the interval, the receiver's resolver.
unfoldable pub resolve_gx_array : Option DrawSink → Resolver
resolve_gx_array none attr array offset bytes = throws Exception.logic_error
resolve_gx_array (some active) attr array offset bytes =
    if array.base == 0 || ltb array.size offset || ltb (array.size - offset) bytes
    then throws Exception.out_of_range
    else (active.resolve attr array offset bytes >>= λ range.
        if ltb (length range) bytes then throws Exception.out_of_range else ok (take range bytes))

pub record PendingDraws : Type 0 where
  pub records : List ℕ
  pub segments : List DrawSegment
  pub layout : VertexLayout
  pub format : ℕ
  pub vertices : ℕ

-- The group that waits, and what the renderer was given, the last first.
pub record Draws : Type 0 where
  pub pending : PendingDraws
  pub submitted : List Geometry

unfoldable pub clear_pending : Draws → Draws
clear_pending d = record d {
  pending = record d.pending { records = []; segments = []; vertices = 0 };
}

-- The code throws in `submit_gx_geometry`, or the geometry has been given to the receiver.
unfoldable pub submit_gx_geometry : Option DrawSink → Geometry → Machine → Draws → Outcome Draws
submit_gx_geometry none g m d = throws Exception.logic_error
submit_gx_geometry (some active) g m d = do
  active.submit g m
  ok (record d { submitted = g ∷ d.submitted })

unfoldable pub triangle_class : Primitive → Bool
triangle_class quads = true
triangle_class triangles = true
triangle_class triangle_strip = true
triangle_class triangle_fan = true
triangle_class lines = false
triangle_class line_strip = false
triangle_class points = false

abbrev pub is_empty : {A : Type 0} → List A → Bool
is_empty [] = true
is_empty (x ∷ xs) = false

-- `kMergedRecordBytes`.
abbrev pub merged_record_bytes : ℕ
merged_record_bytes = 2 ^ 18

-- The loop over the padding: the first byte from `at` on that is not 0, or the end.
unfoldable pub skip_nops : ℕ → Bytes → ℕ → Outcome ℕ
skip_nops zero ptr at = ok at
skip_nops (suc rest) ptr at = do
  b ← or_fault (ptr at)
  let next = skip_nops rest ptr (at + 1)
  if b == 0 then next else ok at

-- The count of a draw, of 16 bits.
unfoldable pub draw_count : Bytes → ℕ → Bool → Outcome ℕ
draw_count ptr at big_endian = do
  b0 ← or_fault (ptr at)
  b1 ← or_fault (ptr (at + 1))
  ok (if big_endian then b0 * 2 ^ 8 + b1 else b0 + b1 * 2 ^ 8)

-- The command at `at`, of whose count and records all bytes stand in the stream.
unfoldable pub joins_at : Bytes → ℕ → ℕ → Bool → ℕ → ℕ → Outcome Bool
joins_at ptr at size big_endian format stride = do
  command ← or_fault (ptr at)
  let opcode = bit_and command 0xF8
  let complete : Outcome Bool =
      draw_count ptr (at + 1) big_endian >>= λ count. ok (leb (count * stride) (size - at - 3))
  if ltb opcode 0x80 || ltb 0xA0 opcode || bit_and command 7 != format then ok false else complete

unfoldable pub next_draw_joins : Bytes → ℕ → ℕ → Bool → ℕ → ℕ → Outcome Bool
next_draw_joins ptr at size big_endian format stride = do
  at' ← skip_nops (size - at) ptr at
  if leb size at' || ltb (size - at') 3
      then ok false
      else joins_at ptr at' size big_endian format stride

-- `handle_draw` returns false, returns true with the new position, or throws.
pub data DrawResult : Type 0 where
  refused : DrawResult
  drawn : ℕ → Draws → DrawResult
  raised : Draws → DrawResult

-- The bytes from `at` on, `n` of them.
unfoldable pub read_bytes : Bytes → ℕ → ℕ → Outcome (List ℕ)
read_bytes ptr at zero = ok []
read_bytes ptr at (suc n) = do
  b ← or_fault (ptr at)
  rest ← read_bytes ptr (at + 1) n
  ok (b ∷ rest)

-- What a draw leaves: on an exception the group is cleared, by the destructor of `Clear`.
unfoldable pub end_draw : ℕ → Draws → Outcome Draws → Option DrawResult
end_draw at before (ok d) = some (drawn at d)
end_draw at before (throws e) = some (raised before)
end_draw at before fault = none

-- A draw joins the group. The first one brings the layout and the format.
unfoldable pub join : Primitive → ℕ → VertexLayout → ℕ → List ℕ → Draws → Draws
join primitive count layout format records d =
    let first = is_empty d.pending.segments in
    record d {
      pending = record {
        records = d.pending.records ++ records;
        segments = d.pending.segments ++ (record { primitive = primitive; count = count } ∷ []);
        layout = if first then layout else d.pending.layout;
        format = if first then format else d.pending.format;
        vertices = (d.pending.vertices + count) % 2 ^ 32;
      };
    }

-- The group may take another draw.
unfoldable pub has_room : PendingDraws → Bool
has_room pending =
    ltb (length pending.records) merged_record_bytes && leb pending.vertices (0xFFFF * 64)

module _ ⦃p : Platform⦄ (sink : Option DrawSink) (m : Machine) where
  -- A geometry without a complete primitive is dropped.
  unfoldable pub submit_packet : Geometry → Draws → Outcome Draws
  submit_packet packet d =
      if is_empty packet.indices then ok d else submit_gx_geometry sink packet m d

  unfoldable pub submit : VertexLayout → Primitive → ℕ → List ℕ → Draws → Outcome Draws
  submit layout primitive count records d =
      let go : Outcome Draws = do
        packet ←
            snapshot_with (resolve_gx_array sink) m.vertex m.transform.current_pn_mtx layout
              primitive count records
        submit_packet packet d
      in if count == 0
        then ok d
        else if m.pixel.cull_mode == p.cull_all && triangle_class primitive
        then ok d
        else go

  -- The geometry of two segments or more.
  unfoldable pub submit_merged : PendingDraws → Draws → Outcome Draws
  submit_merged pending d =
      let go : Outcome Draws = do
        packet ←
            snapshot_segments (resolve_gx_array sink) m.vertex m.transform.current_pn_mtx
              pending.layout pending.segments pending.records
        submit_packet packet d
      in if m.pixel.cull_mode == p.cull_all then ok d else go

  unfoldable pub submit_group : PendingDraws → List DrawSegment → Draws → Outcome Draws
  submit_group pending [] d = ok d
  submit_group pending (s ∷ []) d = submit pending.layout s.primitive s.count pending.records d
  submit_group pending (s ∷ (t ∷ rest)) d = submit_merged pending d

  -- `submit_pending`: the group is cleared whether or not its submission throws.
  unfoldable pub submit_pending : ℕ → Draws → Option DrawResult
  submit_pending at d =
      end_draw at (clear_pending d) (submit_group d.pending d.pending.segments (clear_pending d))

  -- The group waits if the next command of the stream is a draw that joins it.
  unfoldable pub wait_or_submit : Bytes → ℕ → ℕ → Bool → ℕ → ℕ → Draws → Option DrawResult
  wait_or_submit ptr at size big_endian format stride d =
      let submitted = submit_pending at d in
      let next : Outcome Bool =
        if has_room d.pending
        then next_draw_joins ptr at size big_endian format stride
        else ok false in
      elim next [
        | ok joins ↦ if joins then some (drawn at d) else submitted
        | throws e ↦ some (raised (clear_pending d))
        | fault ↦ none
      ]

  -- The command behind its count, with the layout chosen.
  unfoldable pub draw_with :
      Primitive → ℕ → ℕ → VertexLayout → Bytes → ℕ → ℕ → Bool → Draws → Option DrawResult
  draw_with primitive format count layout ptr at size big_endian d =
      let total = count * layout.stride in
      let next : ℕ = at + 2 + total in
      if ltb (size - at - 2) total then some refused else elim (read_bytes ptr (at + 2) total) [
        | throws e ↦ some (raised d)
        | fault ↦ none
        | ok records ↦
            if triangle_class primitive
            then wait_or_submit ptr next size big_endian format layout.stride
                (join primitive count layout format records d)
            else end_draw next d (submit layout primitive count records d)
      ]

  -- The layout of a draw: the group's if the draw joins it.
  unfoldable pub draw_layout : Primitive → ℕ → PendingDraws → Outcome VertexLayout
  draw_layout primitive format pending =
      if not (is_empty pending.segments) && triangle_class primitive && pending.format == format
      then ok pending.layout
      else build m.vertex format

  unfoldable pub handle_draw : ℕ → Bytes → ℕ → ℕ → Bool → Draws → Option DrawResult
  handle_draw command ptr at size big_endian d =
      let format = bit_and command 7 in
      let run : Outcome (Primitive × ℕ × VertexLayout) = do
        primitive ← or_throw (gx_primitive_from_command command)
        count ← draw_count ptr at big_endian
        layout ← draw_layout primitive format d.pending
        ok (primitive, count, layout)
      in if ltb size at || ltb (size - at) 2 then some refused else elim run [
        | ok r ↦ draw_with r.0 format r.1 r.2 ptr at size big_endian d
        | throws e ↦ some (raised d)
        | fault ↦ none
      ]
