-- ===== src/Examples/Draws.antt =====
-- The theorems on draws at concrete inputs.
use mkwii_ps.Base.{
  ℕ, ◌≡◌, refl, true, ◌==◌, ◌&&◌, ltb, if◌then◌else◌, arith, inl, Option, zero, suc, some, List, [],
  ◌∷◌, get_elem?, Returns,
}
use mkwii_ps.Base.Outcome.{ok, is_ok, Safe, done}
use mkwii_ps.Reader.Total.{Readable-get_elem?}
use mkwii_ps.State.Vertex.{VertexState}
use mkwii_ps.Geometry.Indices.{
  triangles, quads, triangle_strip, DrawSegment, count_segments, segment_index_count,
  write_segments,
}
use mkwii_ps.Geometry.Shifted.{concatenated, write_segments-concatenated}
use mkwii_ps.Geometry.Layout.{build}
use mkwii_ps.Geometry.Layout.Accepted.{all_from, attribute_accepted, build-is_ok}
use mkwii_ps.Geometry.Snapshot.{Resolver, snapshot}
use mkwii_ps.Geometry.Snapshot.Ranges.{Sizes32}
use mkwii_ps.Geometry.Decode.Total.{ColorLaws, Decodable, snapshot-Decodable}
use mkwii_ps.Draw.{DrawSink, handle_draw}
use mkwii_ps.Draw.Sink.{SinkSound}
use mkwii_ps.Draw.Leaves.{Leaves}
use mkwii_ps.Draw.Settled.{handle_draw-Leaves}
use mkwii_ps.Examples.Blank.{dolphin, blank, no_draws}

-- Positions by indices of a byte into an array of elements of two bytes.
abbrev indexed : VertexState
indexed = record blank.vertex {
  vtx_desc = λ i. if i == 9 then 2 else 0;
  arrays = λ i. record (blank.vertex.arrays i) { base = 0x1000; size = 16; stride = 2 };
}

laws_hold : ColorLaws
laws_hold = record { rgb8 = refl; rgbx8 = refl; rgba8 = refl }

sizes : Sizes32 indexed
sizes attr = omega arith

-- The array's memory holds zeros.
abbrev zeros : ℕ → List ℕ
zeros zero = []
zeros (suc n) = 0 ∷ zeros n

abbrev zero_memory : Resolver
zero_memory attr a offset bytes = ok (zeros bytes)

build-is_ok_example :
    is_ok (build indexed 0) ≡ (ltb 0 8 && all_from 21 0 (attribute_accepted indexed 0))
build-is_ok_example = build-is_ok indexed 0

-- Three vertices with the indices 4, 2 and 7.
snapshot-Decodable_example :
    Safe (Decodable 3) (snapshot zero_memory indexed 0 triangles 0 3 (4 ∷ 2 ∷ 7 ∷ []))
snapshot-Decodable_example =
    snapshot-Decodable laws_hold zero_memory (λ attr a o n. done tt) indexed sizes 0 triangles 0 3
      (4 ∷ 2 ∷ 7 ∷ [])

-- A renderer that takes every geometry.
abbrev taker : Option DrawSink
taker = some (record { resolve = zero_memory; submit = λ g m. ok tt })

taker-SinkSound : SinkSound taker
unfolding SinkSound
taker-SinkSound = (λ attr a o n. done tt, λ g m. done tt)

-- A triangle of the array's elements.
abbrev one_triangle : List ℕ
one_triangle = 0x90 ∷ 0 ∷ 3 ∷ 4 ∷ 2 ∷ 7 ∷ []

handle_draw-Leaves_example : Returns (Leaves (get_elem? one_triangle) 6 true no_draws 1) (
    handle_draw taker
      (record blank { vertex = indexed })
      0x90
      (get_elem? one_triangle)
      1
      6
      true
      no_draws)
handle_draw-Leaves_example =
    handle_draw-Leaves taker taker-SinkSound (record blank { vertex = indexed })
      (get_elem? one_triangle) 6 true (Readable-get_elem? one_triangle) no_draws 1 0x90
      (omega arith) (inl refl)

-- A quad, a strip of five vertices and a triangle, from the vertex 7 on.
abbrev three_draws : List DrawSegment
three_draws =
    record { primitive = quads; count = 4 }
    ∷ record { primitive = triangle_strip; count = 5 }
    ∷ record { primitive = triangles; count = 3 }
    ∷ []

write_segments-concatenated_example :
    write_segments three_draws 7 ≡ some (concatenated three_draws 7)
unfolding count_segments segment_index_count
write_segments-concatenated_example = write_segments-concatenated three_draws 7 12 18 refl
