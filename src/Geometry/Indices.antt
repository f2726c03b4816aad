-- ===== src/Geometry/Indices.antt =====
-- ps5/gpu/gx_geometry.cpp: the primitive of a draw command, `build_indices`,
-- `write_triangle_indices` and the index buffer of `snapshot_segments`.
use mkwii_ps.Base.{
  ℕ, zero, suc, ◌+◌, ◌-◌, ◌*◌, ◌/◌, ◌%◌, ◌^◌, ltb, ◌==◌, ◌!=◌, if◌then◌else◌, ◌||◌, bit_and, Option,
  none, some, ◌>>=◌, List, [], ◌∷◌, ◌++◌,
}

pub data Primitive : Type 0 where
  quads triangles triangle_strip triangle_fan lines line_strip points : Primitive

-- `gx_primitive_from_command`: `none` where it throws.
unfoldable pub gx_primitive_from_command : ℕ → Option Primitive
gx_primitive_from_command command =
    let op = bit_and command 0xF8 in
    if op == 0x80 || op == 0x88
    then some quads
    else if op == 0x90
    then some triangles
    else if op == 0x98
    then some triangle_strip
    else if op == 0xA0
    then some triangle_fan
    else if op == 0xA8
    then some lines
    else if op == 0xB0
    then some line_strip
    else if op == 0xB8
    then some points
    else none

-- The lambda `tri`, with the base added to each index as a u32. In `build_indices` there is no base:
-- its triangles are those of base 0, where the wrap-around has no effect.
unfoldable pub tri : ℕ → ℕ → ℕ → ℕ → List ℕ
tri base a b c = (base + a) % 2 ^ 32 ∷ (base + b) % 2 ^ 32 ∷ (base + c) % 2 ^ 32 ∷ []

-- The loops over the vertices from `v` on, on fuel.
unfoldable pub quad_loop : ℕ → ℕ → ℕ → ℕ → List ℕ
quad_loop zero base v count = []
quad_loop (suc fuel) base v count =
    let rest = quad_loop fuel base (v + 4) count in
    if ltb (v + 3) count
    then tri base v (v + 1) (v + 2) ++ (tri base (v + 2) (v + 3) v ++ rest)
    else []

unfoldable pub triangle_loop : ℕ → ℕ → ℕ → ℕ → List ℕ
triangle_loop zero base v count = []
triangle_loop (suc fuel) base v count =
    let rest = triangle_loop fuel base (v + 3) count in
    if ltb (v + 2) count then tri base v (v + 1) (v + 2) ++ rest else []

unfoldable pub strip_loop : ℕ → ℕ → ℕ → ℕ → List ℕ
strip_loop zero base v count = []
strip_loop (suc fuel) base v count =
    let rest = strip_loop fuel base (v + 1) count in
    if ltb v count
    then (if bit_and v 1 != 0 then tri base (v - 1) (v - 2) v else tri base (v - 2) (v - 1) v)
      ++ rest
    else []

unfoldable pub fan_loop : ℕ → ℕ → ℕ → ℕ → List ℕ
fan_loop zero base v count = []
fan_loop (suc fuel) base v count =
    let rest = fan_loop fuel base (v + 1) count in
    if ltb v count then tri base 0 (v - 1) v ++ rest else []

unfoldable pub line_loop : ℕ → ℕ → ℕ → List ℕ
line_loop zero v count = []
line_loop (suc fuel) v count =
    let rest = line_loop fuel (v + 2) count in
    if ltb (v + 1) count then v ∷ ((v + 1) ∷ rest) else []

unfoldable pub line_strip_loop : ℕ → ℕ → ℕ → List ℕ
line_strip_loop zero v count = []
line_strip_loop (suc fuel) v count =
    let rest = line_strip_loop fuel (v + 1) count in
    if ltb v count then (v - 1) ∷ (v ∷ rest) else []

unfoldable pub point_loop : ℕ → ℕ → ℕ → List ℕ
point_loop zero v count = []
point_loop (suc fuel) v count =
    let rest = point_loop fuel (v + 1) count in if ltb v count then v ∷ rest else []

-- Every round moves on by a vertex at least, so `count` rounds are enough.
unfoldable pub write_triangle_indices : Primitive → ℕ → ℕ → Option (List ℕ)
write_triangle_indices quads count base = some (quad_loop count base 0 count)
write_triangle_indices triangles count base = some (triangle_loop count base 0 count)
write_triangle_indices triangle_strip count base = some (strip_loop count base 2 count)
write_triangle_indices triangle_fan count base = some (fan_loop count base 2 count)
write_triangle_indices lines count base = none
write_triangle_indices line_strip count base = none
write_triangle_indices points count base = none

unfoldable pub build_indices : Primitive → ℕ → List ℕ
build_indices quads count = quad_loop count 0 0 count
build_indices triangles count = triangle_loop count 0 0 count
build_indices triangle_strip count = strip_loop count 0 2 count
build_indices triangle_fan count = fan_loop count 0 2 count
build_indices lines count = line_loop count 0 count
build_indices line_strip count = line_strip_loop count 1 count
build_indices points count = point_loop count 0 count

-- What `build_indices` reserves.
unfoldable pub reserved : Primitive → ℕ → ℕ
reserved quads count = count / 4 * 6
reserved triangles count = count / 3 * 3
reserved triangle_strip count = if ltb 2 count then (count - 2) * 3 else 0
reserved triangle_fan count = if ltb 2 count then (count - 2) * 3 else 0
reserved lines count = count / 2 * 2
reserved line_strip count = if ltb 1 count then (count - 1) * 2 else 0
reserved points count = count

-- One command of a merged draw.
pub record DrawSegment : Type 0 where
  pub primitive : Primitive
  pub count : ℕ

-- What a segment adds to `indexCount`: `none` where the code throws.
unfoldable pub segment_index_count : Primitive → ℕ → Option ℕ
segment_index_count quads n = some (n / 4 * 6)
segment_index_count triangles n = some (n / 3 * 3)
segment_index_count triangle_strip n = some (if ltb 2 n then (n - 2) * 3 else 0)
segment_index_count triangle_fan n = some (if ltb 2 n then (n - 2) * 3 else 0)
segment_index_count lines n = none
segment_index_count line_strip n = none
segment_index_count points n = none

-- The first loop of `snapshot_segments`: the vertices and the indices of all segments.
unfoldable pub count_segments : List DrawSegment → Option (ℕ × ℕ)
count_segments [] = some (0, 0)
count_segments (s ∷ rest) = do
  n ← segment_index_count s.primitive s.count
  (total, index_count) ← count_segments rest
  some (s.count + total, n + index_count)

-- The second loop: what is written to the buffer, in order.
unfoldable pub write_segments : List DrawSegment → ℕ → Option (List ℕ)
write_segments [] base = some []
write_segments (s ∷ rest) base = do
  written ← write_triangle_indices s.primitive s.count base
  more ← write_segments rest ((base + s.count) % 2 ^ 32)
  some (written ++ more)

-- The buffer's size and what is written to it; `none` is an exception.
unfoldable pub segment_indices : List DrawSegment → Option (ℕ × List ℕ)
segment_indices segments = count_segments segments >>= λ counts.
    if ltb 0xFFFFFFFF counts.0
    then none
    else (write_segments segments 0 >>= λ written. some (counts.1, written))
