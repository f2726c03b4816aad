-- ===== src/Geometry/Merged.antt =====
-- The index buffer of a merged draw.
use mkwii_ps.Base.{
  ℕ, ◌+◌, ◌-◌, ◌*◌, ◌/◌, ◌%◌, ◌^◌, ◌≤◌, ◌<◌, ◌≡◌, refl, false, ltb, arith, Option, none, some,
  ◌>>=◌, List, [], ◌∷◌, ◌++◌, length-append, Returns, returns, >>=-Returns,
}
use mkwii_ps.Geometry.Indices.{
  Primitive, quads, triangles, triangle_strip, triangle_fan, lines, line_strip, points,
  write_triangle_indices, DrawSegment, segment_index_count, count_segments, write_segments,
  segment_indices,
}
use mkwii_ps.Geometry.Bounds.{
  AllBelow, Fills, Fills-cast, quad_loop-Fills, triangle_loop-Fills, strip_loop-Fills,
  fan_loop-Fills,
}

AllBelow-append :
    (limit : ℕ) (xs ys : List ℕ) → AllBelow limit xs → AllBelow limit ys → AllBelow limit (xs ++ ys)
AllBelow-append limit [] ys h k = k
AllBelow-append limit (x ∷ xs) ys h k = (h.0, AllBelow-append limit xs ys h.1 k)

Fills-append :
    (n k limit : ℕ) (xs ys : List ℕ)
    → Fills n limit xs
    → Fills k limit ys
    → Fills (n + k) limit (xs ++ ys)
Fills-append n k limit xs ys h g = record {
  size = omega (arith, length-append xs ys, h.size, g.size);
  range = AllBelow-append limit xs ys h.range g.range;
}

-- The counts of a segment and those of the segments after it.
pub record Split (o : Option ℕ) (r : Option (ℕ × ℕ)) (c total n : ℕ) : Type 0 where
  pub first : ℕ
  pub rest_total : ℕ
  pub rest_indices : ℕ
  pub first_is : o ≡ some first
  pub rest_is : r ≡ some (rest_total, rest_indices)
  pub total_is : total ≡ c + rest_total
  pub indices_is : n ≡ first + rest_indices

abbrev pub pair : ℕ → ℕ → Option (ℕ × ℕ)
pair a b = some (a, b)

pub split :
    (o : Option ℕ) (r : Option (ℕ × ℕ)) (c total n : ℕ)
    → (o >>= λ k. r >>= λ q. pair (c + q.0) (k + q.1)) ≡ pair total n
    → Split o r c total n
split none r c total n e = ground arith
split (some k) none c total n e = ground arith
split (some k) (some q) c total n e = record {
  first = k;
  rest_total = q.0;
  rest_indices = q.1;
  first_is = refl;
  rest_is = refl;
  total_is = ground arith;
  indices_is = ground arith;
}

write_triangle_indices-Returns :
    (primitive : Primitive) (count base k limit : ℕ)
    → segment_index_count primitive count ≡ some k
    → base + count ≤ limit
    → limit ≤ 2 ^ 32
    → Returns (Fills k limit) (write_triangle_indices primitive count base)
unfolding segment_index_count write_triangle_indices
write_triangle_indices-Returns quads count base k limit e fits small = returns (
    Fills-cast ((count - 0) / 4 * 6) k limit _ (ground arith)
      (quad_loop-Fills base count limit fits small count 0 (omega arith)))
write_triangle_indices-Returns triangles count base k limit e fits small = returns (
    Fills-cast ((count - 0) / 3 * 3) k limit _ (ground arith)
      (triangle_loop-Fills base count limit fits small count 0 (omega arith)))
write_triangle_indices-Returns triangle_strip count base k limit e fits small = returns (
    Fills-cast ((count - 2) * 3) k limit _ (ground arith)
      (strip_loop-Fills base count limit fits small count 2 (omega arith) (omega arith)))
write_triangle_indices-Returns triangle_fan count base k limit e fits small = returns (
    Fills-cast ((count - 2) * 3) k limit _ (ground arith)
      (fan_loop-Fills base count limit fits small count 2 (omega arith) (omega arith)))
write_triangle_indices-Returns lines count base k limit e fits small = ground arith
write_triangle_indices-Returns line_strip count base k limit e fits small = ground arith
write_triangle_indices-Returns points count base k limit e fits small = ground arith

pub write_segments-Returns :
    (segments : List DrawSegment) (base total n limit : ℕ)
    → count_segments segments ≡ some (total, n)
    → base + total ≤ limit
    → limit < 2 ^ 32
    → Returns (Fills n limit) (write_segments segments base)
unfolding count_segments write_segments
write_segments-Returns [] base total n limit e fits small =
    returns (record { size = ground arith; range = tt })
write_segments-Returns (s ∷ rest) base total n limit e fits small =
    let q =
      split (segment_index_count s.primitive s.count) (count_segments rest) s.count total n e in
    >>=-Returns
      (write_triangle_indices-Returns s.primitive s.count base q.first limit q.first_is
        (omega (arith, q.total_is)) (omega arith))
      λ written h.
        >>=-Returns
          (write_segments-Returns rest ((base + s.count) % 2 ^ 32) q.rest_total q.rest_indices limit
            q.rest_is (omega (arith, q.total_is)) small)
          λ more g. returns (
            Fills-cast (q.first + q.rest_indices) n limit _ (omega (arith, q.indices_is))
              (Fills-append q.first q.rest_indices limit written more h g))

-- Where the first pass counts `total` vertices and `n` indices and the total fits a u32, the second
-- pass returns, fills the buffer of `n` entries exactly, and each entry is the number of a vertex.
pub segment_indices-Returns :
    (segments : List DrawSegment) (total n : ℕ)
    → count_segments segments ≡ some (total, n)
    → total < 2 ^ 32
    → Returns (λ r. (r.0 ≡ n) × Fills n total r.1) (segment_indices segments)
unfolding segment_indices
segment_indices-Returns segments total n e small =
    rw (e, over)
      (>>=-Returns (write_segments-Returns segments 0 total n total e (omega arith) small)
        λ written h. returns (refl, h))
  where
    over : ltb 0xFFFFFFFF total ≡ false
    over = ground arith
