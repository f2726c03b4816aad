-- ===== src/Geometry/Shifted.antt =====
-- The indices of a merged draw are those of its single draws, one after the other.
use mkwii_ps.Base.{
  ℕ, zero, suc, ◌+◌, ◌-◌, ◌%◌, ◌^◌, ◌≡◌, refl, ap, ltb, ◌!=◌, inl, inr, Bool-cases, bit_and, arith,
  some, List, [], ◌∷◌, ◌++◌,
}
use mkwii_ps.Geometry.Merged.{split}
use mkwii_ps.Geometry.Indices.{
  segment_index_count, count_segments, Primitive, quads, triangles, triangle_strip, triangle_fan,
  lines, line_strip, points, tri, quad_loop, triangle_loop, strip_loop, fan_loop, build_indices,
  write_triangle_indices, DrawSegment, write_segments,
}

-- Each index moved by `base`, as a u32.
abbrev pub shift : ℕ → List ℕ → List ℕ
shift base [] = []
shift base (x ∷ xs) = (base + x) % 2 ^ 32 ∷ shift base xs

shift-append : (base : ℕ) (xs ys : List ℕ) → shift base (xs ++ ys) ≡ shift base xs ++ shift base ys
shift-append base [] ys = refl
shift-append base (x ∷ xs) ys = ap (λ l. (base + x) % 2 ^ 32 ∷ l) (shift-append base xs ys)

tri-shift : (base a b c : ℕ) → tri base a b c ≡ shift base (tri 0 a b c)
unfolding tri
tri-shift base a b c = ground arith

-- A round of a loop that goes on.
round_shift :
    (base : ℕ) (a b c : ℕ) (xs ys : List ℕ)
    → ys ≡ shift base xs
    → tri base a b c ++ ys ≡ shift base (tri 0 a b c ++ xs)
round_shift base a b c xs ys e =
    rw (shift-append base (tri 0 a b c) xs, ← e, ← tri-shift base a b c) refl

triangle_loop-shift :
    (fuel base v count : ℕ)
    → triangle_loop fuel base v count ≡ shift base (triangle_loop fuel 0 v count)
unfolding triangle_loop
triangle_loop-shift zero base v count = refl
triangle_loop-shift (suc fuel) base v count = elim (Bool-cases (ltb (v + 2) count)) [
  | inl e ↦
      rw e (round_shift base v (v + 1) (v + 2) _ _ (triangle_loop-shift fuel base (v + 3) count))
  | inr e ↦ rw e refl
]

fan_loop-shift :
    (fuel base v count : ℕ) → fan_loop fuel base v count ≡ shift base (fan_loop fuel 0 v count)
unfolding fan_loop
fan_loop-shift zero base v count = refl
fan_loop-shift (suc fuel) base v count = elim (Bool-cases (ltb v count)) [
  | inl e ↦ rw e (round_shift base 0 (v - 1) v _ _ (fan_loop-shift fuel base (v + 1) count))
  | inr e ↦ rw e refl
]

strip_loop-shift :
    (fuel base v count : ℕ) → strip_loop fuel base v count ≡ shift base (strip_loop fuel 0 v count)
unfolding strip_loop
strip_loop-shift zero base v count = refl
strip_loop-shift (suc fuel) base v count = elim (Bool-cases (ltb v count)) [
  | inr e ↦ rw e refl
  | inl e ↦ elim (Bool-cases (bit_and v 1 != 0)) [
    | inl o ↦
        rw (e, o)
          (round_shift base (v - 1) (v - 2) v _ _ (strip_loop-shift fuel base (v + 1) count))
    | inr o ↦
        rw (e, o)
          (round_shift base (v - 2) (v - 1) v _ _ (strip_loop-shift fuel base (v + 1) count))
  ]
]

quad_loop-shift :
    (fuel base v count : ℕ) → quad_loop fuel base v count ≡ shift base (quad_loop fuel 0 v count)
unfolding quad_loop
quad_loop-shift zero base v count = refl
quad_loop-shift (suc fuel) base v count = elim (Bool-cases (ltb (v + 3) count)) [
  | inl e ↦ rw e (
      round_shift base v (v + 1) (v + 2) _ _
        (round_shift base (v + 2) (v + 3) v _ _ (quad_loop-shift fuel base (v + 4) count)))
  | inr e ↦ rw e refl
]

write_triangle_indices-shift :
    (primitive : Primitive) (count base k : ℕ)
    → segment_index_count primitive count ≡ some k
    → write_triangle_indices primitive count base
      ≡ some (shift base (build_indices primitive count))
unfolding segment_index_count write_triangle_indices build_indices
write_triangle_indices-shift quads count base k e = ap some (quad_loop-shift count base 0 count)
write_triangle_indices-shift triangles count base k e =
    ap some (triangle_loop-shift count base 0 count)
write_triangle_indices-shift triangle_strip count base k e =
    ap some (strip_loop-shift count base 2 count)
write_triangle_indices-shift triangle_fan count base k e =
    ap some (fan_loop-shift count base 2 count)
write_triangle_indices-shift lines count base k e = ground arith
write_triangle_indices-shift line_strip count base k e = ground arith
write_triangle_indices-shift points count base k e = ground arith

-- The indices of each segment drawn alone, moved by the number of the vertices before it.
abbrev pub concatenated : List DrawSegment → ℕ → List ℕ
concatenated [] base = []
concatenated (s ∷ rest) base =
    shift base (build_indices s.primitive s.count) ++ concatenated rest ((base + s.count) % 2 ^ 32)

-- Where the first pass accepts the segments, the second pass writes, for each segment in order, the
-- indices `build_indices` gives for it alone, each moved by the base and the vertices before it.
pub write_segments-concatenated :
    (segments : List DrawSegment) (base total n : ℕ)
    → count_segments segments ≡ some (total, n)
    → write_segments segments base ≡ some (concatenated segments base)
unfolding count_segments write_segments
write_segments-concatenated [] base total n e = refl
write_segments-concatenated (s ∷ rest) base total n e =
    let q =
      split (segment_index_count s.primitive s.count) (count_segments rest) s.count total n e in
    rw
      (
        write_triangle_indices-shift s.primitive s.count base q.first q.first_is,
        write_segments-concatenated rest ((base + s.count) % 2 ^ 32) q.rest_total q.rest_indices
            q.rest_is,
      )
      refl
