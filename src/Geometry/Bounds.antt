-- ===== src/Geometry/Bounds.antt =====
-- The number of indices and their range.
use mkwii_ps.Base.{
  ℕ, zero, suc, ◌+◌, ◌-◌, ◌*◌, ◌/◌, ◌^◌, ◌≤◌, ◌<◌, ◌≡◌, refl, ltb, ◌!=◌, bit_and, arith, List, [],
  ◌∷◌, ◌++◌, length, Bool-cases, inl, inr,
}
use mkwii_ps.Geometry.Indices.{
  Primitive, quads, triangles, triangle_strip, triangle_fan, lines, line_strip, points, tri,
  quad_loop, triangle_loop, strip_loop, fan_loop, line_loop, line_strip_loop, point_loop,
  build_indices, reserved,
}

-- Every index is below `n`.
abbrev pub AllBelow : ℕ → List ℕ → Type 0
AllBelow n [] = Unit {0}
AllBelow n (x ∷ xs) = (x < n) × AllBelow n xs

-- The loop writes `n` indices, each below `limit`.
pub record Fills (n limit : ℕ) (xs : List ℕ) : Type 0 where
  pub size : length xs ≡ n
  pub range : AllBelow limit xs

nothing : (n limit : ℕ) → n ≡ 0 → Fills n limit []
nothing n limit e = record { size = omega arith; range = tt }

one_then :
    (x n n' limit : ℕ) (rest : List ℕ)
    → x < limit
    → n' ≡ suc n
    → Fills n limit rest
    → Fills n' limit (x ∷ rest)
one_then x n n' limit rest lt e h = record { size = ground (arith, h.size); range = (lt, h.range) }

tri_then :
    (base a b c n n' limit : ℕ) (rest : List ℕ)
    → base + a < limit
    → base + b < limit
    → base + c < limit
    → limit ≤ 2 ^ 32
    → n' ≡ 3 + n
    → Fills n limit rest
    → Fills n' limit (tri base a b c ++ rest)
unfolding tri
tri_then base a b c n n' limit rest la lb lc small e h =
    one_then _ (2 + n) n' limit _ (omega arith) (omega arith) (
      one_then _ (1 + n) (2 + n) limit _ (omega arith) (omega arith)
        (one_then _ n (1 + n) limit rest (omega arith) (omega arith) h))

module _ (base count limit : ℕ) (fits : base + count ≤ limit) (small : limit ≤ 2 ^ 32) where
  pub quad_loop-Fills :
      (fuel v : ℕ)
      → count ≤ v + fuel
      → Fills ((count - v) / 4 * 6) limit (quad_loop fuel base v count)
  unfolding quad_loop
  quad_loop-Fills zero v enough = nothing _ limit (omega arith)
  quad_loop-Fills (suc fuel) v enough = elim (Bool-cases (ltb (v + 3) count)) [
    | inl e ↦
        rw (e, quad_loop)
          (tri_then base v (v + 1) (v + 2) (3 + (count - (v + 4)) / 4 * 6) _ limit _ (ground arith)
            (ground arith) (ground arith) small (ground arith)
            (tri_then base (v + 2) (v + 3) v ((count - (v + 4)) / 4 * 6) _ limit _ (ground arith)
              (ground arith) (ground arith) small refl
              (quad_loop-Fills fuel (v + 4) (omega arith))))
    | inr e ↦ rw (e, quad_loop) (nothing _ limit (ground arith))
  ]

  pub triangle_loop-Fills :
      (fuel v : ℕ)
      → count ≤ v + fuel
      → Fills ((count - v) / 3 * 3) limit (triangle_loop fuel base v count)
  unfolding triangle_loop
  triangle_loop-Fills zero v enough = nothing _ limit (omega arith)
  triangle_loop-Fills (suc fuel) v enough = elim (Bool-cases (ltb (v + 2) count)) [
    | inl e ↦
        rw (e, triangle_loop)
          (tri_then base v (v + 1) (v + 2) ((count - (v + 3)) / 3 * 3) _ limit _ (ground arith)
            (ground arith) (ground arith) small (ground arith)
            (triangle_loop-Fills fuel (v + 3) (omega arith)))
    | inr e ↦ rw (e, triangle_loop) (nothing _ limit (ground arith))
  ]

  pub strip_loop-Fills :
      (fuel v : ℕ)
      → count ≤ v + fuel
      → 2 ≤ v
      → Fills ((count - v) * 3) limit (strip_loop fuel base v count)
  unfolding strip_loop
  strip_loop-Fills zero v enough ge = nothing _ limit (omega arith)
  strip_loop-Fills (suc fuel) v enough ge = elim (Bool-cases (ltb v count)) [
    | inr e ↦ rw (e, strip_loop) (nothing _ limit (ground arith))
    | inl e ↦
        let more = strip_loop-Fills fuel (v + 1) (omega arith) (omega arith) in
        rw (e, strip_loop)
          (elim (Bool-cases (bit_and v 1 != 0)) [
            | inl odd ↦ rw odd (
                tri_then base (v - 1) (v - 2) v ((count - (v + 1)) * 3) _ limit _ (ground arith)
                  (ground arith) (ground arith) small (ground arith) more)
            | inr even ↦ rw even (
                tri_then base (v - 2) (v - 1) v ((count - (v + 1)) * 3) _ limit _ (ground arith)
                  (ground arith) (ground arith) small (ground arith) more)
          ])
  ]

  pub fan_loop-Fills :
      (fuel v : ℕ)
      → count ≤ v + fuel
      → 2 ≤ v
      → Fills ((count - v) * 3) limit (fan_loop fuel base v count)
  unfolding fan_loop
  fan_loop-Fills zero v enough ge = nothing _ limit (omega arith)
  fan_loop-Fills (suc fuel) v enough ge = elim (Bool-cases (ltb v count)) [
    | inr e ↦ rw (e, fan_loop) (nothing _ limit (ground arith))
    | inl e ↦
        rw (e, fan_loop)
          (tri_then base 0 (v - 1) v ((count - (v + 1)) * 3) _ limit _ (ground arith) (ground arith)
            (ground arith) small (ground arith)
            (fan_loop-Fills fuel (v + 1) (omega arith) (omega arith)))
  ]

module _ (count : ℕ) where
  line_loop-Fills :
      (fuel v : ℕ) → count ≤ v + fuel → Fills ((count - v) / 2 * 2) count (line_loop fuel v count)
  unfolding line_loop
  line_loop-Fills zero v enough = nothing _ count (omega arith)
  line_loop-Fills (suc fuel) v enough = elim (Bool-cases (ltb (v + 1) count)) [
    | inr e ↦ rw (e, line_loop) (nothing _ count (ground arith))
    | inl e ↦
        let n : ℕ = (count - (v + 2)) / 2 * 2 in
        rw (e, line_loop)
          (one_then v (suc n) _ count _ (ground arith) (ground arith) (
            one_then (v + 1) n (suc n) count _ (ground arith) refl
              (line_loop-Fills fuel (v + 2) (omega arith))))
  ]

  line_strip_loop-Fills :
      (fuel v : ℕ)
      → count ≤ v + fuel
      → 1 ≤ v
      → Fills ((count - v) * 2) count (line_strip_loop fuel v count)
  unfolding line_strip_loop
  line_strip_loop-Fills zero v enough ge = nothing _ count (omega arith)
  line_strip_loop-Fills (suc fuel) v enough ge = elim (Bool-cases (ltb v count)) [
    | inr e ↦ rw (e, line_strip_loop) (nothing _ count (ground arith))
    | inl e ↦
        let n : ℕ = (count - (v + 1)) * 2 in
        rw (e, line_strip_loop)
          (one_then (v - 1) (suc n) _ count _ (ground arith) (ground arith) (
            one_then v n (suc n) count _ (ground arith) refl
              (line_strip_loop-Fills fuel (v + 1) (omega arith) (omega arith))))
  ]

  point_loop-Fills :
      (fuel v : ℕ) → count ≤ v + fuel → Fills (count - v) count (point_loop fuel v count)
  unfolding point_loop
  point_loop-Fills zero v enough = nothing _ count (omega arith)
  point_loop-Fills (suc fuel) v enough = elim (Bool-cases (ltb v count)) [
    | inr e ↦ rw (e, point_loop) (nothing _ count (ground arith))
    | inl e ↦
        rw (e, point_loop)
          (one_then v (count - (v + 1)) _ count _ (ground arith) (ground arith)
            (point_loop-Fills fuel (v + 1) (omega arith)))
  ]

pub Fills-cast : (n n' limit : ℕ) (xs : List ℕ) → n ≡ n' → Fills n limit xs → Fills n' limit xs
Fills-cast n n' limit xs e h = record { size = ground (arith, h.size); range = h.range }

-- A draw's index list has as many entries as `build_indices` reserves, each the number of a vertex of
-- the draw, for every primitive and every count that a u16 holds.
pub build_indices-Fills :
    (primitive : Primitive) (count : ℕ)
    → count < 2 ^ 16
    → Fills (reserved primitive count) count (build_indices primitive count)
unfolding build_indices reserved
build_indices-Fills quads count small =
    Fills-cast ((count - 0) / 4 * 6) _ count _ (omega arith)
      (quad_loop-Fills 0 count count (omega arith) (omega arith) count 0 (omega arith))
build_indices-Fills triangles count small =
    Fills-cast ((count - 0) / 3 * 3) _ count _ (omega arith)
      (triangle_loop-Fills 0 count count (omega arith) (omega arith) count 0 (omega arith))
build_indices-Fills triangle_strip count small =
    Fills-cast ((count - 2) * 3) _ count _ (ground arith) (
      strip_loop-Fills 0 count count (omega arith) (omega arith) count 2 (omega arith)
        (omega arith))
build_indices-Fills triangle_fan count small =
    Fills-cast ((count - 2) * 3) _ count _ (ground arith)
      (fan_loop-Fills 0 count count (omega arith) (omega arith) count 2 (omega arith) (omega arith))
build_indices-Fills lines count small =
    Fills-cast ((count - 0) / 2 * 2) _ count _ (omega arith)
      (line_loop-Fills count count 0 (omega arith))
build_indices-Fills line_strip count small =
    Fills-cast ((count - 1) * 2) _ count _ (ground arith)
      (line_strip_loop-Fills count count 1 (omega arith) (omega arith))
build_indices-Fills points count small =
    Fills-cast (count - 0) _ count _ (omega arith) (point_loop-Fills count count 0 (omega arith))
