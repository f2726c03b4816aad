-- ===== src/Geometry/Decode/Sources.antt =====
-- Where the values of an attribute lie: inside the records, or inside the bytes kept of the array.
use mkwii_ps.Base.{
  ℕ, ◌+◌, ◌-◌, ◌*◌, ◌%◌, ◌^◌, ◌≤◌, ◌<◌, ◌≡◌, ◌⊎◌, inl, inr, true, false, ◌||◌, ◌==◌, if◌then◌else◌,
  arith, length, Bool-cases,
}
use native.Mathlib.Nat.{mul-le-mul, mul-le-mul_right}
use mkwii_ps.Base.Outcome.{ok, Gives, gives}
use mkwii_ps.Platform.{Platform}
use mkwii_ps.State.Vertex.{va_nrm}
use mkwii_ps.Geometry.Layout.{index8, index16, AttributeLayout}
use mkwii_ps.Geometry.Layout.Formats.{Shape}
use mkwii_ps.Geometry.Snapshot.{Geometry, index_width, element_bytes}
use mkwii_ps.Geometry.Snapshot.Ranges.{vertex_index, Covered, Indexed}
use mkwii_ps.Geometry.Decode.{Source, source, load, group_count}
use mkwii_ps.Geometry.Decode.Reads.{load-index_of}

-- The components that one group reads.
abbrev pub group_components : ℕ → AttributeLayout → ℕ
group_components attr d = if attr == va_nrm then 3 else d.components

abbrev pub Holds : ℕ → AttributeLayout → Source → Type 0
Holds attr d s = s.address + group_components attr d * d.component_bytes ≤ length s.bytes

-- A vertex of a geometry, and an enabled attribute with values.
pub record Vertex (g : Geometry) (vertex attr : ℕ) : Type 0 where
  pub shape : Shape attr (g.layout.attributes attr)
  pub values : 9 ≤ attr
  pub row : vertex * g.layout.stride + g.layout.stride ≤ length g.records
  pub numbered : vertex < g.count
  pub direct_inside :
      (g.layout.attributes attr).mode ≡ 1
      → (g.layout.attributes attr).offset
          + (g.layout.attributes attr).component_bytes * (g.layout.attributes attr).components
        ≤ g.layout.stride
  pub covered :
      Indexed (g.layout.attributes attr)
      → Covered g.layout g.records g.count (g.layout.attributes attr) (g.arrays attr)

module _ (attr : ℕ) (d : AttributeLayout) (s : Shape attr d) (group : ℕ)
    (lt : group < group_count attr d) where
  -- A group lies inside the components of its attribute.
  group_room :
      group * 3 * d.component_bytes + group_components attr d * d.component_bytes
      ≤ d.component_bytes * d.components
  group_room = omega (arith, mul-le-mul_right d.component_bytes fits)
    where
      fits : group * 3 + group_components attr d ≤ d.components
      fits = ground (arith, s.normal)

  -- In an array, three indices lead to one group each, and one index leads to all groups.
  element_room :
      (if d.index_count == 3 then 0 else group * 3 * d.component_bytes)
        + group_components attr d * d.component_bytes
      ≤ element_bytes d
  element_room = elim (Bool-cases (d.index_count == 3)) [
    | inl e ↦
        let normal : (attr == va_nrm) ≡ true = ground (arith, s.single) in
        rw (e, normal) (omega (arith, s.bytes))
    | inr e ↦ rw e (omega (arith, group_room, mul-le-mul s.bytes s.count))
  ]

  group_index : (if d.index_count == 3 then group else 0) < d.index_count
  group_index = ground (arith, s.indices)

-- The wrapped address of an element inside the bytes that are kept.
wrap_room :
    (x source size element extra used : ℕ)
    → source ≤ x
    → x + element ≤ source + size
    → source + size < 2 ^ 32
    → extra + used ≤ element
    → (x + (2 ^ 64 - source) + extra) % 2 ^ 64 + used ≤ size
wrap_room x source size element extra used low high fits room = omega arith

module _ (g : Geometry) (vertex attr : ℕ) (v : Vertex g vertex attr) (group : ℕ)
    (lt : group < group_count attr (g.layout.attributes attr)) where
  -- The index that leads to a group is one of the vertex, and it is read as the snapshot read it.
  abbrev leads : ℕ
  leads = if (g.layout.attributes attr).index_count == 3 then group else 0

  abbrev index : ℕ
  index = vertex_index g.layout g.records (g.layout.attributes attr) vertex leads

  index_read :
      Indexed (g.layout.attributes attr)
      → load g.records
          (vertex * g.layout.stride
            + (g.layout.attributes attr).offset
            + (if (g.layout.attributes attr).index_count == 3
                then group * index_width (g.layout.attributes attr)
                else 0))
          (index_width (g.layout.attributes attr))
          false
        ≡ ok index
  index_read on = rw place (load-index_of g.records _ _ known fits)
    where
      known :
          (index_width (g.layout.attributes attr) ≡ 1)
          ⊎ (index_width (g.layout.attributes attr) ≡ 2)
      known = ground arith

      place :
          vertex * g.layout.stride
            + (g.layout.attributes attr).offset
            + (if (g.layout.attributes attr).index_count == 3
                then group * index_width (g.layout.attributes attr)
                else 0)
          ≡ vertex * g.layout.stride
            + (g.layout.attributes attr).offset
            + leads * index_width (g.layout.attributes attr)
      place = ground arith

      fits :
          vertex * g.layout.stride
            + (g.layout.attributes attr).offset
            + leads * index_width (g.layout.attributes attr)
            + index_width (g.layout.attributes attr)
          ≤ length g.records
      fits = omega (
        arith,
        v.row,
        (v.covered on).inside,
        mul-le-mul_right (index_width (g.layout.attributes attr))
            (group_index attr (g.layout.attributes attr) v.shape group lt),
      )

  pub source-Gives :
      ⦃p : Platform⦄ → Gives (Holds attr (g.layout.attributes attr)) (source g vertex attr group)
  unfolding source
  source-Gives ⦃p⦄ =
      elim (Bool-cases
        ((g.layout.attributes attr).mode == index8 || (g.layout.attributes attr).mode == index16)) [
          | inl on ↦
              let leads_on = group_index attr (g.layout.attributes attr) v.shape group lt in
              rw (on, index_read on)
                (gives (
                  wrap_room (index * (g.layout.attributes attr).array_stride) _ _ _ _ _
                    ((v.covered on).low vertex leads v.numbered leads_on)
                    ((v.covered on).high vertex leads v.numbered leads_on) (v.covered on).fits
                    (element_room attr (g.layout.attributes attr) v.shape group lt)))
          | inr off ↦ rw off (
              gives (
                omega (
                  arith,
                  v.row,
                  v.direct_inside (ground (arith, v.shape)),
                  group_room attr (g.layout.attributes attr) v.shape group lt,
                )))
        ]
