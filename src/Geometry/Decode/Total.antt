-- ===== src/Geometry/Decode/Total.antt =====
-- A vertex of a snapshot can be decoded.
use mkwii_ps.Base.{
  ℕ, zero, suc, ◌+◌, ◌*◌, ◌≤◌, ◌<◌, ◌≡◌, refl, true, false, ◌||◌, ltb, ◌==◌, arith, List, length,
  Anything,
}
use native.Mathlib.Nat.{mul-le-mul_right}
use mkwii_ps.Base.Outcome.{Safe, done, >>=-Safe, Gives, gives, >>=-Gives, if-Gives}
use mkwii_ps.Platform.{Platform}
use mkwii_ps.State.Vertex.{va_pos, VertexState}
use mkwii_ps.Geometry.Indices.{Primitive}
use mkwii_ps.Geometry.Layout.{
  attribute_count, AttributeLayout, VertexLayout, is_color, record_bytes,
}
use mkwii_ps.Geometry.Layout.Formats.{Shape, color_size}
use mkwii_ps.Geometry.Layout.Placed.{Laid, build-Laid}
use mkwii_ps.Geometry.Snapshot.{Geometry, Resolver, snapshot_with, snapshot}
use mkwii_ps.Geometry.Snapshot.Ranges.{Snapped, Sound, Sizes32, snapshot_records-Safe}
use mkwii_ps.Geometry.Decode.{
  Source, DecodedVertex, component, byte_color, color_value, decode_components, decode_group,
  decode_groups, decode_attribute, decode_attributes, group_count, decode_gx_vertex,
}
use mkwii_ps.Geometry.Decode.Reads.{load-Gives}
use mkwii_ps.Geometry.Decode.Sources.{group_components, Holds, Vertex, source-Gives}

byte_formats :
    (t a b c : ℕ)
    → a ≡ 1
    → b ≡ 2
    → c ≡ 5
    → (t == a || t == b || t == c) ≡ true
    → (3 ≤ color_size t) × ((t == c) ≡ true → 4 ≤ color_size t)
unfolding color_size
byte_formats t a b c ea eb ec h = ground arith

color-Holds :
    (attr : ℕ) (d : AttributeLayout)
    → Shape attr d
    → is_color attr ≡ true
    → (s : Source) → Holds attr d s
    → s.address + d.component_bytes ≤ length s.bytes
unfolding is_color
color-Holds attr d shape c s holds =
    let one : group_components attr d ≡ 1 = ground (arith, shape.color c) in
    let holds' : s.address + 1 * d.component_bytes ≤ length s.bytes = rw (← one) holds in
    omega (arith, holds')

module _ ⦃p : Platform⦄ where
  -- The colour formats of bytes are those that `sizes` gives three and four bytes.
  pub record ColorLaws : Type 0 where
    pub rgb8 : p.clr_rgb8 ≡ 1
    pub rgbx8 : p.clr_rgbx8 ≡ 2
    pub rgba8 : p.clr_rgba8 ≡ 5

  byte_color-Gives :
      (s : Source) (d : AttributeLayout)
      → s.address + 3 ≤ length s.bytes
      → ((d.comp_type == p.clr_rgba8) ≡ true → s.address + 4 ≤ length s.bytes)
      → Gives Anything (byte_color s d)
  unfolding byte_color
  byte_color-Gives s d three four =
      >>=-Gives (load-Gives s.bytes s.address 1 true (omega arith)) λ _ _.
        >>=-Gives (load-Gives s.bytes (s.address + 1) 1 true (omega arith)) λ _ _.
          >>=-Gives (load-Gives s.bytes (s.address + 2) 1 true (omega arith)) λ _ _.
            >>=-Gives {P = Anything}
              (if-Gives (d.comp_type == p.clr_rgba8)
                (λ e.
                  >>=-Gives (load-Gives s.bytes (s.address + 3) 1 true (omega (arith, four e)))
                    λ _ _. gives tt)
                λ _. gives tt)
              λ _ _. gives tt

  -- A geometry of `count` vertices, each of which is decoded.
  pub Decodable : ℕ → Geometry → Type 0
  Decodable count g =
      (g.count ≡ count)
      × ((vertex : ℕ) → vertex < count → Gives Anything (decode_gx_vertex g vertex))

  module _ (laws : ColorLaws) where
    color_value-Gives :
        (attr : ℕ) (s : Source) (d : AttributeLayout)
        → Shape attr d
        → is_color attr ≡ true
        → s.address + d.component_bytes ≤ length s.bytes
        → Gives Anything (color_value s d)
    unfolding color_value
    color_value-Gives attr s d shape c fits =
        if-Gives
          (d.comp_type == p.clr_rgb8 || d.comp_type == p.clr_rgbx8 || d.comp_type == p.clr_rgba8)
          (λ e.
            let sizes = byte_formats d.comp_type _ _ _ laws.rgb8 laws.rgbx8 laws.rgba8 e in
            byte_color-Gives s d (omega (arith, (shape.color c).1, sizes.0))
              λ four. omega (arith, (shape.color c).1, sizes.1 four))
          λ _.
            >>=-Gives (load-Gives s.bytes s.address d.component_bytes s.little fits) λ _ _. gives tt

    decode_components-Gives :
        (s : Source) (attr group : ℕ) (d : AttributeLayout) (n c : ℕ) (out : DecodedVertex)
        → s.address + (c + n) * d.component_bytes ≤ length s.bytes
        → Gives Anything (decode_components s attr group d n c out)
    unfolding decode_components component
    decode_components-Gives s attr group d zero c out fits = gives tt
    decode_components-Gives s attr group d (suc n) c out fits =
        >>=-Gives {P = Anything}
          (>>=-Gives
            (load-Gives s.bytes (s.address + c * d.component_bytes) d.component_bytes s.little room)
            λ _ _. gives tt)
          λ value _. decode_components-Gives s attr group d n (c + 1) _ next
      where
        next : s.address + (c + 1 + n) * d.component_bytes ≤ length s.bytes
        next = let e : c + 1 + n ≡ c + suc n = omega arith in rw e fits

        room : s.address + c * d.component_bytes + d.component_bytes ≤ length s.bytes
        room =
            let le : c + 1 ≤ c + suc n = omega arith in
            omega (arith, mul-le-mul_right d.component_bytes le)

    decode_group-Gives :
        (g : Geometry) (vertex attr group : ℕ) (out : DecodedVertex)
        → Vertex g vertex attr
        → group < group_count attr (g.layout.attributes attr)
        → Gives Anything (decode_group g vertex attr group out)
    unfolding decode_group
    decode_group-Gives g vertex attr group out v lt =
        let d = g.layout.attributes attr in
        >>=-Gives (source-Gives g vertex attr v group lt) λ s holds.
          if-Gives (is_color attr)
            (λ c.
              >>=-Gives
                (color_value-Gives attr s d v.shape c (color-Holds attr d v.shape c s holds))
                λ _ _. gives tt)
            λ c. decode_components-Gives s attr group d _ 0 out (omega (arith, holds))

    decode_groups-Gives :
        (g : Geometry) (vertex attr n group : ℕ) (out : DecodedVertex)
        → Vertex g vertex attr
        → group + n ≤ group_count attr (g.layout.attributes attr)
        → Gives Anything (decode_groups g vertex attr n group out)
    unfolding decode_groups
    decode_groups-Gives g vertex attr zero group out v le = gives tt
    decode_groups-Gives g vertex attr (suc n) group out v le =
        >>=-Gives (decode_group-Gives g vertex attr group out v (omega arith))
          λ out' _. decode_groups-Gives g vertex attr n (group + 1) out' v (omega arith)

    module _ (vs : VertexState) (g : Geometry) (vertex : ℕ) (numbered : vertex < g.count)
        (laid : Laid vs attribute_count g.layout) (sizes : Sizes32 vs)
        (snapped : Snapped vs g.layout g.count attribute_count g) where
      row : vertex * g.layout.stride + g.layout.stride ≤ length g.records
      row =
          let le : vertex + 1 ≤ g.count = omega arith in
          omega (arith, snapped.sized, mul-le-mul_right g.layout.stride le)

      decode_attribute-Gives :
          (attr : ℕ) (out : DecodedVertex)
          → attr < attribute_count
          → Gives Anything (decode_attribute g vertex attr out)
      unfolding decode_attribute record_bytes
      decode_attribute-Gives attr out lt =
          if-Gives ((g.layout.attributes attr).mode == p.attr_none) (λ _. gives tt)
            λ e.
              let placed = laid.placed attr lt (ground arith) in
              if-Gives (ltb attr va_pos)
                (λ m.
                  >>=-Gives
                    (load-Gives g.records _ 1 false
                      (ground (arith, row, placed.inside, placed.shape.matrix)))
                    λ _ _. gives tt)
                λ m.
                  >>=-Gives
                    (decode_groups-Gives g vertex attr _ 0 out
                      (record {
                        shape = placed.shape;
                        values = ground arith;
                        row = row;
                        numbered = numbered;
                        direct_inside = λ one. ground (arith, placed.inside);
                        covered = snapped.covered sizes attr (ground arith) lt;
                      })
                      (omega arith))
                    λ _ _. gives tt

      decode_attributes-Gives :
          (n attr : ℕ) (out : DecodedVertex)
          → attr + n ≤ attribute_count
          → Gives Anything (decode_attributes g vertex n attr out)
      unfolding decode_attributes
      decode_attributes-Gives zero attr out le = gives tt
      decode_attributes-Gives (suc n) attr out le =
          >>=-Gives (decode_attribute-Gives attr out (omega arith))
            λ out' _. decode_attributes-Gives n (attr + 1) out' (omega arith)

      decode_gx_vertex-Gives : Gives Anything (decode_gx_vertex g vertex)
      unfolding decode_gx_vertex
      decode_gx_vertex-Gives =
          let in_range : ltb vertex g.count ≡ true = ground arith in
          rw in_range (decode_attributes-Gives attribute_count 0 _ (omega arith))

    -- The indices that `snapshot` adds change nothing that is read.
    indexed-Snapped :
        (v : VertexState) (layout : VertexLayout) (count : ℕ) (primitive : Primitive)
        (indices : List ℕ) (out : Geometry)
        → Snapped v layout count attribute_count out
        → Snapped v layout count attribute_count
            (record out { primitive = primitive; indices = indices })
    indexed-Snapped v layout count primitive indices out h = record {
      same_layout = h.same_layout;
      same_count = h.same_count;
      sized = h.sized;
      covered = h.covered;
    }

    module _ (resolve : Resolver) (sound : Sound resolve) (v : VertexState)
        (sizes : Sizes32 v) where
      pub snapshot_with-Decodable :
          (mtx : ℕ) (layout : VertexLayout) (primitive : Primitive) (count : ℕ) (records : List ℕ)
          → Laid v attribute_count layout
          → Safe (Decodable count) (snapshot_with resolve v mtx layout primitive count records)
      unfolding snapshot_with Decodable
      snapshot_with-Decodable mtx layout primitive count records laid =
          >>=-Safe (snapshot_records-Safe resolve sound v layout count mtx records) λ out h. done (
            h.0,
            λ vertex lt.
                decodes vertex lt _
                  (indexed-Snapped v layout count primitive _ out (h.1 (omega arith))),
          )
        where
          decodes :
              (vertex : ℕ)
              → vertex < count
              → (g : Geometry) → Snapped v layout count attribute_count g
              → Gives Anything (decode_gx_vertex g vertex)
          decodes vertex lt g s =
              decode_gx_vertex-Gives v g vertex (omega (arith, s.same_count))
                (rw s.same_layout laid) sizes
                (record {
                  same_layout = refl;
                  same_count = refl;
                  sized = s.sized;
                  covered = s.covered;
                })

      -- The snapshot of a draw does not read outside its vertex records: it throws, or it returns a
      -- geometry with the draw's count of vertices, each of which `decode_gx_vertex` decodes without an
      -- exception. The formats of colours have their numbers, the sizes of arrays have 32 bits, and the
      -- resolver of arrays returns bytes or throws.
      pub snapshot-Decodable :
          (mtx : ℕ) (primitive : Primitive) (format count : ℕ) (records : List ℕ)
          → Safe (Decodable count) (snapshot resolve v mtx primitive format count records)
      unfolding snapshot
      snapshot-Decodable mtx primitive format count records =
          >>=-Safe (build-Laid v format)
            λ layout laid. snapshot_with-Decodable mtx layout primitive count records laid
