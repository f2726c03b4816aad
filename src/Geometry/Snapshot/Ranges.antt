-- ===== src/Geometry/Snapshot/Ranges.antt =====
-- `snapshot_records`: it reads inside the records, and each index of each vertex finds its element in
-- the bytes that are kept of its array.
use mkwii_ps.Base.{
  ℕ, zero, suc, ◌+◌, ◌-◌, ◌*◌, ◌%◌, ◌^◌, ◌≤◌, ◌<◌, ◌≡◌, refl, inl, inr, true, false, ◌||◌, ◌==◌,
  ◌!=◌, leb, arith, List, length, take, length-take, update-elim, Bool-cases, Anything, subst,
}
use native.Mathlib.Nat.{mul-le-mul_right}
use mkwii_ps.Base.Outcome.{Safe, done, >>=-Safe, require-Safe, if-Safe, Safe-weaken}
use mkwii_ps.Platform.{Platform}
use mkwii_ps.State.Vertex.{va_pos, AttrArray, VertexState}
use mkwii_ps.Geometry.Layout.{attribute_count, index8, index16, AttributeLayout, VertexLayout}
use mkwii_ps.Geometry.Snapshot.{
  ArraySnapshot, Geometry, Resolver, Interval, index_width, element_bytes, store_array,
  snapshot_interval, snapshot_indexed, snapshot_array, snapshot_arrays, with_records,
  snapshot_records,
}
use mkwii_ps.Geometry.Snapshot.Covers.{index_of, Between, scan-Safe}

-- The index of a vertex and a group of an attribute.
abbrev pub vertex_index : VertexLayout → List ℕ → AttributeLayout → ℕ → ℕ → ℕ
vertex_index layout records d k g =
    index_of records (index_width d) (k * layout.stride + d.offset + g * index_width d)

-- The bytes kept of an array hold the element of each index.
pub record Covered (layout : VertexLayout) (records : List ℕ) (count : ℕ) (d : AttributeLayout)
    (a : ArraySnapshot) : Type 0 where
  pub low :
      (k g : ℕ)
      → k < count
      → g < d.index_count
      → a.source_offset ≤ vertex_index layout records d k g * d.array_stride
  pub high :
      (k g : ℕ)
      → k < count
      → g < d.index_count
      → vertex_index layout records d k g * d.array_stride + element_bytes d
        ≤ a.source_offset + length a.bytes
  pub fits : a.source_offset + length a.bytes < 2 ^ 32
  pub inside : d.offset + d.index_count * index_width d ≤ layout.stride

abbrev pub Indexed : AttributeLayout → Type 0
Indexed d = (d.mode == index8 || d.mode == index16) ≡ true

-- The sizes of the arrays are numbers of 32 bits.
abbrev pub Sizes32 : VertexState → Type 0
Sizes32 v = (attr : ℕ) → (v.arrays attr).size < 2 ^ 32

-- Where the sizes fit, a geometry of a layout and a count whose attributes below `n` have their arrays.
pub record Snapped (v : VertexState) (layout : VertexLayout) (count n : ℕ) (out : Geometry)
    : Type 0 where
  pub same_layout : out.layout ≡ layout
  pub same_count : out.count ≡ count
  pub sized : length out.records ≡ out.count * out.layout.stride
  pub covered :
      Sizes32 v
      → (attr : ℕ) → 9 ≤ attr
      → attr < n
      → Indexed (out.layout.attributes attr)
      → Covered out.layout out.records out.count (out.layout.attributes attr) (out.arrays attr)

-- The part of the array between the lowest and the highest index.
interval-Covered :
    (layout : VertexLayout) (records : List ℕ) (count : ℕ) (d : AttributeLayout) (i : Interval)
    (bytes : List ℕ)
    → d.offset + d.index_count * index_width d ≤ layout.stride
    → ((k g : ℕ) → k < count → g < d.index_count → Between i (vertex_index layout records d k g))
    → i.hi * d.array_stride + element_bytes d < 2 ^ 32
    → i.hi * d.array_stride + element_bytes d - i.lo * d.array_stride ≤ length bytes
    → Covered layout records count d (record {
      source_offset = i.lo * d.array_stride % 2 ^ 32;
      bytes = take bytes (i.hi * d.array_stride + element_bytes d - i.lo * d.array_stride);
    })
interval-Covered layout records count d i bytes inside spans small enough = record {
  low = λ k g lt ltg. omega (arith, below k g lt ltg);
  high = λ k g lt ltg. omega (arith, below k g lt ltg, above k g lt ltg, size);
  fits = omega (arith, size);
  inside = inside;
}
  where
    below :
        (k g : ℕ)
        → k < count
        → g < d.index_count
        → i.lo * d.array_stride ≤ vertex_index layout records d k g * d.array_stride
    below k g lt ltg = mul-le-mul_right d.array_stride (spans k g lt ltg).0

    above :
        (k g : ℕ)
        → k < count
        → g < d.index_count
        → vertex_index layout records d k g * d.array_stride ≤ i.hi * d.array_stride
    above k g lt ltg = mul-le-mul_right d.array_stride (spans k g lt ltg).1

    size :
        length (take bytes (i.hi * d.array_stride + element_bytes d - i.lo * d.array_stride))
        ≡ i.hi * d.array_stride + element_bytes d - i.lo * d.array_stride
    size = length-take bytes _ enough

add_array :
    (v : VertexState) (layout : VertexLayout) (count n : ℕ) (out : Geometry) (source : ℕ)
    (bytes : List ℕ)
    → Snapped v layout count n out
    → (Sizes32 v
        → Covered out.layout out.records out.count
            (out.layout.attributes n)
            (record { source_offset = source; bytes = bytes }))
    → Snapped v layout count (n + 1) (store_array n source bytes out)
add_array v layout count n out source bytes h c = record {
  same_layout = h.same_layout;
  same_count = h.same_count;
  sized = h.sized;
  covered = λ sizes attr le lt on.
      update-elim (Covered out.layout out.records out.count (out.layout.attributes attr)) out.arrays
        n _ attr (λ e. rw e (c sizes)) λ ne. h.covered sizes attr le (omega arith) on;
}

skip_array :
    (v : VertexState) (layout : VertexLayout) (count n : ℕ) (out : Geometry)
    → Snapped v layout count n out
    → (out.layout.attributes n).mode == index8 || (out.layout.attributes n).mode == index16 ≡ false
    → Snapped v layout count (n + 1) out
skip_array v layout count n out h off = record {
  same_layout = h.same_layout;
  same_count = h.same_count;
  sized = h.sized;
  covered = λ sizes attr le lt on. elim (Bool-cases (attr == n)) [
    | inl e ↦
        let e' : attr ≡ n = ground arith in
        let on' : Indexed (out.layout.attributes n) =
          subst (λ a. Indexed (out.layout.attributes a)) e' on in
        absurd (ground arith)
    | inr e ↦ h.covered sizes attr le (ground arith) on
  ];
}

-- A resolver does not read outside the memory it owns: it returns bytes or throws.
abbrev pub Sound : Resolver → Type 0
Sound resolve =
    (attr : ℕ) (a : AttrArray) (offset bytes : ℕ) → Safe Anything (resolve attr a offset bytes)

module _ (resolve : Resolver) (sound : Sound resolve) (v : VertexState) (layout : VertexLayout)
    (count : ℕ) where
  snapshot_interval-Safe :
      (n : ℕ) (out : Geometry) (i : Interval)
      → Snapped v layout count n out
      → (out.layout.attributes n).offset
          + (out.layout.attributes n).index_count * index_width (out.layout.attributes n)
        ≤ out.layout.stride
      → ((k g : ℕ)
          → k < out.count
          → g < (out.layout.attributes n).index_count
          → Between i (vertex_index out.layout out.records (out.layout.attributes n) k g))
      → Safe
          (Snapped v layout count (n + 1))
          (snapshot_interval resolve n (v.arrays n) (out.layout.attributes n) i out)
  unfolding snapshot_interval
  snapshot_interval-Safe n out i h inside spans =
      let d = out.layout.attributes n in
      let to : ℕ = i.hi * d.array_stride + element_bytes d in
      require-Safe (leb to (v.arrays n).size) λ small.
        >>=-Safe (sound n (v.arrays n) _ _) λ bytes _.
          require-Safe (leb (to - i.lo * d.array_stride) (length bytes)) λ enough. done (
            add_array v layout count n out _ _ h λ sizes.
              (interval-Covered out.layout out.records out.count d i bytes inside spans
                (ground (arith, sizes n)) (ground arith)))

  snapshot_indexed-Safe :
      (n : ℕ) (out : Geometry)
      → Snapped v layout count n out
      → Safe (Snapped v layout count (n + 1)) (snapshot_indexed resolve n (v.arrays n) out)
  unfolding snapshot_indexed
  snapshot_indexed-Safe n out h =
      let d = out.layout.attributes n in
      require-Safe ((v.arrays n).base != 0) λ _.
        require-Safe (leb (d.offset + d.index_count * index_width d) out.layout.stride) λ le.
          let inside : d.offset + d.index_count * index_width d ≤ out.layout.stride =
            ground arith in
          >>=-Safe
            (scan-Safe out.records (index_width d) (ground arith) d out.layout.stride inside
              out.count _ (omega (arith, h.sized)))
            λ i spans. snapshot_interval-Safe n out i h inside spans

  snapshot_array-Safe :
      (n : ℕ) (out : Geometry)
      → Snapped v layout count n out
      → Safe (Snapped v layout count (n + 1)) (snapshot_array resolve v n out)
  unfolding snapshot_array
  snapshot_array-Safe n out h =
      if-Safe
        ((out.layout.attributes n).mode == index8 || (out.layout.attributes n).mode == index16)
        (λ e. snapshot_indexed-Safe n out h) λ e. done (skip_array v layout count n out h e)

  snapshot_arrays-Safe :
      (k n : ℕ) (out : Geometry)
      → n + k ≡ attribute_count
      → Snapped v layout count n out
      → Safe (Snapped v layout count attribute_count) (snapshot_arrays resolve v k n out)
  unfolding snapshot_arrays
  snapshot_arrays-Safe zero n out e h =
      let e' : n ≡ attribute_count = omega arith in
      done (subst (λ j. Snapped v layout count j out) e' h)
  snapshot_arrays-Safe (suc k) n out e h =
      >>=-Safe (snapshot_array-Safe n out h)
        λ out' h'. snapshot_arrays-Safe k (n + 1) out' (omega arith) h'

  -- No fault, and the arrays of a geometry with vertices cover their indices.
  pub snapshot_records-Safe :
      ⦃p : Platform⦄
      → (mtx : ℕ) (records : List ℕ)
      → Safe
          (λ out. (out.count ≡ count) × (0 < count → Snapped v layout count attribute_count out))
          (snapshot_records resolve v mtx layout count records)
  unfolding snapshot_records
  snapshot_records-Safe ⦃p⦄ mtx records =
      require-Safe (length records == count * layout.stride) λ size.
        require-Safe (count == 0 || v.vtx_desc va_pos != p.attr_none) λ _.
          if-Safe (count == 0) (λ e. done (refl, λ lt. absurd (ground arith)))
            λ e.
              Safe-weaken
                (snapshot_arrays-Safe (attribute_count - va_pos) va_pos
                  (with_records resolve v mtx layout count records) refl
                  (record {
                    same_layout = refl;
                    same_count = refl;
                    sized = ground arith;
                    covered = λ sizes attr le lt. absurd (omega arith);
                  }))
                λ out h. (h.same_count, λ _. h)
