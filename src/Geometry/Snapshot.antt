-- ===== src/Geometry/Snapshot.antt =====
-- ps5/gpu/gx_geometry.cpp: `snapshot_records` and the two forms of `GxGeometry::snapshot`. What the
-- renderer gets of a draw: its vertex records, and of each indexed array the bytes between the
-- lowest and the highest index.
pub mod Covers
pub mod Ranges
pub mod Segments
use mkwii_ps.Base.{
  ℕ, zero, suc, ◌+◌, ◌-◌, ◌*◌, ◌%◌, ◌^◌, min, max, ◌||◌, leb, ◌==◌, ◌!=◌, if◌then◌else◌, Array,
  update, List, [], ◌∷◌, length, get_elem?, take,
}
use mkwii_ps.Base.Outcome.{Outcome, ok, ◌>>=◌, ◌>>◌, require, or_fault}
use mkwii_ps.Platform.{Platform}
use mkwii_ps.State.Vertex.{va_pos, AttrArray, VertexState}
use mkwii_ps.Geometry.Indices.{Primitive, quads, build_indices}
use mkwii_ps.Geometry.Layout.{
  attribute_count, index8, index16, AttributeLayout, VertexLayout, build,
}

pub record ArraySnapshot : Type 0 where
  pub source_offset : ℕ
  pub bytes : List ℕ

pub record Geometry : Type 0 where
  pub layout : VertexLayout
  pub records : List ℕ
  pub arrays : Array ArraySnapshot
  pub indices : List ℕ
  pub primitive : Primitive
  pub count : ℕ
  pub current_pn_mtx : ℕ

-- `GxArrayResolver`: the attribute, its array, the offset and the number of bytes. The callers give a
-- resolver, so the code's test of the function pointer is left out.
abbrev pub Resolver : Type 0
Resolver = ℕ → AttrArray → ℕ → ℕ → Outcome (List ℕ)

-- An index of `width` bytes, big-endian.
unfoldable pub index_at : List ℕ → ℕ → ℕ → Outcome ℕ
index_at records width at = do
  high ← or_fault (get_elem? records at)
  if width == 2
      then (or_fault (get_elem? records (at + 1)) >>= λ low. ok (high * 2 ^ 8 + low))
      else ok high

-- The lowest and the highest index.
pub record Interval : Type 0 where
  pub lo : ℕ
  pub hi : ℕ

abbrev pub widen : Interval → ℕ → Interval
widen i index = record { lo = min i.lo index; hi = max i.hi index }

-- The indices of one vertex that follow one another from `at` on.
unfoldable pub scan_groups : List ℕ → ℕ → ℕ → ℕ → Interval → Outcome Interval
scan_groups records width zero at i = ok i
scan_groups records width (suc groups) at i = do
  index ← index_at records width at
  scan_groups records width groups (at + width) (widen i index)

-- The loops over the vertices. The code has three copies: for one index of two bytes or of one byte
-- the loop over the groups is a single round.
unfoldable pub scan_vertices :
    List ℕ → AttributeLayout → ℕ → ℕ → ℕ → ℕ → Interval → Outcome Interval
scan_vertices records d width stride zero start i = ok i
scan_vertices records d width stride (suc vertices) start i = do
  i' ← scan_groups records width d.index_count (start + d.offset) i
  scan_vertices records d width stride vertices (start + stride) i'

abbrev pub index_width : AttributeLayout → ℕ
index_width d = if d.mode == index16 then 2 else 1

abbrev pub element_bytes : AttributeLayout → ℕ
element_bytes d = d.component_bytes * (if d.index_count == 3 then 3 else d.components) % 2 ^ 32

abbrev pub store_array : ℕ → ℕ → List ℕ → Geometry → Geometry
store_array attr source bytes out = record out {
  arrays = update out.arrays attr (record { source_offset = source; bytes = bytes });
}

-- The products are of 64 bits, which two numbers of 32 bits do not exceed.
unfoldable pub snapshot_interval :
    Resolver → ℕ → AttrArray → AttributeLayout → Interval → Geometry → Outcome Geometry
snapshot_interval resolve attr array d i out = do
  let from = i.lo * d.array_stride
  let to = i.hi * d.array_stride + element_bytes d
  require (leb to array.size)
  bytes ← resolve attr array (from % 2 ^ 32) ((to - from) % 2 ^ 32)
  require (leb (to - from) (length bytes))
  ok (store_array attr (from % 2 ^ 32) (take bytes (to - from)) out)

unfoldable pub snapshot_indexed : Resolver → ℕ → AttrArray → Geometry → Outcome Geometry
snapshot_indexed resolve attr array out = do
  let d = out.layout.attributes attr
  require (array.base != 0)
  require (leb (d.offset + d.index_count * index_width d) out.layout.stride)
  i ←
      scan_vertices out.records d (index_width d) out.layout.stride out.count 0
        (record { lo = 0xFFFFFFFF; hi = 0 })
  snapshot_interval resolve attr array d i out

module _ (resolve : Resolver) (v : VertexState) where
  unfoldable pub snapshot_array : ℕ → Geometry → Outcome Geometry
  snapshot_array attr out =
      let mode = (out.layout.attributes attr).mode in
      if mode == index8 || mode == index16
      then snapshot_indexed resolve attr (v.arrays attr) out
      else ok out

  -- The attributes from `attr` on, `n` of them.
  unfoldable pub snapshot_arrays : ℕ → ℕ → Geometry → Outcome Geometry
  snapshot_arrays zero attr out = ok out
  snapshot_arrays (suc n) attr out =
      snapshot_array attr out >>= λ out'. snapshot_arrays n (attr + 1) out'

module _ ⦃p : Platform⦄ (resolve : Resolver) (v : VertexState) (current_pn_mtx : ℕ) where
  -- A new geometry with its records.
  abbrev pub with_records : VertexLayout → ℕ → List ℕ → Geometry
  with_records layout count records = record {
    layout = layout;
    records = records;
    arrays = λ _. record { source_offset = 0; bytes = [] };
    indices = [];
    primitive = Primitive.triangles;
    count = count;
    current_pn_mtx = current_pn_mtx;
  }

  unfoldable pub snapshot_records : VertexLayout → ℕ → List ℕ → Outcome Geometry
  snapshot_records layout count records = do
    require (length records == count * layout.stride)
    require (count == 0 || v.vtx_desc va_pos != p.attr_none)
    let out = with_records layout count records
    if count == 0 then ok out else snapshot_arrays resolve v (attribute_count - va_pos) va_pos out

  -- `snapshot` with a layout that the caller has built. Each value of `Primitive` is valid.
  unfoldable pub snapshot_with : VertexLayout → Primitive → ℕ → List ℕ → Outcome Geometry
  snapshot_with layout primitive count records = do
    out ← snapshot_records layout count records
    ok (record out { primitive = primitive; indices = build_indices primitive count })

  unfoldable pub snapshot : Primitive → ℕ → ℕ → List ℕ → Outcome Geometry
  snapshot primitive format count records = do
    layout ← build v format
    snapshot_with layout primitive count records
