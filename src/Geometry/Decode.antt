-- ===== src/Geometry/Decode.antt =====
-- ps5/gpu/gx_geometry.cpp: `load` and `decode_gx_vertex`, the reader of a snapshot on the CPU.
-- A literal `n.0f` is the conversion of n.
pub mod Reads
pub mod Sources
pub mod Total
use mkwii_ps.Base.{
  ℕ, zero, suc, ◌+◌, ◌-◌, ◌*◌, ◌/◌, ◌%◌, ◌^◌, Bool, true, false, ◌&&◌, ◌||◌, ltb, leb, ◌==◌,
  if◌then◌else◌, Array, update, List, length, get_elem?, bit, signed32, sub_ℕ,
}
use mkwii_ps.Base.Outcome.{Outcome, ok, ◌>>=◌, ◌>>◌, require, or_fault}
use mkwii_ps.Platform.{Platform}
use mkwii_ps.State.Vec.{Vec4}
use mkwii_ps.State.Vertex.{va_pnmtxidx, va_pos, va_nrm, va_clr0, va_tex0}
use mkwii_ps.Geometry.Layout.{
  attribute_count, index8, index16, AttributeLayout, VertexLayout, is_color,
}
use mkwii_ps.Geometry.Snapshot.{Geometry, index_width}

-- The bytes from `at + i` on, `n` of them, each at its place in a number of `width` bytes.
unfoldable pub load_bytes : List ℕ → ℕ → ℕ → Bool → ℕ → ℕ → ℕ → Outcome ℕ
load_bytes bytes at width little zero i acc = ok acc
load_bytes bytes at width little (suc n) i acc = do
  b ← or_fault (get_elem? bytes (at + i))
  load_bytes bytes at width little n (i + 1)
      (acc + b * 2 ^ (8 * (if little then i else width - i - 1)))

unfoldable pub load : List ℕ → ℕ → ℕ → Bool → Outcome ℕ
load bytes at width little = do
  require (leb at (length bytes) && leb width (length bytes - at))
  load_bytes bytes at width little width 0 0

pub record DecodedVertex : Type 0 where
  pub position : Array ℕ
  pub normal : Array ℕ
  pub binormal : Array ℕ
  pub tangent : Array ℕ
  pub colors : Array Vec4
  pub uv : Array (Array ℕ)
  pub position_matrix : ℕ
  pub texture_matrices : Array ℕ

-- Where a value of an attribute lies.
pub record Source : Type 0 where
  pub bytes : List ℕ
  pub address : ℕ
  pub little : Bool

-- `int32_t(v ^ 2^k) - 2^k`, for a number below 2 ^ (k + 1).
abbrev pub sign_of : ℕ → ℕ → ℕ
sign_of k v = if bit k v == 1 then v - 2 ^ k else v + 2 ^ k

abbrev pub group_count : ℕ → AttributeLayout → ℕ
group_count attr d = if attr == va_nrm && d.components == 9 then 3 else 1

module _ ⦃p : Platform⦄ where
  unfoldable pub number : AttributeLayout → ℕ → ℕ
  number d v =
      if d.comp_type == p.comp_f32
      then v
      else p.fdiv
          (p.of_s32 (
            if d.comp_type == p.comp_s8
            then sub_ℕ (sign_of 7 v) (2 ^ 7)
            else if d.comp_type == p.comp_s16
            then sub_ℕ (sign_of 15 v) (2 ^ 15)
            else signed32 v))
          (p.of_u32 (2 ^ d.fraction % 2 ^ 32))

  unfoldable pub component : Source → ℕ → AttributeLayout → Outcome ℕ
  component s at d = do v ← load s.bytes at d.component_bytes s.little; ok (number d v)

  unfoldable pub unorm : ℕ → ℕ → ℕ
  unorm v m = p.fdiv (p.of_u32 v) (p.of_u32 m)

  -- A colour of bytes.
  unfoldable pub byte_color : Source → AttributeLayout → Outcome Vec4
  byte_color s d = do
    r ← load s.bytes s.address 1 true
    g ← load s.bytes (s.address + 1) 1 true
    b ← load s.bytes (s.address + 2) 1 true
    a ←
        if d.comp_type == p.clr_rgba8
        then (load s.bytes (s.address + 3) 1 true >>= λ v. ok (unorm v 255))
        else ok (p.of_u32 1)
    ok (record { x = unorm r 255; y = unorm g 255; z = unorm b 255; w = a })

  -- A colour packed into one number.
  unfoldable pub packed_color : AttributeLayout → ℕ → Vec4
  packed_color d v =
      if d.comp_type == p.clr_rgb565
      then record {
        x = unorm (v / 2 ^ 11 % 32) 31;
        y = unorm (v / 2 ^ 5 % 64) 63;
        z = unorm (v % 32) 31;
        w = p.of_u32 1;
      }
      else if d.comp_type == p.clr_rgba4
      then record {
        x = unorm (v / 2 ^ 12 % 16) 15;
        y = unorm (v / 2 ^ 8 % 16) 15;
        z = unorm (v / 2 ^ 4 % 16) 15;
        w = unorm (v % 16) 15;
      }
      else record {
        x = unorm (v / 2 ^ 18 % 64) 63;
        y = unorm (v / 2 ^ 12 % 64) 63;
        z = unorm (v / 2 ^ 6 % 64) 63;
        w = unorm (v % 64) 63;
      }

  unfoldable pub color_value : Source → AttributeLayout → Outcome Vec4
  color_value s d =
      let packed : Outcome Vec4 = do
        v ← load s.bytes s.address d.component_bytes s.little
        ok (packed_color d v)
      in if d.comp_type == p.clr_rgb8 || d.comp_type == p.clr_rgbx8 || d.comp_type == p.clr_rgba8
        then byte_color s d
        else packed

  -- The place of one group of an attribute's values: in the record, or in the array's snapshot at the
  -- index of the record. The subtraction of the snapshot's offset wraps around in 64 bits.
  unfoldable pub source : Geometry → ℕ → ℕ → ℕ → Outcome Source
  source g vertex attr group =
      let d = g.layout.attributes attr in
      let at = vertex * g.layout.stride + d.offset in
      let array = g.arrays attr in
      let indexed : Outcome Source = do
        index ←
            load g.records (at + (if d.index_count == 3 then group * index_width d else 0))
              (index_width d) false
        ok (record {
          bytes = array.bytes;
          address =
              (index * d.array_stride
                + (2 ^ 64 - array.source_offset)
                + (if d.index_count == 3 then 0 else group * 3 * d.component_bytes))
              % 2 ^ 64;
          little = d.array_little_endian;
        })
      in if d.mode == index8 || d.mode == index16
        then indexed
        else ok (record {
          bytes = g.records;
          address = at + group * 3 * d.component_bytes;
          little = false;
        })

  unfoldable pub store_value : ℕ → ℕ → ℕ → ℕ → DecodedVertex → DecodedVertex
  store_value attr group c value out =
      if attr == va_pos
      then record out { position = update out.position c value }
      else if attr == va_nrm
      then (if group == 0
          then record out { normal = update out.normal c value }
          else if group == 1
          then record out { binormal = update out.binormal c value }
          else record out { tangent = update out.tangent c value })
      else record out {
        uv = update out.uv (attr - va_tex0) (update (out.uv (attr - va_tex0)) c value);
      }

  -- The components from `c` on, `n` of them.
  unfoldable pub decode_components :
      Source → ℕ → ℕ → AttributeLayout → ℕ → ℕ → DecodedVertex → Outcome DecodedVertex
  decode_components s attr group d zero c out = ok out
  decode_components s attr group d (suc n) c out = do
    value ← component s (s.address + c * d.component_bytes) d
    decode_components s attr group d n (c + 1) (store_value attr group c value out)

  unfoldable pub store_color : ℕ → Vec4 → DecodedVertex → DecodedVertex
  store_color attr value out = record out { colors = update out.colors (attr - va_clr0) value }

  unfoldable pub decode_group : Geometry → ℕ → ℕ → ℕ → DecodedVertex → Outcome DecodedVertex
  decode_group g vertex attr group out = do
    let d = g.layout.attributes attr
    s ← source g vertex attr group
    if is_color attr
        then (color_value s d >>= λ value. ok (store_color attr value out))
        else decode_components s attr group d (if attr == va_nrm then 3 else d.components) 0 out

  -- The groups from `group` on, `n` of them.
  unfoldable pub decode_groups : Geometry → ℕ → ℕ → ℕ → ℕ → DecodedVertex → Outcome DecodedVertex
  decode_groups g vertex attr zero group out = ok out
  decode_groups g vertex attr (suc n) group out = do
    out' ← decode_group g vertex attr group out
    decode_groups g vertex attr n (group + 1) out'

  -- One normal stands for all three.
  unfoldable pub spread_normal : ℕ → ℕ → DecodedVertex → DecodedVertex
  spread_normal attr groups out =
      if attr == va_nrm && groups == 1
      then record out { binormal = out.normal; tangent = out.normal }
      else out

  unfoldable pub store_matrix : ℕ → ℕ → DecodedVertex → DecodedVertex
  store_matrix attr value out =
      if attr == va_pnmtxidx
      then record out { position_matrix = value / 3 }
      else record out { texture_matrices = update out.texture_matrices (attr - 1) value }

  unfoldable pub decode_attribute : Geometry → ℕ → ℕ → DecodedVertex → Outcome DecodedVertex
  decode_attribute g vertex attr out =
      let d = g.layout.attributes attr in
      let matrix : Outcome DecodedVertex = do
        value ← load g.records (vertex * g.layout.stride + d.offset) 1 false
        ok (store_matrix attr value out)
      in let values : Outcome DecodedVertex = do
        out' ← decode_groups g vertex attr (group_count attr d) 0 out
        ok (spread_normal attr (group_count attr d) out')
        in if d.mode == p.attr_none then ok out else if ltb attr va_pos then matrix else values

  -- The attributes from `attr` on, `n` of them.
  unfoldable pub decode_attributes : Geometry → ℕ → ℕ → ℕ → DecodedVertex → Outcome DecodedVertex
  decode_attributes g vertex zero attr out = ok out
  decode_attributes g vertex (suc n) attr out = do
    out' ← decode_attribute g vertex attr out
    decode_attributes g vertex n (attr + 1) out'

  -- The members of a default `GxDecodedVertex`, with the draw's matrix.
  unfoldable pub default_vertex : ℕ → DecodedVertex
  default_vertex matrix =
      let forward : Array ℕ = λ i. if i == 0 then p.of_u32 1 else p.of_u32 0 in
      record {
        position = λ _. p.of_u32 0;
        normal = forward;
        binormal = forward;
        tangent = forward;
        colors = λ _. record { x = p.of_u32 1; y = p.of_u32 1; z = p.of_u32 1; w = p.of_u32 1 };
        uv = λ _ _. p.of_u32 0;
        position_matrix = matrix;
        texture_matrices = λ _. 0xFFFFFFFF;
      }

  unfoldable pub decode_gx_vertex : Geometry → ℕ → Outcome DecodedVertex
  decode_gx_vertex g vertex = do
    require (ltb vertex g.count)
    decode_attributes g vertex attribute_count 0 (default_vertex g.current_pn_mtx)
