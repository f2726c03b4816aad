-- ===== src/Fifo/Aurora.antt =====
-- `handle_aurora`: sub-commands that carry pointers and object versions of the host.
use mkwii_ps.Base.{
  ℕ, zero, suc, ◌+◌, ◌-◌, ◌^◌, Bool, ◌&&◌, ◌||◌, not, leb, ◌==◌, ◌!=◌, within, if◌then◌else◌,
  Option, none, some, ◌>>=◌, modify, update, bit_and, bit_or, signed32, List, [], ◌∷◌,
}
use mkwii_ps.Platform.{Platform}
use mkwii_ps.View.{Viewport, ClipRect}
use mkwii_ps.Reader.{Bytes, advance, read_u16, read_u32, read_u64, read_f32}
use mkwii_ps.State.Vertex.{AttrArray, va_pos}
use mkwii_ps.State.Texture.{TexObj}
use mkwii_ps.State.Machine.{Machine, Call, mark_pipeline_state_dirty, mark_state_dirty, call}
use mkwii_ps.Backend.{set_render_viewport, set_render_scissor}
use mkwii_ps.Bp.Texture.{max_tluts}
use mkwii_ps.Fifo.Commands.{Commands, Flow, stop, go_on}

unfoldable pub has_bytes : ℕ → ℕ → ℕ → Bool
has_bytes at size needed = leb at size && leb needed (size - at)

-- A handler behind its test for the bytes that it needs: an overrun stops the decoding.
abbrev guarded : ℕ → ℕ → ℕ → Machine → Option Flow → Option Flow
guarded at size needed m body = if has_bytes at size needed then body else some (stop m)

-- `str.assign(data + pos, length)`.
unfoldable pub read_chars : ℕ → Bytes → Option (List ℕ)
read_chars zero ptr = some []
read_chars (suc n) ptr = do c ← ptr 0; cs ← read_chars n (advance ptr 1); some (c ∷ cs)

-- A u8 with its cache flag 0x80 cleared, and bit 0 as given.
unfoldable pub texture_flags : ℕ → ℕ → ℕ
texture_flags has_mips flags =
    bit_and (if has_mips != 0 then bit_or flags 1 else bit_and flags (2 ^ 8 - 1 - 1))
      (2 ^ 8 - 1 - 0x80)

-- The eight members that decide whether a texture slot has changed.
unfoldable pub tex_obj_changed : TexObj → TexObj → Bool
tex_obj_changed slot next =
    slot.base != next.base
    || slot.m_width != next.m_width
    || slot.m_height != next.m_height
    || slot.m_format != next.m_format
    || slot.tlut != next.tlut
    || slot.flags != next.flags
    || slot.tex_obj_id != next.tex_obj_id
    || slot.tex_data_version != next.tex_data_version

unfoldable pub store_tex_obj : ℕ → TexObj → Machine → Machine
store_tex_obj i next m =
    let changed = tex_obj_changed (m.texture.loaded_textures i) next in
    let m' : Machine = record m {
      texture = record m.texture { loaded_textures = update m.texture.loaded_textures i next };
    } in
    if changed then mark_state_dirty m' else m'

unfoldable pub array_changed : AttrArray → ℕ → ℕ → Bool → Bool
array_changed a base size le = a.base != base || a.size != size || (if le then not a.le else a.le)

-- The cached upload is dropped only if the array changes.
unfoldable pub set_array_base : ℕ → ℕ → ℕ → Bool → Machine → Machine
set_array_base i base size le m =
    if array_changed (m.vertex.arrays i) base size le
    then mark_pipeline_state_dirty (record m {
      vertex = record m.vertex {
        arrays = modify m.vertex.arrays i (λ a. record a {
          base = base;
          size = size;
          le = le;
          cached_range = record { offset = 0; size = 0 };
        });
      };
    })
    else m

module _ ⦃p : Platform⦄ where
  -- The string, and the position behind it; `none` inside is a truncated string.
  unfoldable pub read_string : Bytes → ℕ → ℕ → Bool → Option (Option (List ℕ × ℕ))
  read_string ptr at size big_endian =
      let go : Option (Option (List ℕ × ℕ)) = do
        length ← read_u16 (advance ptr at) big_endian
        let rest : Option (Option (List ℕ × ℕ)) = do
          cs ← read_chars length (advance ptr (at + 2))
          some (some (cs, at + 2 + length))
        if has_bytes (at + 2) size length then rest else some none
      in if has_bytes at size 2 then go else some none

  -- A label for the renderer's debugger.
  unfoldable pub aurora_label : (List ℕ → Call) → Bytes → ℕ → ℕ → Bool → Machine → Option Flow
  aurora_label c ptr at size big_endian m = do
    r ← read_string ptr at size big_endian
    elim r [ none ↦ some (stop m) | some (cs, at') ↦ some (go_on at' (call (c cs) m)) ]

  unfoldable pub aurora_viewport : Bytes → ℕ → Bool → Machine → Option Flow
  aurora_viewport ptr at big_endian m = do
    left ← read_f32 (advance ptr at) big_endian
    top ← read_f32 (advance ptr (at + 4)) big_endian
    width ← read_f32 (advance ptr (at + 8)) big_endian
    height ← read_f32 (advance ptr (at + 12)) big_endian
    near_z ← read_f32 (advance ptr (at + 16)) big_endian
    far_z ← read_f32 (advance ptr (at + 20)) big_endian
    let viewport : Viewport = record {
      left = left;
      top = top;
      width = width;
      height = height;
      znear = near_z;
      zfar = far_z;
    }
    some (go_on (at + 24) (set_render_viewport viewport m))

  unfoldable pub aurora_scissor : Bytes → ℕ → Bool → Machine → Option Flow
  aurora_scissor ptr at big_endian m = do
    left ← read_u32 (advance ptr at) big_endian
    top ← read_u32 (advance ptr (at + 4)) big_endian
    width ← read_u32 (advance ptr (at + 8)) big_endian
    height ← read_u32 (advance ptr (at + 12)) big_endian
    let rect : ClipRect = record {
      x = signed32 left;
      y = signed32 top;
      width = signed32 width;
      height = signed32 height;
    }
    some (go_on (at + 16) (set_render_scissor rect m))

  unfoldable pub aurora_array : ℕ → Bytes → ℕ → Bool → Machine → Option Flow
  aurora_array attr_idx ptr at big_endian m = do
    array_addr ← read_u64 (advance ptr at) big_endian
    array_size ← read_u32 (advance ptr (at + 8)) big_endian
    le ← ptr (at + 12)
    some (go_on (at + 13) (set_array_base attr_idx array_addr array_size (le == 1) m))

  -- Behind the slot number.
  unfoldable pub aurora_texobj_body : ℕ → Bytes → ℕ → Bool → Machine → Option Flow
  aurora_texobj_body i ptr at big_endian m = do
    base ← read_u64 (advance ptr at) big_endian
    width ← read_u32 (advance ptr (at + 8)) big_endian
    height ← read_u32 (advance ptr (at + 12)) big_endian
    format ← read_u32 (advance ptr (at + 16)) big_endian
    tlut ← read_u32 (advance ptr (at + 20)) big_endian
    mips ← ptr (at + 24)
    id ← read_u32 (advance ptr (at + 25)) big_endian
    version ← read_u32 (advance ptr (at + 29)) big_endian
    let slot : TexObj = m.texture.loaded_textures i
    let next : TexObj = record slot {
      base = base;
      m_width = width;
      m_height = height;
      m_format = format;
      tlut = tlut;
      flags = texture_flags mips slot.flags;
      tex_obj_id = id;
      tex_data_version = version;
    }
    some (go_on (at + 33) (store_tex_obj i next m))

  unfoldable pub aurora_texobj : Bytes → ℕ → Bool → Machine → Option Flow
  aurora_texobj ptr at big_endian m = do
    i ← ptr at
    let body : Option Flow = aurora_texobj_body i ptr (at + 1) big_endian m
    if leb p.max_texmap i then some (stop m) else body

  unfoldable pub aurora_tlut_body : ℕ → Bytes → ℕ → Bool → Machine → Option Flow
  aurora_tlut_body i ptr at big_endian m = do
    base ← read_u64 (advance ptr at) big_endian
    format ← read_u32 (advance ptr (at + 8)) big_endian
    entries ← read_u16 (advance ptr (at + 12)) big_endian
    id ← read_u32 (advance ptr (at + 14)) big_endian
    version ← read_u32 (advance ptr (at + 18)) big_endian
    let m' : Machine = record m {
      texture = record m.texture {
        loaded_tluts = modify m.texture.loaded_tluts i (λ slot. record slot {
          base = base;
          format = format;
          num_entries = entries;
          tlut_obj_id = id;
          tlut_data_version = version;
          flags = bit_and slot.flags (2 ^ 8 - 1 - 0x80);
        });
      };
    }
    some (go_on (at + 22) (mark_state_dirty m'))

  unfoldable pub aurora_tlut : Bytes → ℕ → Bool → Machine → Option Flow
  aurora_tlut ptr at big_endian m = do
    i ← ptr at
    let body : Option Flow = aurora_tlut_body i ptr (at + 1) big_endian m
    if leb max_tluts i then some (stop m) else body

  -- An eviction, by the identity that a word holds.
  unfoldable pub aurora_evict : (ℕ → Call) → Bytes → ℕ → Bool → Machine → Option Flow
  aurora_evict c ptr at big_endian m = do
    id ← read_u32 (advance ptr at) big_endian
    some (go_on (at + 4) (call (c id) m))

  unfoldable pub aurora_evict_copy : Bytes → ℕ → Bool → Machine → Option Flow
  aurora_evict_copy ptr at big_endian m = do
    destination ← read_u64 (advance ptr at) big_endian
    some (go_on (at + 8) (call (Call.evict_copy_texture destination) m))

module _ ⦃p : Platform⦄ ⦃c : Commands⦄ where
  unfoldable pub aurora_switch : ℕ → Bytes → ℕ → ℕ → Bool → Machine → Option Flow
  aurora_switch sub ptr at size big_endian m =
      if sub == c.aurora_viewport_render
      then guarded at size 24 m (aurora_viewport ptr at big_endian m)
      else if sub == c.aurora_scissor_render
      then guarded at size 16 m (aurora_scissor ptr at big_endian m)
      else if within c.aurora_arraybase c.aurora_arraybase_last sub
      then guarded at size 13 m
          (aurora_array (sub - c.aurora_arraybase + va_pos) ptr at big_endian m)
      else if sub == c.aurora_texobj
      then guarded at size 34 m (aurora_texobj ptr at big_endian m)
      else if sub == c.aurora_tlut
      then guarded at size 23 m (aurora_tlut ptr at big_endian m)
      else if sub == c.aurora_destroy_texobj
      then guarded at size 4 m (aurora_evict Call.evict_texture_object ptr at big_endian m)
      else if sub == c.aurora_destroy_tlut
      then guarded at size 4 m (aurora_evict Call.evict_tlut_object ptr at big_endian m)
      else if sub == c.aurora_destroy_copy_tex
      then guarded at size 8 m (aurora_evict_copy ptr at big_endian m)
      else if sub == c.aurora_invalidate_tex_all
      then some (go_on at (call Call.invalidate_static_texture_cache m))
      else if sub == c.aurora_debug_group_push
      then aurora_label Call.push_debug_group ptr at size big_endian m
      else if sub == c.aurora_debug_group_pop
      then some (go_on at (call Call.pop_debug_group m))
      else if sub == c.aurora_debug_marker_insert
      then aurora_label Call.insert_debug_marker ptr at size big_endian m
      else some (stop m)

  unfoldable pub handle_aurora : Bytes → ℕ → ℕ → Bool → Machine → Option Flow
  handle_aurora ptr at size big_endian m =
      let go : Option Flow = do
        sub ← read_u16 (advance ptr at) big_endian
        aurora_switch sub ptr (at + 2) size big_endian m
      in if has_bytes at size 2 then go else some (stop m)
