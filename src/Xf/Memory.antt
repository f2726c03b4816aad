-- ===== src/Xf/Memory.antt =====
-- `copy_xf_data`: writes to the matrices and lights of the transform unit. The result is whether the
-- address was taken; a malformed write is rejected with the state as it was.
use mkwii_ps.Base.{
  ℕ, zero, suc, ◌+◌, ◌-◌, ◌*◌, ◌/◌, ◌%◌, ◌^◌, Bool, true, false, ◌&&◌, ◌||◌, ltb, leb, ◌==◌,
  if◌then◌else◌, Option, some, ◌>>=◌, Array, update, modify, bit_and,
}
use mkwii_ps.Platform.{Platform}
use mkwii_ps.Reader.{Bytes, advance, read_f32, read_u32}
use mkwii_ps.State.Vec.{Vec4}
use mkwii_ps.State.Transform.{Light, TransformState}
use mkwii_ps.State.Machine.{Machine, mark_state_dirty}
use mkwii_ps.Bp.Colors.{unorm8}

abbrev pub max_tex_mtx : ℕ
max_tex_mtx = 10

abbrev pub max_pt_tex_mtx : ℕ
max_pt_tex_mtx = 20

abbrev pub max_lights : ℕ
max_lights = 8

abbrev with_transform : TransformState → Machine → Machine
with_transform t m = mark_state_dirty (record m { transform = t })

-- What the call returns with the address taken and nothing written.
abbrev rejected : Machine → Option (Bool × Machine)
rejected m = some (true, m)

-- The place of value `i` of a normal matrix in rows of four.
abbrev pub normal_index : ℕ → ℕ
normal_index i = i / 3 * 4 + i % 3

module _ ⦃p : Platform⦄ where
  abbrev pub max_pn_mtx : ℕ
  max_pn_mtx = p.pnmtx9 / 3 + 1

  unfoldable pub unpack_color : ℕ → Vec4
  unpack_color packed = record {
    x = unorm8 (bit_and (packed / 2 ^ 24) 0xFF);
    y = unorm8 (bit_and (packed / 2 ^ 16) 0xFF);
    z = unorm8 (bit_and (packed / 2 ^ 8) 0xFF);
    w = unorm8 (bit_and packed 0xFF);
  }

  -- `for (i = 0; i < len; i++) flat[place(i)] = read_f32(data + i * 4);` by the rounds left.
  unfoldable pub read_flat : ℕ → ℕ → (ℕ → ℕ) → Bytes → Bool → Array ℕ → Option (Array ℕ)
  read_flat zero i place ptr big_endian flat = some flat
  read_flat (suc n) i place ptr big_endian flat = do
    v ← read_f32 (advance ptr (i * 4)) big_endian
    read_flat n (i + 1) place ptr big_endian (update flat (place i) v)

  unfoldable pub set_light_field : ℕ → ℕ → Light → Light
  set_light_field field v l =
      if field == 3
      then record l { color = unpack_color v }
      else if field == 4
      then record l { cos_att = record l.cos_att { x = v } }
      else if field == 5
      then record l { cos_att = record l.cos_att { y = v } }
      else if field == 6
      then record l { cos_att = record l.cos_att { z = v } }
      else if field == 7
      then record l { dist_att = record l.dist_att { x = v } }
      else if field == 8
      then record l { dist_att = record l.dist_att { y = v } }
      else if field == 9
      then record l { dist_att = record l.dist_att { z = v } }
      else if field == 10
      then record l { position = record l.position { x = v } }
      else if field == 11
      then record l { position = record l.position { y = v } }
      else if field == 12
      then record l { position = record l.position { z = v } }
      else if field == 13
      then record l { dir = record l.dir { x = v } }
      else if field == 14
      then record l { dir = record l.dir { y = v } }
      else if field == 15
      then record l { dir = record l.dir { z = v } }
      else l

  -- One read serves as float and as integer: both are the word at the same place.
  unfoldable pub read_light : ℕ → ℕ → ℕ → Bytes → Bool → Light → Option Light
  read_light zero i start ptr big_endian l = some l
  read_light (suc n) i start ptr big_endian l = do
    v ← read_u32 (advance ptr (i * 4)) big_endian
    read_light n (i + 1) start ptr big_endian (set_light_field (start + i) v l)

  unfoldable pub write_pos_mtx : ℕ → Bytes → ℕ → Bool → Machine → Option (Bool × Machine)
  write_pos_mtx addr ptr len big_endian m =
      let mtx_idx = addr / 12 in
      let t = m.transform in
      let go : Option (Bool × Machine) = do
        flat ← read_flat len 0 (λ i. i) ptr big_endian (t.pn_mtx mtx_idx).pos_mtx
        some (
          true,
          with_transform
              (record t { pn_mtx = modify t.pn_mtx mtx_idx (λ s. record s { pos_mtx = flat }) }) m,
        )
      in if ltb mtx_idx max_pn_mtx && (addr % 12 == 0 && len == 12) then go else rejected m

  unfoldable pub write_tex_mtx : ℕ → Bytes → ℕ → Bool → Machine → Option (Bool × Machine)
  write_tex_mtx base ptr len big_endian m =
      let mtx_idx = base / 12 in
      let t = m.transform in
      let go : Option (Bool × Machine) = do
        flat ← read_flat len 0 (λ i. i) ptr big_endian (t.tex_mtxs mtx_idx)
        some (true, with_transform (record t { tex_mtxs = update t.tex_mtxs mtx_idx flat }) m)
      in if ltb mtx_idx max_tex_mtx && (base % 12 == 0 && (len == 8 || len == 12))
        then go
        else rejected m

  unfoldable pub write_nrm_mtx : ℕ → Bytes → ℕ → Bool → Machine → Option (Bool × Machine)
  write_nrm_mtx base ptr len big_endian m =
      let mtx_idx = base / 9 in
      let t = m.transform in
      let go : Option (Bool × Machine) = do
        flat ← read_flat len 0 normal_index ptr big_endian (t.pn_mtx mtx_idx).nrm_mtx
        some (
          true,
          with_transform
              (record t { pn_mtx = modify t.pn_mtx mtx_idx (λ s. record s { nrm_mtx = flat }) }) m,
        )
      in if ltb mtx_idx max_pn_mtx && (base % 9 == 0 && len == 9) then go else rejected m

  unfoldable pub write_pt_tex_mtx : ℕ → Bytes → ℕ → Bool → Machine → Option (Bool × Machine)
  write_pt_tex_mtx base ptr len big_endian m =
      let mtx_idx = base / 12 in
      let t = m.transform in
      let go : Option (Bool × Machine) = do
        flat ← read_flat len 0 (λ i. base % 12 + i) ptr big_endian (t.pt_tex_mtxs mtx_idx)
        some (true, with_transform (record t { pt_tex_mtxs = update t.pt_tex_mtxs mtx_idx flat }) m)
      in if ltb mtx_idx max_pt_tex_mtx && (base % 12 == 0 && len == 12) then go else rejected m

  unfoldable pub write_light : ℕ → Bytes → ℕ → Bool → Machine → Option (Bool × Machine)
  write_light base ptr len big_endian m =
      let light_idx = base / 0x10 in
      let start = base % 0x10 in
      let t = m.transform in
      let go : Option (Bool × Machine) = do
        l ← read_light len 0 start ptr big_endian (t.lights light_idx)
        some (
          true,
          with_transform
              (record t { lights = update t.lights light_idx l; prepared_lights_dirty = true }) m,
        )
      in if ltb light_idx max_lights && leb (start + len) 0x10 then go else rejected m

  unfoldable pub copy_xf_data : ℕ → Bytes → ℕ → Bool → Machine → Option (Bool × Machine)
  copy_xf_data addr ptr len big_endian m =
      if ltb addr 0x78
      then write_pos_mtx addr ptr len big_endian m
      else if ltb addr 0x0F0
      then write_tex_mtx (addr - 0x078) ptr len big_endian m
      else if leb 0x400 addr && ltb addr 0x45A
      then write_nrm_mtx (addr - 0x400) ptr len big_endian m
      else if leb 0x500 addr && ltb addr 0x5F0
      then write_pt_tex_mtx (addr - 0x500) ptr len big_endian m
      else if leb 0x600 addr && ltb addr 0x680
      then write_light (addr - 0x600) ptr len big_endian m
      else some (false, m)
