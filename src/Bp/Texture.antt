-- ===== src/Bp/Texture.antt =====
-- BP registers of texture units: 0x30 to 0x3F, 0x64, 0x65, 0x80 to 0xBB.
use mkwii_ps.Base.{
  ℕ, zero, suc, ◌+◌, ◌-◌, ◌/◌, ◌%◌, ◌^◌, ltb, ◌==◌, ◌!=◌, if◌then◌else◌, modify, bit_and, get_or,
  List, [], ◌∷◌, Option, none, some,
}
use mkwii_ps.Platform.{Platform}
use mkwii_ps.State.Texture.{TexObj, TexCoordScale, invalid_texture_format}
use mkwii_ps.State.Machine.{Machine, mark_state_dirty}
use mkwii_ps.Bp.Field.{bp_get}

abbrev pub max_tluts : ℕ
max_tluts = 20

pub data Kind : Type 0 where
  mode0 mode1 image0 image1 image2 image3 tlut : Kind

pub record TexBpRegMapping : Type 0 where
  pub tex_map_id : ℕ
  pub kind : Kind

abbrev mode0_ids : List ℕ
mode0_ids = 0x80 ∷ 0x81 ∷ 0x82 ∷ 0x83 ∷ 0xA0 ∷ 0xA1 ∷ 0xA2 ∷ 0xA3 ∷ []

abbrev mode1_ids : List ℕ
mode1_ids = 0x84 ∷ 0x85 ∷ 0x86 ∷ 0x87 ∷ 0xA4 ∷ 0xA5 ∷ 0xA6 ∷ 0xA7 ∷ []

abbrev image0_ids : List ℕ
image0_ids = 0x88 ∷ 0x89 ∷ 0x8A ∷ 0x8B ∷ 0xA8 ∷ 0xA9 ∷ 0xAA ∷ 0xAB ∷ []

abbrev image1_ids : List ℕ
image1_ids = 0x8C ∷ 0x8D ∷ 0x8E ∷ 0x8F ∷ 0xAC ∷ 0xAD ∷ 0xAE ∷ 0xAF ∷ []

abbrev image2_ids : List ℕ
image2_ids = 0x90 ∷ 0x91 ∷ 0x92 ∷ 0x93 ∷ 0xB0 ∷ 0xB1 ∷ 0xB2 ∷ 0xB3 ∷ []

abbrev image3_ids : List ℕ
image3_ids = 0x94 ∷ 0x95 ∷ 0x96 ∷ 0x97 ∷ 0xB4 ∷ 0xB5 ∷ 0xB6 ∷ 0xB7 ∷ []

abbrev tlut_ids : List ℕ
tlut_ids = 0x98 ∷ 0x99 ∷ 0x9A ∷ 0x9B ∷ 0xB8 ∷ 0xB9 ∷ 0xBA ∷ 0xBB ∷ []

-- Round `i` of the loop: the tables hold eight entries, and `0` is no texture register.
unfoldable pub kind_at : ℕ → ℕ → Option Kind
kind_at reg_id i =
    if reg_id == get_or mode0_ids i 0
    then some mode0
    else if reg_id == get_or mode1_ids i 0
    then some mode1
    else if reg_id == get_or image0_ids i 0
    then some image0
    else if reg_id == get_or image1_ids i 0
    then some image1
    else if reg_id == get_or image2_ids i 0
    then some image2
    else if reg_id == get_or image3_ids i 0
    then some image3
    else if reg_id == get_or tlut_ids i 0
    then some tlut
    else none

unfoldable pub find_mapping : ℕ → ℕ → ℕ → Option TexBpRegMapping
unfolding kind_at
find_mapping zero i reg_id = none
find_mapping (suc n) i reg_id = elim (kind_at reg_id i) [
  | some k ↦ some (record { tex_map_id = i; kind = k })
  | none ↦ find_mapping n (i + 1) reg_id
]

-- The write to a texture slot, `none` where it changes nothing.
unfoldable pub write_texture : Kind → ℕ → TexObj → Option TexObj
write_texture mode0 value slot =
    if slot.mode0 != value then some (record slot { mode0 = value }) else none
write_texture mode1 value slot =
    if slot.mode1 != value then some (record slot { mode1 = value }) else none
write_texture image0 value slot =
    if slot.image0 != value
    then some (record slot {
      image0 = value;
      m_width = 0;
      m_height = 0;
      m_format = invalid_texture_format;
    })
    else none
write_texture image3 value slot =
    if slot.image3 != value then some (record slot { image3 = value }) else none
write_texture tlut value slot = none
write_texture image1 value slot = none
write_texture image2 value slot = none

unfoldable pub load_tlut : ℕ → Machine → Machine
load_tlut value m =
    let idx = bp_get value 10 0 in
    if ltb idx max_tluts
    then record m {
      texture = record m.texture {
        loaded_tluts = modify m.texture.loaded_tluts idx (λ slot. record slot {
          load_tlut0 = m.bp_reg_cache 0x64;
          num_entries = (bp_get value 10 10 + 1) % 2 ^ 16;
        });
      };
    }
    else m

unfoldable pub coord_scale : ℕ → ℕ → TexCoordScale → TexCoordScale
coord_scale reg_id value tcs =
    if bit_and reg_id 1 != 0
    then record tcs {
      scale_t = bp_get value 16 0;
      bias_t = bp_get value 1 16 != 0;
      cyl_wrap_t = bp_get value 1 17 != 0;
    }
    else record tcs {
      scale_s = bp_get value 16 0;
      bias_s = bp_get value 1 16 != 0;
      cyl_wrap_s = bp_get value 1 17 != 0;
      line_offset = bp_get value 1 18 != 0;
      point_offset = bp_get value 1 19 != 0;
    }

unfoldable pub su_scale : ℕ → ℕ → Machine → Machine
su_scale reg_id value m = mark_state_dirty (record m {
  texture = record m.texture {
    tex_coord_scales =
        modify m.texture.tex_coord_scales ((reg_id - 0x30) / 2) (coord_scale reg_id value);
  };
})

abbrev put_texture : ℕ → TexObj → Machine → Machine
put_texture i slot m = mark_state_dirty (record m {
  texture = record m.texture { loaded_textures = modify m.texture.loaded_textures i (λ _. slot) };
})

-- A write through a mapping: the slot is stored, and the state marked, only on a change.
unfoldable pub texture_write : TexBpRegMapping → ℕ → Machine → Machine
texture_write t value m =
    elim (write_texture t.kind value (m.texture.loaded_textures t.tex_map_id)) [
      | some slot ↦ put_texture t.tex_map_id slot m
      | none ↦ m
    ]

module _ ⦃p : Platform⦄ where
  unfoldable pub decode_tex_bp_reg : ℕ → Option TexBpRegMapping
  unfolding find_mapping
  decode_tex_bp_reg reg_id = find_mapping p.max_texmap 0 reg_id

  -- The default case of the switch.
  unfoldable pub texture_reg : ℕ → ℕ → Machine → Machine
  texture_reg reg_id value m = elim (decode_tex_bp_reg reg_id) [
    | some t ↦ texture_write t value m
    | none ↦ m
  ]
