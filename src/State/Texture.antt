-- ===== src/State/Texture.antt =====
-- lib/dolphin/gx/texture_object.hpp, and the coordinate scales of lib/gx/register_state.hpp.
use mkwii_ps.Base.{ℕ, Bool, Array}

abbrev pub invalid_texture_format : ℕ
invalid_texture_format = 0xFFFFFFFF

pub record TexObj : Type 0 where
  pub mode0 : ℕ
  pub mode1 : ℕ
  pub image0 : ℕ
  pub image3 : ℕ
  pub base : ℕ
  pub m_width : ℕ
  pub m_height : ℕ
  pub m_format : ℕ
  pub tlut : ℕ
  pub tex_obj_id : ℕ
  pub tex_data_version : ℕ
  pub flags : ℕ

pub record TlutObj : Type 0 where
  pub tlut : ℕ
  pub load_tlut0 : ℕ
  pub num_entries : ℕ
  pub base : ℕ
  pub format : ℕ
  pub tlut_obj_id : ℕ
  pub tlut_data_version : ℕ
  pub flags : ℕ

pub record TexCoordScale : Type 0 where
  pub scale_s : ℕ
  pub scale_t : ℕ
  pub bias_s : Bool
  pub bias_t : Bool
  pub cyl_wrap_s : Bool
  pub cyl_wrap_t : Bool
  pub line_offset : Bool
  pub point_offset : Bool

pub record TextureState : Type 0 where
  pub loaded_textures : Array TexObj
  pub loaded_tluts : Array TlutObj
  pub tex_coord_scales : Array TexCoordScale
