-- ===== src/Shader/Formats.antt =====
-- lib/gx/register_state.hpp: the kinds of texture formats, and the copies that a texture can read.
use mkwii_ps.Base.{ℕ, ℤ, Bool, true, false, ◌||◌, ◌==◌, if◌then◌else◌, sub_ℕ, pos_part, neg_part}
use mkwii_ps.State.Pixel.{PixelFmt}

-- The texture formats of `<dolphin/gx.h>`.
pub record TextureFormats : Type 0 where
  pub tf_i4 : ℕ
  pub tf_i8 : ℕ
  pub tf_a8 : ℕ
  pub tf_ia4 : ℕ
  pub tf_ia8 : ℕ
  pub tf_rgba8 : ℕ
  pub tf_c4 : ℕ
  pub tf_c8 : ℕ
  pub tf_c14x2 : ℕ
  pub tf_z8 : ℕ
  pub tf_z16 : ℕ
  pub tf_z24x8 : ℕ
  pub ctf_r4 : ℕ
  pub ctf_ra4 : ℕ
  pub ctf_ra8 : ℕ
  pub ctf_yuva8 : ℕ
  pub ctf_a8 : ℕ
  pub ctf_r8 : ℕ
  pub ctf_g8 : ℕ
  pub ctf_b8 : ℕ
  pub ctf_rg8 : ℕ
  pub ctf_gb8 : ℕ
  pub ctf_z4 : ℕ
  pub ctf_z8m : ℕ
  pub ctf_z8l : ℕ
  pub ctf_z16l : ℕ

unfoldable pub render_target_has_alpha : PixelFmt → Bool
render_target_has_alpha PixelFmt.rgba6_z24 = true
render_target_has_alpha _ = false

-- `-static_cast<s32>(scaleExp)`.
unfoldable pub indirect_matrix_shift : ℤ → ℤ
indirect_matrix_shift e = sub_ℕ (neg_part e) (pos_part e)

module _ ⦃f : TextureFormats⦄ where
  unfoldable pub is_palette_format : ℕ → Bool
  is_palette_format fmt = fmt == f.tf_c4 || fmt == f.tf_c8 || fmt == f.tf_c14x2

  unfoldable pub is_depth_format : ℕ → Bool
  is_depth_format fmt =
      fmt == f.tf_z8
      || fmt == f.tf_z16
      || fmt == f.tf_z24x8
      || fmt == f.ctf_z4
      || fmt == f.ctf_z8m
      || fmt == f.ctf_z8l
      || fmt == f.ctf_z16l

  unfoldable pub copy_texture_format_compatible : ℕ → ℕ → Bool
  copy_texture_format_compatible copy sample =
      if copy == sample
      then true
      else if copy == f.ctf_r4
      then sample == f.tf_i4
      else if copy == f.ctf_r8 || copy == f.ctf_g8 || copy == f.ctf_b8 || copy == f.ctf_a8
      then sample == f.tf_i8 || sample == f.tf_a8
      else if copy == f.ctf_ra4
      then sample == f.tf_ia4
      else if copy == f.ctf_ra8 || copy == f.ctf_rg8 || copy == f.ctf_gb8 || copy == f.tf_z16
      then sample == f.tf_ia8
      else if copy == f.ctf_yuva8 || copy == f.tf_z24x8
      then sample == f.tf_rgba8
      else false
