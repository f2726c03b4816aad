-- ===== src/State/Transform.antt =====
-- lib/gx/register_state.hpp: matrices, lights, colour channels, texture coordinate generation.
use mkwii_ps.Base.{ℕ, Bool, Array}
use mkwii_ps.State.Vec.{Vec4, Mat4}

-- The code writes a 3x4 matrix through a flat pointer: twelve floats.
pub record PnMtx : Type 0 where
  pub pos_mtx : Array ℕ
  pub nrm_mtx : Array ℕ

pub record Light : Type 0 where
  pub position : Vec4
  pub dir : Vec4
  pub color : Vec4
  pub cos_att : Vec4
  pub dist_att : Vec4

pub data AttnFn : Type 0 where
  af_spec af_spot af_none : AttnFn

pub record ColorChannelConfig : Type 0 where
  pub mat_src : ℕ
  pub amb_src : ℕ
  pub diff_fn : ℕ
  pub attn_fn : AttnFn
  pub lighting_enabled : Bool

pub record ColorChannelState : Type 0 where
  pub mat_color : Vec4
  pub amb_color : Vec4
  pub light_mask : ℕ

pub data TexGenSrc : Type 0 where
  tg_pos tg_nrm tg_color0 tg_binrm tg_tangent tg_none : TexGenSrc
  tg_tex : ℕ → TexGenSrc

pub record TcgConfig : Type 0 where
  pub tcg_type : ℕ
  pub src : TexGenSrc
  pub mtx : ℕ
  pub post_mtx : ℕ
  pub normalize : Bool
  pub input_form_ab11 : Bool

pub record TransformState : Type 0 where
  pub pn_mtx : Array PnMtx
  pub current_pn_mtx : ℕ
  pub proj : Mat4
  pub proj_type : ℕ
  pub xf_viewport : Array ℕ
  pub xf_projection : Array ℕ
  pub tex_mtxs : Array (Array ℕ)
  pub pt_tex_mtxs : Array (Array ℕ)
  pub tcgs : Array TcgConfig
  pub color_channel_config : Array ColorChannelConfig
  pub color_channel_state : Array ColorChannelState
  pub lights : Array Light
  pub prepared_lights_dirty : Bool
  pub xf_error : ℕ
  pub dual_tex : ℕ
