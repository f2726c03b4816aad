-- ===== src/State/Tev.antt =====
-- lib/gx/register_state.hpp: the texture environment. An enumerator that the decoder casts from
-- bits is the number; `ChannelId` is only ever assigned by name.
use mkwii_ps.Base.{ℕ, ℤ, Bool, Array}
use mkwii_ps.State.Vec.{Vec4, Mat3x2}

pub record TevPass : Type 0 where
  pub a : ℕ
  pub b : ℕ
  pub c : ℕ
  pub d : ℕ

pub record TevOp : Type 0 where
  pub op : ℕ
  pub bias : ℕ
  pub scale : ℕ
  pub out_reg : ℕ
  pub clamp : Bool

pub data ChannelId : Type 0 where
  color0a0 color1a1 alpha_bump alpha_bumpn color_zero color_null : ChannelId

pub record TevStage : Type 0 where
  pub color_pass : TevPass
  pub alpha_pass : TevPass
  pub color_op : TevOp
  pub alpha_op : TevOp
  pub kc_sel : ℕ
  pub ka_sel : ℕ
  pub tex_coord_id : ℕ
  pub tex_map_id : ℕ
  pub channel_id : ChannelId
  pub tev_swap_ras : ℕ
  pub tev_swap_tex : ℕ
  pub ind_tex_stage : ℕ
  pub ind_tex_format : ℕ
  pub ind_tex_bias_sel : ℕ
  pub ind_tex_alpha_sel : ℕ
  pub ind_tex_mtx_id : ℕ
  pub ind_tex_wrap_s : ℕ
  pub ind_tex_wrap_t : ℕ
  pub ind_tex_use_orig_lod : Bool
  pub ind_tex_add_prev : Bool

pub record IndStage : Type 0 where
  pub tex_coord_id : ℕ
  pub tex_map_id : ℕ
  pub scale_s : ℕ
  pub scale_t : ℕ

pub record TevSwap : Type 0 where
  pub red : ℕ
  pub green : ℕ
  pub blue : ℕ
  pub alpha : ℕ

pub record IndTexMtxInfo : Type 0 where
  pub mtx : Mat3x2
  pub scale_exp : ℤ
  pub adj_scale_raw : ℕ

pub record TevState : Type 0 where
  pub tev_stages : Array TevStage
  pub tev_swap_table : Array TevSwap
  pub ind_stages : Array IndStage
  pub num_tev_stages : ℕ
  pub num_ind_stages : ℕ
  pub num_tex_gens : ℕ
  pub num_chans : ℕ
  pub color_regs : Array Vec4
  pub kcolors : Array Vec4
  pub ind_tex_mtxs : Array IndTexMtxInfo
  pub ind_tex_mask : ℕ
