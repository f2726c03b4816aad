-- ===== src/Examples/Blank.antt =====
-- The constants of `<dolphin/gx.h>`, and a machine whose memory is zero. Floats are stood for by
-- simple functions of their patterns.
use mkwii_ps.Base.{arith, ◌+◌, ◌-◌, ◌*◌, ◌/◌, ◌%◌, ◌^◌, true, false, ◌==◌, if◌then◌else◌, pos, []}
use mkwii_ps.View.{Viewport, ClipRect}
use mkwii_ps.Platform.{Platform}
use mkwii_ps.State.Vec.{Vec4}
use mkwii_ps.State.Tev.{TevPass, TevOp, ChannelId, TevStage, TevState}
use mkwii_ps.State.Pixel.{PixelFmt, BlendMode, FogState, PixelState, RasterState}
use mkwii_ps.State.Copy.{CopyState}
use mkwii_ps.State.Vertex.{VertexState}
use mkwii_ps.State.Transform.{AttnFn, TexGenSrc, TransformState}
use mkwii_ps.State.Texture.{TextureState}
use mkwii_ps.State.Machine.{Machine}
use mkwii_ps.Geometry.Layout.{empty_layout}
use mkwii_ps.Draw.{Draws}
use mkwii_ps.Bp.Fog.{partial_float, fog_b}

abbrev pub origin : Vec4
origin = record { x = 0; y = 0; z = 0; w = 0 }

abbrev pub no_view : Viewport
no_view = record { left = 0; top = 0; width = 0; height = 0; znear = 0; zfar = 0 }

abbrev pub no_rect : ClipRect
no_rect = record { x = pos 0; y = pos 0; width = pos 0; height = pos 0 }

instance abbrev pub dolphin : Platform
dolphin = record {
  max_texmap = 8;
  max_tevstage = 16;
  max_kcolor = 4;
  max_texcoord = 8;
  max_tevswap = 4;
  max_indtexstage = 4;
  max_vtxfmt = 8;
  va_max_attr = 26;
  tb_zero = 0;
  cs_scale_1 = 0;
  texmap_null = 0xFF;
  cull_front = 1;
  cull_back = 2;
  cull_all = 3;
  nrm_xyz = 0;
  nrm_nbt = 1;
  nrm_nbt3 = 2;
  comp_u8 = 0;
  comp_s8 = 1;
  comp_u16 = 2;
  comp_s16 = 3;
  comp_f32 = 4;
  attr_none = 0;
  pos_xy = 0;
  pos_xyz = 1;
  tex_s = 0;
  tex_st = 1;
  clr_rgb565 = 0;
  clr_rgb8 = 1;
  clr_rgbx8 = 2;
  clr_rgba4 = 3;
  clr_rgba8 = 5;
  six_colors = omega arith;
  tg_mtx3x4 = 0;
  tg_mtx2x4 = 1;
  tg_srtg = 10;
  orthographic = 1;
  pnmtx9 = 27;
  color0 = 0;
  color1 = 1;
  alpha0 = 2;
  alpha1 = 3;
  bswap16 = λ x. x % 2 ^ 8 * 2 ^ 8 + x / 2 ^ 8 % 2 ^ 8;
  bswap32 = λ x.
      x % 2 ^ 8 * 2 ^ 24
      + x / 2 ^ 8 % 2 ^ 8 * 2 ^ 16
      + x / 2 ^ 16 % 2 ^ 8 * 2 ^ 8
      + x / 2 ^ 24 % 2 ^ 8;
  bswap64 = λ x. x;
  of_u32 = λ x. x;
  of_s32 = λ x. 0;
  fsub = λ x y. x - y;
  fmul = λ x y. x * y;
  fdiv = λ x y. x;
  fneg = λ x. x;
  ldexp = λ x e. x;
  feq = λ x y. x == y;
  map_viewport = λ s. s.logical_viewport;
  map_scissor = λ s. s.logical_scissor;
}

abbrev pub no_op : TevOp
no_op = record { op = 0; bias = 0; scale = 0; out_reg = 0; clamp = true }

abbrev pub no_pass : TevPass
no_pass = record { a = 0; b = 0; c = 0; d = 0 }

abbrev pub no_stage : TevStage
no_stage = record {
  color_pass = no_pass;
  alpha_pass = no_pass;
  color_op = no_op;
  alpha_op = no_op;
  kc_sel = 0;
  ka_sel = 0;
  tex_coord_id = 0;
  tex_map_id = 0;
  channel_id = ChannelId.color_null;
  tev_swap_ras = 0;
  tev_swap_tex = 0;
  ind_tex_stage = 0;
  ind_tex_format = 0;
  ind_tex_bias_sel = 0;
  ind_tex_alpha_sel = 0;
  ind_tex_mtx_id = 0;
  ind_tex_wrap_s = 0;
  ind_tex_wrap_t = 0;
  ind_tex_use_orig_lod = false;
  ind_tex_add_prev = false;
}

abbrev pub no_tev : TevState
no_tev = record {
  tev_stages = λ _. no_stage;
  tev_swap_table = λ _. record { red = 0; green = 1; blue = 2; alpha = 3 };
  ind_stages = λ _. record { tex_coord_id = 0; tex_map_id = 0; scale_s = 0; scale_t = 0 };
  num_tev_stages = 0;
  num_ind_stages = 0;
  num_tex_gens = 0;
  num_chans = 0;
  color_regs = λ _. origin;
  kcolors = λ _. origin;
  ind_tex_mtxs = λ _. record {
    mtx = record {
      m0 = record { x = 0; y = 0 };
      m1 = record { x = 0; y = 0 };
      m2 = record { x = 0; y = 0 };
    };
    scale_exp = pos 0;
    adj_scale_raw = 0;
  };
  ind_tex_mask = 0;
}

abbrev pub no_pixel : PixelState
no_pixel = record {
  cull_mode = 0;
  blend_mode = BlendMode.bm_none;
  blend_fac_src = 0;
  blend_fac_dst = 0;
  blend_op = 0;
  color_update = false;
  alpha_update = false;
  depth_compare = false;
  depth_func = 0;
  depth_update = false;
  pixel_fmt = PixelFmt.rgb8_z24;
  z_fmt = 0;
  z_comp_loc_before_tex = false;
  z_texture_op = 0;
  z_texture_fmt = 0;
  z_texture_bias = 0;
  dst_alpha = 0xFFFFFFFF;
  alpha_compare = record { comp0 = 0; ref0 = 0; op = 0; comp1 = 0; ref1 = 0 };
  fog_range = λ _. 0;
}

abbrev pub no_raster : RasterState
no_raster = record {
  line_width = 0;
  point_size = 0;
  line_tex_offset = 0;
  point_tex_offset = 0;
  line_half_aspect = false;
  bounding_box = λ _. 0;
  field_mask = 0;
  field_mode = 0;
  rev_bits = 0;
}

abbrev pub no_fog : FogState
no_fog = record {
  fog_type = 0;
  a = partial_float 0;
  b = fog_b 0 0;
  c = partial_float 0;
  a_raw = partial_float 0;
  color = record { x = 0; y = 0; z = 0; w = 1 };
  fog0_raw = 0;
  fog1_raw = 0;
  fog2_raw = 0;
  b_magnitude = 0;
  b_shift = 0;
}

-- With all samples and taps 0, both differ from the default filter.
abbrev pub no_copy : CopyState
no_copy = record {
  disp_copy_src = no_rect;
  tex_copy_fmt = 0;
  tex_copy_half_scale = false;
  disp_copy_dst_width = 640;
  disp_copy_y_scale = 0;
  disp_copy_gamma = 0;
  disp_copy_frame2_field = 0;
  copy_clamp = 0;
  copy_filter_aa = true;
  copy_filter_vf = true;
  copy_filter_sample_pattern = λ _ _. 0;
  copy_filter_vfilter = λ _. 0;
  clear_color = origin;
  clear_depth = 0;
}

abbrev pub no_vertex : VertexState
no_vertex = record {
  last_vtx_fmt = 8;
  vtx_desc = λ _. 0;
  source_vtx_desc = λ _. 0;
  vtx_fmts = λ _ _. record { cnt = 0; comp_type = 0; frac = 0 };
  arrays = λ _. record {
    base = 0;
    size = 0;
    stride = 0;
    le = true;
    cached_range = record { offset = 0; size = 0 };
  };
}

abbrev pub no_transform : TransformState
no_transform = record {
  pn_mtx = λ _. record { pos_mtx = λ _. 0; nrm_mtx = λ _. 0 };
  current_pn_mtx = 0;
  proj = record { m0 = origin; m1 = origin; m2 = origin; m3 = origin };
  proj_type = 0;
  xf_viewport = λ _. 0;
  xf_projection = λ _. 0;
  tex_mtxs = λ _ _. 0;
  pt_tex_mtxs = λ _ _. 0;
  tcgs = λ _. record {
    tcg_type = 0;
    src = TexGenSrc.tg_none;
    mtx = 60;
    post_mtx = 125;
    normalize = false;
    input_form_ab11 = false;
  };
  color_channel_config = λ _. record {
    mat_src = 0;
    amb_src = 0;
    diff_fn = 0;
    attn_fn = AttnFn.af_none;
    lighting_enabled = false;
  };
  color_channel_state = λ _. record { mat_color = origin; amb_color = origin; light_mask = 0 };
  lights = λ _. record {
    position = origin;
    dir = origin;
    color = origin;
    cos_att = origin;
    dist_att = origin;
  };
  prepared_lights_dirty = true;
  xf_error = 0;
  dual_tex = 0;
}

abbrev pub no_texture : TextureState
no_texture = record {
  loaded_textures = λ _. record {
    mode0 = 0;
    mode1 = 0;
    image0 = 0xFFFFFFFF;
    image3 = 0;
    base = 0;
    m_width = 0;
    m_height = 0;
    m_format = 0xFFFFFFFF;
    tlut = 0;
    tex_obj_id = 0;
    tex_data_version = 0;
    flags = 0;
  };
  loaded_tluts = λ _. record {
    tlut = 0;
    load_tlut0 = 0;
    num_entries = 0;
    base = 0;
    format = 0;
    tlut_obj_id = 0;
    tlut_data_version = 0;
    flags = 0;
  };
  tex_coord_scales = λ _. record {
    scale_s = 0;
    scale_t = 0;
    bias_s = false;
    bias_t = false;
    cyl_wrap_s = false;
    cyl_wrap_t = false;
    line_offset = false;
    point_offset = false;
  };
}

abbrev pub blank : Machine
blank = record {
  tev = no_tev;
  pixel = no_pixel;
  raster = no_raster;
  fog = no_fog;
  copy = no_copy;
  view = record {
    viewport_policy = 0;
    logical_viewport = no_view;
    render_viewport = no_view;
    logical_scissor = no_rect;
    render_scissor = no_rect;
    scissor_offset_x = pos 0;
    scissor_offset_y = pos 0;
  };
  vertex = no_vertex;
  transform = no_transform;
  texture = no_texture;
  state_dirty = false;
  pipeline_state_generation = 1;
  bp_reg_cache = λ r. if r == 0xFE then 0x00FFFFFF else 0;
  xf_reg_cache = record { values = λ _. 0; valid = λ _. 0 };
  epoch = 1;
  cp_register_cache = λ _. 0;
  cp_register_cache_valid = λ _. false;
  calls = [];
}

abbrev pub no_draws : Draws
no_draws = record {
  pending = record { records = []; segments = []; layout = empty_layout; format = 0; vertices = 0 };
  submitted = [];
}
