-- ===== src/Examples/Runs.antt =====
-- The theorems at concrete inputs.
use mkwii_ps.Base.{
  ℕ, ◌==◌, if◌then◌else◌, ◌≤◌, ◌≡◌, ◌⊎◌, refl, true, arith, some, List, [], ◌∷◌, get_elem?, Returns,
  returns,
}
use mkwii_ps.Base.Outcome.{Exception, ok, throws, done, thrown}
use mkwii_ps.State.Cache.{store_xf_reg}
use mkwii_ps.State.Machine.{Machine}
use mkwii_ps.State.XfMap.{RefinesMap, xf_cache-RefinesMap}
use mkwii_ps.Reader.Total.{Readable-get_elem?}
use mkwii_ps.Bp.Field.{bp_get}
use mkwii_ps.Bp.Pixel.{decode_pixel_fmt, blend_mode_of, cull_of_hw}
use mkwii_ps.Bp.Colors.{unorm8}
use mkwii_ps.Bp.Copy.{any_sample_moved, any_tap_changed}
use mkwii_ps.Bp.Handle.{handle_bp, reg_id_of}
use mkwii_ps.Bp.Decoded.Pixel.{PixelAgrees, handle_bp-PixelAgrees}
use mkwii_ps.Bp.Decoded.Fog.{FogAgrees, handle_bp-FogAgrees}
use mkwii_ps.Bp.Masked.{IsMasked, handle_bp-IsMasked}
use mkwii_ps.Bp.Flags.{FlagsAgree, handle_bp-FlagsAgree}
use mkwii_ps.Bp.Generation.{SamePipeline, Bumped, handle_bp-pipeline}
use mkwii_ps.Bp.Extents.{InExtents, handle_bp-InExtents}
use mkwii_ps.Cp.Handle.{handle_cp}
use mkwii_ps.Cp.Repeat.{cp_writes, handle_cp-repeat}
use mkwii_ps.Cp.Cache.{cacheable_cp_register}
use mkwii_ps.Cp.Agrees.{VcdAgrees, handle_cp-VcdAgrees}
use mkwii_ps.Xf.Handle.{handle_xf}
use mkwii_ps.Xf.Total.{handle_xf-Returns}
use mkwii_ps.Fifo.Commands.{Commands, Exit, Host}
use mkwii_ps.Fifo.Process.{process}
use mkwii_ps.Fifo.Total.{AreBytes-get_elem?, process_total}
use mkwii_ps.Fifo.Total.Dispatch.{CommandLaws, draws_of}
use mkwii_ps.Draw.Sink.{SinkSound, Empty}
use mkwii_ps.Examples.Blank.{dolphin, blank, no_draws}
use mkwii_ps.Geometry.Indices.{
  quads, triangle_strip, build_indices, reserved, DrawSegment, count_segments, segment_index_count,
  segment_indices, gx_primitive_from_command,
}
use mkwii_ps.Geometry.Bounds.{Fills, build_indices-Fills}
use mkwii_ps.Geometry.Merged.{segment_indices-Returns}
use mkwii_ps.Geometry.Commands.{gx_primitive_from_command-Returns}
use mkwii_ps.Fifo.Process.{is_draw_cmd}
use mkwii_ps.Base.{Anything}
use mkwii_ps.Bp.Encoded.{
  OpFields, packed, Decodes, tex_register, decode_tex_bp_reg-tex_register, color_env-Decodes,
}
use mkwii_ps.Bp.Tev.{color_env}
use mkwii_ps.Bp.Texture.{decode_tex_bp_reg}
use mkwii_ps.Bp.Indirect.{ind_mtx_column}
use mkwii_ps.Bp.Scale.{scale_of, HasScale, ind_mtx_column-HasScale}

-- LOAD_BP 0x40, big-endian: the depth test is on, `less or equal`, with updates.
abbrev z_write : ℕ
z_write = 0x40000017

handle_bp-PixelAgrees_example :
    PixelAgrees (handle_bp z_write blank).pixel (handle_bp z_write blank).bp_reg_cache
unfolding cull_of_hw blend_mode_of decode_pixel_fmt bp_get
handle_bp-PixelAgrees_example = handle_bp-PixelAgrees z_write blank (record {
  cull = refl;
  compare_on = refl;
  func = refl;
  depth_on = refl;
  color_on = refl;
  alpha_on = refl;
  dst_factor = refl;
  src_factor = refl;
  logic = refl;
  mode = refl;
  constant_alpha = refl;
  format = refl;
  z_format = refl;
  z_early = refl;
  z_bias = refl;
  z_fmt_bits = refl;
  z_op = refl;
  alpha_test = refl;
  range = λ i lt. ground arith;
})

handle_bp-FogAgrees_example :
    FogAgrees (handle_bp 0xEE012345 blank).fog (handle_bp 0xEE012345 blank).bp_reg_cache
unfolding bp_get unorm8
handle_bp-FogAgrees_example = handle_bp-FogAgrees 0xEE012345 blank (record {
  raw0 = refl;
  raw1 = refl;
  raw2 = refl;
  a_bits = refl;
  a_scaled = refl;
  shift = refl;
  magnitude = refl;
  b_scaled = refl;
  kind = refl;
  c_bits = refl;
  tint = refl;
})

handle_bp-FlagsAgree_example : FlagsAgree (handle_bp 0x01666666 blank).copy
unfolding any_sample_moved any_tap_changed
handle_bp-FlagsAgree_example =
    handle_bp-FlagsAgree 0x01666666 blank (record { aa_set = refl; vf_set = refl })

handle_bp-IsMasked_example :
    IsMasked z_write blank.bp_reg_cache (handle_bp z_write blank).bp_reg_cache
unfolding reg_id_of
handle_bp-IsMasked_example = handle_bp-IsMasked z_write blank (ground arith) (ground arith)

handle_bp-pipeline_example :
    SamePipeline blank (handle_bp z_write blank) ⊎ Bumped blank (handle_bp z_write blank)
handle_bp-pipeline_example = handle_bp-pipeline z_write blank

handle_bp-InExtents_example : InExtents blank (handle_bp 0x6500000A blank)
handle_bp-InExtents_example = handle_bp-InExtents 0x6500000A blank

xf_cache-RefinesMap_example : RefinesMap (store_xf_reg 0x3F 2 blank.xf_reg_cache)
xf_cache-RefinesMap_example = xf_cache-RefinesMap (store_xf_reg 0x3F 2 blank.xf_reg_cache)

handle_cp-VcdAgrees_example : VcdAgrees (handle_cp 0x50 0x2200 blank)
handle_cp-VcdAgrees_example = handle_cp-VcdAgrees 0x50 0x2200 blank (record {
  low = λ i lt e. ground arith;
  high = λ i ge lt e. ground arith;
  source_low = λ i lt e. refl;
  source_high = λ i ge lt e. refl;
})

-- One transform-unit register: 0x1009 (the number of channels) is set to 1.
abbrev channels : List ℕ
channels = 0x10 ∷ 0x00 ∷ 0x00 ∷ 0x10 ∷ 0x09 ∷ 0x00 ∷ 0x00 ∷ 0x00 ∷ 0x01 ∷ []

handle_xf-Returns_example :
    Returns (λ r. (1 ≤ r.0) × (r.0 ≤ 9)) (handle_xf (get_elem? channels) 1 9 true blank)
handle_xf-Returns_example =
    handle_xf-Returns (get_elem? channels) 1 9 true blank (Readable-get_elem? channels)
      (ground arith)

instance abbrev gx_commands : Commands
gx_commands = record {
  opcode_mask = 0xF8;
  cmd_nop = 0x00;
  cmd_load_bp_reg = 0x60;
  cmd_load_cp_reg = 0x08;
  cmd_load_xf_reg = 0x10;
  cmd_load_indx_a = 0x20;
  cmd_load_indx_b = 0x28;
  cmd_load_indx_c = 0x30;
  cmd_load_indx_d = 0x38;
  cmd_call_dl = 0x40;
  cmd_inval_vtx = 0x48;
  load_aurora = 0x50;
  pos_mtx_array = 21;
  aurora_viewport_render = 0x01;
  aurora_scissor_render = 0x02;
  aurora_arraybase = 0x10;
  aurora_arraybase_last = 0x1F;
  aurora_texobj = 0x20;
  aurora_tlut = 0x21;
  aurora_destroy_texobj = 0x22;
  aurora_destroy_tlut = 0x23;
  aurora_destroy_copy_tex = 0x24;
  aurora_invalidate_tex_all = 0x25;
  aurora_debug_group_push = 0x26;
  aurora_debug_group_pop = 0x27;
  aurora_debug_marker_insert = 0x28;
}

-- A renderer that takes every geometry and resolves no array.
abbrev taker : Host
taker = record {
  sink = some (record {
    resolve = λ attr a offset bytes. throws Exception.out_of_range;
    submit = λ g m. ok tt;
  });
  memory = λ _. some 0;
}

-- Positions of two bytes, in the vertex record.
abbrev flat : Machine
flat = record blank { vertex = record blank.vertex { vtx_desc = λ i. if i == 9 then 1 else 0 } }

-- Two triangles with padding between them, then an XF load that the buffer cuts off.
abbrev two_triangles : List ℕ
two_triangles =
    0x90 ∷ 0 ∷ 3 ∷ 1 ∷ 1 ∷ 2 ∷ 1 ∷ 1 ∷ 2 ∷ 0x00 ∷ 0x90 ∷ 0 ∷ 3 ∷ 5 ∷ 5 ∷ 6 ∷ 5 ∷ 5 ∷ 6 ∷ 0x10 ∷ 0x00
    ∷ []

codes_hold : CommandLaws
codes_hold = record {
  mask = refl;
  nop = refl;
  bp = omega arith;
  cp = omega arith;
  xf = omega arith;
  indx_a = omega arith;
  indx_b = omega arith;
  indx_c = omega arith;
  indx_d = omega arith;
  call_dl = omega arith;
  inval_vtx = omega arith;
  aurora = omega arith;
}

process_total_example :
    (e : Exit) × (process taker two_triangles true flat no_draws ≡ some e) × Empty (draws_of e)
unfolding SinkSound
process_total_example =
    process_total codes_hold taker
      (record { mapped = λ a. returns tt; receiver = (λ attr a o n. thrown, λ g m. done tt) })
      two_triangles true flat no_draws (AreBytes-get_elem? two_triangles refl) refl

build_indices-Fills_example : Fills (reserved triangle_strip 5) 5 (build_indices triangle_strip 5)
build_indices-Fills_example = build_indices-Fills triangle_strip 5 (ground arith)

-- A quad and a strip of four vertices, drawn together.
abbrev pair_of_draws : List DrawSegment
pair_of_draws =
    record { primitive = quads; count = 4 } ∷ record { primitive = triangle_strip; count = 4 } ∷ []

segment_indices-Returns_example :
    Returns (λ r. (r.0 ≡ 12) × Fills 12 8 r.1) (segment_indices pair_of_draws)
unfolding count_segments segment_index_count
segment_indices-Returns_example = segment_indices-Returns pair_of_draws 8 12 refl (ground arith)

gx_primitive_from_command-Returns_example : Returns Anything (gx_primitive_from_command 0x98)
unfolding is_draw_cmd
gx_primitive_from_command-Returns_example =
    gx_primitive_from_command-Returns 0x98 (ground arith) refl

decode_tex_bp_reg-tex_register_example : decode_tex_bp_reg 0xA9 ≡ tex_register 0xA9
decode_tex_bp_reg-tex_register_example = decode_tex_bp_reg-tex_register 0xA9 refl (ground arith)

abbrev some_op : OpFields
some_op = record { bias = 1; op = 1; clamp = 1; scale = 2; out_reg = 3; small = ground arith }

color_env-Decodes_example :
    Decodes some_op 15 8 2 1 (color_env (packed some_op 15 8 2 1) (blank.tev.tev_stages 0))
color_env-Decodes_example =
    color_env-Decodes some_op 15 8 2 1 (blank.tev.tev_stages 0) (ground arith) (ground arith)
      (ground arith) (ground arith)

ind_mtx_column-HasScale_example :
    HasScale (scale_of (bp_get 0x00400000 2 22) (bp_get 0x00800000 2 22) (bp_get 0x00C00000 2 22)) (
      ind_mtx_column 2 0x00C00000
        (ind_mtx_column 1 0x00800000 (ind_mtx_column 0 0x00400000 (blank.tev.ind_tex_mtxs 0))))
ind_mtx_column-HasScale_example =
    ind_mtx_column-HasScale 0x00400000 0x00800000 0x00C00000 (blank.tev.ind_tex_mtxs 0)
      (ground arith)

-- Descriptors, then a matrix index and a format, then the descriptors again.
abbrev between : List (ℕ × ℕ)
between = (0x30, 7) ∷ (0x70, 0x41) ∷ []

handle_cp-repeat_example :
    handle_cp 0x50 0x2200 (cp_writes between (handle_cp 0x50 0x2200 blank))
    ≡ cp_writes between (handle_cp 0x50 0x2200 blank)
unfolding cacheable_cp_register
handle_cp-repeat_example =
    handle_cp-repeat 0x50 0x2200 between blank refl (ground arith, (ground arith, tt))
