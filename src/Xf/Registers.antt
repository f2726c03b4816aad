-- ===== src/Xf/Registers.antt =====
-- The registers of the transform unit, XF 0x1000 on: the switch of `handle_xf`.
use mkwii_ps.Base.{
  ℕ, ◌+◌, ◌-◌, ◌*◌, ◌%◌, ◌^◌, ltb, ◌==◌, ◌!=◌, within, if◌then◌else◌, update, modify, bit_or, Array,
}
use mkwii_ps.Platform.{Platform}
use mkwii_ps.State.Vec.{Mat4}
use mkwii_ps.State.Transform.{AttnFn, TexGenSrc, TcgConfig, TransformState}
use mkwii_ps.State.Machine.{Machine, mark_pipeline_state_dirty, mark_state_dirty}
use mkwii_ps.Backend.{set_logical_viewport}
use mkwii_ps.MatrixIndex.{matrix_index_a, matrix_index_b}
use mkwii_ps.Bp.Field.{bp_get}
use mkwii_ps.Xf.Memory.{unpack_color}

abbrev pub max_color_channels : ℕ
max_color_channels = 4

abbrev with_tcgs : (Array TcgConfig → Array TcgConfig) → Machine → Machine
with_tcgs f m = record m { transform = record m.transform { tcgs = f m.transform.tcgs } }

unfoldable pub attn_fn_of : ℕ → AttnFn
attn_fn_of bits =
    if bits == 1 then AttnFn.af_spec else if bits == 3 then AttnFn.af_spot else AttnFn.af_none

unfoldable pub channel_control : ℕ → ℕ → Machine → Machine
channel_control chan_id val m =
    if ltb chan_id max_color_channels
    then mark_pipeline_state_dirty (record m {
      transform = record m.transform {
        color_channel_config = update m.transform.color_channel_config chan_id (record {
          mat_src = bp_get val 1 0;
          amb_src = bp_get val 1 6;
          diff_fn = bp_get val 2 7;
          attn_fn = attn_fn_of (bp_get val 2 9);
          lighting_enabled = bp_get val 1 1 != 0;
        });
        color_channel_state =
            modify m.transform.color_channel_state chan_id
              (λ s. record s { light_mask = bit_or (bp_get val 4 2) (bp_get val 4 11 * 2 ^ 4) });
      };
    })
    else m

-- `rowToSrc` for a row below 13.
unfoldable pub row_to_src : ℕ → TexGenSrc
row_to_src row =
    if row == 0
    then TexGenSrc.tg_pos
    else if row == 1
    then TexGenSrc.tg_nrm
    else if row == 2
    then TexGenSrc.tg_color0
    else if row == 3
    then TexGenSrc.tg_binrm
    else if row == 4
    then TexGenSrc.tg_tangent
    else TexGenSrc.tg_tex (row - 5)

module _ ⦃p : Platform⦄ where
  -- The ambient or material colours of a channel and of its alpha.
  abbrev set_amb : ℕ → ℕ → ℕ → Machine → Machine
  set_amb color alpha val m = mark_state_dirty (record m {
    transform = record m.transform {
      color_channel_state =
          modify
            (modify m.transform.color_channel_state color
              (λ s. record s { amb_color = unpack_color val }))
            alpha (λ s. record s { amb_color = unpack_color val });
    };
  })

  abbrev set_mat : ℕ → ℕ → ℕ → Machine → Machine
  set_mat color alpha val m = mark_state_dirty (record m {
    transform = record m.transform {
      color_channel_state =
          modify
            (modify m.transform.color_channel_state color
              (λ s. record s { mat_color = unpack_color val }))
            alpha (λ s. record s { mat_color = unpack_color val });
    };
  })

  -- A type above 3 leaves the generator's type as it was, a row above 12 its source.
  unfoldable pub tex_gen : ℕ → TcgConfig → TcgConfig
  tex_gen val tcg =
      let tg_type = bp_get val 3 4 in
      let src_row = bp_get val 5 7 in
      record tcg {
        input_form_ab11 = bp_get val 1 2 == 0;
        tcg_type =
            if tg_type == 0
            then (if bp_get val 1 1 != 0 then p.tg_mtx3x4 else p.tg_mtx2x4)
            else if tg_type == 1
            then bp_get val 3 15 + 2
            else if tg_type == 2
            then p.tg_srtg
            else if tg_type == 3
            then p.tg_srtg
            else tcg.tcg_type;
        src = if ltb src_row 13 then row_to_src src_row else tcg.src;
      }

  unfoldable pub tex_gen_reg : ℕ → ℕ → Machine → Machine
  tex_gen_reg tc_idx val m =
      if ltb tc_idx p.max_texcoord
      then mark_pipeline_state_dirty (with_tcgs (λ t. modify t tc_idx (tex_gen val)) m)
      else m

  unfoldable pub post_mtx_reg : ℕ → ℕ → Machine → Machine
  post_mtx_reg tc_idx val m =
      if ltb tc_idx p.max_texcoord
      then mark_pipeline_state_dirty (
          with_tcgs
            (λ t. modify t tc_idx (λ tcg. record tcg {
              post_mtx = bp_get val 6 0 + 64;
              normalize = bp_get val 1 8 != 0;
            }))
            m)
      else m

  unfoldable pub projection_reg : ℕ → ℕ → TransformState → TransformState
  projection_reg proj_off val t =
      if ltb proj_off 6
      then record t { xf_projection = update t.xf_projection proj_off val }
      else record t { proj_type = val }

  -- The viewport's 24-bit depth scale is 16777216.
  unfoldable pub apply_xf_viewport : Machine → Machine
  apply_xf_viewport m =
      let vp = m.transform.xf_viewport in
      let two = p.of_u32 2 in
      let width = p.fmul (vp 0) two in
      let height = p.fmul (p.fneg (vp 1)) two in
      set_logical_viewport
        (record {
          left = p.fsub (p.fsub (vp 3) (p.of_u32 340)) (p.fdiv width two);
          top = p.fsub (p.fsub (vp 4) (p.of_u32 340)) (p.fdiv height two);
          width = width;
          height = height;
          znear = p.fdiv (p.fsub (vp 5) (vp 2)) (p.of_u32 16777216);
          zfar = p.fdiv (vp 5) (p.of_u32 16777216);
        })
        m

  unfoldable pub projection_of : ℕ → Array ℕ → Mat4
  projection_of proj_type raw =
      if proj_type == p.orthographic
      then record {
        m0 = record { x = raw 0; y = 0; z = 0; w = raw 1 };
        m1 = record { x = 0; y = raw 2; z = 0; w = raw 3 };
        m2 = record { x = 0; y = 0; z = raw 4; w = raw 5 };
        m3 = record { x = 0; y = 0; z = 0; w = p.of_u32 1 };
      }
      else record {
        m0 = record { x = raw 0; y = 0; z = raw 1; w = 0 };
        m1 = record { x = 0; y = raw 2; z = raw 3; w = 0 };
        m2 = record { x = 0; y = 0; z = raw 4; w = raw 5 };
        m3 = record { x = 0; y = 0; z = p.fneg (p.of_u32 1); w = 0 };
      }

  unfoldable pub apply_xf_projection : Machine → Machine
  apply_xf_projection m = mark_state_dirty (record m {
    transform = record m.transform {
      proj = projection_of m.transform.proj_type m.transform.xf_projection;
    };
  })

  -- The counts are u8.
  unfoldable pub xf_switch : ℕ → ℕ → Machine → Machine
  xf_switch reg val m =
      let t = m.transform in
      if reg == 0x00
      then record m { transform = record t { xf_error = val } }
      else if reg == 0x09
      then mark_state_dirty (record m { tev = record m.tev { num_chans = val % 2 ^ 8 } })
      else if reg == 0x0A
      then set_amb p.color0 p.alpha0 val m
      else if reg == 0x0B
      then set_amb p.color1 p.alpha1 val m
      else if reg == 0x0C
      then set_mat p.color0 p.alpha0 val m
      else if reg == 0x0D
      then set_mat p.color1 p.alpha1 val m
      else if within 0x0E 0x11 reg
      then channel_control (reg - 0x0E) val m
      else if reg == 0x12
      then mark_pipeline_state_dirty (record m { transform = record t { dual_tex = val } })
      else if reg == 0x18
      then mark_pipeline_state_dirty (record m { transform = matrix_index_a val t })
      else if reg == 0x19
      then mark_pipeline_state_dirty (record m { transform = matrix_index_b val t })
      else if within 0x1A 0x1F reg
      then record m { transform = record t { xf_viewport = update t.xf_viewport (reg - 0x1A) val } }
      else if within 0x20 0x26 reg
      then record m { transform = projection_reg (reg - 0x20) val t }
      else if reg == 0x3F
      then mark_pipeline_state_dirty
          (record m { tev = record m.tev { num_tex_gens = val % 2 ^ 8 } })
      else if within 0x40 0x4F reg
      then tex_gen_reg (reg - 0x40) val m
      else if within 0x50 0x5F reg
      then post_mtx_reg (reg - 0x50) val m
      else m
