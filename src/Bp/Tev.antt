-- ===== src/Bp/Tev.antt =====
-- BP registers of the texture environment: 0xC0 to 0xDF, 0x28 to 0x2F, 0xF6 to 0xFD.
use mkwii_ps.Base.{ℕ, ◌+◌, ◌-◌, ◌*◌, ◌/◌, ltb, ◌==◌, ◌!=◌, if◌then◌else◌, modify, bit_or, bit_and}
use mkwii_ps.Platform.{Platform}
use mkwii_ps.State.Tev.{TevOp, TevStage, TevSwap, ChannelId}
use mkwii_ps.State.Machine.{Machine, mark_pipeline_state_dirty}
use mkwii_ps.Bp.Field.{bp_get}

-- `state.tevStages[stage]` changed through a reference.
abbrev pub with_stage : ℕ → (TevStage → TevStage) → Machine → Machine
with_stage stage f m = record m {
  tev = record m.tev { tev_stages = modify m.tev.tev_stages stage f };
}

module _ ⦃p : Platform⦄ where
  -- The operation of a combiner: bias 3 means compare mode, with its operation in bits 18, 20, 21.
  unfoldable pub tev_op : ℕ → TevOp
  tev_op value =
      if bp_get value 2 16 == 3
      then record {
        op = bit_or (bp_get value 1 18) (bp_get value 2 20 * 2) + 8;
        bias = p.tb_zero;
        scale = p.cs_scale_1;
        out_reg = bp_get value 2 22;
        clamp = bp_get value 1 19 != 0;
      }
      else record {
        op = bp_get value 1 18;
        bias = bp_get value 2 16;
        scale = bp_get value 2 20;
        out_reg = bp_get value 2 22;
        clamp = bp_get value 1 19 != 0;
      }

  unfoldable pub color_env : ℕ → TevStage → TevStage
  color_env value s = record s {
    color_pass = record {
      a = bp_get value 4 12;
      b = bp_get value 4 8;
      c = bp_get value 4 4;
      d = bp_get value 4 0;
    };
    color_op = tev_op value;
  }

  unfoldable pub tev_color_env : ℕ → ℕ → Machine → Machine
  tev_color_env reg_id value m =
      let stage = (reg_id - 0xC0) / 2 in
      if ltb stage p.max_tevstage
      then mark_pipeline_state_dirty (with_stage stage (color_env value) m)
      else m

  unfoldable pub alpha_env : ℕ → TevStage → TevStage
  alpha_env value s = record s {
    tev_swap_ras = bp_get value 2 0;
    tev_swap_tex = bp_get value 2 2;
    alpha_pass = record {
      a = bp_get value 3 13;
      b = bp_get value 3 10;
      c = bp_get value 3 7;
      d = bp_get value 3 4;
    };
    alpha_op = tev_op value;
  }

  unfoldable pub tev_alpha_env : ℕ → ℕ → Machine → Machine
  tev_alpha_env reg_id value m =
      let stage = (reg_id - 0xC1) / 2 in
      if ltb stage p.max_tevstage
      then mark_pipeline_state_dirty (with_stage stage (alpha_env value) m)
      else m

  -- `r2c`, the channel of a hardware number below 8.
  unfoldable pub r2c : ℕ → ChannelId
  r2c chan_hw =
      if chan_hw == 0
      then ChannelId.color0a0
      else if chan_hw == 1
      then ChannelId.color1a1
      else if chan_hw == 2
      then ChannelId.color0a0
      else if chan_hw == 3
      then ChannelId.color1a1
      else if chan_hw == 4
      then ChannelId.color0a0
      else if chan_hw == 5
      then ChannelId.alpha_bump
      else if chan_hw == 6
      then ChannelId.alpha_bumpn
      else ChannelId.color_zero

  -- One stage of a texture order register, its fields from bit `shift` on.
  unfoldable pub tev_order : ℕ → ℕ → TevStage → TevStage
  tev_order value shift s =
      let chan_hw = bp_get value 3 (shift + 7) in
      record s {
        tex_map_id =
            if bp_get value 1 (shift + 6) == 0 then p.texmap_null else bp_get value 3 shift;
        tex_coord_id = bp_get value 3 (shift + 3);
        channel_id = if ltb chan_hw 8 then r2c chan_hw else ChannelId.color_null;
      }

  abbrev pub with_stage_below : ℕ → (TevStage → TevStage) → Machine → Machine
  with_stage_below stage f m = if ltb stage p.max_tevstage then with_stage stage f m else m

  unfoldable pub tref : ℕ → ℕ → Machine → Machine
  tref reg_id value m =
      let idx = reg_id - 0x28 in
      mark_pipeline_state_dirty (
        with_stage_below (idx * 2 + 1) (tev_order value 12)
          (with_stage_below (idx * 2) (tev_order value 0) m))

  unfoldable pub swap_entry : ℕ → ℕ → TevSwap → TevSwap
  swap_entry ksel_idx value t =
      if bit_and ksel_idx 1 != 0
      then record t { blue = bp_get value 2 0; alpha = bp_get value 2 2 }
      else record t { red = bp_get value 2 0; green = bp_get value 2 2 }

  unfoldable pub ksel : ℕ → ℕ → Machine → Machine
  ksel reg_id value m =
      let ksel_idx = reg_id - 0xF6 in
      let swapped : Machine =
        if ltb ksel_idx (p.max_tevswap * 2)
        then record m {
          tev = record m.tev {
            tev_swap_table = modify m.tev.tev_swap_table (ksel_idx / 2) (swap_entry ksel_idx value);
          };
        }
        else m in
      mark_pipeline_state_dirty (
        with_stage_below (ksel_idx * 2 + 1)
          (λ s. record s { kc_sel = bp_get value 5 14; ka_sel = bp_get value 5 19 })
          (with_stage_below (ksel_idx * 2)
            (λ s. record s { kc_sel = bp_get value 5 4; ka_sel = bp_get value 5 9 }) swapped))
