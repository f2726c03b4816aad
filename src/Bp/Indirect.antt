-- ===== src/Bp/Indirect.antt =====
-- BP registers of indirect texturing: 0x06 to 0x1F, 0x25 to 0x27.
use mkwii_ps.Base.{
  ℕ, zero, suc, ◌+◌, ◌-◌, ◌*◌, ◌/◌, ◌%◌, ◌^◌, ltb, ◌==◌, ◌!=◌, if◌then◌else◌, modify, bit_or,
  bit_and, ℤ, signed8, signed32, Array,
}
use mkwii_ps.Platform.{Platform}
use mkwii_ps.State.Vec.{Vec2, Mat3x2}
use mkwii_ps.State.Tev.{TevStage, IndStage, IndTexMtxInfo}
use mkwii_ps.State.Machine.{Machine, mark_pipeline_state_dirty, mark_state_dirty}
use mkwii_ps.Bp.Field.{bp_get, sign_extend_11}
use mkwii_ps.Bp.Tev.{with_stage}

-- The 0x0F register: `static_cast<u8>(value & 0xFF)`.
unfoldable pub set_ind_tex_mask : ℕ → Machine → Machine
set_ind_tex_mask value m =
    mark_state_dirty (record m { tev = record m.tev { ind_tex_mask = bit_and value 0xFF } })

unfoldable pub ind_cmd : ℕ → TevStage → TevStage
ind_cmd value s = record s {
  ind_tex_stage = bp_get value 2 0;
  ind_tex_format = bp_get value 2 2;
  ind_tex_bias_sel = bp_get value 3 4;
  ind_tex_alpha_sel = bp_get value 2 7;
  ind_tex_mtx_id = bp_get value 4 9;
  ind_tex_wrap_s = bp_get value 3 13;
  ind_tex_wrap_t = bp_get value 3 16;
  ind_tex_use_orig_lod = bp_get value 1 19 != 0;
  ind_tex_add_prev = bp_get value 1 20 != 0;
}

abbrev with_ind_stages : (Array IndStage → Array IndStage) → Machine → Machine
with_ind_stages f m = record m { tev = record m.tev { ind_stages = f m.tev.ind_stages } }

-- The packed column of a matrix: `column == 0 ? m0 : (column == 1 ? m1 : m2)`.
unfoldable pub set_column : ℕ → Vec2 → Mat3x2 → Mat3x2
set_column column v t =
    if column == 0
    then record t { m0 = v }
    else if column == 1
    then record t { m1 = v }
    else record t { m2 = v }

-- `~x` on a u32, where `x` fits.
abbrev not32 : ℕ → ℕ
not32 x = 2 ^ 32 - 1 - x

-- `adjScaleRaw` is a u8: the assignment cuts the u32 off.
unfoldable pub adj_scale : ℕ → ℕ → ℕ → ℕ
adj_scale column scale_bits raw =
    let shift = column * 2 in
    if column == 2
    then bit_or (bit_and raw (not32 (2 ^ shift))) (bit_and scale_bits 1 * 2 ^ shift) % 2 ^ 8
    else bit_or (bit_and raw (not32 (3 * 2 ^ shift))) (scale_bits * 2 ^ shift) % 2 ^ 8

-- `static_cast<s8>(adjScaleRaw) - 17`, stored in an s8.
unfoldable pub scale_exponent : ℕ → ℤ
scale_exponent raw = signed8 ((raw + 2 ^ 8 - 17) % 2 ^ 8)

module _ ⦃p : Platform⦄ where
  unfoldable pub tev_indirect : ℕ → ℕ → Machine → Machine
  tev_indirect reg_id value m =
      let stage = reg_id - 0x10 in
      if ltb stage p.max_tevstage
      then mark_pipeline_state_dirty (with_stage stage (ind_cmd value) m)
      else m

  -- Two stages, from `first` on; those past `MaxIndStages` are left out.
  unfoldable pub ind_scale : ℕ → ℕ → Machine → Machine
  ind_scale first value m = mark_pipeline_state_dirty (
      with_ind_stages
        (λ t.
          let t' : Array IndStage =
            if ltb first p.max_indtexstage
            then modify t first
                (λ s. record s { scale_s = bp_get value 4 0; scale_t = bp_get value 4 4 })
            else t in
          if ltb (first + 1) p.max_indtexstage
          then modify t' (first + 1)
              (λ s. record s { scale_s = bp_get value 4 8; scale_t = bp_get value 4 12 })
          else t')
        m)

  -- `for (i = 0; i < MaxIndStages; i++)`, by the rounds left.
  unfoldable pub ind_refs : ℕ → ℕ → ℕ → Array IndStage → Array IndStage
  ind_refs zero i value t = t
  ind_refs (suc n) i value t = ind_refs n (i + 1) value (
      modify t i (λ s. record s {
        tex_map_id = bp_get value 3 (i * 6);
        tex_coord_id = bp_get value 3 (i * 6 + 3);
      }))

  unfoldable pub ind_ref : ℕ → Machine → Machine
  ind_ref value m =
      mark_pipeline_state_dirty (with_ind_stages (ind_refs p.max_indtexstage 0 value) m)

  unfoldable pub ind_mtx_column : ℕ → ℕ → IndTexMtxInfo → IndTexMtxInfo
  ind_mtx_column column value info =
      let raw = adj_scale column (bp_get value 2 22) info.adj_scale_raw in
      record {
        mtx =
            set_column column
              (record {
                x =
                    p.fdiv (p.of_s32 (signed32 (sign_extend_11 (bp_get value 11 0))))
                      (p.of_u32 1024);
                y =
                    p.fdiv (p.of_s32 (signed32 (sign_extend_11 (bp_get value 11 11))))
                      (p.of_u32 1024);
              })
              info.mtx;
        adj_scale_raw = raw;
        scale_exp = scale_exponent raw;
      }

  unfoldable pub ind_mtx : ℕ → ℕ → Machine → Machine
  ind_mtx reg_id value m =
      let idx = (reg_id - 0x06) / 3 in
      mark_state_dirty (record m {
        tev = record m.tev {
          ind_tex_mtxs = modify m.tev.ind_tex_mtxs idx (ind_mtx_column ((reg_id - 0x06) % 3) value);
        };
      })
