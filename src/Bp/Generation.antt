-- ===== src/Bp/Generation.antt =====
-- The pipeline generation, and what a pipeline is built from.
use mkwii_ps.Base.{ℕ, ◌≡◌, refl, ◌⊎◌, inl, inr, Bool-cases, true, ◌==◌, ◌!=◌, Array, update, arith}
use mkwii_ps.Platform.{Platform}
use mkwii_ps.State.Machine.{Machine, next_gx_state_epoch}
use mkwii_ps.Bp.Switch.{BpCase, gen_mode_case, bp_case, run_case}
use mkwii_ps.Bp.Handle.{handle_bp, write_reg, reset_mask, reg_id_of}

-- The parts of the state that a pipeline is built from, and their generation, are the same.
pub record SamePipeline (m m' : Machine) : Type 0 where
  pub stages : m'.tev.tev_stages ≡ m.tev.tev_stages
  pub swaps : m'.tev.tev_swap_table ≡ m.tev.tev_swap_table
  pub ind_stages : m'.tev.ind_stages ≡ m.tev.ind_stages
  pub num_stages : m'.tev.num_tev_stages ≡ m.tev.num_tev_stages
  pub num_ind : m'.tev.num_ind_stages ≡ m.tev.num_ind_stages
  pub num_gens : m'.tev.num_tex_gens ≡ m.tev.num_tex_gens
  pub num_channels : m'.tev.num_chans ≡ m.tev.num_chans
  pub pixel : m'.pixel ≡ m.pixel
  pub fog : m'.fog.fog_type ≡ m.fog.fog_type
  pub vertex : m'.vertex ≡ m.vertex
  pub transform : m'.transform ≡ m.transform
  pub generation : m'.pipeline_state_generation ≡ m.pipeline_state_generation
  pub epoch : m'.epoch ≡ m.epoch

-- The generation is the next epoch, and the state is marked.
pub record Bumped (m m' : Machine) : Type 0 where
  pub generation : m'.pipeline_state_generation ≡ next_gx_state_epoch m.epoch
  pub epoch : m'.epoch ≡ next_gx_state_epoch m.epoch
  pub dirty : m'.state_dirty ≡ true

module _ ⦃p : Platform⦄ where
  run_case-pipeline :
      (k : BpCase) (r v : ℕ) (m : Machine) (c : Array ℕ)
      → SamePipeline m (run_case k r v (record m { bp_reg_cache = c }))
        ⊎ Bumped m (run_case k r v (record m { bp_reg_cache = c }))
  unfolding run_case
  run_case-pipeline gen_mode_case r v m c =
      inr (record { generation = refl; epoch = refl; dirty = refl })
  run_case-pipeline _ r v m c = ground arith

  -- A write to any register either leaves the parts that a pipeline is built from and their
  -- generation as they were, or stamps the next epoch as the generation and marks the state.
  pub handle_bp-pipeline :
      (value : ℕ) (m : Machine) → SamePipeline m (handle_bp value m) ⊎ Bumped m (handle_bp value m)
  unfolding handle_bp write_reg reset_mask
  handle_bp-pipeline value m = elim (Bool-cases (reg_id_of value == 0xFE)) [
    | inl e ↦ rw e (ground arith)
    | inr e ↦ rw e (unmasked (reg_id_of value) _)
  ]
    where
      Sound : Machine → Type 0
      Sound m' = SamePipeline m m' ⊎ Bumped m m'

      stored : (r v : ℕ) (c : Array ℕ) → Sound (write_reg r v (record m { bp_reg_cache = c }))
      stored r v c = elim (Bool-cases (c r == v)) [
        | inl e ↦ rw e (ground arith)
        | inr e ↦ rw e (run_case-pipeline (bp_case r) r v m (update c r v))
      ]

      unmasked : (r v : ℕ) → Sound (write_reg r v (reset_mask m))
      unmasked r v = elim (Bool-cases (m.bp_reg_cache 0xFE != 0x00FFFFFF)) [
        | inl e ↦ rw e (stored r v (update m.bp_reg_cache 0xFE 0x00FFFFFF))
        | inr e ↦ rw e (stored r v m.bp_reg_cache)
      ]
