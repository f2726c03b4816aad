-- ===== src/Bp/Flags.antt =====
-- The flags of the copy filter.
use mkwii_ps.Base.{ℕ, ◌≡◌, arith}
use mkwii_ps.Platform.{Platform}
use mkwii_ps.State.Copy.{CopyState}
use mkwii_ps.State.Machine.{Machine}
use mkwii_ps.Bp.Copy.{refresh_copy_filter_flags, any_sample_moved, any_tap_changed}
use mkwii_ps.Bp.Switch.{BpCase, gen_mode_case, bp_case, run_case}
use mkwii_ps.Bp.Keeps.{written, handle_bp-keeps}
use mkwii_ps.Bp.Handle.{handle_bp}

-- The flags say whether the filter differs from the default: a sample moved off (6, 6), a tap changed.
pub record FlagsAgree (c : CopyState) : Type 0 where
  pub aa_set : any_sample_moved 12 0 c.copy_filter_sample_pattern ≡ c.copy_filter_aa
  pub vf_set : any_tap_changed 7 0 c.copy_filter_vfilter ≡ c.copy_filter_vf

module _ ⦃p : Platform⦄ where
  run_case-FlagsAgree :
      (c : BpCase) (r v : ℕ) (m : Machine) → FlagsAgree m.copy → FlagsAgree (run_case c r v m).copy
  unfolding run_case refresh_copy_filter_flags
  run_case-FlagsAgree gen_mode_case r v m h = h
  run_case-FlagsAgree _ r v m h = ground arith

  -- A write to any register keeps the two flags of the copy filter in agreement with its pattern and
  -- its taps.
  pub handle_bp-FlagsAgree :
      (value : ℕ) (m : Machine) → FlagsAgree m.copy → FlagsAgree (handle_bp value m).copy
  handle_bp-FlagsAgree =
      handle_bp-keeps (λ m. FlagsAgree m.copy) (λ v m h. h)
        λ r v m h. run_case-FlagsAgree (bp_case r) r v (written r v m) h
