-- ===== src/Bp/Frame.antt =====
-- What no case of the switch writes.
use mkwii_ps.Base.{ℕ, ◌≡◌, refl, arith}
use mkwii_ps.Platform.{Platform}
use mkwii_ps.State.Machine.{Machine}
use mkwii_ps.Bp.Switch.{BpCase, gen_mode_case, run_case}

module _ ⦃p : Platform⦄ where
  pub run_case-bp_reg_cache :
      (c : BpCase) (r v : ℕ) (m : Machine) → (run_case c r v m).bp_reg_cache ≡ m.bp_reg_cache
  unfolding run_case
  run_case-bp_reg_cache gen_mode_case r v m = refl
  run_case-bp_reg_cache _ r v m = ground arith
