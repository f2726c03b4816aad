-- ===== src/Bp/Handle.antt =====
-- `handle_bp`: the write mask 0xFE, the merge with the cached register, the skip, the switch.
use mkwii_ps.Base.{ℕ, ◌-◌, ◌*◌, ◌/◌, ◌^◌, ◌==◌, ◌!=◌, if◌then◌else◌, update, bit_and, bit_or, Array}
use mkwii_ps.Platform.{Platform}
use mkwii_ps.State.Machine.{Machine}
use mkwii_ps.Bp.Switch.{bp_case, run_case}

-- `(value >> 24) & 0xFF`.
unfoldable pub reg_id_of : ℕ → ℕ
reg_id_of value = bit_and (value / 2 ^ 24) 0xFF

-- The bits of `value` under the mask, those of the cached register elsewhere, below the register id.
unfoldable pub merge : ℕ → ℕ → ℕ → ℕ → ℕ
merge reg_id ss_mask cached value =
    let merged = bit_or (bit_and cached (2 ^ 32 - 1 - ss_mask)) (bit_and value ss_mask) in
    bit_or (reg_id * 2 ^ 24) (bit_and merged 0x00FFFFFF)

abbrev with_bp_cache : Array ℕ → Machine → Machine
with_bp_cache c m = record m { bp_reg_cache = c }

-- The mask holds for one write.
unfoldable pub reset_mask : Machine → Machine
reset_mask m =
    if m.bp_reg_cache 0xFE != 0x00FFFFFF
    then with_bp_cache (update m.bp_reg_cache 0xFE 0x00FFFFFF) m
    else m

module _ ⦃p : Platform⦄ where
  unfoldable pub write_reg : ℕ → ℕ → Machine → Machine
  write_reg reg_id value m =
      if m.bp_reg_cache reg_id == value
      then m
      else run_case (bp_case reg_id) reg_id value
          (with_bp_cache (update m.bp_reg_cache reg_id value) m)

  unfoldable pub handle_bp : ℕ → Machine → Machine
  handle_bp value m =
      let reg_id = reg_id_of value in
      if reg_id == 0xFE
      then with_bp_cache (update m.bp_reg_cache reg_id (bit_and value 0x00FFFFFF)) m
      else write_reg reg_id (merge reg_id (m.bp_reg_cache 0xFE) (m.bp_reg_cache reg_id) value)
          (reset_mask m)
