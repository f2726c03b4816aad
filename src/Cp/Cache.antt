-- ===== src/Cp/Cache.antt =====
-- The cache of CP registers: a write that repeats the last one is skipped.
use mkwii_ps.Base.{ℕ, Bool, true, false, ◌&&◌, ◌||◌, not, ◌==◌, within, if◌then◌else◌, update}
use mkwii_ps.State.Machine.{Machine}

unfoldable pub cacheable_cp_register : ℕ → Bool
cacheable_cp_register addr =
    addr == 0x30 || addr == 0x40 || addr == 0x50 || addr == 0x60 || within 0x70 0x97 addr

unfoldable pub reset_cp_register_cache : Machine → Machine
reset_cp_register_cache m = record m {
  cp_register_cache = λ _. 0;
  cp_register_cache_valid = λ _. false;
}

unfoldable pub cp_register_write_unchanged : ℕ → ℕ → Machine → Bool × Machine
cp_register_write_unchanged addr value m =
    if not (cacheable_cp_register addr)
    then (false, m)
    else if m.cp_register_cache_valid addr && m.cp_register_cache addr == value
    then (true, m)
    else (
      false,
      record m {
        cp_register_cache_valid = update m.cp_register_cache_valid addr true;
        cp_register_cache = update m.cp_register_cache addr value;
      },
    )
