-- ===== src/Bp/Colors.antt =====
-- BP registers 0xE0 to 0xE7: the colour registers of the texture environment.
use mkwii_ps.Base.{ℕ, ◌-◌, ◌/◌, Bool, ltb, ◌==◌, ◌!=◌, if◌then◌else◌, modify, bit_and, signed32}
use mkwii_ps.Platform.{Platform}
use mkwii_ps.State.Vec.{Vec4}
use mkwii_ps.State.Machine.{Machine, mark_state_dirty}
use mkwii_ps.Bp.Field.{bp_get, sign_extend_11}

-- `MaxTevRegs`: TEVPREV, TEVREG0 to TEVREG2.
abbrev pub max_tev_regs : ℕ
max_tev_regs = 4

module _ ⦃p : Platform⦄ where
  -- `static_cast<float>(x) / 255.f`.
  unfoldable pub unorm8 : ℕ → ℕ
  unorm8 x = p.fdiv (p.of_u32 x) (p.of_u32 255)

  -- An 11-bit signed component.
  unfoldable pub component_11 : ℕ → ℕ
  component_11 bits = p.fdiv (p.of_s32 (signed32 (sign_extend_11 bits))) (p.of_u32 255)

  unfoldable pub k_color : Bool → ℕ → Vec4 → Vec4
  k_color is_ra value kc =
      if is_ra
      then record kc { x = unorm8 (bp_get value 8 0); w = unorm8 (bp_get value 8 12) }
      else record kc { z = unorm8 (bp_get value 8 0); y = unorm8 (bp_get value 8 12) }

  unfoldable pub tev_color : Bool → ℕ → Vec4 → Vec4
  tev_color is_ra value cr =
      if is_ra
      then record cr { x = component_11 (bp_get value 11 0); w = component_11 (bp_get value 11 12) }
      else record cr { z = component_11 (bp_get value 11 0); y = component_11 (bp_get value 11 12) }

  unfoldable pub color_reg : ℕ → ℕ → Machine → Machine
  color_reg reg_id value m =
      let idx = (reg_id - 0xE0) / 2 in
      let is_ra = bit_and reg_id 1 == 0 in
      if bp_get value 1 23 != 0
      then if ltb idx p.max_kcolor
        then mark_state_dirty (record m {
          tev = record m.tev { kcolors = modify m.tev.kcolors idx (k_color is_ra value) };
        })
        else m
      else if ltb idx max_tev_regs
      then mark_state_dirty (record m {
        tev = record m.tev { color_regs = modify m.tev.color_regs idx (tev_color is_ra value) };
      })
      else m
