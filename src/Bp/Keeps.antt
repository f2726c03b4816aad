-- ===== src/Bp/Keeps.antt =====
-- One rule for the invariants of `handle_bp`: check a write to the mask and one write with its case.
use mkwii_ps.Base.{
  ℕ, ◌≡◌, ◌≢◌, sym, subst, inl, inr, Bool-cases, ==_iff, Bool, true, false, ◌==◌, ◌!=◌, update,
  bit_and, arith,
}
use mkwii_ps.Platform.{Platform}
use mkwii_ps.State.Machine.{Machine}
use mkwii_ps.Bp.Switch.{BpCase, bp_case, run_case}
use mkwii_ps.Bp.Handle.{handle_bp, write_reg, reset_mask, reg_id_of}

-- One register stored, and nothing decoded yet.
abbrev pub written : ℕ → ℕ → Machine → Machine
written r v m = record m { bp_reg_cache = update m.bp_reg_cache r v }

module _ ⦃p : Platform⦄ (P : Machine → Type 0) where
  pub handle_bp-keeps :
      ((v : ℕ) (m : Machine) → P m → P (written 0xFE v m))
      → ((r v : ℕ) (m : Machine) → P m → P (run_case (bp_case r) r v (written r v m)))
      → (value : ℕ) (m : Machine) → P m
      → P (handle_bp value m)
  unfolding handle_bp write_reg reset_mask
  handle_bp-keeps mask write value m h = elim (Bool-cases (reg_id_of value == 0xFE)) [
    | inl e ↦ rw e (
        subst (λ r. P (written r (at_mask value) m)) (sym ((==_iff _ _).0 e))
          (mask (at_mask value) m h))
    | inr e ↦ rw e (stored (reg_id_of value) _ _ (unmasked m h))
  ]
    where
      at_mask : ℕ → ℕ
      at_mask v = bit_and v 0x00FFFFFF

      unmasked : (m : Machine) → P m → P (reset_mask m)
      unmasked m h = elim (Bool-cases (m.bp_reg_cache 0xFE != 0x00FFFFFF)) [
        | inl e ↦ rw e (mask 0x00FFFFFF m h)
        | inr e ↦ rw e h
      ]

      stored : (r v : ℕ) (m : Machine) → P m → P (write_reg r v m)
      stored r v m h = elim (Bool-cases (m.bp_reg_cache r == v)) [
        | inl e ↦ rw e h
        | inr e ↦ rw e (write r v m h)
      ]

-- A register whose case is not one of a group is none of the group's registers.
pub other_register :
    (group : BpCase → Bool) (r k : ℕ) (c : BpCase)
    → bp_case r ≡ c
    → group c ≡ false
    → group (bp_case k) ≡ true
    → r ≢ k
other_register group r k c e no_case yes_case q = ground (arith, subst (λ x. bp_case x ≡ c) q e)
