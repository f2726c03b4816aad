-- ===== src/Bp/Masked.antt =====
-- The masked write of `handle_bp`.
use mkwii_ps.Base.{
  ℕ, ◌-◌, ◌*◌, ◌/◌, ◌%◌, ◌^◌, ◌<◌, ◌≡◌, ◌≢◌, inl, inr, Bool-cases, ◌==◌, if◌then◌else◌, Array,
  update, bit_and, bit_or, arith, bit, bit-bit_and, bit-bit_or, bit_complement, bit_shifted,
  bit_or_sum, bit_and_mask,
}
use mkwii_ps.Platform.{Platform}
use mkwii_ps.State.Machine.{Machine}
use mkwii_ps.Bp.Switch.{bp_case}
use mkwii_ps.Bp.Frame.{run_case-bp_reg_cache}
use mkwii_ps.Bp.Handle.{handle_bp, write_reg, reset_mask, reg_id_of, merge}

low_bits : (i x : ℕ) → i < 24 → bit i (bit_and x 0x00FFFFFF) ≡ bit i x
low_bits i x lt = ground (arith, bit-bit_and i x 0x00FFFFFF, bit_complement i 24 0 lt)

bit-merge :
    (reg_id mask cached value i : ℕ)
    → mask < 2 ^ 24
    → i < 24
    → bit i (merge reg_id mask cached value)
      ≡ (if bit i mask == 1 then bit i value else bit i cached)
unfolding merge
bit-merge reg_id mask cached value i fits lt = ground (
  arith,
  bit-bit_or i (reg_id * 2 ^ 24)
      (bit_and (bit_or (bit_and cached (2 ^ 32 - 1 - mask)) (bit_and value mask)) 0x00FFFFFF),
  bit_shifted i 24 reg_id lt,
  low_bits i (bit_or (bit_and cached (2 ^ 32 - 1 - mask)) (bit_and value mask)) lt,
  bit-bit_or i (bit_and cached (2 ^ 32 - 1 - mask)) (bit_and value mask),
  bit-bit_and i cached (2 ^ 32 - 1 - mask),
  bit-bit_and i value mask,
  bit_complement i 32 mask (omega arith) (omega arith),
)

merge-top : (reg_id mask cached value : ℕ) → merge reg_id mask cached value / 2 ^ 24 ≡ reg_id
unfolding merge
merge-top reg_id mask cached value =
    let low : ℕ = bit_or (bit_and cached (2 ^ 32 - 1 - mask)) (bit_and value mask) in
    ground (arith, bit_and_mask 24 low, bit_or_sum 24 reg_id (low % 2 ^ 24) (omega arith))

reset_mask-bp_reg_cache :
    (m : Machine) (r : ℕ) → (reset_mask m).bp_reg_cache r ≡ update m.bp_reg_cache 0xFE 0x00FFFFFF r
unfolding reset_mask
reset_mask-bp_reg_cache m r = ground arith

module _ ⦃p : Platform⦄ where
  write_reg-bp_reg_cache :
      (reg_id v : ℕ) (m : Machine) (r : ℕ)
      → (write_reg reg_id v m).bp_reg_cache r ≡ update m.bp_reg_cache reg_id v r
  unfolding write_reg
  write_reg-bp_reg_cache reg_id v m r = elim (Bool-cases (m.bp_reg_cache reg_id == v)) [
    | inl e ↦ rw e (ground arith)
    | inr e ↦ rw (e, run_case-bp_reg_cache (bp_case reg_id) reg_id v _)
  ]

  -- The register file behind a write to any register but the mask.
  pub handle_bp-bp_reg_cache :
      (value : ℕ) (m : Machine) (r : ℕ)
      → reg_id_of value ≢ 0xFE
      → (handle_bp value m).bp_reg_cache r ≡ (
          if r == reg_id_of value
          then merge
              (reg_id_of value)
              (m.bp_reg_cache 0xFE)
              (m.bp_reg_cache (reg_id_of value))
              value
          else if r == 0xFE
          then 0x00FFFFFF
          else m.bp_reg_cache r)
  unfolding handle_bp
  handle_bp-bp_reg_cache value m r ne =
      let reg_id = reg_id_of value in
      let v = merge reg_id (m.bp_reg_cache 0xFE) (m.bp_reg_cache reg_id) value in
      ground (arith, write_reg-bp_reg_cache reg_id v (reset_mask m) r, reset_mask-bp_reg_cache m r)

  -- What a masked write leaves in the register file `c'`, from the file `c` before it.
  pub record IsMasked (value : ℕ) (c c' : Array ℕ) : Type 0 where
    pub bits :
        (i : ℕ)
        → i < 24
        → bit i (c' (reg_id_of value))
          ≡ (if bit i (c 0xFE) == 1 then bit i value else bit i (c (reg_id_of value)))
    pub top : c' (reg_id_of value) / 2 ^ 24 ≡ reg_id_of value
    pub mask_open : c' 0xFE ≡ 0x00FFFFFF
    pub others : (r : ℕ) → r ≢ reg_id_of value → r ≢ 0xFE → c' r ≡ c r

  -- A write to a register other than the mask takes the bits under the mask from the new value and
  -- the others from the old one, keeps the register's number above them, opens the mask for the next
  -- write, and leaves all other registers alone.
  pub handle_bp-IsMasked :
      (value : ℕ) (m : Machine)
      → reg_id_of value ≢ 0xFE
      → m.bp_reg_cache 0xFE < 2 ^ 24
      → IsMasked value m.bp_reg_cache (handle_bp value m).bp_reg_cache
  handle_bp-IsMasked value m ne fits = record {
    bits = λ i lt. ground (
      arith,
      handle_bp-bp_reg_cache value m reg_id ne,
      bit-merge reg_id (m.bp_reg_cache 0xFE) (m.bp_reg_cache reg_id) value i fits lt,
    );
    top = ground (
      arith,
      handle_bp-bp_reg_cache value m reg_id ne,
      merge-top reg_id (m.bp_reg_cache 0xFE) (m.bp_reg_cache reg_id) value,
    );
    mask_open = ground (arith, handle_bp-bp_reg_cache value m 0xFE ne);
    others = λ r a b. ground (arith, handle_bp-bp_reg_cache value m r ne);
  }
    where
      reg_id : ℕ
      reg_id = reg_id_of value

  -- A write to 0xFE sets the mask of the next write, and touches no other register or decoded state.
  pub handle_bp-mask :
      (value : ℕ) (m : Machine)
      → reg_id_of value ≡ 0xFE
      → handle_bp value m
        ≡ record m { bp_reg_cache = update m.bp_reg_cache 0xFE (bit_and value 0x00FFFFFF) }
  unfolding handle_bp
  handle_bp-mask value m e = rw e
