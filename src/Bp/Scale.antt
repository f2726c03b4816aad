-- ===== src/Bp/Scale.antt =====
-- The scale of an indirect texture matrix, two bits from each of its three registers.
use mkwii_ps.Base.{
  ℕ, ◌+◌, ◌*◌, ◌/◌, ◌%◌, ◌<◌, ◌≡◌, refl, ◌==◌, ==_iff, arith, all_below, all_below-test, sub_ℕ, ap,
  ◌∙◌,
}
use mkwii_ps.Platform.{Platform}
use mkwii_ps.State.Tev.{IndTexMtxInfo}
use mkwii_ps.Bp.Field.{bp_get, bp_get-lt}
use mkwii_ps.Bp.Indirect.{adj_scale, scale_exponent, ind_mtx_column}

three : ℕ → ℕ → ℕ → ℕ → ℕ
three raw x y z = adj_scale 2 z (adj_scale 1 y (adj_scale 0 x raw))

-- The scale that the three registers hold: the top bit of the third is ignored.
abbrev pub scale_of : ℕ → ℕ → ℕ → ℕ
scale_of x y z = x + 4 * y + 16 * (z % 2)

-- The first two writes clear the low bits, so what is left of the old value is bits 5 to 7.
three-scale :
    (raw x y z : ℕ)
    → raw < 256
    → x < 4
    → y < 4
    → z < 4
    → three raw x y z ≡ raw / 32 * 32 + scale_of x y z
unfolding three adj_scale all_below
three-scale raw x y z lr lx ly lz = (==_iff _ _).0 (
    all_below-test 4 (λ w. three raw x y w == raw / 32 * 32 + scale_of x y w) z
      (all_below-test 4 (λ v. all_below 4 (λ w. three raw x v w == raw / 32 * 32 + scale_of x v w))
        y
        (all_below-test 4
          (λ u.
            all_below 4 (λ v. all_below 4 (λ w. three raw u v w == raw / 32 * 32 + scale_of u v w)))
          x
          (all_below-test 256
            (λ t. all_below 4 (λ u.
              all_below 4 (λ v. all_below 4 (λ w. three t u v w == t / 32 * 32 + scale_of u v w))))
            raw refl lr)
          lx)
        ly)
      lz)

scale_exponent-sub : (s : ℕ) → s < 32 → scale_exponent s ≡ sub_ℕ s 17
unfolding scale_exponent
scale_exponent-sub s lt = ground arith

-- What the three registers leave in a matrix: its scale, and the exponent that the scale encodes.
pub record HasScale (s : ℕ) (info : IndTexMtxInfo) : Type 0 where
  pub raw : info.adj_scale_raw ≡ s
  pub exponent : info.scale_exp ≡ sub_ℕ s 17
  pub five_bits : info.adj_scale_raw < 32

module _ ⦃p : Platform⦄ where
  -- The writes of a matrix's three registers in order replace a scale of five bits by the two bits of
  -- each of the first two and the low bit of the third, and the exponent is that scale less 17.
  pub ind_mtx_column-HasScale :
      (v0 v1 v2 : ℕ) (info : IndTexMtxInfo)
      → info.adj_scale_raw < 32
      → HasScale
          (scale_of (bp_get v0 2 22) (bp_get v1 2 22) (bp_get v2 2 22))
          (ind_mtx_column 2 v2 (ind_mtx_column 1 v1 (ind_mtx_column 0 v0 info)))
  unfolding ind_mtx_column three
  ind_mtx_column-HasScale v0 v1 v2 info small =
      let x = bp_get v0 2 22 in
      let y = bp_get v1 2 22 in
      let z = bp_get v2 2 22 in
      let lx = bp_get-lt v0 2 22 in
      let ly = bp_get-lt v1 2 22 in
      let result : three info.adj_scale_raw x y z ≡ scale_of x y z =
        omega
          (arith, three-scale info.adj_scale_raw x y z (omega arith) lx ly (bp_get-lt v2 2 22)) in
      record {
        raw = result;
        exponent = ap scale_exponent result ∙ scale_exponent-sub (scale_of x y z) (omega arith);
        five_bits = omega (arith, result);
      }
