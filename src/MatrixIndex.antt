-- ===== src/MatrixIndex.antt =====
-- The matrix indices, which CP 0x30 and 0x40 and XF 0x18 and 0x19 write alike
-- (lib/gx/register_decoder.cpp). The assertions on the range are off in a release build.
use mkwii_ps.Base.{ℕ, zero, suc, ◌+◌, ◌*◌, ◌/◌, ltb, if◌then◌else◌, Array, modify}
use mkwii_ps.Platform.{Platform}
use mkwii_ps.State.Transform.{TcgConfig, TransformState}
use mkwii_ps.Bp.Field.{bp_get}

module _ ⦃p : Platform⦄ where
  -- `for (i = 0; i < 4 && i + first < MaxTexCoord; i++)` by the rounds left, six bits each.
  unfoldable pub tex_mtx_indices : ℕ → ℕ → ℕ → ℕ → ℕ → Array TcgConfig → Array TcgConfig
  tex_mtx_indices zero i first shift value t = t
  tex_mtx_indices (suc n) i first shift value t =
      let rest =
        tex_mtx_indices n (i + 1) first shift value
          (modify t (i + first) (λ tcg. record tcg { mtx = bp_get value 6 (shift + i * 6) })) in
      if ltb (i + first) p.max_texcoord then rest else t

  unfoldable pub matrix_index_a : ℕ → TransformState → TransformState
  matrix_index_a value t = record t {
    current_pn_mtx = bp_get value 6 0 / 3;
    tcgs = tex_mtx_indices 4 0 0 6 value t.tcgs;
  }

  unfoldable pub matrix_index_b : ℕ → TransformState → TransformState
  matrix_index_b value t = record t { tcgs = tex_mtx_indices 4 0 4 0 value t.tcgs }
