-- ===== src/Bp/Extents.antt =====
-- The extents of the arrays that `handle_bp` writes.
use mkwii_ps.Base.{
  ℕ, zero, suc, ◌^◌, ◌+◌, ◌-◌, ◌*◌, ◌/◌, ◌%◌, ◌≤◌, ◌<◌, ◌≡◌, refl, ◌==◌, Array, update, modify,
  arith, bit_and, bit_and_digit, bit_and_mask, ◌!=◌, Bool-cases, Option, Option-cases, some, none,
  inl, inr,
}
use mkwii_ps.Platform.{Platform}
use mkwii_ps.State.Tev.{IndStage}
use mkwii_ps.State.Machine.{Machine, mark_state_dirty}
use mkwii_ps.State.Cache.{invalidate_xf_reg}
use mkwii_ps.Bp.Switch.{
  BpCase, ind_scale0_case, ind_scale1_case, ind_ref_case, default_case, bounding_box_case,
  sample_pattern_case, bp_case, run_case,
}
use mkwii_ps.Bp.Field.{bp_get}
use mkwii_ps.Bp.Copy.{refresh_copy_filter_flags, store_samples}
use mkwii_ps.Bp.Indirect.{ind_refs}
use mkwii_ps.Bp.Texture.{
  Kind, TexBpRegMapping, find_mapping, decode_tex_bp_reg, kind_at, texture_write, texture_reg,
  write_texture,
}
use mkwii_ps.Bp.Handle.{handle_bp, write_reg, reset_mask, reg_id_of}
use mkwii_ps.Bp.Frame.{run_case-bp_reg_cache}
use mkwii_ps.Bp.Ranges.{CaseRange, bp_case-range}

-- The cells past the extents of the arrays are those of `m`. `InExtents` adds the cache of BP registers.
pub record InArrays ⦃p : Platform⦄ (m m' : Machine) : Type 0 where
  pub stages : (i : ℕ) → p.max_tevstage ≤ i → m'.tev.tev_stages i ≡ m.tev.tev_stages i
  pub swaps : (i : ℕ) → p.max_tevswap ≤ i → m'.tev.tev_swap_table i ≡ m.tev.tev_swap_table i
  pub ind_stages : (i : ℕ) → p.max_indtexstage ≤ i → m'.tev.ind_stages i ≡ m.tev.ind_stages i
  pub kcolors : (i : ℕ) → p.max_kcolor ≤ i → m'.tev.kcolors i ≡ m.tev.kcolors i
  pub color_regs : (i : ℕ) → 4 ≤ i → m'.tev.color_regs i ≡ m.tev.color_regs i
  pub ind_mtxs : (i : ℕ) → 3 ≤ i → m'.tev.ind_tex_mtxs i ≡ m.tev.ind_tex_mtxs i
  pub fog_range : (i : ℕ) → 6 ≤ i → m'.pixel.fog_range i ≡ m.pixel.fog_range i
  pub bounding_box : (i : ℕ) → 4 ≤ i → m'.raster.bounding_box i ≡ m.raster.bounding_box i
  pub samples :
      (i j : ℕ)
      → 12 ≤ i
      → m'.copy.copy_filter_sample_pattern i j ≡ m.copy.copy_filter_sample_pattern i j
  pub sample_pairs :
      (i j : ℕ)
      → 2 ≤ j
      → m'.copy.copy_filter_sample_pattern i j ≡ m.copy.copy_filter_sample_pattern i j
  pub taps : (i : ℕ) → 7 ≤ i → m'.copy.copy_filter_vfilter i ≡ m.copy.copy_filter_vfilter i
  pub tluts : (i : ℕ) → 20 ≤ i → m'.texture.loaded_tluts i ≡ m.texture.loaded_tluts i
  pub textures :
      (i : ℕ) → p.max_texmap ≤ i → m'.texture.loaded_textures i ≡ m.texture.loaded_textures i
  pub scales : (i : ℕ) → 8 ≤ i → m'.texture.tex_coord_scales i ≡ m.texture.tex_coord_scales i
  pub xf_registers : (i : ℕ) → 0x60 ≤ i → m'.xf_reg_cache.values i ≡ m.xf_reg_cache.values i
  pub xf_valid : (i : ℕ) → 2 ≤ i → m'.xf_reg_cache.valid i ≡ m.xf_reg_cache.valid i
  -- The vertex formats, the transform unit and the CP registers are not written at all.
  pub vertex : m'.vertex ≡ m.vertex
  pub transform : m'.transform ≡ m.transform
  pub cp_registers : m'.cp_register_cache ≡ m.cp_register_cache
  pub cp_valid : m'.cp_register_cache_valid ≡ m.cp_register_cache_valid

pub record InExtents ⦃p : Platform⦄ (m m' : Machine) : Type 0 where
  pub arrays : InArrays m m'
  pub bp_registers : (i : ℕ) → 0x100 ≤ i → m'.bp_reg_cache i ≡ m.bp_reg_cache i

store_samples-past :
    (n i first v : ℕ) (t : Array (Array ℕ)) (k j : ℕ)
    → first + i + n ≤ 24
    → 12 ≤ k
    → store_samples n i first v t k j ≡ t k j
unfolding store_samples
store_samples-past zero i first v t k j h past = refl
store_samples-past (suc n) i first v t k j h past = ground (
  arith,
  store_samples-past n (i + 1) first v
      (modify t ((first + i) / 2) (λ s. update s ((first + i) % 2) (bp_get v 4 (i * 4)))) k j,
)

store_samples-pairs :
    (n i first v : ℕ) (t : Array (Array ℕ)) (k j : ℕ)
    → 2 ≤ j
    → store_samples n i first v t k j ≡ t k j
unfolding store_samples
store_samples-pairs zero i first v t k j past = refl
store_samples-pairs (suc n) i first v t k j past = ground (
  arith,
  store_samples-pairs n (i + 1) first v
      (modify t ((first + i) / 2) (λ s. update s ((first + i) % 2) (bp_get v 4 (i * 4)))) k j,
)

-- The number of a register has 8 bits.
reg_id_of-lt : (value : ℕ) → reg_id_of value < 0x100
unfolding reg_id_of
reg_id_of-lt value = omega (arith, bit_and_mask 8 (value / 2 ^ 24))

module _ ⦃p : Platform⦄ where
  ind_refs-past : (n i v : ℕ) (t : Array IndStage) (k : ℕ) → i + n ≤ k → ind_refs n i v t k ≡ t k
  unfolding ind_refs
  ind_refs-past zero i v t k past = refl
  ind_refs-past (suc n) i v t k past = ground (
    arith,
    ind_refs-past n (i + 1) v
        (modify t i (λ s. record s {
          tex_coord_id = bp_get v 3 (i * 6 + 3);
          tex_map_id = bp_get v 3 (i * 6);
        }))
        k,
  )

  texture_write-InArrays :
      (t : TexBpRegMapping) (v : ℕ) (m : Machine) (c : Array ℕ)
      → t.tex_map_id < p.max_texmap
      → InArrays m (texture_write t v (record m { bp_reg_cache = c }))
  unfolding texture_write mark_state_dirty
  texture_write-InArrays t v m c lt =
      elim (Option-cases (write_texture t.kind v (m.texture.loaded_textures t.tex_map_id))) [
        | inl kept ↦ rw (kept, texture_write) (ground arith)
        | inr (slot, stored) ↦ rw (stored, texture_write) (ground arith)
      ]

  find_mapping-lt :
      (n i r : ℕ) (t : TexBpRegMapping) → find_mapping n i r ≡ some t → t.tex_map_id < i + n
  unfolding find_mapping
  find_mapping-lt zero i r t e = ground arith
  find_mapping-lt (suc n) i r t e = go (kind_at r i) (find_mapping-lt n (i + 1) r t) e
    where
      go :
          (o : Option Kind)
          → (find_mapping n (i + 1) r ≡ some t → t.tex_map_id < i + 1 + n)
          → (elim o [
            | some k ↦ some (record { tex_map_id = i; kind = k })
            | none ↦ find_mapping n (i + 1) r
          ])
            ≡ some t
          → t.tex_map_id < i + suc n
      go none below q = omega (arith, below q)
      go (some k) below q = ground arith

  texture_reg-InArrays :
      (r v : ℕ) (m : Machine) (c : Array ℕ)
      → InArrays m (texture_reg r v (record m { bp_reg_cache = c }))
  unfolding texture_reg decode_tex_bp_reg
  texture_reg-InArrays r v m c = elim (Option-cases (decode_tex_bp_reg r)) [
    | inl other ↦ rw (other, texture_reg) (ground arith)
    | inr (t, found) ↦
        rw (found, texture_reg)
          (texture_write-InArrays t v m c (omega (arith, find_mapping-lt p.max_texmap 0 r t found)))
  ]

  even_bit : (r : ℕ) → bit_and r 2 ≤ 2
  even_bit r = omega (arith, bit_and_digit r 2, bit_and_mask 1 (r / 2))

  run_case-InArrays :
      (k : BpCase) (r v : ℕ) (m : Machine) (c : Array ℕ)
      → CaseRange k r
      → InArrays m (run_case k r v (record m { bp_reg_cache = c }))
  unfolding run_case refresh_copy_filter_flags invalidate_xf_reg
  run_case-InArrays ind_scale0_case r v m c h = ground arith
  run_case-InArrays ind_scale1_case r v m c h = ground arith
  run_case-InArrays ind_ref_case r v m c h =
      ground (arith, ind_refs-past p.max_indtexstage 0 v m.tev.ind_stages)
  run_case-InArrays default_case r v m c h = texture_reg-InArrays r v m c
  run_case-InArrays sample_pattern_case r v m c h = ground (
    arith,
    store_samples-past 6 0 ((r - 1) * 6) v m.copy.copy_filter_sample_pattern,
    store_samples-pairs 6 0 ((r - 1) * 6) v m.copy.copy_filter_sample_pattern,
  )
  run_case-InArrays bounding_box_case r v m c h = ground (arith, even_bit r)
  run_case-InArrays _ r v m c h = ground arith

  write_reg-InExtents :
      (r v : ℕ) (m : Machine) (c : Array ℕ)
      → r < 0x100
      → ((i : ℕ) → 0x100 ≤ i → c i ≡ m.bp_reg_cache i)
      → InExtents m (write_reg r v (record m { bp_reg_cache = c }))
  unfolding write_reg
  write_reg-InExtents r v m c lt same = elim (Bool-cases (c r == v)) [
    | inl e ↦ rw e (record { arrays = ground arith; bp_registers = same })
    | inr e ↦ rw e (record {
      arrays = run_case-InArrays (bp_case r) r v m (update c r v) (bp_case-range r refl);
      bp_registers = λ i ge.
          rw (run_case-bp_reg_cache (bp_case r) r v (record m { bp_reg_cache = update c r v }))
            (ground (arith, same i ge));
    })
  ]

  -- A write to any register leaves every array cell past its array's extent as it was, both extents
  -- of the sample pattern and the caches of BP and XF registers included; the arrays of vertex formats,
  -- of the transform unit and of CP registers it does not write at all.
  pub handle_bp-InExtents : (value : ℕ) (m : Machine) → InExtents m (handle_bp value m)
  unfolding handle_bp reset_mask
  handle_bp-InExtents value m = elim (Bool-cases (reg_id_of value == 0xFE)) [
    | inl e ↦ rw e (record { arrays = ground arith; bp_registers = λ i ge. ground arith })
    | inr e ↦ rw e (elim (Bool-cases (m.bp_reg_cache 0xFE != 0x00FFFFFF)) [
      | inl f ↦ rw f (
          write_reg-InExtents (reg_id_of value) _ m (update m.bp_reg_cache 0xFE 0x00FFFFFF)
            (reg_id_of-lt value) (λ i ge. ground arith))
      | inr f ↦ rw f (
          write_reg-InExtents (reg_id_of value) _ m m.bp_reg_cache (reg_id_of-lt value)
            (λ i ge. refl))
    ])
  ]
