-- ===== src/Cp/Agrees.antt =====
-- The cache of CP registers and the decoded vertex formats.
use mkwii_ps.Base.{
  ℕ, zero, suc, ◌+◌, ◌-◌, ◌*◌, ◌≤◌, ◌<◌, ◌≡◌, refl, Bool, true, false, leb, ltb, ◌==◌, ◌&&◌, ◌||◌,
  if◌then◌else◌, Array, update, arith, Bool-cases, inl, inr,
}
use mkwii_ps.Platform.{Platform}
use mkwii_ps.State.Machine.{Machine, mark_pipeline_state_dirty}
use mkwii_ps.Bp.Field.{bp_get}
use mkwii_ps.Cp.Cache.{cp_register_write_unchanged, cacheable_cp_register}
use mkwii_ps.Cp.Vertex.{
  vcd_low, vcd_high, set_format, array_stride, copy_range, store_all, vcd_low_fields,
  vcd_high_fields,
}
use mkwii_ps.Cp.Handle.{handle_cp, cp_switch, cp_matrix_a, cp_matrix_b}

-- The descriptor of attribute `i` in the two registers: a bit for each matrix index, two bits for
-- each other attribute.
abbrev pub described : ℕ → ℕ → ℕ → ℕ
described low high i =
    if ltb i 9
    then bp_get low 1 i
    else if ltb i 13
    then bp_get low 2 (9 + (i - 9) * 2)
    else bp_get high 2 ((i - 13) * 2)

-- Where the cache holds a register, the descriptors are those that it describes.
pub record VcdAgrees (m : Machine) : Type 0 where
  pub low :
      (i : ℕ)
      → i < 13
      → m.cp_register_cache_valid 0x50 ≡ true
      → m.vertex.vtx_desc i ≡ described (m.cp_register_cache 0x50) 0 i
  pub high :
      (i : ℕ)
      → 13 ≤ i
      → i < 21
      → m.cp_register_cache_valid 0x60 ≡ true
      → m.vertex.vtx_desc i ≡ described 0 (m.cp_register_cache 0x60) i
  pub source_low :
      (i : ℕ)
      → i < 13
      → m.cp_register_cache_valid 0x50 ≡ true
      → m.vertex.source_vtx_desc i ≡ m.vertex.vtx_desc i
  pub source_high :
      (i : ℕ)
      → 13 ≤ i
      → i < 21
      → m.cp_register_cache_valid 0x60 ≡ true
      → m.vertex.source_vtx_desc i ≡ m.vertex.vtx_desc i

copy_range-at :
    (n lo : ℕ) (vd svd : Array ℕ) (i : ℕ)
    → copy_range n lo vd svd i ≡ (if leb lo i && ltb i (lo + n) then vd i else svd i)
unfolding copy_range
copy_range-at zero lo vd svd i = ground arith
copy_range-at (suc n) lo vd svd i =
    ground (arith, copy_range-at n (lo + 1) vd (update svd lo (vd lo)) i)

low_fields :
    (value : ℕ) (vd : Array ℕ) (i : ℕ)
    → store_all (vcd_low_fields value) vd i ≡ (if ltb i 13 then described value 0 i else vd i)
unfolding store_all vcd_low_fields
low_fields value vd i = ground arith

high_fields :
    (value : ℕ) (vd : Array ℕ) (i : ℕ)
    → store_all (vcd_high_fields value) vd i
      ≡ (if leb 13 i && ltb i 21 then described 0 value i else vd i)
unfolding store_all vcd_high_fields
high_fields value vd i = ground arith

module _ ⦃p : Platform⦄ where
  cp_switch-vtx_desc :
      (a v : ℕ) (m : Machine) (i : ℕ)
      → (cp_switch a v m).vertex.vtx_desc i ≡ (
          if a == 0x50
          then store_all (vcd_low_fields v) m.vertex.vtx_desc i
          else if a == 0x60
          then store_all (vcd_high_fields v) m.vertex.vtx_desc i
          else m.vertex.vtx_desc i)
  unfolding cp_switch cp_matrix_a cp_matrix_b vcd_low vcd_high set_format array_stride
      mark_pipeline_state_dirty
  cp_switch-vtx_desc a v m i = ground arith

  cp_switch-source_vtx_desc :
      (a v : ℕ) (m : Machine) (i : ℕ)
      → (cp_switch a v m).vertex.source_vtx_desc i ≡ (
          if a == 0x50 && ltb i 13
          then store_all (vcd_low_fields v) m.vertex.vtx_desc i
          else if a == 0x60 && (leb 13 i && ltb i 21)
          then store_all (vcd_high_fields v) m.vertex.vtx_desc i
          else m.vertex.source_vtx_desc i)
  unfolding cp_switch cp_matrix_a cp_matrix_b vcd_low vcd_high set_format array_stride
      mark_pipeline_state_dirty
  cp_switch-source_vtx_desc a v m i = ground (
    arith,
    copy_range-at 13 0 (store_all (vcd_low_fields v) m.vertex.vtx_desc) m.vertex.source_vtx_desc i,
    copy_range-at 8 13 (store_all (vcd_high_fields v) m.vertex.vtx_desc) m.vertex.source_vtx_desc i,
  )

  pub cp_switch-cp_register_cache :
      (a v : ℕ) (m : Machine)
      → ((cp_switch a v m).cp_register_cache ≡ m.cp_register_cache)
        × ((cp_switch a v m).cp_register_cache_valid ≡ m.cp_register_cache_valid)
  unfolding cp_switch cp_matrix_a cp_matrix_b vcd_low vcd_high set_format array_stride
      mark_pipeline_state_dirty
  cp_switch-cp_register_cache a v m = ground arith

  abbrev with_caches : Array ℕ → Array Bool → Machine → Machine
  with_caches c w m = record m { cp_register_cache = c; cp_register_cache_valid = w }

  -- The switch after the caches were written: those registers that are not `a` keep their entries.
  cp_switch-VcdAgrees :
      (a v : ℕ) (m : Machine) (c : Array ℕ) (w : Array Bool)
      → VcdAgrees m
      → ((k : ℕ)
          → (k == a) ≡ false
          → (c k ≡ m.cp_register_cache k) × (w k ≡ m.cp_register_cache_valid k))
      → ((a == 0x50 || a == 0x60) ≡ true → c a ≡ v)
      → VcdAgrees (cp_switch a v (with_caches c w m))
  cp_switch-VcdAgrees a v m c w h others own =
      let n : Machine = with_caches c w m in
      let kept = cp_switch-cp_register_cache a v n in
      let low = low_fields v m.vertex.vtx_desc in
      let high = high_fields v m.vertex.vtx_desc in
      record {
        low = λ i lt valid.
            ground (
              arith,
              h.low i lt,
              others 0x50,
              own,
              cp_switch-vtx_desc a v n i,
              kept,
              low i,
              high i,
            );
        high = λ i ge lt valid. ground (
          arith,
          h.high i ge lt,
          others 0x60,
          own,
          cp_switch-vtx_desc a v n i,
          kept,
          low i,
          high i,
        );
        source_low = λ i lt valid. ground (
          arith,
          h.source_low i lt,
          others 0x50,
          cp_switch-vtx_desc a v n i,
          cp_switch-source_vtx_desc a v n i,
          kept,
          high i,
        );
        source_high = λ i ge lt valid. ground (
          arith,
          h.source_high i ge lt,
          others 0x60,
          cp_switch-vtx_desc a v n i,
          cp_switch-source_vtx_desc a v n i,
          kept,
          low i,
        );
      }

  -- Where the vertex descriptors are what the cached registers 0x50 and 0x60 describe, they are so
  -- after a write to any CP register.
  pub handle_cp-VcdAgrees : (a v : ℕ) (m : Machine) → VcdAgrees m → VcdAgrees (handle_cp a v m)
  unfolding handle_cp cp_register_write_unchanged cacheable_cp_register
  handle_cp-VcdAgrees a v m h = elim (Bool-cases (cacheable_cp_register a)) [
    | inr no_cache ↦ rw no_cache (
        cp_switch-VcdAgrees a v m m.cp_register_cache m.cp_register_cache_valid h
          (λ k ne. (refl, refl)) (λ e. ground arith))
    | inl cached ↦
        rw cached (elim (Bool-cases (m.cp_register_cache_valid a && m.cp_register_cache a == v)) [
          | inl repeated ↦ rw repeated h
          | inr fresh ↦ rw fresh (
              cp_switch-VcdAgrees a v m (update m.cp_register_cache a v)
                (update m.cp_register_cache_valid a true) h (λ k ne. rw ne (refl, refl))
                (λ _. ground arith))
        ])
  ]
