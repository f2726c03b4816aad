-- ===== src/Cp/Vertex.antt =====
-- CP registers 0x50, 0x60, 0x70 to 0x97 and 0xB0 to 0xBF: vertex descriptors, formats, strides.
use mkwii_ps.Base.{
  ℕ, zero, suc, ◌+◌, ◌%◌, ◌^◌, ◌==◌, ◌!=◌, if◌then◌else◌, Array, update, modify, List, [], ◌∷◌,
}
use mkwii_ps.Platform.{Platform}
use mkwii_ps.State.Vertex.{
  VtxAttrFmt, VertexState, va_pnmtxidx, va_pos, va_nrm, va_clr0, va_clr1, va_tex0,
}
use mkwii_ps.State.Machine.{Machine, mark_pipeline_state_dirty}
use mkwii_ps.Bp.Field.{bp_get}

-- `for (attr = lo; attr < lo + n; ++attr) svd[attr] = vd[attr];`
unfoldable pub copy_range : ℕ → ℕ → Array ℕ → Array ℕ → Array ℕ
copy_range zero lo vd svd = svd
copy_range (suc n) lo vd svd = copy_range n (lo + 1) vd (update svd lo (vd lo))

-- Assignments `a[i] = x`, in order.
unfoldable pub store_all : List (ℕ × ℕ) → Array ℕ → Array ℕ
store_all [] a = a
store_all ((i, x) ∷ rest) a = store_all rest (update a i x)

unfoldable pub vcd_low_fields : ℕ → List (ℕ × ℕ)
vcd_low_fields value =
    (va_pnmtxidx, bp_get value 1 0)
    ∷ (1, bp_get value 1 1)
    ∷ (2, bp_get value 1 2)
    ∷ (3, bp_get value 1 3)
    ∷ (4, bp_get value 1 4)
    ∷ (5, bp_get value 1 5)
    ∷ (6, bp_get value 1 6)
    ∷ (7, bp_get value 1 7)
    ∷ (8, bp_get value 1 8)
    ∷ (va_pos, bp_get value 2 9)
    ∷ (va_nrm, bp_get value 2 11)
    ∷ (va_clr0, bp_get value 2 13)
    ∷ (va_clr1, bp_get value 2 15)
    ∷ []

unfoldable pub vcd_high_fields : ℕ → List (ℕ × ℕ)
vcd_high_fields value =
    (va_tex0, bp_get value 2 0)
    ∷ (14, bp_get value 2 2)
    ∷ (15, bp_get value 2 4)
    ∷ (16, bp_get value 2 6)
    ∷ (17, bp_get value 2 8)
    ∷ (18, bp_get value 2 10)
    ∷ (19, bp_get value 2 12)
    ∷ (20, bp_get value 2 14)
    ∷ []

unfoldable pub set_attr : ℕ → ℕ → ℕ → ℕ → Array VtxAttrFmt → Array VtxAttrFmt
set_attr attr cnt comp_type frac t =
    update t attr (record { cnt = cnt; comp_type = comp_type; frac = frac })

-- A texture coordinate of a format register, its nine bits from `shift` on.
unfoldable pub tex_attr : ℕ → ℕ → ℕ → Array VtxAttrFmt → Array VtxAttrFmt
tex_attr attr value shift =
    set_attr attr (bp_get value 1 shift) (bp_get value 3 (shift + 1)) (bp_get value 5 (shift + 4))

unfoldable pub vat_b : ℕ → Array VtxAttrFmt → Array VtxAttrFmt
vat_b value t =
    modify (tex_attr 16 value 18 (tex_attr 15 value 9 (tex_attr 14 value 0 t))) 17
      λ f. record f { cnt = bp_get value 1 27; comp_type = bp_get value 3 28 }

unfoldable pub vat_c : ℕ → Array VtxAttrFmt → Array VtxAttrFmt
vat_c value t = tex_attr 20 value 23 (
    tex_attr 19 value 14
      (tex_attr 18 value 5 (modify t 17 (λ f. record f { frac = bp_get value 5 0 }))))

-- The cast to u8 keeps the low byte; an unchanged stride marks nothing.
unfoldable pub array_stride : ℕ → ℕ → Machine → Machine
array_stride attr_idx value m =
    if (m.vertex.arrays attr_idx).stride != value % 2 ^ 8
    then mark_pipeline_state_dirty (record m {
      vertex = record m.vertex {
        arrays = modify m.vertex.arrays attr_idx (λ a. record a { stride = value % 2 ^ 8 });
      };
    })
    else m

module _ ⦃p : Platform⦄ where
  -- `mark_pipeline_state_dirty(); clearVtxSizeCache();`
  abbrev pub with_vertex : VertexState → Machine → Machine
  with_vertex v m =
      mark_pipeline_state_dirty (record m { vertex = record v { last_vtx_fmt = p.max_vtxfmt } })

  unfoldable pub vcd_low : ℕ → Machine → Machine
  vcd_low value m =
      let vd = store_all (vcd_low_fields value) m.vertex.vtx_desc in
      with_vertex
        (record m.vertex {
          vtx_desc = vd;
          source_vtx_desc = copy_range 13 va_pnmtxidx vd m.vertex.source_vtx_desc;
        })
        m

  unfoldable pub vcd_high : ℕ → Machine → Machine
  vcd_high value m =
      let vd = store_all (vcd_high_fields value) m.vertex.vtx_desc in
      with_vertex
        (record m.vertex {
          vtx_desc = vd;
          source_vtx_desc = copy_range 8 va_tex0 vd m.vertex.source_vtx_desc;
        })
        m

  unfoldable pub normal_frac_bits : ℕ → ℕ
  normal_frac_bits comp_type =
      if comp_type == p.comp_u8
      then 7
      else if comp_type == p.comp_s8
      then 6
      else if comp_type == p.comp_u16
      then 15
      else if comp_type == p.comp_s16
      then 14
      else 0

  unfoldable pub normal_cnt : ℕ → ℕ
  normal_cnt value =
      if bp_get value 1 31 != 0
      then p.nrm_nbt3
      else if bp_get value 1 9 != 0
      then p.nrm_nbt
      else p.nrm_xyz

  unfoldable pub vat_a : ℕ → Array VtxAttrFmt → Array VtxAttrFmt
  vat_a value t = tex_attr va_tex0 value 21 (
      set_attr va_clr1 (bp_get value 1 17) (bp_get value 3 18) 0 (
        set_attr va_clr0 (bp_get value 1 13) (bp_get value 3 14) 0 (
          set_attr va_nrm (normal_cnt value) (bp_get value 3 10)
            (normal_frac_bits (bp_get value 3 10)) (tex_attr va_pos value 0 t))))

  unfoldable pub set_format : ℕ → (Array VtxAttrFmt → Array VtxAttrFmt) → Machine → Machine
  set_format fmt f m = with_vertex (record m.vertex { vtx_fmts = modify m.vertex.vtx_fmts fmt f }) m
