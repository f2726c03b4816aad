-- ===== src/Geometry/Snapshot/Covers.antt =====
-- The interval of the indices of an array: the scan reads inside the records and covers each index.
use mkwii_ps.Base.{
  ℕ, zero, suc, ◌+◌, ◌*◌, ◌^◌, ◌≤◌, ◌<◌, ◌≡◌, refl, ◌⊎◌, inl, inr, ◌==◌, if◌then◌else◌, arith, List,
  length, get_or, get_elem?-get_or, Bool-cases,
}
use mkwii_ps.Base.Outcome.{ok, Safe, done, >>=-Safe, Safe-weaken}
use mkwii_ps.Geometry.Layout.{AttributeLayout}
use mkwii_ps.Geometry.Snapshot.{index_at, Interval, widen, scan_groups, scan_vertices}

-- The index at a place of the records.
abbrev pub index_of : List ℕ → ℕ → ℕ → ℕ
index_of records width at =
    if width == 2
    then get_or records at 0 * 2 ^ 8 + get_or records (at + 1) 0
    else get_or records at 0

abbrev pub Between : Interval → ℕ → Type 0
Between i index = (i.lo ≤ index) × (index ≤ i.hi)

abbrev Wider : Interval → Interval → Type 0
Wider i i' = (i'.lo ≤ i.lo) × (i.hi ≤ i'.hi)

module _ (records : List ℕ) (width : ℕ) (known : (width ≡ 1) ⊎ (width ≡ 2)) where
  pub index_at-index_of :
      (at : ℕ)
      → at + width ≤ length records
      → index_at records width at ≡ ok (index_of records width at)
  unfolding index_at
  index_at-index_of at fits = elim (Bool-cases (width == 2)) [
    | inl e ↦
        rw
          (
            get_elem?-get_or records at 0 (ground arith),
            e,
            get_elem?-get_or records (at + 1) 0 (ground arith),
          )
          refl
    | inr e ↦ rw (get_elem?-get_or records at 0 (ground arith), e) refl
  ]

  record SpansGroups (at groups : ℕ) (i i' : Interval) : Type 0 where
    wider : Wider i i'
    spans : (g : ℕ) → g < groups → Between i' (index_of records width (at + g * width))

  step :
      (at groups : ℕ) (i i' : Interval)
      → SpansGroups (at + width) groups (widen i (index_of records width at)) i'
      → (g : ℕ) → g < suc groups
      → Between i' (index_of records width (at + g * width))
  step at groups i i' h zero lt = rw here (omega (arith, h.wider.0), omega (arith, h.wider.1))
    where
      here : at + zero * width ≡ at
      here = omega arith
  step at groups i i' h (suc g) lt = rw here (h.spans g (omega arith))
    where
      here : at + suc g * width ≡ at + width + g * width
      here = omega arith

  scan_groups-Safe :
      (groups at : ℕ) (i : Interval)
      → at + groups * width ≤ length records
      → Safe (SpansGroups at groups i) (scan_groups records width groups at i)
  unfolding scan_groups
  scan_groups-Safe zero at i fits =
      done (record { wider = (omega arith, omega arith); spans = λ g lt. absurd (omega arith) })
  scan_groups-Safe (suc groups) at i fits = rw (index_at-index_of at (omega arith)) (
      Safe-weaken
        (scan_groups-Safe groups (at + width) (widen i (index_of records width at)) (omega arith))
        λ i' h. record {
          wider = (omega (arith, h.wider.0), omega (arith, h.wider.1));
          spans = step at groups i i' h;
        })

  module _ (d : AttributeLayout) (stride : ℕ)
      (inside : d.offset + d.index_count * width ≤ stride) where
    record SpansVertices (start vertices : ℕ) (i i' : Interval) : Type 0 where
      wider : Wider i i'
      spans :
          (k g : ℕ)
          → k < vertices
          → g < d.index_count
          → Between i' (index_of records width (start + k * stride + d.offset + g * width))

    step_vertex :
        (start vertices : ℕ) (i i₁ i' : Interval)
        → SpansGroups (start + d.offset) d.index_count i i₁
        → SpansVertices (start + stride) vertices i₁ i'
        → (k g : ℕ) → k < suc vertices
        → g < d.index_count
        → Between i' (index_of records width (start + k * stride + d.offset + g * width))
    step_vertex start vertices i i₁ i' h h' zero g lt ltg =
        rw here (
          omega (arith, (h.spans g ltg).0, h'.wider.0),
          omega (arith, (h.spans g ltg).1, h'.wider.1),
        )
      where
        here : start + zero * stride + d.offset + g * width ≡ start + d.offset + g * width
        here = omega arith
    step_vertex start vertices i i₁ i' h h' (suc k) g lt ltg =
        rw here (h'.spans k g (omega arith) ltg)
      where
        here :
            start + suc k * stride + d.offset + g * width
            ≡ start + stride + k * stride + d.offset + g * width
        here = omega arith

    scan_vertices-Safe :
        (vertices start : ℕ) (i : Interval)
        → start + vertices * stride ≤ length records
        → Safe
            (SpansVertices start vertices i)
            (scan_vertices records d width stride vertices start i)
    unfolding scan_vertices
    scan_vertices-Safe zero start i fits =
        done (record { wider = (omega arith, omega arith); spans = λ k g lt. absurd (omega arith) })
    scan_vertices-Safe (suc vertices) start i fits =
        >>=-Safe (scan_groups-Safe d.index_count (start + d.offset) i (omega (arith, inside)))
          λ i₁ h.
            Safe-weaken (scan_vertices-Safe vertices (start + stride) i₁ (omega arith)) λ i' h'.
              record {
                wider =
                    (omega (arith, h.wider.0, h'.wider.0), omega (arith, h.wider.1, h'.wider.1));
                spans = step_vertex start vertices i i₁ i' h h';
              }

    -- From the first record on, the scan finds an interval around each index of each vertex.
    pub scan-Safe :
        (count : ℕ) (i : Interval)
        → count * stride ≤ length records
        → Safe
            (λ i'.
              (k g : ℕ)
              → k < count
              → g < d.index_count
              → Between i' (index_of records width (k * stride + d.offset + g * width)))
            (scan_vertices records d width stride count 0 i)
    scan-Safe count i fits =
        Safe-weaken (scan_vertices-Safe count 0 i (omega arith)) λ i' h k g lt ltg.
          let e : k * stride ≡ 0 + k * stride = omega arith in rw e (h.spans k g lt ltg)
