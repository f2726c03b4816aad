-- ===== src/Geometry/Layout/Placed.antt =====
-- `GxVertexLayout::build`: the attributes lie one after the other in a vertex record.
use mkwii_ps.Base.{
  ℕ, zero, suc, ◌+◌, ◌*◌, ◌%◌, ◌^◌, ◌≤◌, ◌<◌, ◌≡◌, refl, ◌≢◌, inl, inr, true, false, ◌||◌, ltb,
  ◌==◌, arith, Bool-cases, update, update-elim,
}
use mkwii_ps.Base.Outcome.{Safe, done, >>=-Safe, require-Safe, if-Safe}
use mkwii_ps.Platform.{Platform}
use mkwii_ps.State.Vertex.{VertexState}
use mkwii_ps.Geometry.Layout.{
  attribute_count, direct, index8, index16, AttributeLayout, VertexLayout, default_attribute,
  empty_layout, record_bytes, with_array, begin_attribute, place, format_at, add_attribute,
  add_attributes, build,
}
use mkwii_ps.Geometry.Layout.Formats.{Shape, Described, describe-Safe, record_bytes-le}

module _ ⦃p : Platform⦄ (v : VertexState) where
  -- An enabled attribute has a shape, the members of its array, and lies inside the record.
  pub record Placed (stride attr : ℕ) (d : AttributeLayout) : Type 0 where
    pub shape : Shape attr d
    pub array_stride : d.mode ≢ 1 → d.array_stride ≡ (v.arrays attr).stride
    pub inside : d.offset + record_bytes d ≤ stride

  abbrev pub Enabled : AttributeLayout → Type 0
  Enabled d = d.mode ≢ p.attr_none

  -- The layout of the attributes below `n`.
  pub record Laid (n : ℕ) (out : VertexLayout) : Type 0 where
    pub modes : (i : ℕ) → i < n → (out.attributes i).mode ≡ v.vtx_desc i
    pub placed :
        (i : ℕ) → i < n → Enabled (out.attributes i) → Placed out.stride i (out.attributes i)
    pub ordered :
        (i j : ℕ)
        → i < j
        → j < n
        → Enabled (out.attributes i)
        → Enabled (out.attributes j)
        → (out.attributes i).offset + record_bytes (out.attributes i) ≤ (out.attributes j).offset
    pub rest : (i : ℕ) → n ≤ i → out.attributes i ≡ default_attribute
    pub small : out.stride ≤ n * 36

  Placed-weaken :
      (s s' attr : ℕ) (d : AttributeLayout) → s ≤ s' → Placed s attr d → Placed s' attr d
  Placed-weaken s s' attr d le h = record {
    shape = h.shape;
    array_stride = h.array_stride;
    inside = omega (arith, h.inside);
  }

  extend :
      (n : ℕ) (out : VertexLayout) (d : AttributeLayout) (stride' : ℕ)
      → Laid n out
      → out.stride ≤ stride'
      → stride' ≤ (n + 1) * 36
      → d.mode ≡ v.vtx_desc n
      → (Enabled d → Placed stride' n d)
      → (Enabled d → out.stride ≤ d.offset)
      → Laid (n + 1) (record { attributes = update out.attributes n d; stride = stride' })
  extend n out d stride' h le small mode place after = record {
    modes = λ i lt.
        update-elim (λ a. a.mode ≡ v.vtx_desc i) out.attributes n d i (λ e. rw e mode)
          λ ne. h.modes i (omega arith);
    placed = λ i lt.
        update-elim (λ a. Enabled a → Placed stride' i a) out.attributes n d i (λ e. rw e place)
          λ ne on. Placed-weaken out.stride stride' i _ le (h.placed i (omega arith) on);
    ordered = λ i j lt ltn.
        update-elim
          (λ a.
            Enabled (update out.attributes n d i)
            → Enabled a
            → (update out.attributes n d i).offset + record_bytes (update out.attributes n d i)
              ≤ a.offset)
          out.attributes n d j
          (λ e.
            update-elim (λ a. Enabled a → Enabled d → a.offset + record_bytes a ≤ d.offset)
              out.attributes n d i (λ e'. absurd (omega arith))
              λ ne on on'. omega (arith, (h.placed i (omega arith) on).inside, after on'))
          λ ne.
            update-elim
              (λ a.
                Enabled a
                → Enabled (out.attributes j)
                → a.offset + record_bytes a ≤ (out.attributes j).offset)
              out.attributes n d i (λ e'. absurd (omega arith))
              λ ne' on on'. h.ordered i j lt (omega arith) on on';
    rest = λ i le'.
        update-elim (λ a. a ≡ default_attribute) out.attributes n d i (λ e. absurd (omega arith))
          λ ne. h.rest i (omega arith);
    small = small;
  }

  with_array-direct :
      (n : ℕ) (d : AttributeLayout) → (d.mode == direct) ≡ true → with_array v n d ≡ d
  unfolding with_array
  with_array-direct n d e = rw e refl

  with_array-other :
      (n : ℕ) (d : AttributeLayout)
      → (d.mode == direct) ≡ false
      → with_array v n d
        ≡ record d { array_stride = (v.arrays n).stride; array_little_endian = (v.arrays n).le }
  unfolding with_array
  with_array-other n d e = rw e refl

  with_array-Placed :
      (n : ℕ) (out : VertexLayout) (d : AttributeLayout)
      → Shape n d
      → d.offset ≡ out.stride
      → Placed (out.stride + record_bytes d) n (with_array v n d)
  unfolding record_bytes
  with_array-Placed n out d s e = elim (Bool-cases (d.mode == direct)) [
    | inl q ↦ rw (with_array-direct n d q) (record {
      shape = s;
      array_stride = λ ne. absurd (ne (ground arith));
      inside = omega (arith, e);
    })
    | inr q ↦ rw (with_array-other n d q) (record {
      shape = record {
        mode_low = s.mode_low;
        mode_high = s.mode_high;
        matrix = s.matrix;
        color = s.color;
        normal = s.normal;
        single = s.single;
        indices = s.indices;
        bytes = s.bytes;
        count = s.count;
      };
      array_stride = λ ne. refl;
      inside = omega (arith, e);
    })
  ]

  with_array_place :
      (n : ℕ) (d : AttributeLayout)
      → ((with_array v n d).mode ≡ d.mode) × ((with_array v n d).offset ≡ d.offset)
  unfolding with_array
  with_array_place n d = ground arith

  one_index : (n : ℕ) (out : VertexLayout) → Laid n out → (out.attributes n).index_count ≡ 1
  unfolding default_attribute
  one_index n out h = rw (h.rest n (omega arith)) refl

  module _ (format : ℕ) (known_format : ltb format p.max_vtxfmt ≡ true) where
    place-Laid :
        (n : ℕ) (out : VertexLayout) (d : AttributeLayout)
        → n < attribute_count
        → Laid n out
        → Described n (begin_attribute v format n out) d
        → Laid (n + 1) (place v n out d)
    unfolding place
    place-Laid n out d lt h described = rw fits (
        extend n out (with_array v n d) (out.stride + record_bytes d) h (omega arith) bound mode
          (λ on. with_array-Placed n out d described.shape described.offset)
          λ on. omega (arith, (with_array_place n d).1, described.offset))
      where
        bound : out.stride + record_bytes d ≤ (n + 1) * 36
        bound = omega (arith, h.small, record_bytes-le n d described.shape)

        fits : (out.stride + record_bytes d) % 2 ^ 32 ≡ out.stride + record_bytes d
        fits = ground (arith, bound)

        mode : (with_array v n d).mode ≡ v.vtx_desc n
        mode = omega (arith, (with_array_place n d).0, described.mode)

    add_attribute-Laid :
        (n : ℕ) (out : VertexLayout)
        → n < attribute_count
        → Laid n out
        → Safe (Laid (n + 1)) (add_attribute v format n out)
    unfolding add_attribute format_at
    add_attribute-Laid n out lt h =
        if-Safe (v.vtx_desc n == p.attr_none)
          (λ e. done (
            extend n out (record (out.attributes n) { mode = v.vtx_desc n }) out.stride h
              (omega arith) (omega (arith, h.small)) refl (λ on. absurd (on (ground arith)))
              λ on. absurd (on (ground arith))))
          λ e.
            require-Safe
              (v.vtx_desc n == direct || v.vtx_desc n == index8 || v.vtx_desc n == index16)
              λ known. rw (known_format) (
                >>=-Safe
                  (describe-Safe n (v.vtx_fmts format n) (begin_attribute v format n out)
                    (ground arith) (ground arith) (one_index n out h) refl)
                  λ d described. done (place-Laid n out d lt h described))

    add_attributes-Laid :
        (k n : ℕ) (out : VertexLayout)
        → n + k ≡ attribute_count
        → Laid n out
        → Safe (Laid attribute_count) (add_attributes v format k n out)
    unfolding add_attributes
    add_attributes-Laid zero n out e h =
        let e' : n ≡ attribute_count = omega arith in done (rw (← e') h)
    add_attributes-Laid (suc k) n out e h =
        >>=-Safe (add_attribute-Laid n out (omega arith) h)
          λ out' h'. add_attributes-Laid k (n + 1) out' (omega arith) h'

  pub build-Laid : (format : ℕ) → Safe (Laid attribute_count) (build v format)
  unfolding build empty_layout
  build-Laid format = require-Safe (ltb format p.max_vtxfmt) λ e.
      add_attributes-Laid format e attribute_count 0 empty_layout refl (record {
        modes = λ i lt. absurd (omega arith);
        placed = λ i lt on. absurd (omega arith);
        ordered = λ i j lt ltn on on'. absurd (omega arith);
        rest = λ i le. refl;
        small = omega arith;
      })
