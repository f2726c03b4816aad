-- ===== src/GuestMemory/Views.antt =====
-- The list of live views: each inside the guest's space, and no two of them meet.
use mkwii_ps.Base.{
  ℕ, ◌+◌, ◌%◌, ◌^◌, ◌≤◌, ◌<◌, ◌≡◌, ◌≢◌, ◌⊎◌, inl, inr, refl, arith, Bool, false, ◌&&◌, ◌||◌, ltb,
  ◌==◌, if◌then◌else◌, Array, update, update-elim, List, [], ◌∷◌, subst, Bool-cases, ==_iff,
}
use mkwii_ps.GuestMemory.{Alias, guest_base, guest_space_size}
use mkwii_ps.GuestMemory.Aliases.{any_meets, unlink}

pub record InArena (x : Alias) : Type 0 where
  pub some_bytes : 0 < x.size
  pub above : guest_base ≤ x.address
  pub below : x.address + x.size ≤ guest_base + guest_space_size

abbrev pub Disjoint : Alias → Alias → Type 0
Disjoint x y = (x.address + x.size ≤ y.address) ⊎ (y.address + y.size ≤ x.address)

abbrev pub Apart : Array Alias → ℕ → List ℕ → Type 0
Apart al a [] = Unit {0}
Apart al a (j ∷ rest) = (j ≢ a) × Disjoint (al a) (al j) × Apart al a rest

abbrev pub Views : Array Alias → List ℕ → Type 0
Views al [] = Unit {0}
Views al (j ∷ rest) = InArena (al j) × Apart al j rest × Views al rest

abbrev pub Listed : ℕ → List ℕ → Type 0
Listed a [] = ⊥
Listed a (j ∷ rest) = (j ≡ a) ⊎ Listed a rest

-- How many of the listed views are of the backing `b`.
abbrev pub count_views : Array Alias → ℕ → List ℕ → ℕ
count_views al b [] = 0
count_views al b (j ∷ rest) = (if (al j).backing == b then 1 else 0) + count_views al b rest

abbrev pub Missing : ℕ → List ℕ → Type 0
Missing a [] = Unit {0}
Missing a (j ∷ rest) = (j ≢ a) × Missing a rest

-- The test of the loop at one alias, and the tests at the others.
tests_apart :
    (v x : Alias) (others : Bool)
    → InArena x
    → (ltb v.address ((x.address + x.size) % 2 ^ 64) && ltb x.address (v.address + v.size)
        || others)
      ≡ false
    → Disjoint v x × (others ≡ false)
tests_apart v x others h e =
    let fits : (x.address + x.size) % 2 ^ 64 ≡ x.address + x.size = omega (arith, h.below) in
    let e' =
      subst (λ n. (ltb v.address n && ltb x.address (v.address + v.size) || others) ≡ false) fits
        e in
    elim (Bool-cases (ltb v.address (x.address + x.size))) [
      | inl p ↦ (inl (ground arith), ground arith)
      | inr p ↦ (inr (ground arith), ground arith)
    ]

module _ (al : Array Alias) (a : ℕ) (v : Alias) where
  pub same : (j : ℕ) → j ≢ a → update al a v j ≡ al j
  same j n = update-elim (λ x. x ≡ al j) al a v j (λ e. absurd (n e)) (λ _. refl)

  Apart-update :
      (i : ℕ) (l : List ℕ) → i ≢ a → Missing a l → Apart al i l → Apart (update al a v) i l
  Apart-update i [] n m h = tt
  Apart-update i (j ∷ rest) n m h =
      (h.0, rw (same i n, same j m.0) h.1, Apart-update i rest n m.1 h.2)

  pub Views-update : (l : List ℕ) → Missing a l → Views al l → Views (update al a v) l
  Views-update [] m h = tt
  Views-update (j ∷ rest) m h =
      (rw (same j m.0) h.0, Apart-update j rest m.0 m.1 h.1, Views-update rest m.1 h.2)

  pub count_views-update :
      (b : ℕ) (l : List ℕ) → Missing a l → count_views (update al a v) b l ≡ count_views al b l
  count_views-update b [] m = refl
  count_views-update b (j ∷ rest) m = rw (same j m.0, count_views-update b rest m.1) refl

  pub here : update al a v a ≡ v
  here = update-elim (λ x. x ≡ v) al a v a (λ _. refl) (λ n. absurd (n refl))

  -- A new alias whose addresses meet no listed one.
  pub Apart-new :
      (l : List ℕ)
      → any_meets al v.address (v.address + v.size) l ≡ false
      → Missing a l
      → Views al l
      → Apart (update al a v) a l
  unfolding any_meets
  Apart-new [] e m h = tt
  Apart-new (j ∷ rest) e m h = (
    m.0,
    rw (here, same j m.0) (tests_apart v (al j) _ h.0 e).0,
    Apart-new rest (tests_apart v (al j) _ h.0 e).1 m.1 h.2,
  )

module _ (al : Array Alias) (a : ℕ) where
  -- A view without an address is not listed.
  pub Views-Missing : (l : List ℕ) → (al a).address ≡ 0 → Views al l → Missing a l
  Views-Missing [] z h = tt
  Views-Missing (j ∷ rest) z h = (
    (λ e.
        let g : InArena (al a) = subst (λ i. InArena (al i)) e h.0 in
        absurd (omega (arith, z, g.above))),
    Views-Missing rest z h.2,
  )

  pub Apart-Missing : (l : List ℕ) → Apart al a l → Missing a l
  Apart-Missing [] h = tt
  Apart-Missing (j ∷ rest) h = (h.0, Apart-Missing rest h.2)

  Apart-unlink : (i : ℕ) (l : List ℕ) → Apart al i l → Apart al i (unlink a l)
  unfolding unlink
  Apart-unlink i [] h = tt
  Apart-unlink i (j ∷ rest) h = elim (Bool-cases (j == a)) [
    | inl e ↦ rw e h.2
    | inr e ↦ rw e (h.0, h.1, Apart-unlink i rest h.2)
  ]

  pub Views-unlink : (l : List ℕ) → Views al l → Views al (unlink a l)
  unfolding unlink
  Views-unlink [] h = tt
  Views-unlink (j ∷ rest) h = elim (Bool-cases (j == a)) [
    | inl e ↦ rw e h.2
    | inr e ↦ rw e (h.0, Apart-unlink j rest h.1, Views-unlink rest h.2)
  ]

  pub Missing-unlink : (l : List ℕ) → Views al l → Missing a (unlink a l)
  unfolding unlink
  Missing-unlink [] h = tt
  Missing-unlink (j ∷ rest) h = elim (Bool-cases (j == a)) [
    | inl e ↦
        let found : j ≡ a = ground arith in
        rw e (Apart-Missing rest (subst (λ i. Apart al i rest) found h.1))
    | inr e ↦ rw e ((λ f. cc ((==_iff j a).1 f)), Missing-unlink rest h.2)
  ]

  pub Listed-unlink : (i : ℕ) (l : List ℕ) → i ≢ a → Listed i l → Listed i (unlink a l)
  unfolding unlink
  Listed-unlink i [] n h = h
  Listed-unlink i (j ∷ rest) n h = elim (Bool-cases (j == a)) [
    | inl e ↦ rw e (elim h [ inl f ↦ absurd (ground arith) | inr g ↦ g ])
    | inr e ↦ rw e (elim h [ inl f ↦ inl f | inr g ↦ inr (Listed-unlink i rest n g) ])
  ]

  pub count_views-unlink :
      (b : ℕ) (l : List ℕ)
      → Listed a l
      → count_views al b l ≡ (if (al a).backing == b then 1 else 0) + count_views al b (unlink a l)
  unfolding unlink
  count_views-unlink b [] h = absurd h
  count_views-unlink b (j ∷ rest) h = elim (Bool-cases (j == a)) [
    | inl e ↦ let found : j ≡ a = ground arith in rw (e, found) refl
    | inr e ↦ elim h [
      | inl f ↦ absurd (ground arith)
      | inr g ↦ rw e (omega (arith, count_views-unlink b rest g))
    ]
  ]
