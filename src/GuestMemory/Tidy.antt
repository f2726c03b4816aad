-- ===== src/GuestMemory/Tidy.antt =====
-- What holds of the guest's memory after every operation, whatever the kernel answers.
use mkwii_ps.Base.{
  ℕ, ◌+◌, ◌-◌, ◌^◌, ◌≡◌, ◌≢◌, refl, arith, Bool, true, false, ◌||◌, not, ltb, ◌==◌, ◌!=◌,
  if◌then◌else◌, update-elim, [], ap, bit_and, ℤ,
}
use mkwii_ps.GuestMemory.Calls.{
  Call, unmap, reserve_range, release, map_direct, direct_size, allocate, Kernel, is_zero,
}
use mkwii_ps.GuestMemory.{
  Backing, Memory, guest_base, guest_space_size, set_backing, asked, reserve, release_backing,
  close_backing, is_open, is_held, map_backing, open_backing, page_size,
}
use mkwii_ps.GuestMemory.Views.{Views, Listed, count_views}

-- The arena is at its place or closed and empty; its list has the live aliases, each in the arena and
-- apart from the others; a backing counts its views and has a host address while it has any.
pub record Tidy (m : Memory) : Type 0 where
  pub placed : m.arena.base ≢ 0 → (m.arena.base ≡ guest_base) × (m.arena.size ≡ guest_space_size)
  pub empty : m.arena.base ≡ 0 → m.arena.aliases ≡ []
  pub views : Views m.aliases m.arena.aliases
  pub listed : (a : ℕ) → (m.aliases a).address ≢ 0 → Listed a m.arena.aliases
  pub counted : (b : ℕ) → (m.backings b).aliases ≡ count_views m.aliases b m.arena.aliases
  pub backed : (b : ℕ) → (m.backings b).aliases ≢ 0 → (m.backings b).host ≢ 0

pub asked-Tidy : (m : Memory) (c : Call) → Tidy m → Tidy (asked m c)
asked-Tidy m c t = record {
  placed = t.placed;
  empty = t.empty;
  views = t.views;
  listed = t.listed;
  counted = t.counted;
  backed = t.backed;
}

-- The memory that an operation leaves.
pub record After (r : Memory × ℤ) : Type 0 where
  pub tidy : Tidy r.0

pub if-After :
    (b : Bool) {x y : Memory × ℤ}
    → (b ≡ true → After x)
    → (b ≡ false → After y)
    → After (if b then x else y)
if-After true h k = h refl
if-After false h k = k refl

pub left : {m : Memory} (code : ℤ) → Tidy m → After (m, code)
left code t = record { tidy = t }

-- A backing that keeps its count, and its host's address while it has views.
set_backing-Tidy :
    (m : Memory) (b : ℕ) (v : Backing)
    → v.aliases ≡ (m.backings b).aliases
    → (v.aliases ≢ 0 → v.host ≢ 0)
    → Tidy m
    → Tidy (set_backing m b v)
set_backing-Tidy m b v e h t = record {
  placed = t.placed;
  empty = t.empty;
  views = t.views;
  listed = t.listed;
  counted = λ j.
      update-elim (λ x. x.aliases ≡ count_views m.aliases j m.arena.aliases) m.backings b v j
        (λ f. omega (arith, e, ap (λ i. (m.backings i).aliases) f, t.counted j)) (λ _. t.counted j);
  backed = λ j.
      update-elim (λ x. x.aliases ≢ 0 → x.host ≢ 0) m.backings b v j (λ _. h) (λ _. t.backed j);
}

-- A test that failed or passed, as a statement.
pub nonzero_test : (n : ℕ) → (n != 0) ≡ false → n ≡ 0
nonzero_test n e = ground arith

pub nonequal_test : {n : ℕ} (k : ℕ) → (n != k) ≡ false → n ≡ k
nonequal_test k e = ground arith

module _ (kernel : Kernel) (m : Memory) where
  -- Whether the next call of the kernel fails.
  abbrev pub fails : Call → Bool
  fails c = not (is_zero (kernel m.calls c).code)

  pub reserve-After : Tidy m → After (reserve kernel m)
  unfolding reserve
  reserve-After t =
      let c = reserve_range guest_base guest_space_size 0x90 in
      if-After (m.arena.base != 0) (λ _. left _ t)
        λ closed.
          if-After (fails c) (λ _. left _ (asked-Tidy m _ t))
            λ _.
              if-After ((kernel m.calls c).address != guest_base)
                (λ _. left _ (asked-Tidy _ _ (asked-Tidy m _ t)))
                λ at. record {
                  tidy = record {
                    placed = λ _. (nonequal_test _ at, refl);
                    empty = λ e. t.empty (nonzero_test _ closed);
                    views = t.views;
                    listed = t.listed;
                    counted = t.counted;
                    backed = t.backed;
                  };
                }

  -- With no views.
  release_backing-After :
      (b : ℕ) → (m.backings b).aliases ≡ 0 → Tidy m → After (release_backing kernel m b)
  unfolding release_backing
  release_backing-After b none t =
      let k = m.backings b in
      if-After (not (is_held k.physical)) (λ _. left _ t)
        λ _.
          if-After (fails (release k.physical k.size)) (λ _. left _ (asked-Tidy m _ t))
            λ _. left _ (set_backing-Tidy _ b _ refl (λ n. absurd (n none)) (asked-Tidy m _ t))

module _ (kernel : Kernel) (m : Memory) where
  pub close_backing-After : (b : ℕ) → Tidy m → After (close_backing kernel m b)
  unfolding close_backing
  close_backing-After b t =
      let k = m.backings b in
      if-After (k.aliases != 0) (λ _. left _ t)
        λ none.
          let z : (m.backings b).aliases ≡ 0 = nonzero_test _ none in
          if-After (k.host == 0) (λ _. release_backing-After kernel m b z t)
            λ _.
              if-After (fails kernel m (unmap k.host k.size)) (λ _. left _ (asked-Tidy m _ t))
                λ _.
                  release_backing-After kernel _ b
                    (update-elim (λ x. x.aliases ≡ 0) m.backings b _ b (λ _. z)
                      (λ n. absurd (n refl)))
                    (set_backing-Tidy _ b _ refl (λ n. absurd (n z)) (asked-Tidy m _ t))

module _ (kernel : Kernel) (m : Memory) where
  map_backing-After : (b : ℕ) → (m.backings b).aliases ≡ 0 → Tidy m → After (map_backing kernel m b)
  unfolding map_backing
  map_backing-After b z t =
      let k = m.backings b in
      let c = map_direct k.host k.size 0 k.physical in
      let mapped =
        set_backing-Tidy (asked m c) b (record k { host = (kernel m.calls c).address }) refl
          (λ n. absurd (n z)) (asked-Tidy m c t) in
      if-After (is_zero (kernel m.calls c).code) (λ _. left _ mapped)
        λ _. left _ (close_backing-After kernel _ b mapped).tidy

module _ (kernel : Kernel) (m : Memory) where
  pub open_backing-After : (b bytes : ℕ) → Tidy m → After (open_backing kernel m b bytes)
  unfolding open_backing
  open_backing-After b bytes t =
      let k = m.backings b in
      let rounded = bit_and (bytes + page_size - 1) (2 ^ 64 - page_size) in
      let pool = (kernel m.calls direct_size).size in
      if-After (is_open k) (λ _. left _ t)
        λ closed.
          if-After (bytes == 0 || ltb (2 ^ 64 - page_size) bytes) (λ _. left _ t)
            λ _.
              if-After (ltb pool rounded || ltb (2 ^ 63 - 1) pool) (λ _. left _ (asked-Tidy m _ t))
                λ _.
                  if-After (fails kernel (asked m direct_size) (allocate pool rounded))
                    (λ _. left _ (asked-Tidy _ _ (asked-Tidy m _ t)))
                    λ _.
                      map_backing-After kernel _ b
                        (update-elim (λ x. x.aliases ≡ 0) m.backings b _ b (λ _. no_views closed)
                          (λ n. absurd (n refl)))
                        (set_backing-Tidy _ b _ refl (λ n. absurd (n (no_views closed)))
                          (asked-Tidy _ _ (asked-Tidy m _ t)))
    where
      no_views : is_open (m.backings b) ≡ false → (m.backings b).aliases ≡ 0
      no_views e = ground (arith, t.backed b)
