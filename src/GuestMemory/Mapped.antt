-- ===== src/GuestMemory/Mapped.antt =====
-- The views stay tidy when one is mapped or unmapped, and in every run.
use mkwii_ps.Base.{
  ℕ, ◌+◌, ◌%◌, ◌^◌, ◌≤◌, ◌<◌, ◌≡◌, ◌≢◌, ◌⊎◌, inl, inr, refl, arith, false, ◌==◌, ◌!=◌, update-elim,
  List, [], ◌∷◌, subst, pos, ◌+ℤ◌, sym,
}
use mkwii_ps.GuestMemory.Calls.{unmap, reserve_range, map_direct, Kernel, is_zero}
use mkwii_ps.GuestMemory.{Alias, Memory, asked}
use mkwii_ps.GuestMemory.Aliases.{
  any_meets, rejects, unlink, linked, unlinked, map_alias, unmap_alias, close_arena, is_linked,
}
use mkwii_ps.GuestMemory.Views.{
  InArena, Listed, Views-update, count_views-update, Views-Missing, Apart-new, Views-unlink,
  Missing-unlink, Listed-unlink, count_views-unlink, here,
}
use mkwii_ps.GuestMemory.Tidy.{Tidy, After, left, if-After, asked-Tidy, fails, nonzero_test}

-- What `MapAlias` has checked.
record Accepted (m : Memory) (guest_offset b bytes : ℕ) : Type 0 where
  open_arena : m.arena.base ≢ 0
  hosted : (m.backings b).host ≢ 0
  nonempty : 0 < bytes
  inside : guest_offset + bytes ≤ m.arena.size

rejects-Accepted :
    (m : Memory) (guest_offset b backing_offset bytes : ℕ)
    → rejects m.arena guest_offset (m.backings b) backing_offset bytes ≡ false
    → Accepted m guest_offset b bytes
unfolding rejects
rejects-Accepted m guest_offset b backing_offset bytes e = record {
  open_arena = ground arith;
  hosted = ground arith;
  nonempty = ground arith;
  inside = ground arith;
}

module _ (m : Memory) (t : Tidy m) (a b begin bytes : ℕ) where
  abbrev new : Alias
  new = record { address = begin; size = bytes; backing = b }

  linked-Tidy :
      (m.aliases a).address ≡ 0
      → m.arena.base ≢ 0
      → (m.backings b).host ≢ 0
      → InArena new
      → any_meets m.aliases begin (begin + bytes) m.arena.aliases ≡ false
      → Tidy (linked m a b begin bytes)
  unfolding linked
  linked-Tidy z based hosted inside clear =
      let l = m.arena.aliases in
      let miss = Views-Missing m.aliases a l z t.views in
      record {
        placed = t.placed;
        empty = λ e. absurd (based e);
        views = (
          update-elim InArena m.aliases a new a (λ _. inside) (λ n. absurd (n refl)),
          Apart-new m.aliases a new l clear miss t.views,
          Views-update m.aliases a new l miss t.views,
        );
        listed = λ j.
            update-elim (λ x. x.address ≢ 0 → (a ≡ j) ⊎ Listed j l) m.aliases a new j
              (λ e _. inl (sym e)) (λ _ live. inr (t.listed j live));
        counted = λ j.
            rw (here m.aliases a new, count_views-update m.aliases a new j l miss)
              (ground (arith, t.counted j));
        backed = λ j.
            update-elim (λ x. x.aliases ≢ 0 → x.host ≢ 0) m.backings b _ j (λ _ _. hosted)
              (λ _. t.backed j);
      }

module _ (m : Memory) (t : Tidy m) (a : ℕ) (live : (m.aliases a).address ≢ 0) where
  unlinked-Tidy : Tidy (unlinked m a)
  unfolding unlinked
  unlinked-Tidy =
      let l = m.arena.aliases in
      let rest = unlink a l in
      let v : Alias = record { address = 0; size = 0; backing = 0 } in
      let miss = Missing-unlink m.aliases a l t.views in
      record {
        placed = t.placed;
        empty = λ e. absurd (subst (Listed a) (t.empty e) (t.listed a live));
        views = Views-update m.aliases a v rest miss (Views-unlink m.aliases a l t.views);
        listed = λ j.
            update-elim (λ x. x.address ≢ 0 → Listed j rest) m.aliases a v j
              (λ _ n. absurd (n refl))
              (λ n lively. Listed-unlink m.aliases a j l n (t.listed j lively));
        counted = λ j.
            rw (count_views-update m.aliases a v j rest miss)
              (ground (arith, t.counted j, count_views-unlink m.aliases a j l (t.listed a live)));
        backed = λ j.
            update-elim (λ x. x.aliases ≢ 0 → x.host ≢ 0) m.backings (m.aliases a).backing _ j
              (λ e n. t.backed (m.aliases a).backing (ground arith)) (λ _. t.backed j);
      }

module _ (kernel : Kernel) (m : Memory) where
  -- The address of the view does not wrap around, and the view lies in the guest's space.
  view_inside :
      (a guest_offset b bytes : ℕ) (t : Tidy m)
      → Accepted m guest_offset b bytes
      → InArena (new m t a b ((m.arena.base + guest_offset) % 2 ^ 64) bytes)
  view_inside a guest_offset b bytes t ok =
      let p = t.placed ok.open_arena in
      record {
        some_bytes = ok.nonempty;
        above = omega (arith, p, ok.inside);
        below = omega (arith, p, ok.inside);
      }

  pub map_alias-After :
      (a guest_offset b backing_offset bytes : ℕ)
      → Tidy m
      → After (map_alias kernel m a guest_offset b backing_offset bytes)
  unfolding map_alias
  map_alias-After a guest_offset b backing_offset bytes t =
      let k = m.backings b in
      let begin = (m.arena.base + guest_offset) % 2 ^ 64 in
      let c = map_direct begin bytes 0x10 (k.physical +ℤ pos backing_offset) in
      if-After ((m.aliases a).address != 0) (λ _. left _ t)
        λ free.
          if-After (rejects m.arena guest_offset k backing_offset bytes) (λ _. left _ t)
            λ accepted.
              let ok = rejects-Accepted m guest_offset b backing_offset bytes accepted in
              let inside = view_inside a guest_offset b bytes t ok in
              let whole : (begin + bytes) % 2 ^ 64 ≡ begin + bytes = omega (arith, inside.below) in
              if-After (any_meets m.aliases begin ((begin + bytes) % 2 ^ 64) m.arena.aliases)
                (λ _. left _ t)
                λ clear.
                  if-After (fails kernel m c) (λ _. left _ (asked-Tidy m _ t))
                    λ _.
                      if-After ((kernel m.calls c).address != begin)
                        (λ _. left _ (asked-Tidy _ _ (asked-Tidy m _ t)))
                        λ _. left _ (
                          linked-Tidy (asked m c) (asked-Tidy m c t) a b begin bytes
                            (nonzero_test _ free) ok.open_arena ok.hosted inside
                            (subst (λ n. any_meets m.aliases begin n m.arena.aliases ≡ false) whole
                              clear))

  pub unmap_alias-After : (a : ℕ) → Tidy m → After (unmap_alias kernel m a)
  unfolding unmap_alias
  unmap_alias-After a t =
      let x = m.aliases a in
      if-After (x.address == 0) (λ _. left _ t)
        λ live.
          if-After (fails kernel m (reserve_range x.address x.size 0x10))
            (λ _. left _ (asked-Tidy m _ t))
            λ _. left _ (unlinked-Tidy (asked m _) (asked-Tidy m _ t) a (live_test _ live))
    where
      live_test : (n : ℕ) → (n == 0) ≡ false → n ≢ 0
      live_test n e = ground arith

  pub close_arena-After : Tidy m → After (close_arena kernel m)
  unfolding close_arena
  close_arena-After t =
      if-After (is_linked m.arena.aliases) (λ _. left _ t)
        λ none.
          if-After (m.arena.base == 0) (λ _. left _ t)
            λ _.
              if-After (is_zero (kernel m.calls (unmap m.arena.base m.arena.size)).code)
                (λ _. left _ (record {
                  placed = λ n. absurd (n refl);
                  empty = λ _. unlinked_list m.arena.aliases none;
                  views = t.views;
                  listed = t.listed;
                  counted = t.counted;
                  backed = t.backed;
                }))
                λ _. left _ (asked-Tidy m _ t)
    where
      unlinked_list : (l : List ℕ) → is_linked l ≡ false → l ≡ []
      unlinked_list [] e = refl
      unlinked_list (j ∷ l) e = cc
