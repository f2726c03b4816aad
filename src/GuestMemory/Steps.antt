-- ===== src/GuestMemory/Steps.antt =====
-- Runs of the six operations, and what holds of the live aliases after each.
use mkwii_ps.Base.{ℕ, ◌≢◌, inl, inr, refl, arith, Array, List, [], ◌∷◌, subst, negsuc, sym, ◌∙◌}
use mkwii_ps.GuestMemory.Calls.{Kernel}
use mkwii_ps.GuestMemory.{Alias, Memory, reserve, close_backing, open_backing}
use mkwii_ps.GuestMemory.Aliases.{map_alias, unmap_alias, close_arena}
use mkwii_ps.GuestMemory.Views.{InArena, Disjoint, Apart, Views, Listed, count_views}
use mkwii_ps.GuestMemory.Tidy.{Tidy, reserve-After, close_backing-After, open_backing-After}
use mkwii_ps.GuestMemory.Mapped.{map_alias-After, unmap_alias-After, close_arena-After}

-- An operation, on any objects and with any arguments.
pub data Step (kernel : Kernel) : Memory → Memory → Type 0 where
  reserves : (m : Memory) → Step kernel m (reserve kernel m).0
  opens : (m : Memory) (b bytes : ℕ) → Step kernel m (open_backing kernel m b bytes).0
  maps :
      (m : Memory) (a guest_offset b backing_offset bytes : ℕ)
      → Step kernel m (map_alias kernel m a guest_offset b backing_offset bytes).0
  unmaps : (m : Memory) (a : ℕ) → Step kernel m (unmap_alias kernel m a).0
  closes : (m : Memory) (b : ℕ) → Step kernel m (close_backing kernel m b).0
  ends : (m : Memory) → Step kernel m (close_arena kernel m).0

pub data Steps (kernel : Kernel) (m : Memory) : Memory → Type 0 where
  start : Steps kernel m m
  next : {u v : Memory} → Steps kernel m u → Step kernel u v → Steps kernel m v

Step-Tidy : {kernel : Kernel} {m m' : Memory} → Step kernel m m' → Tidy m → Tidy m'
Step-Tidy {kernel} (reserves m) t = (reserve-After kernel m t).tidy
Step-Tidy {kernel} (opens m b bytes) t = (open_backing-After kernel m b bytes t).tidy
Step-Tidy {kernel} (maps m a o b p bytes) t = (map_alias-After kernel m a o b p bytes t).tidy
Step-Tidy {kernel} (unmaps m a) t = (unmap_alias-After kernel m a t).tidy
Step-Tidy {kernel} (closes m b) t = (close_backing-After kernel m b t).tidy
Step-Tidy {kernel} (ends m) t = (close_arena-After kernel m t).tidy

Steps-Tidy : {kernel : Kernel} {m m' : Memory} → Tidy m → Steps kernel m m' → Tidy m'
Steps-Tidy t start = t
Steps-Tidy t (next r s) = Step-Tidy s (Steps-Tidy t r)

-- Every object as its default constructor leaves it.
abbrev pub blank : Memory
blank = record {
  arena = record { base = 0; size = 0; aliases = [] };
  backings = λ _. record { physical = negsuc 0; size = 0; host = 0; aliases = 0 };
  aliases = λ _. record { address = 0; size = 0; backing = 0 };
  calls = [];
}

blank-Tidy : Tidy blank
blank-Tidy = record {
  placed = λ n. absurd (n refl);
  empty = λ _. refl;
  views = tt;
  listed = λ a n. absurd (n refl);
  counted = λ b. refl;
  backed = λ b n. absurd (n refl);
}

-- What the list says of one live alias, and of two.
Apart-Disjoint :
    (al : Array Alias) (i j : ℕ) (l : List ℕ) → Listed j l → Apart al i l → Disjoint (al i) (al j)
Apart-Disjoint al i j [] h p = absurd h
Apart-Disjoint al i j (k ∷ l) (inl e) p = subst (λ x. Disjoint (al i) (al x)) e p.1
Apart-Disjoint al i j (k ∷ l) (inr h) p = Apart-Disjoint al i j l h p.2

flip : (x y : Alias) → Disjoint x y → Disjoint y x
flip x y (inl h) = inr h
flip x y (inr h) = inl h

Views-Disjoint :
    (al : Array Alias) (i j : ℕ) (l : List ℕ)
    → Listed i l
    → Listed j l
    → i ≢ j
    → Views al l
    → Disjoint (al i) (al j)
Views-Disjoint al i j [] h g n v = absurd h
Views-Disjoint al i j (k ∷ l) (inl e) (inl f) n v = absurd (n (sym e ∙ f))
Views-Disjoint al i j (k ∷ l) (inl e) (inr g) n v =
    subst (λ x. Disjoint (al x) (al j)) e (Apart-Disjoint al k j l g v.1)
Views-Disjoint al i j (k ∷ l) (inr h) (inl f) n v =
    subst (λ x. Disjoint (al i) (al x)) f (flip (al k) (al i) (Apart-Disjoint al k i l h v.1))
Views-Disjoint al i j (k ∷ l) (inr h) (inr g) n v = Views-Disjoint al i j l h g n v.2

Views-InArena : (al : Array Alias) (i : ℕ) (l : List ℕ) → Listed i l → Views al l → InArena (al i)
Views-InArena al i [] h v = absurd h
Views-InArena al i (k ∷ l) (inl e) v = subst (λ x. InArena (al x)) e v.0
Views-InArena al i (k ∷ l) (inr h) v = Views-InArena al i l h v.2

count-ne-zero :
    (al : Array Alias) (i : ℕ) (l : List ℕ) → Listed i l → count_views al (al i).backing l ≢ 0
count-ne-zero al i [] h = absurd h
count-ne-zero al i (k ∷ l) (inl e) = rw (← e) (ground arith)
count-ne-zero al i (k ∷ l) (inr h) = omega (arith, count-ne-zero al i l h)

-- After any sequence of the six operations, on any objects, with any arguments and whatever the
-- kernel answers: a live alias lies in the guest's space, its backing has a host address, and no
-- other live alias meets its addresses.
pub Steps-views :
    (kernel : Kernel) (m : Memory) (a : ℕ)
    → Steps kernel blank m
    → (m.aliases a).address ≢ 0
    → InArena (m.aliases a)
      × ((m.backings (m.aliases a).backing).host ≢ 0)
      × ((j : ℕ) → a ≢ j → (m.aliases j).address ≢ 0 → Disjoint (m.aliases a) (m.aliases j))
Steps-views kernel m a r live =
    let t = Steps-Tidy blank-Tidy r in
    let l = m.arena.aliases in
    (
      Views-InArena m.aliases a l (t.listed a live) t.views,
      t.backed (m.aliases a).backing
          (λ e. count-ne-zero m.aliases a l (t.listed a live) (sym (t.counted _) ∙ e)),
      λ j n other. Views-Disjoint m.aliases a j l (t.listed a live) (t.listed j other) n t.views,
    )
