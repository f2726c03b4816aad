-- ===== src/GuestMemory/Aliases.antt =====
-- The views of physical memory inside the arena, and the end of the arena.
use mkwii_ps.Base.{
  ℕ, ◌+◌, ◌-◌, ◌%◌, ◌^◌, Bool, true, false, ◌&&◌, ◌||◌, not, ltb, ◌==◌, ◌!=◌, if◌then◌else◌, Array,
  update, List, [], ◌∷◌, ℤ, pos, ◌+ℤ◌,
}
use mkwii_ps.GuestMemory.Calls.{reserve_range, map_direct, unmap, Kernel, is_zero}
use mkwii_ps.GuestMemory.{Arena, Backing, Alias, Memory, busy, invalid, is_aligned, asked}

-- The loop over the arena's aliases: whether one meets the addresses from `begin` to `end`.
unfoldable pub any_meets : Array Alias → ℕ → ℕ → List ℕ → Bool
any_meets al begin end [] = false
any_meets al begin end (j ∷ rest) =
    ltb begin (((al j).address + (al j).size) % 2 ^ 64) && ltb (al j).address end
    || any_meets al begin end rest

-- The arguments that `MapAlias` rejects.
unfoldable pub rejects : Arena → ℕ → Backing → ℕ → ℕ → Bool
rejects arena guest_offset k backing_offset bytes =
    arena.base == 0
    || k.host == 0
    || bytes == 0
    || not (is_aligned guest_offset)
    || not (is_aligned backing_offset)
    || not (is_aligned bytes)
    || ltb arena.size guest_offset
    || ltb (arena.size - guest_offset) bytes
    || ltb k.size backing_offset
    || ltb (k.size - backing_offset) bytes

-- The list without the first `a`.
unfoldable pub unlink : ℕ → List ℕ → List ℕ
unlink a [] = []
unlink a (j ∷ rest) = if j == a then rest else j ∷ unlink a rest

-- A new alias at the head of the arena's list.
unfoldable pub linked : Memory → ℕ → ℕ → ℕ → ℕ → Memory
linked m a b begin bytes = record m {
  arena = record m.arena { aliases = a ∷ m.arena.aliases };
  backings = update m.backings b (record (m.backings b) { aliases = (m.backings b).aliases + 1 });
  aliases = update m.aliases a (record { address = begin; size = bytes; backing = b });
}

unfoldable pub unlinked : Memory → ℕ → Memory
unlinked m a =
    let b = (m.aliases a).backing in
    record m {
      arena = record m.arena { aliases = unlink a m.arena.aliases };
      backings =
          update m.backings b (record (m.backings b) { aliases = (m.backings b).aliases - 1 });
      aliases = update m.aliases a (record { address = 0; size = 0; backing = 0 });
    }

-- `if (arena.aliases)`.
abbrev pub is_linked : List ℕ → Bool
is_linked [] = false
is_linked (a ∷ rest) = true

module _ (kernel : Kernel) where
  unfoldable pub map_alias : Memory → ℕ → ℕ → ℕ → ℕ → ℕ → Memory × ℤ
  map_alias m a guest_offset b backing_offset bytes =
      let k = m.backings b in
      let begin = (m.arena.base + guest_offset) % 2 ^ 64 in
      let c = map_direct begin bytes 0x10 (k.physical +ℤ pos backing_offset) in
      let r = kernel m.calls c in
      let m1 = asked m c in
      if (m.aliases a).address != 0
      then (m, busy)
      else if rejects m.arena guest_offset k backing_offset bytes
      then (m, invalid)
      else if any_meets m.aliases begin ((begin + bytes) % 2 ^ 64) m.arena.aliases
      then (m, busy)
      else if not (is_zero r.code)
      then (m1, r.code)
      else if r.address != begin
      then (asked m1 (unmap r.address bytes), invalid)
      else (linked m1 a b begin bytes, pos 0)

  -- The view is replaced by a reservation.
  unfoldable pub unmap_alias : Memory → ℕ → Memory × ℤ
  unmap_alias m a =
      let x = m.aliases a in
      let c = reserve_range x.address x.size 0x10 in
      let r = kernel m.calls c in
      let m1 = asked m c in
      if x.address == 0
      then (m, pos 0)
      else if not (is_zero r.code)
      then (m1, r.code)
      else (unlinked m1 a, pos 0)

  unfoldable pub close_arena : Memory → Memory × ℤ
  close_arena m =
      let c = unmap m.arena.base m.arena.size in
      let r = kernel m.calls c in
      let m1 = asked m c in
      if is_linked m.arena.aliases
      then (m, busy)
      else if m.arena.base == 0
      then (m, pos 0)
      else if is_zero r.code
      then (record m1 { arena = record m1.arena { base = 0; size = 0 } }, r.code)
      else (m1, r.code)
