-- ===== src/GuestMemory.antt =====
-- ps5/runtime/guest_memory_ps5.cpp: the memory of the guest, a reserved range of addresses into which
-- views of physical memory are mapped. A process has one arena. Objects are named by numbers.
pub mod Calls
pub mod Aliases
pub mod Views
pub mod Tidy
pub mod Mapped
pub mod Steps
use mkwii_ps.Base.{
  ℕ, ◌+◌, ◌-◌, ◌*◌, ◌%◌, ◌^◌, Bool, true, false, ◌&&◌, ◌||◌, not, ltb, leb, ◌==◌, ◌!=◌,
  if◌then◌else◌, Array, update, List, [], ◌∷◌, ℤ, pos, negsuc, bit_and,
}
use mkwii_ps.GuestMemory.Calls.{
  Call, reserve_range, direct_size, allocate, map_direct, release, unmap, Answer, Kernel, is_zero,
}

abbrev pub page_size : ℕ
page_size = 16384

abbrev pub guest_space_size : ℕ
guest_space_size = 0x100000000

abbrev pub guest_base : ℕ
guest_base = 0x2000000000

abbrev pub busy : ℤ
busy = negsuc 1

abbrev pub invalid : ℤ
invalid = negsuc 0

-- Address 0 is the null pointer. The intrusive list of aliases is the list of their numbers.
pub record Arena : Type 0 where
  pub base : ℕ
  pub size : ℕ
  pub aliases : List ℕ

-- A negative `physical` is no memory.
pub record Backing : Type 0 where
  pub physical : ℤ
  pub size : ℕ
  pub host : ℕ
  pub aliases : ℕ

-- A live alias is one with an address; its arena is the one arena.
pub record Alias : Type 0 where
  pub address : ℕ
  pub size : ℕ
  pub backing : ℕ

pub record Memory : Type 0 where
  pub arena : Arena
  pub backings : Array Backing
  pub aliases : Array Alias
  pub calls : List Call

unfoldable pub is_aligned : ℕ → Bool
is_aligned v = bit_and v (page_size - 1) == 0

abbrev pub set_backing : Memory → ℕ → Backing → Memory
set_backing m b v = record m { backings = update m.backings b v }

-- `physical >= 0`.
abbrev pub is_held : ℤ → Bool
is_held (pos n) = true
is_held (negsuc n) = false

-- An answer of the kernel, and the memory with the call in its record.
abbrev pub asked : Memory → Call → Memory
asked m c = record m { calls = c ∷ m.calls }

abbrev pub is_open : Backing → Bool
is_open k = is_held k.physical || k.host != 0

module _ (kernel : Kernel) where
  unfoldable pub reserve : Memory → Memory × ℤ
  reserve m =
      let c = reserve_range guest_base guest_space_size 0x90 in
      let r = kernel m.calls c in
      let m1 = asked m c in
      if m.arena.base != 0
      then (m, busy)
      else if not (is_zero r.code)
      then (m1, r.code)
      else if r.address != guest_base
      then (asked m1 (unmap r.address guest_space_size), invalid)
      else (
        record m1 { arena = record m1.arena { base = r.address; size = guest_space_size } },
        pos 0,
      )

  -- What `CloseBacking` does once the host's view is gone.
  unfoldable pub release_backing : Memory → ℕ → Memory × ℤ
  release_backing m b =
      let k = m.backings b in
      let c = release k.physical k.size in
      let r = kernel m.calls c in
      let m1 = asked m c in
      if not (is_held k.physical)
      then (m, pos 0)
      else if not (is_zero r.code)
      then (m1, r.code)
      else (set_backing m1 b (record k { physical = negsuc 0; size = 0 }), pos 0)

  unfoldable pub close_backing : Memory → ℕ → Memory × ℤ
  close_backing m b =
      let k = m.backings b in
      let c = unmap k.host k.size in
      let r = kernel m.calls c in
      let m1 = asked m c in
      if k.aliases != 0
      then (m, busy)
      else if k.host == 0
      then release_backing m b
      else if not (is_zero r.code)
      then (m1, r.code)
      else release_backing (set_backing m1 b (record k { host = 0 })) b

  -- The mapping of a fresh backing: the kernel writes the variable of the host's address.
  unfoldable pub map_backing : Memory → ℕ → Memory × ℤ
  map_backing m b =
      let k = m.backings b in
      let c = map_direct k.host k.size 0 k.physical in
      let r = kernel m.calls c in
      let m1 = set_backing (asked m c) b (record k { host = r.address }) in
      if is_zero r.code then (m1, pos 0) else ((close_backing m1 b).0, r.code)

  unfoldable pub open_backing : Memory → ℕ → ℕ → Memory × ℤ
  open_backing m b bytes =
      let k = m.backings b in
      let rounded = bit_and (bytes + page_size - 1) (2 ^ 64 - page_size) in
      let m1 = asked m direct_size in
      let pool = (kernel m.calls direct_size).size in
      let c = allocate pool rounded in
      let r = kernel m1.calls c in
      let m2 = asked m1 c in
      if is_open k
      then (m, busy)
      else if bytes == 0 || ltb (2 ^ 64 - page_size) bytes
      then (m, invalid)
      else if ltb pool rounded || ltb (2 ^ 63 - 1) pool
      then (m1, invalid)
      else if not (is_zero r.code)
      then (m2, r.code)
      else map_backing (set_backing m2 b (record k { physical = r.physical; size = rounded })) b
