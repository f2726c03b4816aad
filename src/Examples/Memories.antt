-- ===== src/Examples/Memories.antt =====
-- The theorem on the guest's memory at a concrete run.
use mkwii_ps.Base.{ℕ, ◌==◌, ◌≢◌, if◌then◌else◌, arith, pos}
use mkwii_ps.GuestMemory.Calls.{
  Call, reserve_range, direct_size, allocate, map_direct, release, unmap, Answer, Kernel,
}
use mkwii_ps.GuestMemory.{Memory, reserve, open_backing, map_backing, is_aligned}
use mkwii_ps.GuestMemory.Aliases.{map_alias, any_meets, rejects, linked}
use mkwii_ps.GuestMemory.Views.{InArena, Disjoint}
use mkwii_ps.GuestMemory.Steps.{Steps, start, next, reserves, opens, maps, blank, Steps-views}

-- A kernel whose calls succeed: it maps at the wanted address, or where the host has room.
abbrev answer : Call → Answer
answer (reserve_range address size flags) = record {
  code = pos 0;
  address = address;
  physical = pos 0;
  size = 0;
}
answer direct_size = record { code = pos 0; address = 0; physical = pos 0; size = 0x200000000 }
answer (allocate pool bytes) = record {
  code = pos 0;
  address = 0;
  physical = pos 0x10000;
  size = 0;
}
answer (map_direct address bytes flags physical) = record {
  code = pos 0;
  address = if address == 0 then 0x880000000 else address;
  physical = pos 0;
  size = 0;
}
answer (release physical bytes) = record { code = pos 0; address = 0; physical = pos 0; size = 0 }
answer (unmap address bytes) = record { code = pos 0; address = 0; physical = pos 0; size = 0 }

abbrev willing : Kernel
willing calls c = answer c

-- A backing of 32 MiB, seen at the cached and at the uncached addresses.
reserved : Memory
reserved = (reserve willing blank).0

backed : Memory
backed = (open_backing willing reserved 1 0x2000000).0

cached : Memory
cached = (map_alias willing backed 1 0x80000000 1 0 0x1800000).0

both : Memory
both = (map_alias willing cached 2 0xC0000000 1 0 0x1800000).0

both-Steps : Steps willing blank both
unfolding both cached backed reserved
both-Steps =
    next
      (next (next (next start (reserves blank)) (opens reserved 1 0x2000000))
        (maps backed 1 0x80000000 1 0 0x1800000))
      (maps cached 2 0xC0000000 1 0 0x1800000)

live : (both.aliases 1).address ≢ 0
unfolding both cached backed reserved map_alias open_backing map_backing reserve rejects any_meets
    linked is_aligned
live = omega arith

Steps-views_example :
    InArena (both.aliases 1)
    × ((both.backings (both.aliases 1).backing).host ≢ 0)
    × ((j : ℕ) → 1 ≢ j → (both.aliases j).address ≢ 0 → Disjoint (both.aliases 1) (both.aliases j))
Steps-views_example = Steps-views willing both 1 both-Steps live
