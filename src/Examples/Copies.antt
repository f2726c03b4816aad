-- ===== src/Examples/Copies.antt =====
-- The theorem on the store of copies at a concrete run.
use mkwii_ps.Base.{ℕ, ◌+◌, ◌%◌, ◌^◌, ◌≡◌, refl, arith, true, some, [], ◌∷◌}
use mkwii_ps.CopyStore.{
  Ram, Entry, bank_limit, coherent, checked_ram, overlaps, Answers, CopyStore, is_covered,
  resolve_parts, erase_met, retired, insert_range, commit, publish_range, publish, prepare_range,
  prepare_write,
}
use mkwii_ps.CopyStore.Ranges.{Laid}
use mkwii_ps.CopyStore.Laid.{here, next, publishes, prepares, untracked, Steps-Laid}

-- Two banks of 24 and 64 MB, which the windows show at the same host addresses.
abbrev console : Ram
console = record {
  mem1_size = 0x1800000;
  mem2_base = 0x10000000;
  mem2_end = 0x14000000;
  canonical = λ address. address % 2 ^ 29;
  contains = λ address bytes. true;
  pointer = λ address bytes. address % 2 ^ 29 + 2 ^ 40;
}

abbrev answered : ℕ → ℕ → Answers
answered bytes token = record {
  copy_bytes = some bytes;
  described = true;
  resolves = λ start size. true;
  token = some token;
  cached = true;
}

-- The second copy overwrites a part of the first, the third lies before it.
stored : CopyStore
stored =
    (publish console (answered 64 3)
      (publish console (answered 4096 2) (publish console (answered 4096 1) untracked 0x80001000).0
        0x80001800).0
      0x80000100).0

-- Then bytes in the third are written.
written : CopyStore
written = (prepare_write console (λ start size. true) stored 0x80000110 4).0

abbrev low_entry : Entry
low_entry = record { start = 0x100; bytes = 64; token = 3; destination = 2 ^ 40 + 0x100 }

abbrev high_entry : Entry
high_entry = record { start = 0x1800; bytes = 4096; token = 2; destination = 2 ^ 40 + 0x1800 }

stored-ranges : stored.ranges ≡ low_entry ∷ high_entry ∷ []
unfolding stored publish publish_range checked_ram bank_limit coherent overlaps is_covered
    resolve_parts erase_met retired insert_range commit
stored-ranges = refl

written-ranges : written.ranges ≡ high_entry ∷ []
unfolding written stored publish publish_range checked_ram bank_limit coherent overlaps is_covered
    resolve_parts erase_met retired insert_range commit prepare_write prepare_range
written-ranges = refl

Steps-Laid_example : Laid console 0 written.ranges
unfolding written stored
Steps-Laid_example =
    Steps-Laid console written (record { mem1 = omega arith; mem2 = omega arith })
      (next
        (next
          (next (next here (publishes untracked (answered 4096 1) 0x80001000))
            (publishes _ (answered 4096 2) 0x80001800))
          (publishes _ (answered 64 3) 0x80000100))
        (prepares stored (λ start size. true) 0x80000110 4))
