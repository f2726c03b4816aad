-- ===== src/Examples/Presents.antt =====
-- The theorem on the ring of presents at a concrete ring.
use mkwii_ps.Base.{
  ℕ, zero, suc, ◌<◌, ◌≡◌, if◌then◌else◌, ◌==◌, ◌+◌, ◌-◌, ◌%◌, arith, some, [], ◌∷◌, get_elem?,
}
use mkwii_ps.Base.Outcome.{Gives}
use mkwii_ps.Present.{Sample, PresentHistory, record_present}
use mkwii_ps.Present.Recent.{timeline, Recent, record_present-Recent}

-- A ring with one present, at the time 5.
abbrev one_present : PresentHistory
one_present = record {
  samples = λ i. record { at = if i == 0 then 5 else 0; interval = 0 };
  write = 1;
  count = 1;
  total = 1;
  last = 5;
}

one_present-Recent : Recent (5 ∷ []) one_present
one_present-Recent = record {
  total = omega arith;
  last = omega arith;
  write = omega arith;
  count = omega arith;
  kept = kept;
}
  where
    kept :
        (k : ℕ) (s : Sample)
        → k < 512
        → get_elem? (timeline (5 ∷ [])) k ≡ some s
        → one_present.samples ((1 + 511 - k) % 512) ≡ s
    kept zero s b e = ground arith
    kept (suc k) s b e = ground arith

record_present-Recent_example : Gives (Recent (9 ∷ 5 ∷ [])) (record_present one_present 9)
record_present-Recent_example =
    record_present-Recent one_present (5 ∷ []) 9 one_present-Recent (omega arith) (omega arith)
