-- ===== src/Present/Recent.antt =====
-- The ring holds the last 512 presents.
use mkwii_ps.Base.{
  ℕ, zero, suc, ◌+◌, ◌-◌, ◌%◌, ◌^◌, ◌≤◌, ◌<◌, ◌≡◌, refl, min, false, ◌&&◌, ◌!=◌, ltb, arith,
  if◌then◌else◌, update, update-elim, some, List, [], ◌∷◌, length, get_elem?,
}
use mkwii_ps.Base.Outcome.{Gives, gives}
use mkwii_ps.Present.{Sample, PresentHistory, record_present}

-- The times of all presents, the latest first: the latest, and what each adds.
abbrev pub latest : List ℕ → ℕ
latest [] = 0
latest (t ∷ rest) = t

abbrev pub since : ℕ → List ℕ → ℕ
since now [] = 0
since now (t ∷ rest) = now - t

abbrev pub timeline : List ℕ → List Sample
timeline [] = []
timeline (t ∷ rest) = record { at = t; interval = since t rest } ∷ timeline rest

pub record Recent (times : List ℕ) (h : PresentHistory) : Type 0 where
  pub total : h.total ≡ length times
  pub last : h.last ≡ latest times
  pub write : h.write ≡ length times % 512
  pub count : h.count ≡ min (length times) 512
  pub kept :
      (k : ℕ) (s : Sample)
      → k < 512
      → get_elem? (timeline times) k ≡ some s
      → h.samples ((length times + 511 - k) % 512) ≡ s

interval_of :
    (now : ℕ) (times : List ℕ)
    → (if length times != 0 then now - latest times else 0) ≡ since now times
interval_of now [] = refl
interval_of now (t ∷ rest) = ground arith

-- Where the ring holds the last presents at `times` and the clock does not go back, a present is
-- recorded without an exception: the ring then holds the last 512 of all presents, each with the time
-- since the one before it, and counts them.
pub record_present-Recent :
    (h : PresentHistory) (times : List ℕ) (now : ℕ)
    → Recent times h
    → latest times ≤ now
    → length times + 1 < 2 ^ 64
    → Gives (Recent (now ∷ times)) (record_present h now)
unfolding record_present
record_present-Recent h times now r p q = rw (accepted) (
    gives (record {
      total = omega (arith, r.total);
      last = refl;
      write = omega (arith, r.write);
      count = omega (arith, r.count);
      kept = kept;
    }))
  where
    accepted : (h.total != 0 && ltb now h.last) ≡ false
    accepted = ground (arith, r.last)

    added : Sample
    added = record { at = now; interval = if h.total != 0 then now - h.last else 0 }

    same :
        (s : Sample) → some (record { at = now; interval = since now times }) ≡ some s → added ≡ s
    same s e = rw (r.total, r.last, interval_of now times) (ground arith)

    index : (k : ℕ) → (suc (length times) + 511 - suc k) % 512 ≡ (length times + 511 - k) % 512
    index k = omega arith

    kept :
        (k : ℕ) (s : Sample)
        → k < 512
        → get_elem? (timeline (now ∷ times)) k ≡ some s
        → update h.samples h.write
            (record { at = now; interval = if h.total != 0 then now - h.last else 0 })
            ((suc (length times) + 511 - k) % 512)
          ≡ s
    kept zero s b e =
        update-elim (λ v. v ≡ s) h.samples h.write added _ (λ i. same s e)
          (λ i. absurd (i (omega (arith, r.write))))
    kept (suc k) s b e =
        update-elim (λ v. v ≡ s) h.samples h.write added _ (λ i. absurd (omega (arith, r.write, i)))
          (λ i. rw (index k) (r.kept k s (omega arith) e))
