-- ===== src/Clock/Alone.antt =====
-- A call of a thread that runs alone returns.
use mkwii_ps.Base.{
  ℕ, suc, ◌-◌, ◌%◌, ◌≡◌, ◌≢◌, arith, true, false, ltb, leb, ◌==◌, ◌!=◌, ◌&&◌, ◌||◌, if◌then◌else◌,
  bit_and, bit_and_mask, Bool-cases, inl, inr,
}
use mkwii_ps.Clock.{
  Settings, Shared, Pc, idle, test_and_set, ask_real, load_last, exchange, returned, step,
  after_loop, after_reading,
}

-- At an exchange, the input is not a failure for no reason; elsewhere it is any input.
abbrev pub Regular : Pc → ℕ → Type 0
Regular (exchange nanos previous) input = input ≢ 0
Regular _ input = Unit {0}

-- The thread returns after `n` of its steps at most, whatever the clocks give and where no exchange
-- fails for no reason.
pub data Ends (k : Settings) : ℕ → Pc → Shared → Type 0 where
  ended : {n v : ℕ} {s : Shared} → Ends k n (returned v) s
  goes :
      {n : ℕ} {p : Pc} {s : Shared}
      → ((input : ℕ) → Regular p input → Ends k n (step k input p s).0 (step k input p s).1)
      → Ends k (suc n) p s

module _ (k : Settings) where
  exchange-Ends : (n nanos : ℕ) (s : Shared) → Ends k (suc n) (exchange nanos s.last) s
  unfolding step
  exchange-Ends n nanos s = goes {p = exchange nanos s.last} λ input i.
      elim (Bool-cases (ltb s.last nanos)) [
        | inr e ↦ rw e ended
        | inl e ↦
            let won : (input != 0 && s.last == s.last) ≡ true = ground arith in rw (e, won) ended
      ]

  load_last-Ends : (n nanos : ℕ) (s : Shared) → Ends k (suc (suc n)) (load_last nanos) s
  unfolding step
  load_last-Ends n nanos s = goes λ input i. exchange-Ends n nanos s

  -- From the flag on: eight operations and the end of the call.
  ask_real-Ends : (c : ℕ) (s : Shared) → Ends k 11 (ask_real c) s
  unfolding step after_reading
  ask_real-Ends c s = goes λ i0 h0. goes λ i1 h1. goes λ i2 h2. goes λ i3 h3.
      goes λ i4 h4. goes λ i5 h5. goes λ i6 h6. goes λ i7 h7. goes λ i8 h8. load_last-Ends 0 _ _

  test_and_set-Ends : (c nanos : ℕ) (s : Shared) → Ends k 12 (test_and_set c nanos) s
  unfolding step
  test_and_set-Ends c nanos s = goes λ input i. elim (Bool-cases s.resyncing) [
    | inl e ↦ rw e (load_last-Ends 9 nanos _)
    | inr e ↦ rw e (ask_real-Ends c _)
  ]

  after_loop-Ends : (c bc bn : ℕ) (s : Shared) → Ends k 12 (after_loop k c bc bn) s
  unfolding after_loop
  after_loop-Ends c bc bn s =
      elim (Bool-cases (leb k.resync_ticks (if ltb bc c then c - bc else 0))) [
        | inl e ↦ rw e (test_and_set-Ends c _ s)
        | inr e ↦ rw e (load_last-Ends 10 _ s)
      ]

  -- A call of a thread that runs alone from a moment at which the sequence is even, so that no
  -- thread stands between the two stores of an anchor, returns after 17 atomic operations at most,
  -- also where another thread holds the flag. Both clocks may give any value at every reading; no
  -- exchange fails for no reason.
  pub idle-Ends : (s : Shared) → s.sequence % 2 ≡ 0 → Ends k 17 idle s
  unfolding step
  idle-Ends s even = goes λ c h0. goes λ i1 h1. goes λ i2 h2.
      goes λ i3 h3. goes λ i4 h4. rw (again) (after_loop-Ends c s.base_counter s.base_nanos s)
    where
      again : (bit_and s.sequence 1 != 0 || s.sequence != s.sequence) ≡ false
      again = ground (arith, bit_and_mask 1 s.sequence)
