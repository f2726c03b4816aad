-- ===== src/Clock/Fits.antt =====
-- What each thread knows of the anchor, and how a step of one thread changes it for all.
use mkwii_ps.Base.{ℕ, ◌+◌, ◌%◌, ◌^◌, ◌≤◌, ◌<◌, ◌≡◌, ◌⊎◌, refl, arith, Bool, true, false, ◌∙◌, inl}
use mkwii_ps.Clock.{
  Settings, Shared, Pc, idle, load_first, load_counter, load_nanos, load_again, test_and_set,
  ask_real, ask_after, load_sequence, store_odd, store_counter, store_nanos, store_even,
  count_resync, clear, load_last, exchange, returned, step, after_loop, after_reading,
}

-- Between `test_and_set` and `clear`.
abbrev pub holds : Pc → Bool
holds (ask_real c) = true
holds (ask_after c real) = true
holds (load_sequence anchor base nanos) = true
holds (store_odd anchor base q nanos) = true
holds (store_counter anchor base q nanos) = true
holds (store_nanos base q nanos) = true
holds (store_even q nanos) = true
holds (count_resync nanos) = true
holds (clear nanos) = true
holds _ = false

-- Between the two stores of the sequence.
abbrev pub writes : Pc → Bool
writes (store_counter anchor base q nanos) = true
writes (store_nanos base q nanos) = true
writes (store_even q nanos) = true
writes _ = false

-- What the locals of a thread say about the shared members.
abbrev pub Fits : Shared → Pc → Type 0
Fits s (load_counter c q) = q ≤ s.sequence
Fits s (load_nanos c q bc) = (q ≤ s.sequence) × (q % 2 ≡ 0 → q ≡ s.sequence → bc ≡ s.base_counter)
Fits s (load_again c q bc bn) =
    (q ≤ s.sequence)
    × (q % 2 ≡ 0 → q ≡ s.sequence → bc ≡ s.base_counter)
    × (q % 2 ≡ 0 → q ≡ s.sequence → bn ≡ s.base_nanos)
Fits s (ask_real c) = s.sequence % 2 ≡ 0
Fits s (ask_after c real) = s.sequence % 2 ≡ 0
Fits s (load_sequence anchor base nanos) = s.sequence % 2 ≡ 0
Fits s (store_odd anchor base q nanos) = (q ≡ s.sequence) × (q % 2 ≡ 0)
Fits s (store_counter anchor base q nanos) = (q + 1 ≡ s.sequence) × (q % 2 ≡ 0)
Fits s (store_nanos base q nanos) = (q + 1 ≡ s.sequence) × (q % 2 ≡ 0)
Fits s (store_even q nanos) = (q + 1 ≡ s.sequence) × (q % 2 ≡ 0)
Fits s (count_resync nanos) = s.sequence % 2 ≡ 0
Fits s (clear nanos) = s.sequence % 2 ≡ 0
Fits s _ = Unit

-- A step of one thread, for the others: the anchor of an even sequence is not changed under it.
pub record Later (s s' : Shared) : Type 0 where
  pub le : s.sequence ≤ s'.sequence
  pub same_counter :
      s.sequence % 2 ≡ 0 → s.sequence ≡ s'.sequence → s.base_counter ≡ s'.base_counter
  pub same_nanos : s.sequence % 2 ≡ 0 → s.sequence ≡ s'.sequence → s.base_nanos ≡ s'.base_nanos

module _ (k : Settings) (input : ℕ) where
  pub step-Later :
      (p : Pc) (s : Shared) → Fits s p → s.sequence + 2 < 2 ^ 64 → Later s (step k input p s).1
  unfolding step
  step-Later (store_odd anchor base q nanos) s f h = record {
    le = omega arith;
    same_counter = λ e g. refl;
    same_nanos = λ e g. refl;
  }
  step-Later (store_counter anchor base q nanos) s f h = record {
    le = omega arith;
    same_counter = λ e g. absurd (omega arith);
    same_nanos = λ e g. refl;
  }
  step-Later (store_nanos base q nanos) s f h = record {
    le = omega arith;
    same_counter = λ e g. refl;
    same_nanos = λ e g. absurd (omega arith);
  }
  step-Later (store_even q nanos) s f h = record {
    le = omega arith;
    same_counter = λ e g. refl;
    same_nanos = λ e g. refl;
  }
  step-Later (exchange nanos previous) s f h = record {
    le = ground arith;
    same_counter = λ e g. ground arith;
    same_nanos = λ e g. ground arith;
  }
  step-Later _ s f h = record {
    le = omega arith;
    same_counter = λ e g. refl;
    same_nanos = λ e g. refl;
  }

  -- Who does not hold the flag leaves the anchor and its sequence alone.
  pub step-sequence :
      (p : Pc) (s : Shared) → holds p ≡ false → (step k input p s).1.sequence ≡ s.sequence
  unfolding step
  step-sequence (exchange nanos previous) s e = ground arith
  step-sequence (ask_real c) s e = cc
  step-sequence (ask_after c real) s e = cc
  step-sequence (load_sequence anchor base nanos) s e = cc
  step-sequence (store_odd anchor base q nanos) s e = cc
  step-sequence (store_counter anchor base q nanos) s e = cc
  step-sequence (store_nanos base q nanos) s e = cc
  step-sequence (store_even q nanos) s e = cc
  step-sequence (count_resync nanos) s e = cc
  step-sequence (clear nanos) s e = cc
  step-sequence _ s e = refl

  -- The flag's holder, and the sequence while nobody holds it.
  pub step-Fits :
      (p : Pc) (s : Shared)
      → Fits s p
      → (s.resyncing ≡ false → s.sequence % 2 ≡ 0)
      → s.sequence + 2 < 2 ^ 64
      → Fits (step k input p s).1 (step k input p s).0
  unfolding step after_loop after_reading
  step-Fits (load_again c q bc bn) s f e h = ground arith
  step-Fits (test_and_set c nanos) s f e h = ground arith
  step-Fits (exchange nanos previous) s f e h = ground arith
  step-Fits (load_counter c q) s f e h = (f, λ a b. refl)
  step-Fits (load_nanos c q bc) s f e h = (f.0, f.1, λ a b. refl)
  step-Fits _ s f e h = omega arith

  pub step-even :
      (p : Pc) (s : Shared)
      → Fits s p
      → (s.resyncing ≡ false → s.sequence % 2 ≡ 0)
      → (holds p ≡ true → s.resyncing ≡ true)
      → (step k input p s).1.resyncing ≡ false
      → (step k input p s).1.sequence % 2 ≡ 0
  unfolding step
  step-even (exchange nanos previous) s f e h g = ground (arith, e)
  step-even (clear nanos) s f e h g = f
  step-even (store_odd anchor base q nanos) s f e h g = absurd (cc (h refl))
  step-even (store_counter anchor base q nanos) s f e h g = absurd (cc (h refl))
  step-even (store_nanos base q nanos) s f e h g = absurd (cc (h refl))
  step-even (store_even q nanos) s f e h g = absurd (cc (h refl))
  step-even (test_and_set c nanos) s f e h g = absurd (cc)
  step-even (count_resync nanos) s f e h g = f
  step-even _ s f e h g = e g

  -- A thread that holds the flag held it before, or took it while it was clear.
  pub step-holds :
      (p : Pc) (s : Shared)
      → holds (step k input p s).0 ≡ true
      → (holds p ≡ true) ⊎ (s.resyncing ≡ false)
  unfolding step after_loop after_reading
  step-holds (test_and_set c nanos) s h = ground arith
  step-holds (load_again c q bc bn) s h = ground arith
  step-holds (exchange nanos previous) s h = ground arith
  step-holds idle s h = inl h
  step-holds (load_first c) s h = inl h
  step-holds (load_counter c q) s h = inl h
  step-holds (load_nanos c q bc) s h = inl h
  step-holds (clear nanos) s h = inl refl
  step-holds (load_last nanos) s h = inl h
  step-holds (returned v) s h = inl h
  step-holds _ s h = inl refl

  pub step-flag :
      (p : Pc) (s : Shared)
      → holds p ≡ false
      → s.resyncing ≡ true
      → (step k input p s).1.resyncing ≡ true
  unfolding step
  step-flag (exchange nanos previous) s h r = ground arith
  step-flag (clear nanos) s h r = cc
  step-flag (test_and_set c nanos) s h r = refl
  step-flag _ s h r = r

  pub step-own_flag :
      (p : Pc) (s : Shared)
      → (holds p ≡ true → s.resyncing ≡ true)
      → holds (step k input p s).0 ≡ true
      → (step k input p s).1.resyncing ≡ true
  unfolding step after_loop after_reading
  step-own_flag (test_and_set c nanos) s h r = refl
  step-own_flag (load_again c q bc bn) s h r = ground arith
  step-own_flag (exchange nanos previous) s h r = ground arith
  step-own_flag (ask_real c) s h r = h refl
  step-own_flag (ask_after c real) s h r = h refl
  step-own_flag (load_sequence anchor base nanos) s h r = h refl
  step-own_flag (store_odd anchor base q nanos) s h r = h refl
  step-own_flag (store_counter anchor base q nanos) s h r = h refl
  step-own_flag (store_nanos base q nanos) s h r = h refl
  step-own_flag (store_even q nanos) s h r = h refl
  step-own_flag (count_resync nanos) s h r = h refl
  step-own_flag _ s h r = cc

-- An anchor that fitted an even sequence fits it still.
keeps :
    (s s' : Shared) (q x a a' : ℕ)
    → q ≤ s.sequence
    → s.sequence ≤ s'.sequence
    → (q % 2 ≡ 0 → q ≡ s.sequence → x ≡ a)
    → (s.sequence % 2 ≡ 0 → s.sequence ≡ s'.sequence → a ≡ a')
    → q % 2 ≡ 0
    → q ≡ s'.sequence
    → x ≡ a'
keeps s s' q x a a' le le' f g even e = f even (omega arith) ∙ g (omega arith) (omega arith)

pub frame :
    (s s' : Shared) (q : Pc)
    → Fits s q
    → Later s s'
    → (holds q ≡ true → s'.sequence ≡ s.sequence)
    → Fits s' q
frame s s' (load_counter c q) f l e = omega (arith, l.le)
frame s s' (load_nanos c q bc) f l e =
    (omega (arith, l.le), keeps s s' q bc _ _ f.0 l.le f.1 l.same_counter)
frame s s' (load_again c q bc bn) f l e = (
  omega (arith, l.le),
  keeps s s' q bc _ _ f.0 l.le f.1 l.same_counter,
  keeps s s' q bn _ _ f.0 l.le f.2 l.same_nanos,
)
frame s s' (ask_real c) f l e = omega (arith, e refl)
frame s s' (ask_after c real) f l e = omega (arith, e refl)
frame s s' (load_sequence anchor base nanos) f l e = omega (arith, e refl)
frame s s' (store_odd anchor base q nanos) f l e = omega (arith, e refl)
frame s s' (store_counter anchor base q nanos) f l e = omega (arith, e refl)
frame s s' (store_nanos base q nanos) f l e = omega (arith, e refl)
frame s s' (store_even q nanos) f l e = omega (arith, e refl)
frame s s' (count_resync nanos) f l e = omega (arith, e refl)
frame s s' (clear nanos) f l e = omega (arith, e refl)
frame s s' _ f l e = tt
