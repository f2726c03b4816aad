-- ===== src/Clock/Anchor.antt =====
-- The sequence lock: no reader uses a torn anchor, and one thread at a time sets it.
use mkwii_ps.Base.{
  ℕ, ◌+◌, ◌%◌, ◌^◌, ◌<◌, ◌≡◌, ◌≢◌, refl, arith, true, false, update, update-elim, subst, bit_and,
  bit_and_mask, Bool-cases, inl, inr,
}
use mkwii_ps.Clock.{
  Settings, Shared, Pc, load_again, store_counter, store_nanos, store_even, step, started,
}
use mkwii_ps.Clock.System.{System, moves, Steps, here, next, fresh}
use mkwii_ps.Clock.Fits.{
  holds, writes, Fits, step-Later, step-sequence, step-Fits, step-even, step-holds, step-flag,
  step-own_flag, frame,
}

pub record Inv (s : System) : Type 0 where
  pub fits : (t : ℕ) → Fits s.shared (s.pc t)
  pub even : s.shared.resyncing ≡ false → s.shared.sequence % 2 ≡ 0
  pub flag : (t : ℕ) → holds (s.pc t) ≡ true → s.shared.resyncing ≡ true
  pub alone : (t u : ℕ) → holds (s.pc t) ≡ true → holds (s.pc u) ≡ true → t ≡ u

module _ (k : Settings) (s : System) (inv : Inv s) (t input : ℕ)
    (h : s.shared.sequence + 2 < 2 ^ 64) where
  open inv use {fits, even, flag, alone}

  abbrev after : Shared
  after = (step k input (s.pc t) s.shared).1

  abbrev moved : Pc
  moved = (step k input (s.pc t) s.shared).0

  -- Another thread that holds the flag sees a mover that does not.
  other_holds : (j : ℕ) → j ≢ t → holds (s.pc j) ≡ true → holds (s.pc t) ≡ false
  other_holds j n e = elim (Bool-cases (holds (s.pc t))) [
    | inl d ↦ absurd (n (alone j t e d))
    | inr d ↦ d
  ]

  -- Who takes the flag finds it clear, so no other thread holds it.
  mover_holds : (j : ℕ) → j ≢ t → holds moved ≡ true → holds (s.pc j) ≡ true → j ≡ t
  mover_holds j n m e = elim (step-holds k input (s.pc t) s.shared m) [
    | inl d ↦ alone j t e d
    | inr d ↦ absurd (cc (flag j e))
  ]

  moved-Fits : (j : ℕ) → Fits after (update s.pc t moved j)
  moved-Fits j =
      update-elim (Fits after) s.pc t moved j
        (λ e. step-Fits k input (s.pc t) s.shared (fits t) even h)
        λ n.
          frame s.shared after (s.pc j) (fits j) (step-Later k input (s.pc t) s.shared (fits t) h)
            λ e. step-sequence k input (s.pc t) s.shared (other_holds j n e)

  moved-flag : (j : ℕ) → holds (update s.pc t moved j) ≡ true → after.resyncing ≡ true
  moved-flag j =
      update-elim (λ p. holds p ≡ true → after.resyncing ≡ true) s.pc t moved j
        (λ e. step-own_flag k input (s.pc t) s.shared (flag t))
        λ n e. step-flag k input (s.pc t) s.shared (other_holds j n e) (flag j e)

  moved-alone :
      (i j : ℕ)
      → holds (update s.pc t moved i) ≡ true
      → holds (update s.pc t moved j) ≡ true
      → i ≡ j
  moved-alone i j =
      update-elim (λ p. holds p ≡ true → holds (update s.pc t moved j) ≡ true → i ≡ j) s.pc t moved
        i
        (λ e m.
          update-elim (λ p. holds p ≡ true → i ≡ j) s.pc t moved j (λ f m'. omega arith)
            (λ n m'. omega (arith, mover_holds j n m m')))
        (λ n m.
          update-elim (λ p. holds p ≡ true → i ≡ j) s.pc t moved j
            (λ f m'. omega (arith, mover_holds i n m' m)) (λ n' m'. alone i j m m'))

  moved-Inv : Inv (record { shared = after; pc = update s.pc t moved })
  moved-Inv = record {
    fits = moved-Fits;
    even = step-even k input (s.pc t) s.shared (fits t) even (flag t);
    flag = moved-flag;
    alone = moved-alone;
  }

fresh-Inv : (before nanos after : ℕ) → Inv (fresh before nanos after)
unfolding started
fresh-Inv before nanos after = record {
  fits = λ t. tt;
  even = λ e. refl;
  flag = λ t e. cc;
  alone = λ t u e f. cc;
}

pub Steps-Inv : {k : Settings} {s s' : System} → Inv s → Steps k s s' → Inv s'
Steps-Inv inv here = inv
Steps-Inv {k} inv (next r (moves s t input h)) = moved-Inv k s (Steps-Inv inv r) t input h

-- A thread at the stores has made the sequence odd.
Fits-writes : (s : Shared) (p : Pc) → Fits s p → writes p ≡ true → s.sequence % 2 ≡ 1
Fits-writes s (store_counter anchor base q nanos) f e = omega arith
Fits-writes s (store_nanos base q nanos) f e = omega arith
Fits-writes s (store_even q nanos) f e = omega arith
Fits-writes s _ f e = cc

-- In every interleaving, where a thread is at its second load of the sequence, has loaded an even
-- sequence before and will find the same one, the counter and the time that it has loaded are the
-- two members of the anchor of this moment, and no thread is between the stores of an anchor.
pub load_again-untorn :
    (k : Settings) (before nanos after : ℕ) (s : System) (t c q bc bn : ℕ)
    → Steps k (fresh before nanos after) s
    → s.pc t ≡ load_again c q bc bn
    → bit_and q 1 ≡ 0
    → q ≡ s.shared.sequence
    → (bc ≡ s.shared.base_counter)
      × (bn ≡ s.shared.base_nanos)
      × ((u : ℕ) → writes (s.pc u) ≡ false)
load_again-untorn k before nanos after s t c q bc bn r e even same =
    let inv = Steps-Inv (fresh-Inv before nanos after) r in
    let f : Fits s.shared (load_again c q bc bn) = subst (Fits s.shared) e (inv.fits t) in
    let q_even : q % 2 ≡ 0 = omega (arith, bit_and_mask 1 q) in
    (
      f.1 q_even same,
      f.2 q_even same,
      λ u. elim (Bool-cases (writes (s.pc u))) [
        | inl w ↦ absurd (omega (arith, Fits-writes s.shared (s.pc u) (inv.fits u) w))
        | inr w ↦ w
      ],
    )
