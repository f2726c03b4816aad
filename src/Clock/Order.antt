-- ===== src/Clock/Order.antt =====
-- The clock does not go back.
use mkwii_ps.Base.{ℕ, ◌≤◌, ◌≡◌, arith, update-elim, subst, sym}
use mkwii_ps.Clock.{
  Settings, Shared, Pc, idle, load_again, test_and_set, exchange, returned, step, after_loop,
  after_reading,
}
use mkwii_ps.Clock.System.{System, Step, moves, Steps, here, next, fresh}

-- What a thread at the end of its call knows of the latest value that was returned.
abbrev pub Above : ℕ → Pc → Type 0
Above v (exchange nanos previous) = v ≤ previous
Above v (returned w) = v ≤ w
Above v _ = Unit

abbrev pub Below : ℕ → Pc → Type 0
Below last (exchange nanos previous) = previous ≤ last
Below last (returned w) = w ≤ last
Below last _ = Unit

step-last : (k : Settings) (input : ℕ) (p : Pc) (s : Shared) → s.last ≤ (step k input p s).1.last
unfolding step
step-last k input (exchange nanos previous) s = ground arith
step-last k input _ s = omega arith

step-Below :
    (k : Settings) (input : ℕ) (p : Pc) (s : Shared)
    → Below s.last p
    → Below (step k input p s).1.last (step k input p s).0
unfolding step after_loop after_reading
step-Below k input (load_again c q bc bn) s b = ground arith
step-Below k input (test_and_set c nanos) s b = ground arith
step-Below k input (exchange nanos previous) s b = ground arith
step-Below k input _ s b = omega arith

step-Above :
    (k : Settings) (input v : ℕ) (p : Pc) (s : Shared)
    → v ≤ s.last
    → Above v p
    → Above v (step k input p s).0
unfolding step after_loop after_reading
step-Above k input v (load_again c q bc bn) s l a = ground arith
step-Above k input v (test_and_set c nanos) s l a = ground arith
step-Above k input v (exchange nanos previous) s l a = ground arith
step-Above k input v _ s l a = omega arith

Below-le : (l l' : ℕ) (p : Pc) → l ≤ l' → Below l p → Below l' p
Below-le l l' (exchange nanos previous) h b = omega arith
Below-le l l' (returned w) h b = omega arith
Below-le l l' _ h b = tt

-- No thread is ahead of the clock.
abbrev AllBelow : System → Type 0
AllBelow s = (t : ℕ) → Below s.shared.last (s.pc t)

Step-AllBelow : {k : Settings} {s s' : System} → Step k s s' → AllBelow s → AllBelow s'
Step-AllBelow {k} (moves s t input h) all j =
    update-elim (Below (step k input (s.pc t) s.shared).1.last) s.pc t
      (step k input (s.pc t) s.shared).0 j (λ e. step-Below k input (s.pc t) s.shared (all t))
      (λ e. Below-le s.shared.last _ (s.pc j) (step-last k input (s.pc t) s.shared) (all j))

Steps-AllBelow : {k : Settings} {s s' : System} → AllBelow s → Steps k s s' → AllBelow s'
Steps-AllBelow all here = all
Steps-AllBelow all (next r st) = Step-AllBelow st (Steps-AllBelow all r)

-- From a moment at which the clock has reached `v`, thread `u` knows of `v`.
record Knows (v u : ℕ) (s : System) : Type 0 where
  reached : v ≤ s.shared.last
  known : Above v (s.pc u)

Step-Knows : {k : Settings} {v u : ℕ} {s s' : System} → Step k s s' → Knows v u s → Knows v u s'
Step-Knows {k} {v} {u} (moves s t input h) n = record {
  reached = omega (arith, n.reached, step-last k input (s.pc t) s.shared);
  known =
      update-elim (Above v) s.pc t (step k input (s.pc t) s.shared).0 u
        (λ e.
          step-Above k input v (s.pc t) s.shared n.reached
            (subst (λ j. Above v (s.pc j)) e n.known))
        (λ e. n.known);
}

Steps-Knows : {k : Settings} {v u : ℕ} {s s' : System} → Knows v u s → Steps k s s' → Knows v u s'
Steps-Knows n here = n
Steps-Knows n (next r st) = Step-Knows st (Steps-Knows n r)

Below-returned : {l v : ℕ} {p : Pc} → p ≡ returned v → Below l p → v ≤ l
Below-returned {l} {v} {p} e b = subst (Below l) e b

Above-returned : {v w : ℕ} {p : Pc} → p ≡ returned w → Above v p → v ≤ w
Above-returned {v} {w} {p} e a = subst (Above v) e a

-- In every interleaving of the threads' atomic operations, where thread `t` has returned `v` at a
-- moment at which thread `u` is in no call, every value that `u` returns later is at least `v`.
pub returned-le :
    (k : Settings) (before nanos after : ℕ) (s s' : System) (t u v w : ℕ)
    → Steps k (fresh before nanos after) s
    → s.pc t ≡ returned v
    → s.pc u ≡ idle
    → Steps k s s'
    → s'.pc u ≡ returned w
    → v ≤ w
returned-le k before nanos after s s' t u v w r e i later f =
    Above-returned f (Steps-Knows start later).known
  where
    start : Knows v u s
    start = record {
      reached = Below-returned e (Steps-AllBelow (λ j. tt) r t);
      known = subst (Above v) (sym i) tt;
    }
