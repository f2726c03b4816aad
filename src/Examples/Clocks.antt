-- ===== src/Examples/Clocks.antt =====
-- The theorems on the clock at concrete runs.
use mkwii_ps.Base.{ℕ, ◌+◌, ◌^◌, ◌≤◌, ◌<◌, ◌≡◌, refl, arith, false, List, [], ◌∷◌, update}
use mkwii_ps.Clock.{Settings, idle, step, started, scale, after_loop}
use mkwii_ps.Clock.System.{System, moves, Steps, here, next, fresh}
use mkwii_ps.Clock.Fits.{writes}
use mkwii_ps.Clock.Anchor.{load_again-untorn}
use mkwii_ps.Clock.Order.{returned-le}
use mkwii_ps.Clock.Alone.{Ends, idle-Ends}

-- The thread and the input of each step.
abbrev moved : Settings → System → List (ℕ × ℕ) → System
moved k s [] = s
moved k s ((t, input) ∷ rest) =
    moved k
      (record {
        shared = (step k input (s.pc t) s.shared).1;
        pc = update s.pc t (step k input (s.pc t) s.shared).0;
      })
      rest

-- No sequence on the way is near the end of the range.
abbrev InRange : Settings → System → List (ℕ × ℕ) → Type 0
InRange k s [] = Unit {0}
InRange k s ((t, input) ∷ rest) =
    (s.shared.sequence + 2 < 2 ^ 64)
    × InRange k
        (record {
          shared = (step k input (s.pc t) s.shared).1;
          pc = update s.pc t (step k input (s.pc t) s.shared).0;
        })
        rest

moved-Steps :
    (k : Settings) (s0 : System) (l : List (ℕ × ℕ)) (s : System)
    → InRange k s l
    → Steps k s0 s
    → Steps k s0 (moved k s l)
moved-Steps k s0 [] s h r = r
moved-Steps k s0 ((t, input) ∷ rest) s h r =
    moved-Steps k s0 rest _ h.1 (next r (moves s t input h.0))

-- A counter of a gigahertz, and an anchor every second.
abbrev settings : Settings
settings = record { frequency = 1000000000; resync_ticks = 1000000000 }

abbrev begun : System
begun = fresh 100 5000 110

-- A call of thread 0 up to its second load of the sequence, at a counter of 200.
abbrev loading : List (ℕ × ℕ)
loading = (0, 200) ∷ (0, 0) ∷ (0, 0) ∷ (0, 0) ∷ []

abbrev calling : ℕ → ℕ → List (ℕ × ℕ)
calling t c = (t, c) ∷ (t, 0) ∷ (t, 0) ∷ (t, 0) ∷ (t, 0) ∷ (t, 0) ∷ (t, 1) ∷ []

loaded : System
loaded = moved settings begun loading

first : System
first = moved settings begun (calling 0 200)

-- A counter that is behind the one of the first call.
second : System
second = moved settings first (calling 1 150)

load_again-untorn_example :
    (105 ≡ loaded.shared.base_counter)
    × (5000 ≡ loaded.shared.base_nanos)
    × ((u : ℕ) → writes (loaded.pc u) ≡ false)
unfolding loaded step started
load_again-untorn_example =
    load_again-untorn settings 100 5000 110 loaded 0 200 0 105 5000
      (moved-Steps settings begun loading begun (omega arith) here) refl refl refl

returned-le_example : 5095 ≤ 5095
unfolding first second step started after_loop scale
returned-le_example =
    returned-le settings 100 5000 110 first second 0 1 5095 5095
      (moved-Steps settings begun (calling 0 200) begun (omega arith) here) refl refl
      (moved-Steps settings first (calling 1 150) first (omega arith) here) refl

idle-Ends_example : Ends settings 17 idle (started 100 5000 110)
unfolding started
idle-Ends_example = idle-Ends settings (started 100 5000 110) refl
