-- ===== src/Clock/System.antt =====
-- Threads that read one clock, in any interleaving.
use mkwii_ps.Base.{ℕ, ◌+◌, ◌^◌, ◌<◌, update}
use mkwii_ps.Clock.{Settings, Shared, Pc, idle, step, started}

pub record System : Type 0 where
  pub shared : Shared
  pub pc : ℕ → Pc

-- Thread `t` makes a step. Fewer than 2^63 anchors have been set, so the sequence does not wrap around.
pub data Step (k : Settings) : System → System → Type 0 where
  moves :
      (s : System) (t input : ℕ)
      → s.shared.sequence + 2 < 2 ^ 64
      → Step k s (record {
        shared = (step k input (s.pc t) s.shared).1;
        pc = update s.pc t (step k input (s.pc t) s.shared).0;
      })

pub data Steps (k : Settings) (s : System) : System → Type 0 where
  here : Steps k s s
  next : {u v : System} → Steps k s u → Step k u v → Steps k s v

-- The clock as its constructor leaves it, and no call.
abbrev pub fresh : ℕ → ℕ → ℕ → System
fresh before nanos after = record { shared = started before nanos after; pc = λ _. idle }
