-- ===== src/Examples/Logs.antt =====
-- The theorems on the log at concrete runs.
use mkwii_ps.Base.{ℕ, ◌+◌, ◌%◌, ◌^◌, ◌≤◌, ◌≡◌, refl, Option, none, some, List, [], ◌∷◌, ◌++◌}
use mathlib.Core.List.{Sublist}
use mkwii_ps.AsyncLog.{
  Log, push, push_formatted, printed, mkw_log, run_step, write_some, report, queue_limit,
}
use mkwii_ps.AsyncLog.Runs.{
  History, heard, formatted, noted, fresh, unheard, Run, start, logs, writes,
}
use mkwii_ps.AsyncLog.Delivered.{flight, Run-flight, Run-whole}

-- A message on slow writes with no more than its size.
abbrev brief : ℕ → ℕ → Option (List ℕ)
brief size nanos = some (size ∷ [])

-- A text or, without one, a step of the writer.
abbrev Events : Type 0
Events = List (Option (List ℕ) × ℕ)

abbrev after : Events → History × Log → History × Log
after [] (h, s) = (h, s)
after ((none, input) ∷ rest) (h, s) =
    after rest (noted brief input s.pc s h, run_step brief input s.pc s)
after ((some text, input) ∷ rest) (h, s) = after rest (
  formatted s.queue 2048 (some text) h,
  record { queue = mkw_log s.queue (some text); batch = s.batch; pc = s.pc; output = s.output },
)

after-Run :
    (l : Events) (h : History) (s : Log)
    → Run brief h s
    → Run brief (after l (h, s)).0 (after l (h, s)).1
after-Run [] h s r = r
after-Run ((none, input) ∷ rest) h s r = after-Run rest _ _ (writes r input)
after-Run ((some text, input) ∷ rest) h s r = after-Run rest _ _ (logs r (some text))

-- The writer takes a text of three bytes, of which a write takes two; meanwhile another text comes.
abbrev busy : Events
busy = (some (1 ∷ 2 ∷ 3 ∷ []), 0) ∷ (none, 0) ∷ (none, 0) ∷ (none, 2) ∷ (some (4 ∷ 5 ∷ []), 0) ∷ []

-- The next write fails, and all this took a second.
abbrev failing : Events
failing = busy ++ ((none, 0) ∷ (none, 1000000000) ∷ (none, 0) ∷ [])

half : History × Log
half = after busy (unheard, fresh)

broken : History × Log
broken = after failing (unheard, fresh)

abbrev both_texts : List ℕ
both_texts = 1 ∷ 2 ∷ 3 ∷ 4 ∷ 5 ∷ []

abbrev without_third : List ℕ
without_third = 1 ∷ 2 ∷ 4 ∷ 5 ∷ 3 ∷ []

abbrev all_texts : List ℕ
all_texts = 1 ∷ 2 ∷ 3 ∷ 4 ∷ 5 ∷ 3 ∷ []

Run-whole_example : flight half.1 ≡ both_texts
unfolding half run_step mkw_log push_formatted push printed write_some heard formatted noted
Run-whole_example = Run-whole brief half.0 half.1 (after-Run busy unheard fresh start) refl

Run-flight_example :
    Sublist without_third all_texts × (5 + 1 ≡ 6) × (3 ≤ queue_limit) × (3 % 2 ^ 64 ≡ 3 % 2 ^ 64)
unfolding broken run_step mkw_log push_formatted push printed write_some report heard formatted
    noted
Run-flight_example = Run-flight brief broken.0 broken.1 (after-Run failing unheard fresh start)
