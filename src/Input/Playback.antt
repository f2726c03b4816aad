-- ===== src/Input/Playback.antt =====
-- A script that is played back: each call merges the presses that are active at its time.
use mkwii_ps.Base.{
  ℕ, zero, suc, ◌+◌, ◌-◌, ◌≤◌, ◌<◌, ◌≡◌, refl, sym, ap, ◌∙◌, Bool, true, false, ◌&&◌, ltb, leb, inl,
  inr, Bool-cases, if◌then◌else◌, arith, List, [], ◌∷◌, bit_or,
}
use mkwii_ps.Input.Sample.{PadSample}
use mkwii_ps.Input.Autopilot.{
  Press, Script, Pilot, load, from_index, held_of, count_over, start, advance, apply,
}

-- The buttons of all presses that are active at a time.
abbrev pub active : ℕ → List Press → ℕ → ℕ
active t [] held = held
active t (p ∷ ps) held =
    active t ps (if leb p.start_micros t && ltb t p.end_micros then bit_or held p.buttons else held)

-- A press begins no later than it ends, and no later than the one after it.
abbrev pub StartsFrom : ℕ → List Press → Type 0
StartsFrom t [] = Unit {0}
StartsFrom t (p ∷ ps) =
    (t ≤ p.start_micros) × (p.start_micros ≤ p.end_micros) × StartsFrom p.start_micros ps

-- The presses before an index are over.
abbrev OverBefore : ℕ → ℕ → List Press → Type 0
OverBefore zero t ps = Unit {0}
OverBefore (suc n) t [] = Unit {0}
OverBefore (suc n) t (p ∷ ps) = (p.end_micros ≤ t) × OverBefore n t ps

active-future :
    (t u : ℕ) (ps : List Press) (held : ℕ) → t < u → StartsFrom u ps → active t ps held ≡ held
active-future t u [] held lt s = refl
active-future t u (p ∷ ps) held lt s =
    let off : (leb p.start_micros t && ltb t p.end_micros) ≡ false = ground (arith, s.0) in
    rw off (active-future t p.start_micros ps held (omega (arith, s.0)) s.2)

held_of-active :
    (t u : ℕ) (ps : List Press) (held : ℕ) → StartsFrom u ps → held_of t ps held ≡ active t ps held
unfolding held_of
held_of-active t u [] held s = refl
held_of-active t u (p ∷ ps) held s = elim (Bool-cases (ltb t p.start_micros)) [
  | inl e ↦
      rw e
        (sym (active-future t p.start_micros (p ∷ ps) held (ground arith) (omega arith, s.1, s.2)))
  | inr e ↦
      let started : leb p.start_micros t ≡ true = ground arith in
      rw (e, started) (held_of-active t p.start_micros ps _ s.2)
]

-- Presses that are over hold nothing.
held_of-over :
    (t u n : ℕ) (ps : List Press) (held : ℕ)
    → StartsFrom u ps
    → OverBefore n t ps
    → held_of t ps held ≡ held_of t (from_index n ps) held
unfolding held_of
held_of-over t u zero ps held s over = refl
held_of-over t u (suc n) [] held s over = refl
held_of-over t u (suc n) (p ∷ ps) held s over =
    let started : ltb t p.start_micros ≡ false = ground (arith, s.1, over.0) in
    let ended : ltb t p.end_micros ≡ false = ground (arith, over.0) in
    rw (started, ended) (held_of-over t p.start_micros n ps held s.2 over.1)

count_over-OverBefore : (t : ℕ) (ps : List Press) → OverBefore (count_over t ps) t ps
unfolding count_over
count_over-OverBefore t [] = tt
count_over-OverBefore t (p ∷ ps) = elim (Bool-cases (leb p.end_micros t)) [
  | inl e ↦ rw e (ground arith, count_over-OverBefore t ps)
  | inr e ↦ rw e tt
]

-- Over presses stay over.
OverBefore-later : (n t u : ℕ) (ps : List Press) → t ≤ u → OverBefore n t ps → OverBefore n u ps
OverBefore-later zero t u ps le over = tt
OverBefore-later (suc n) t u [] le over = tt
OverBefore-later (suc n) t u (p ∷ ps) le over =
    (omega (arith, over.0), OverBefore-later n t u ps le over.1)

advance-OverBefore :
    (n t : ℕ) (ps : List Press)
    → OverBefore n t ps
    → OverBefore (n + count_over t (from_index n ps)) t ps
advance-OverBefore zero t ps over =
    let e : zero + count_over t ps ≡ count_over t ps = omega arith in
    rw e (count_over-OverBefore t ps)
advance-OverBefore (suc n) t [] over =
    let e : suc n + count_over t [] ≡ suc (n + count_over t []) = omega arith in rw e tt
advance-OverBefore (suc n) t (p ∷ ps) over =
    let e : suc n + count_over t (from_index n ps) ≡ suc (n + count_over t (from_index n ps)) =
      omega arith in
    rw e (over.0, advance-OverBefore n t ps over.1)

-- Calls with their samples and times.
abbrev pub play : Pilot → List (PadSample × ℕ) → List ℕ
play pilot [] = []
play pilot (call ∷ calls) = let a = apply pilot call.0 call.1 in a.held ∷ play a.pilot calls

-- What is active at each of the times, counted from the first.
abbrev pub expected : List Press → ℕ → List (PadSample × ℕ) → List ℕ
expected ps origin [] = []
expected ps origin (call ∷ calls) = active (call.1 - origin) ps 0 ∷ expected ps origin calls

-- Time does not go back.
abbrev pub Onwards : ℕ → List (PadSample × ℕ) → Type 0
Onwards t [] = Unit {0}
Onwards t (call ∷ calls) = (t ≤ call.1) × Onwards call.1 calls

module _ (p : Press) (ps : List Press) (sorted : StartsFrom 0 (p ∷ ps)) (origin : ℕ) where
  -- A pilot whose clock runs.
  abbrev playing : ℕ → Pilot
  playing cursor = record { presses = p ∷ ps; origin = origin; cursor = cursor; started = true }

  abbrev skipped : ℕ → ℕ → ℕ
  skipped cursor t = cursor + count_over t (from_index cursor (p ∷ ps))

  held_of-skipped :
      (cursor t : ℕ)
      → OverBefore cursor t (p ∷ ps)
      → held_of t (from_index (skipped cursor t) (p ∷ ps)) 0 ≡ active t (p ∷ ps) 0
  held_of-skipped cursor t over =
      sym (
        held_of-over t 0 (skipped cursor t) (p ∷ ps) 0 sorted
          (advance-OverBefore cursor t (p ∷ ps) over))
      ∙ held_of-active t 0 (p ∷ ps) 0 sorted

  apply-playing :
      (cursor now : ℕ) (sample : PadSample)
      → origin ≤ now
      → OverBefore cursor (now - origin) (p ∷ ps)
      → ((apply (playing cursor) sample now).held ≡ active (now - origin) (p ∷ ps) 0)
        × ((apply (playing cursor) sample now).pilot ≡ playing (skipped cursor (now - origin)))
  unfolding apply start advance
  apply-playing cursor now sample le over =
      let after : leb origin now ≡ true = ground arith in
      rw after (held_of-skipped cursor (now - origin) over, refl)

  play-playing :
      (calls : List (PadSample × ℕ)) (cursor t : ℕ)
      → origin ≤ t
      → OverBefore cursor (t - origin) (p ∷ ps)
      → Onwards t calls
      → play (playing cursor) calls ≡ expected (p ∷ ps) origin calls
  play-playing [] cursor t le over onwards = refl
  play-playing (call ∷ calls) cursor t le over onwards =
      let le' : origin ≤ call.1 = omega (arith, onwards.0) in
      let over' =
        OverBefore-later cursor (t - origin) (call.1 - origin) (p ∷ ps) (omega (arith, onwards.0))
          over in
      let step = apply-playing cursor call.1 call.0 le' over' in
      let rest =
        play-playing calls (skipped cursor (call.1 - origin)) call.1 le'
          (advance-OverBefore cursor (call.1 - origin) (p ∷ ps) over') onwards.1 in
      rw (step.0, step.1, rest) refl

-- A pilot without presses.
play-nothing :
    (started : Bool) (clock cursor origin : ℕ) (calls : List (PadSample × ℕ))
    → play (record { presses = []; origin = clock; cursor = cursor; started = started }) calls
      ≡ expected [] origin calls
unfolding apply
play-nothing started clock cursor origin [] = refl
play-nothing started clock cursor origin (call ∷ calls) =
    ap (λ rest. 0 ∷ rest) (play-nothing started clock cursor origin calls)

-- The presses that `load` takes.
abbrev pub loaded : Script → List Press
loaded script = if script.is_valid then script.presses else []

play-fresh :
    (ps : List Press) (now : ℕ) (sample : PadSample) (calls : List (PadSample × ℕ))
    → StartsFrom 0 ps
    → Onwards now calls
    → play
        (record { presses = ps; origin = 0; cursor = 0; started = false })
        ((sample, now) ∷ calls)
      ≡ expected ps now ((sample, now) ∷ calls)
unfolding apply start
play-fresh [] now sample calls sorted onwards = play-nothing false 0 0 now ((sample, now) ∷ calls)
play-fresh (p ∷ ps) now sample calls sorted onwards =
    play-playing p ps sorted now ((sample, now) ∷ calls) 0 now (omega arith) tt
      (omega arith, onwards)

-- A script whose presses are sorted and end no earlier than they begin: over calls whose times do not
-- go back, each call gives the buttons of exactly the presses that are active at its time, counted
-- from the first call. Of an invalid script there are none.
pub play-expected :
    (script : Script) (now : ℕ) (sample : PadSample) (calls : List (PadSample × ℕ))
    → StartsFrom 0 (loaded script)
    → Onwards now calls
    → play (load script) ((sample, now) ∷ calls)
      ≡ expected (loaded script) now ((sample, now) ∷ calls)
unfolding load
play-expected script now sample calls sorted onwards =
    play-fresh (loaded script) now sample calls sorted onwards
