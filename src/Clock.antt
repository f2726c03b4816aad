-- ===== src/Clock.antt =====
-- ps5/runtime/fast_clock.h: a clock that many threads read. `step` is one atomic operation of a thread.
pub mod System
pub mod Fits
pub mod Anchor
pub mod Order
pub mod Alone
use mkwii_ps.Base.{
  ℕ, ◌+◌, ◌-◌, ◌*◌, ◌/◌, ◌%◌, ◌^◌, Bool, true, false, ◌&&◌, ◌||◌, ltb, leb, ◌==◌, ◌!=◌,
  if◌then◌else◌, bit_and,
}

-- The frequency of the counter and the ticks after which a reader anchors the clock again.
pub record Settings : Type 0 where
  pub frequency : ℕ
  pub resync_ticks : ℕ

-- The atomic members.
pub record Shared : Type 0 where
  pub sequence : ℕ
  pub base_counter : ℕ
  pub base_nanos : ℕ
  pub last : ℕ
  pub resyncs : ℕ
  pub resyncing : Bool

abbrev pub sub64 : ℕ → ℕ → ℕ
sub64 a b = (a + 2 ^ 64 - b) % 2 ^ 64

abbrev pub add64 : ℕ → ℕ → ℕ
add64 a b = (a + b) % 2 ^ 64

-- The product is of 128 bits.
unfoldable pub scale : ℕ → ℕ → ℕ
scale frequency ticks = ticks * 1000000000 % 2 ^ 128 / frequency % 2 ^ 64

unfoldable pub ticks_for : ℕ → ℕ → ℕ
ticks_for nanos frequency =
    let ticks = nanos * frequency % 2 ^ 128 / 1000000000 in if ticks != 0 then ticks % 2 ^ 64 else 1

unfoldable pub settings_of : ℕ → ℕ → Settings
settings_of frequency resync_nanos = record {
  frequency = frequency;
  resync_ticks = ticks_for resync_nanos frequency;
}

-- The constructor, of the counter before and after the slow clock was read.
unfoldable pub started : ℕ → ℕ → ℕ → Shared
started before nanos after = record {
  sequence = 0;
  base_counter = add64 before (sub64 after before / 2);
  base_nanos = nanos;
  last = nanos;
  resyncs = 0;
  resyncing = false;
}

-- Where a thread stands in `now_nanos` and `resync`: the next operation, and the locals that it and
-- later ones use. `idle` is outside a call, `returned` at its end.
pub data Pc : Type 0 where
  idle : Pc
  load_first : ℕ → Pc
  load_counter : ℕ → ℕ → Pc
  load_nanos : ℕ → ℕ → ℕ → Pc
  load_again : ℕ → ℕ → ℕ → ℕ → Pc
  test_and_set : ℕ → ℕ → Pc
  ask_real : ℕ → Pc
  ask_after : ℕ → ℕ → Pc
  load_sequence : ℕ → ℕ → ℕ → Pc
  store_odd : ℕ → ℕ → ℕ → ℕ → Pc
  store_counter : ℕ → ℕ → ℕ → ℕ → Pc
  store_nanos : ℕ → ℕ → ℕ → Pc
  store_even : ℕ → ℕ → Pc
  count_resync : ℕ → Pc
  clear : ℕ → Pc
  load_last : ℕ → Pc
  exchange : ℕ → ℕ → Pc
  returned : ℕ → Pc

-- The locals of `now_nanos` after the loop.
unfoldable pub after_loop : Settings → ℕ → ℕ → ℕ → Pc
after_loop k counter base_counter base_nanos =
    let elapsed = if ltb base_counter counter then counter - base_counter else 0 in
    let nanos = add64 base_nanos (scale k.frequency elapsed) in
    if leb k.resync_ticks elapsed then test_and_set counter nanos else load_last nanos

-- The locals of `resync` after both clocks were read.
unfoldable pub after_reading : Settings → ℕ → ℕ → ℕ → Pc
after_reading k before real after =
    let anchor = add64 before (sub64 after before / 2) in
    let behind = if ltb anchor after then after - anchor else 0 in
    load_sequence anchor real (add64 real (scale k.frequency behind))

-- One step. The input is what `counter` or `slowNanos` gives; at the exchange, which may fail for no
-- reason, 0 is such a failure.
unfoldable pub step : Settings → ℕ → Pc → Shared → Pc × Shared
step k input idle s = (load_first input, s)
step k input (load_first c) s = (load_counter c s.sequence, s)
step k input (load_counter c q) s = (load_nanos c q s.base_counter, s)
step k input (load_nanos c q bc) s = (load_again c q bc s.base_nanos, s)
step k input (load_again c q bc bn) s =
    (if bit_and q 1 != 0 || q != s.sequence then load_first c else after_loop k c bc bn, s)
step k input (test_and_set c nanos) s =
    (if s.resyncing then load_last nanos else ask_real c, record s { resyncing = true })
step k input (ask_real c) s = (ask_after c input, s)
step k input (ask_after c real) s = (after_reading k c real input, s)
step k input (load_sequence anchor base nanos) s = (store_odd anchor base s.sequence nanos, s)
step k input (store_odd anchor base q nanos) s =
    (store_counter anchor base q nanos, record s { sequence = add64 q 1 })
step k input (store_counter anchor base q nanos) s =
    (store_nanos base q nanos, record s { base_counter = anchor })
step k input (store_nanos base q nanos) s = (store_even q nanos, record s { base_nanos = base })
step k input (store_even q nanos) s = (count_resync nanos, record s { sequence = add64 q 2 })
step k input (count_resync nanos) s = (clear nanos, record s { resyncs = add64 s.resyncs 1 })
step k input (clear nanos) s = (load_last nanos, record s { resyncing = false })
step k input (load_last nanos) s = (exchange nanos s.last, s)
step k input (exchange nanos previous) s =
    let won = input != 0 && s.last == previous in
    if ltb previous nanos
    then (if won then (returned nanos, record s { last = nanos }) else (exchange nanos s.last, s))
    else (returned previous, s)
step k input (returned v) s = (idle, s)
