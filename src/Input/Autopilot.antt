-- ===== src/Input/Autopilot.antt =====
-- ps5/input/pad_autopilot.cpp: the playback of a script. Its parser works on doubles and strings of
-- the library and is left out: a script is its list of presses, or an error.
use mkwii_ps.Base.{
  ℕ, zero, suc, ◌+◌, ◌-◌, Bool, true, false, ltb, leb, if◌then◌else◌, List, [], ◌∷◌, bit_or,
}
use mkwii_ps.Input.Sample.{PadSample}

pub record Press : Type 0 where
  pub start_micros : ℕ
  pub end_micros : ℕ
  pub buttons : ℕ

-- `AutopilotScript`: the presses, and whether `error` is empty.
pub record Script : Type 0 where
  pub presses : List Press
  pub is_valid : Bool

pub record Pilot : Type 0 where
  pub presses : List Press
  pub origin : ℕ
  pub cursor : ℕ
  pub started : Bool

unfoldable pub load : Script → Pilot
load script = record {
  presses = if script.is_valid then script.presses else [];
  origin = 0;
  cursor = 0;
  started = false;
}

-- The presses from an index on.
abbrev pub from_index : ℕ → List Press → List Press
from_index zero ps = ps
from_index (suc n) [] = []
from_index (suc n) (p ∷ ps) = from_index n ps

-- The loop over the presses: it ends at the first one that begins in the future.
unfoldable pub held_of : ℕ → List Press → ℕ → ℕ
held_of elapsed [] held = held
held_of elapsed (p ∷ ps) held =
    let rest =
      held_of elapsed ps (if ltb elapsed p.end_micros then bit_or held p.buttons else held) in
    if ltb elapsed p.start_micros then held else rest

unfoldable pub buttons_at : Pilot → ℕ → ℕ
buttons_at pilot elapsed = held_of elapsed pilot.presses 0

-- The number of presses that are over, from the first one on.
unfoldable pub count_over : ℕ → List Press → ℕ
count_over elapsed [] = 0
count_over elapsed (p ∷ ps) =
    let rest = count_over elapsed ps in if leb p.end_micros elapsed then suc rest else 0

abbrev pub is_idle : List Press → Bool
is_idle [] = true
is_idle (p ∷ ps) = false

-- The first call starts the clock.
unfoldable pub start : ℕ → Pilot → Pilot
start now pilot =
    if pilot.started then pilot else record pilot { origin = now; started = true; cursor = 0 }

abbrev pub elapsed_of : Pilot → ℕ → ℕ
elapsed_of pilot now = if leb pilot.origin now then now - pilot.origin else 0

-- The presses that are over are skipped for good.
unfoldable pub advance : ℕ → Pilot → Pilot
advance elapsed pilot = record pilot {
  cursor = pilot.cursor + count_over elapsed (from_index pilot.cursor pilot.presses);
}

pub record Applied : Type 0 where
  pub pilot : Pilot
  pub sample : PadSample
  pub held : ℕ

abbrev pub merge_sample : ℕ → PadSample → PadSample
merge_sample held sample = record sample {
  connected = true;
  intercepted = false;
  buttons = bit_or sample.buttons held;
}

unfoldable pub apply : Pilot → PadSample → ℕ → Applied
apply pilot sample now =
    let begun = start now pilot in
    let elapsed = elapsed_of begun now in
    let ahead = advance elapsed begun in
    let held = held_of elapsed (from_index ahead.cursor ahead.presses) 0 in
    if is_idle pilot.presses
    then record { pilot = pilot; sample = sample; held = 0 }
    else record { pilot = ahead; sample = merge_sample held sample; held = held }
