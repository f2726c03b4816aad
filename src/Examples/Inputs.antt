-- ===== src/Examples/Inputs.antt =====
-- The theorems on the pad at concrete inputs.
use mkwii_ps.Base.{
  ℕ, zero, suc, ◌≡◌, refl, true, arith, List, [], ◌∷◌, ◌++◌, all_bytes-bound, Returns,
}
use mkwii_ps.Input.Sample.{no_sample, decode_pad_sample}
use mkwii_ps.Input.Axes.{InRange, decode_pad_sample-Returns}
use mkwii_ps.Input.Autopilot.{Script, load}
use mkwii_ps.Input.Playback.{play, play-expected}

abbrev zeros : ℕ → List ℕ
zeros zero = []
zeros (suc n) = 0 ∷ zeros n

-- A connected pad with one button, the left stick at an end and a trigger pressed.
abbrev report : List ℕ
report = (0 ∷ 0x40 ∷ 0 ∷ 0 ∷ 255 ∷ 0 ∷ 128 ∷ 128 ∷ 255 ∷ zeros 67) ++ (1 ∷ zeros 11)

decode_pad_sample-Returns_example : Returns InRange (decode_pad_sample report)
decode_pad_sample-Returns_example =
    decode_pad_sample-Returns report λ i b is. all_bytes-bound report refl i b is

-- Two presses that overlap.
abbrev script : Script
script = record {
  presses =
      record { start_micros = 0; end_micros = 100; buttons = 0x4000 }
      ∷ record { start_micros = 50; end_micros = 80; buttons = 0x10 }
      ∷ [];
  is_valid = true;
}

-- Calls at 1000, 1060 and 1090: both presses are active at the second one.
play-expected_example :
    play (load script) ((no_sample, 1000) ∷ (no_sample, 1060) ∷ (no_sample, 1090) ∷ [])
    ≡ 0x4000 ∷ 0x4010 ∷ 0x4000 ∷ []
play-expected_example =
    play-expected script 1000 no_sample ((no_sample, 1060) ∷ (no_sample, 1090) ∷ [])
      (omega arith, omega arith, (omega arith, omega arith, tt)) (omega arith, (omega arith, tt))
