-- ===== src/Input/Axes.antt =====
-- The values of a decoded sample.
use mkwii_ps.Base.{
  ℕ, zero, suc, ◌+◌, ◌≤◌, ◌<◌, ◌≡◌, refl, true, false, not, ◌||◌, ltb, ◌!=◌, if◌then◌else◌, arith,
  ℤ, pos, pos_part, neg_part, List, length, get_elem?, some, Array, bit_and, Returns, returns,
  >>=-Returns, if-Returns, Anything, Returns-is, Returns-weaken, Bool-cases, inl, inr,
}
use mkwii_ps.Reader.Total.{Readable-get_elem?}
use mkwii_ps.Input.Sample.{
  PadSample, no_sample, little_endian, stick_axis, trigger_axis, axes_of, decode_pad_sample,
}

-- The entries are bytes.
abbrev pub Bytewise : List ℕ → Type 0
Bytewise bytes = (i b : ℕ) → get_elem? bytes i ≡ some b → b < 256

-- An axis is an s16. A trigger is not negative.
abbrev pub IsAxis : ℤ → Type 0
IsAxis z = (pos_part z ≤ 32767) × (neg_part z ≤ 32768)

pub record InRange (s : PadSample) : Type 0 where
  pub axes : (i : ℕ) → IsAxis (s.axes i)
  pub triggers : (i : ℕ) → 4 ≤ i → neg_part (s.axes i) ≡ 0
  pub silent :
      (not s.connected || s.intercepted) ≡ true → (s.buttons ≡ 0) × ((i : ℕ) → s.axes i ≡ pos 0)

stick_axis-IsAxis : (b : ℕ) → b < 256 → IsAxis (stick_axis b)
unfolding stick_axis
stick_axis-IsAxis b lt = ground arith

trigger_axis-IsAxis : (b : ℕ) → b < 256 → IsAxis (trigger_axis b)
unfolding trigger_axis
trigger_axis-IsAxis b lt = ground arith

trigger_axis-positive : (b : ℕ) → neg_part (trigger_axis b) ≡ 0
unfolding trigger_axis
trigger_axis-positive b = refl

-- Both ends and the middle of a stick are exact, and a greater byte gives no smaller axis.
pub stick_axis-monotone :
    (b c : ℕ)
    → b ≤ c
    → c < 256
    → pos_part (stick_axis b) + neg_part (stick_axis c)
      ≤ pos_part (stick_axis c) + neg_part (stick_axis b)
unfolding stick_axis
stick_axis-monotone b c le lt = ground arith

module _ (bytes : List ℕ) (bytewise : Bytewise bytes) where
  byte : (i : ℕ) → i < length bytes → Returns (λ b. b < 256) (get_elem? bytes i)
  byte i lt = Returns-weaken (Returns-is (Readable-get_elem? bytes i lt)) λ b is. bytewise i b is.0

  little_endian-Returns :
      (n at : ℕ) → at + n ≤ length bytes → Returns Anything (little_endian bytes at n)
  unfolding little_endian
  little_endian-Returns zero at le = returns tt
  little_endian-Returns (suc n) at le =
      >>=-Returns (byte at (omega arith))
        λ b _. >>=-Returns (little_endian-Returns n (at + 1) (omega arith)) λ rest _. returns tt

  axes-InRange :
      (s : PadSample) (b : Array ℕ) (buttons : ℕ)
      → ((i : ℕ) → b i < 256)
      → (not s.connected || s.intercepted) ≡ false
      → InRange (record s { buttons = buttons; axes = axes_of b })
  axes-InRange s b buttons small on = record {
    axes =
        λ i. ground (arith, stick_axis-IsAxis (b i) (small i), trigger_axis-IsAxis (b i) (small i));
    triggers = λ i le. ground (arith, trigger_axis-positive (b i));
    silent = λ e. absurd (ground arith);
  }

  finish :
      (s : PadSample) (b : Array ℕ) (buttons : ℕ)
      → ((i : ℕ) → b i < 256)
      → InRange s
      → Returns InRange (
          some (
            if not s.connected || s.intercepted
            then s
            else record s { buttons = buttons; axes = axes_of b }))
  finish s b buttons small silent = elim (Bool-cases (not s.connected || s.intercepted)) [
    | inl e ↦ rw e (returns silent)
    | inr e ↦ rw e (returns (axes-InRange s b buttons small e))
  ]

  -- A buffer of bytes of any size is decoded without a read outside it: the axes are of 16 bits, the
  -- triggers not negative, and a pad that is not connected or not ours presses nothing.
  pub decode_pad_sample-Returns : Returns InRange (decode_pad_sample bytes)
  unfolding decode_pad_sample
  decode_pad_sample-Returns =
      if-Returns (ltb (length bytes) 88)
        (λ _. returns (record {
          axes = λ i. (omega arith, omega arith);
          triggers = λ i le. refl;
          silent = λ e. (refl, λ i. refl);
        }))
        λ e.
          let room : 88 ≤ length bytes = ground arith in
          >>=-Returns (little_endian-Returns 4 0 (omega arith)) λ buttons _.
            >>=-Returns (byte 76 (omega arith)) λ present _.
              >>=-Returns (little_endian-Returns 8 80 (omega arith)) λ timestamp _.
                >>=-Returns (byte 4 (omega arith)) λ b4 s4.
                  >>=-Returns (byte 5 (omega arith)) λ b5 s5.
                    >>=-Returns (byte 6 (omega arith)) λ b6 s6.
                      >>=-Returns (byte 7 (omega arith)) λ b7 s7.
                        >>=-Returns (byte 8 (omega arith)) λ b8 s8.
                          >>=-Returns (byte 9 (omega arith)) λ b9 s9.
                            finish
                              (record no_sample {
                                connected = present != 0;
                                intercepted = bit_and buttons 0x80000000 != 0;
                                timestamp = timestamp;
                              })
                              _ buttons (λ i. ground arith)
                              (record {
                                axes = λ i. (omega arith, omega arith);
                                triggers = λ i le. refl;
                                silent = λ e. (refl, λ i. refl);
                              })
