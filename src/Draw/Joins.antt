-- ===== src/Draw/Joins.antt =====
-- `next_draw_joins`: where it answers yes, a complete draw of the group's format follows.
use mkwii_ps.Base.{
  ℕ, zero, suc, ◌+◌, ◌-◌, ◌*◌, ◌≤◌, ◌<◌, ◌≡◌, refl, Bool, true, ◌||◌, ltb, leb, ◌==◌, ◌!=◌, bit_and,
  arith, Option, some, Returns, returns, Anything,
}
use mkwii_ps.Base.Outcome.{ok, or_fault, Gives, gives, >>=-Gives, if-Gives, Gives-weaken, Gives-is}
use mkwii_ps.Reader.{Bytes}
use mkwii_ps.Reader.Total.{Readable}
use mkwii_ps.Draw.{skip_nops, draw_count, joins_at, next_draw_joins}

-- A command at `at` that a group of this format takes: its opcode is that of a triangle draw, and the
-- stream holds its count and all its records.
pub record JoinsAt (ptr : Bytes) (size : ℕ) (be : Bool) (format stride at : ℕ) : Type 0 where
  pub command : ℕ
  pub count : ℕ
  pub is_command : ptr at ≡ some command
  pub opcode_low : 0x80 ≤ bit_and command 0xF8
  pub opcode_high : bit_and command 0xF8 ≤ 0xA0
  pub same_format : bit_and command 7 ≡ format
  pub is_count : draw_count ptr (at + 1) be ≡ ok count
  pub room : at + 3 ≤ size
  pub complete : count * stride ≤ size - at - 3

-- Such a command follows behind padding.
pub data Joins (ptr : Bytes) (size : ℕ) (be : Bool) (format stride : ℕ) : ℕ → Type 0 where
  padded :
      {at : ℕ}
      → at < size
      → ptr at ≡ some 0
      → Joins ptr size be format stride (at + 1)
      → Joins ptr size be format stride at
  command : {at : ℕ} → JoinsAt ptr size be format stride at → Joins ptr size be format stride at

pub read-Gives : {o : Option ℕ} → Returns Anything o → Gives (λ b. o ≡ some b) (or_fault o)
read-Gives (returns r) = gives refl

module _ (ptr : Bytes) (size : ℕ) (be : Bool) (h : Readable ptr size) where
  pub draw_count-Gives :
      (at : ℕ)
      → at + 2 ≤ size
      → Gives (λ count. draw_count ptr at be ≡ ok count) (draw_count ptr at be)
  unfolding draw_count
  draw_count-Gives at le =
      Gives-weaken
        (Gives-is {P = Anything} (
          >>=-Gives (read-Gives (h at (omega arith)))
            λ b0 _. >>=-Gives (read-Gives (h (at + 1) (omega arith))) λ b1 _. gives tt))
        λ count r. r.0

  module _ (format stride : ℕ) where
    skip_nops-Gives :
        (n at : ℕ)
        → at + n ≡ size
        → Gives
            (λ at'.
              (at' ≤ size)
              × (Joins ptr size be format stride at' → Joins ptr size be format stride at))
            (skip_nops n ptr at)
    unfolding skip_nops
    skip_nops-Gives zero at e = gives (omega arith, λ j. j)
    skip_nops-Gives (suc n) at e = >>=-Gives (read-Gives (h at (omega arith))) λ b is.
        if-Gives (b == 0)
          (λ z.
            Gives-weaken (skip_nops-Gives n (at + 1) (omega arith))
              λ at' r. (r.0, λ j. padded (omega arith) (ground (arith, is)) (r.1 j)))
          λ z. gives (omega arith, λ j. j)

    joins_at-Gives :
        (at : ℕ)
        → at + 3 ≤ size
        → Gives
            (λ b. b ≡ true → JoinsAt ptr size be format stride at)
            (joins_at ptr at size be format stride)
    unfolding joins_at
    joins_at-Gives at le = >>=-Gives (read-Gives (h at (omega arith))) λ command is.
        if-Gives
          (ltb (bit_and command 0xF8) 0x80
            || ltb 0xA0 (bit_and command 0xF8)
            || bit_and command 7 != format)
          (λ _. gives λ no. absurd (ground arith))
          λ e. >>=-Gives (draw_count-Gives (at + 1) (omega arith)) λ count is_count. gives λ yes'.
            record {
              command = command;
              count = count;
              is_command = is;
              opcode_low = ground arith;
              opcode_high = ground arith;
              same_format = ground arith;
              is_count = is_count;
              room = le;
              complete = ground arith;
            }

    pub next_draw_joins-Joins :
        (at : ℕ)
        → at ≤ size
        → Gives
            (λ b. b ≡ true → Joins ptr size be format stride at)
            (next_draw_joins ptr at size be format stride)
    unfolding next_draw_joins
    next_draw_joins-Joins at le = >>=-Gives (skip_nops-Gives (size - at) at (omega arith)) λ at' r.
        if-Gives (leb size at' || ltb (size - at') 3) (λ _. gives λ no. absurd (ground arith))
          λ e. Gives-weaken (joins_at-Gives at' (ground arith)) λ b j yes'. r.1 (command (j yes'))
