-- ===== src/Reader/Total.antt =====
-- Reads inside the buffer.
use mkwii_ps.Base.{
  ℕ, ◌+◌, ◌≤◌, ◌<◌, Bool, List, get_elem?, get_elem?-lt, length, arith, Returns, returns, Anything,
  >>=-Returns,
}
use mkwii_ps.Platform.{Platform}
use mkwii_ps.Reader.{Bytes, advance, read_u16, read_u32, read_u64, read_f32}

-- The first `n` bytes can be read.
abbrev pub Readable : Bytes → ℕ → Type 0
Readable ptr n = (i : ℕ) → i < n → Returns Anything (ptr i)

pub Readable-advance :
    (ptr : Bytes) (at n size : ℕ) → Readable ptr size → at + n ≤ size → Readable (advance ptr at) n
Readable-advance ptr at n size h fits i lt = h (at + i) (omega arith)

pub Readable-get_elem? : (xs : List ℕ) → Readable (get_elem? xs) (length xs)
Readable-get_elem? xs i lt = let (a, e) = get_elem?-lt xs i lt in rw e (returns tt)

module _ ⦃p : Platform⦄ where
  pub read_u16-Returns :
      (ptr : Bytes) (be : Bool) → Readable ptr 2 → Returns Anything (read_u16 ptr be)
  unfolding read_u16
  read_u16-Returns ptr be h =
      >>=-Returns (h 0 (omega arith)) λ b0 _. >>=-Returns (h 1 (omega arith)) λ b1 _. returns tt

  pub read_u32-Returns :
      (ptr : Bytes) (be : Bool) → Readable ptr 4 → Returns Anything (read_u32 ptr be)
  unfolding read_u32
  read_u32-Returns ptr be h = >>=-Returns (h 0 (omega arith)) λ b0 _.
      >>=-Returns (h 1 (omega arith)) λ b1 _.
        >>=-Returns (h 2 (omega arith)) λ b2 _. >>=-Returns (h 3 (omega arith)) λ b3 _. returns tt

  pub read_f32-Returns :
      (ptr : Bytes) (be : Bool) → Readable ptr 4 → Returns Anything (read_f32 ptr be)
  unfolding read_f32
  read_f32-Returns ptr be h = read_u32-Returns ptr be h

  pub read_u64-Returns :
      (ptr : Bytes) (be : Bool) → Readable ptr 8 → Returns Anything (read_u64 ptr be)
  unfolding read_u64
  read_u64-Returns ptr be h =
      >>=-Returns (read_u32-Returns ptr Bool.false (λ i lt. h i (omega arith))) λ lo _.
        >>=-Returns
          (read_u32-Returns (advance ptr 4) Bool.false (Readable-advance ptr 4 4 8 h (omega arith)))
          λ hi _. returns tt
