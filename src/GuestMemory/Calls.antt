-- ===== src/GuestMemory/Calls.antt =====
-- The calls into the console's kernel. What they answer is a parameter, a function of all calls so far.
use mkwii_ps.Base.{ℕ, zero, suc, List, Bool, true, false, ℤ, pos, negsuc}

-- With the arguments that differ between calls.
pub data Call : Type 0 where
  reserve_range : ℕ → ℕ → ℕ → Call
  direct_size : Call
  allocate : ℕ → ℕ → Call
  map_direct : ℕ → ℕ → ℕ → ℤ → Call
  release : ℤ → ℕ → Call
  unmap : ℕ → ℕ → Call

-- The returned code, and what the variables hold that the call may write.
pub record Answer : Type 0 where
  pub code : ℤ
  pub address : ℕ
  pub physical : ℤ
  pub size : ℕ

abbrev pub Kernel : Type 0
Kernel = List Call → Call → Answer

abbrev pub is_zero : ℤ → Bool
is_zero (pos zero) = true
is_zero (pos (suc n)) = false
is_zero (negsuc n) = false
