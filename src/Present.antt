-- ===== src/Present.antt =====
-- ps5/gpu/present_history.cpp: the ring of the last 512 presents.
pub mod Recent
use mkwii_ps.Base.{ℕ, ◌+◌, ◌-◌, ◌%◌, ◌^◌, min, ◌&&◌, ◌!=◌, ltb, if◌then◌else◌, Array, update}
use mkwii_ps.Base.Outcome.{Outcome, Exception, ok, throws}

pub record Sample : Type 0 where
  pub at : ℕ
  pub interval : ℕ

pub record PresentHistory : Type 0 where
  pub samples : Array Sample
  pub write : ℕ
  pub count : ℕ
  pub total : ℕ
  pub last : ℕ

-- `PresentHistory::record`. Its difference of times does not wrap around behind the guard.
unfoldable pub record_present : PresentHistory → ℕ → Outcome PresentHistory
record_present h now =
    if h.total != 0 && ltb now h.last
    then throws Exception.invalid_argument
    else ok (record {
      samples =
          update h.samples h.write
            (record { at = now; interval = if h.total != 0 then now - h.last else 0 });
      write = (h.write + 1) % 512;
      count = min (h.count + 1) 512;
      total = (h.total + 1) % 2 ^ 64;
      last = now;
    })
