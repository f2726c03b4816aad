-- ===== src/AsyncLog/Sound.antt =====
-- What holds of the queue beside the text that has left it, and that a text that comes keeps it.
use mkwii_ps.Base.{
  ℕ, ◌+◌, ◌%◌, ◌^◌, ◌≤◌, ◌≡◌, subst, arith, Option, none, some, List, [], ◌++◌, length, drop,
  length-append, ltb, leb, ◌==◌, true, false, Bool-cases, inl, inr,
}
use mathlib.Core.List.{append_assoc}
use mkwii_ps.AsyncLog.{
  Queue, Writer, waiting, sleeping, writing, queue_limit, printed, push, push_formatted,
}
use mkwii_ps.AsyncLog.Runs.{History, heard, formatted}
use mkwii_ps.AsyncLog.Kept.{Kept, Kept-append}

-- The part of the writer's text that is still to be written.
abbrev pub unwritten : Writer → List ℕ → List ℕ
unwritten (writing done) batch = drop batch done
unwritten _ batch = []

-- The writer that waits has no text.
abbrev pub Tidy : Writer → List ℕ → Type 0
Tidy waiting batch = batch ≡ []
Tidy sleeping batch = batch ≡ []
Tidy _ batch = Unit

pub record Sound (h : History) (front : List ℕ) (q : Queue) : Type 0 where
  pub kept : Kept (front ++ q.pending) h.lost h.accepted
  pub fits : length q.pending ≤ queue_limit
  pub texts : (h.taken + q.dropped) % 2 ^ 64 ≡ h.texts % 2 ^ 64

push-Sound :
    (h : History) (front : List ℕ) (q : Queue) (text : List ℕ)
    → Sound h front q
    → Sound (heard q text h) front (push q text)
unfolding push heard
push-Sound h front q text o = elim (Bool-cases (ltb queue_limit (length q.pending + length text))) [
  | inl e ↦
      let l : leb (length q.pending + length text) queue_limit ≡ false = ground arith in
      rw (e, l) record { kept = o.kept; fits = o.fits; texts = omega (arith, o.texts) }
  | inr e ↦
      let l : leb (length q.pending + length text) queue_limit ≡ true = ground arith in
      rw (e, l)
        record {
          kept =
              subst (λ f. Kept f h.lost (h.accepted ++ text)) (append_assoc front q.pending text)
                (Kept-append (front ++ q.pending) h.lost h.accepted text o.kept);
          fits = ground (arith, length-append q.pending text);
          texts = omega (arith, o.texts);
        }
]

pub push_formatted-Sound :
    (h : History) (front : List ℕ) (q : Queue) (size : ℕ) (format : Option (List ℕ))
    → Sound h front q
    → Sound (formatted q size format h) front (push_formatted size q format)
unfolding push_formatted formatted
push_formatted-Sound h front q size none o = o
push_formatted-Sound h front q size (some text) o = elim (Bool-cases (length text == 0)) [
  | inl e ↦ rw e o
  | inr e ↦ rw e (push-Sound h front q (printed size text) o)
]
