-- ===== src/AsyncLog/Runs.antt =====
-- Calls of the log and steps of its writer, in any order, and what a run was given and lost.
use mkwii_ps.Base.{
  ℕ, ◌+◌, leb, ◌==◌, if◌then◌else◌, Option, none, some, List, [], ◌++◌, length, drop,
}
use mkwii_ps.AsyncLog.{
  Queue, Writer, waiting, writing, reporting, Log, queue_limit, slow_write, line_limit, printed,
  mkw_log, run_step,
}

-- The text that fitted when it came, the number of such texts and of all, and the bytes that a failed write left.
pub record History : Type 0 where
  pub accepted : List ℕ
  pub taken : ℕ
  pub texts : ℕ
  pub lost : ℕ

unfoldable pub heard : Queue → List ℕ → History → History
heard q text h = record {
  accepted =
      if leb (length q.pending + length text) queue_limit then h.accepted ++ text else h.accepted;
  taken = if leb (length q.pending + length text) queue_limit then h.taken + 1 else h.taken;
  texts = h.texts + 1;
  lost = h.lost;
}

-- Of a format's result, the text that goes into a buffer of `size` bytes, if any.
unfoldable pub formatted : Queue → ℕ → Option (List ℕ) → History → History
formatted q size none h = h
formatted q size (some text) h = if length text == 0 then h else heard q (printed size text) h

-- What the next step of the writer adds.
unfoldable pub noted : (ℕ → ℕ → Option (List ℕ)) → ℕ → Writer → Log → History → History
noted message input (writing done) s h =
    if input == 0
    then record {
      accepted = h.accepted;
      taken = h.taken;
      texts = h.texts;
      lost = h.lost + length (drop s.batch done);
    }
    else h
noted message input (reporting nanos) s h =
    if leb slow_write nanos then formatted s.queue 160 (message (length s.batch) nanos) h else h
noted message input _ s h = h

-- A log that was made and given nothing.
abbrev pub fresh : Log
fresh = record {
  queue = record { pending = []; dropped = 0; max_write_nanos = 0 };
  batch = [];
  pc = waiting;
  output = [];
}

abbrev pub unheard : History
unheard = record { accepted = []; taken = 0; texts = 0; lost = 0 }

pub data Run (message : ℕ → ℕ → Option (List ℕ)) : History → Log → Type 0 where
  start : Run message unheard fresh
  logs :
      {h : History} {s : Log}
      → Run message h s
      → (format : Option (List ℕ))
      → Run message
          (formatted s.queue line_limit format h)
          (record { queue = mkw_log s.queue format; batch = s.batch; pc = s.pc; output = s.output })
  writes :
      {h : History} {s : Log}
      → Run message h s
      → (input : ℕ) → Run message (noted message input s.pc s h) (run_step message input s.pc s)
