-- ===== src/AsyncLog.antt =====
-- ps5/runtime/async_log.cpp: the queue of log text and the thread that writes it to stderr. `run_step` is one action of that thread.
pub mod Runs
pub mod Kept
pub mod Sound
pub mod Delivered
use mkwii_ps.Base.{
  ℕ, ◌+◌, ◌-◌, ◌%◌, ◌^◌, Bool, true, ltb, leb, ◌==◌, if◌then◌else◌, Option, none, some, List, [],
  ◌∷◌, ◌++◌, length, take, drop,
}

abbrev pub queue_limit : ℕ
queue_limit = 2 ^ 20

abbrev pub line_limit : ℕ
line_limit = 2048

-- In nanoseconds.
abbrev pub slow_write : ℕ
slow_write = 100000000

pub record Queue : Type 0 where
  pub pending : List ℕ
  pub dropped : ℕ
  pub max_write_nanos : ℕ

unfoldable pub push : Queue → List ℕ → Queue
push q text =
    if ltb queue_limit (length q.pending + length text)
    then record {
      pending = q.pending;
      dropped = (q.dropped + 1) % 2 ^ 64;
      max_write_nanos = q.max_write_nanos;
    }
    else record {
      pending = q.pending ++ text;
      dropped = q.dropped;
      max_write_nanos = q.max_write_nanos;
    }

-- What a formatted text leaves in a buffer of `size` bytes before the zero.
unfoldable pub printed : ℕ → List ℕ → List ℕ
printed size text = take text (if ltb (length text) size then length text else size - 1)

-- Text printed into a buffer of `size` bytes; `none` is an error of `vsnprintf`.
unfoldable pub push_formatted : ℕ → Queue → Option (List ℕ) → Queue
push_formatted size q none = q
push_formatted size q (some text) = if length text == 0 then q else push q (printed size text)

-- A call, with what its format gives.
unfoldable pub mkw_log : Queue → Option (List ℕ) → Queue
mkw_log q format = push_formatted line_limit q format

-- Where the writer stands in `run`: `writing done` is its loop of writes, `measuring` the update of
-- the longest write, `reporting` the message on a write that took `nanos`.
pub data Writer : Type 0 where
  waiting : Writer
  sleeping : Writer
  writing : ℕ → Writer
  measuring : Writer
  reporting : ℕ → Writer

-- The queue, the writer's own text, and what stderr was given.
pub record Log : Type 0 where
  pub queue : Queue
  pub batch : List ℕ
  pub pc : Writer
  pub output : List ℕ

-- One write; a result that is not positive is 0.
unfoldable pub write_some : Log → ℕ → ℕ → Log
write_some s done n =
    if ltb done (length s.batch)
    then (if n == 0
        then record { queue = s.queue; batch = s.batch; pc = measuring; output = s.output }
        else record {
          queue = s.queue;
          batch = s.batch;
          pc = writing (done + n);
          output = s.output ++ take (drop s.batch done) n;
        })
    else record { queue = s.queue; batch = s.batch; pc = measuring; output = s.output }

-- The message on a slow write, for the size of the batch and the time; its format is `message`.
unfoldable pub report : (ℕ → ℕ → Option (List ℕ)) → Queue → ℕ → ℕ → Queue
report message q size nanos =
    if leb slow_write nanos then push_formatted 160 q (message size nanos) else q

-- `input` is the result of the write, or the time that the writes took.
unfoldable pub run_step : (ℕ → ℕ → Option (List ℕ)) → ℕ → Writer → Log → Log
run_step message input waiting s =
    if length s.queue.pending == 0
    then s
    else record { queue = s.queue; batch = s.batch; pc = sleeping; output = s.output }
run_step message input sleeping s = record {
  queue = record {
    pending = s.batch;
    dropped = s.queue.dropped;
    max_write_nanos = s.queue.max_write_nanos;
  };
  batch = s.queue.pending;
  pc = writing 0;
  output = s.output;
}
run_step message input (writing done) s = write_some s done input
run_step message input measuring s = record {
  queue = record {
    pending = s.queue.pending;
    dropped = s.queue.dropped;
    max_write_nanos =
        if ltb s.queue.max_write_nanos (input % 2 ^ 64)
        then input % 2 ^ 64
        else s.queue.max_write_nanos;
  };
  batch = s.batch;
  pc = reporting (input % 2 ^ 64);
  output = s.output;
}
run_step message input (reporting nanos) s = record {
  queue = report message s.queue (length s.batch) nanos;
  batch = [];
  pc = waiting;
  output = s.output;
}
