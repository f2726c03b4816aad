-- ===== src/AsyncLog/Delivered.antt =====
-- The log as a bounded queue of bytes: what stderr gets of the text that was accepted.
use mkwii_ps.Base.{
  ℕ, ◌+◌, ◌%◌, ◌^◌, ◌≤◌, ◌≡◌, refl, sym, ap, subst, ◌∙◌, arith, Option, List, [], ◌++◌, length,
  take, drop, length-drop, take-drop, drop-drop, ltb, leb, ◌==◌, Bool-cases, inl, inr,
}
use mathlib.Core.List.{Sublist, append_assoc, append-nil}
use mathlib.Core.List.Sublist as Sublist
use mkwii_ps.AsyncLog.{
  Queue, Writer, waiting, sleeping, writing, measuring, reporting, Log, queue_limit, slow_write,
  line_limit, push_formatted, mkw_log, write_some, report, run_step,
}
use mkwii_ps.AsyncLog.Runs.{History, noted, Run, start, logs, writes}
use mkwii_ps.AsyncLog.Sound.{unwritten, Tidy, Sound, push_formatted-Sound}
use mkwii_ps.AsyncLog.Kept.{Kept, Kept-lose}

record Inv (h : History) (s : Log) : Type 0 where
  sound : Sound h (s.output ++ unwritten s.pc s.batch) s.queue
  tidy : Tidy s.pc s.batch

-- The same text under another name.
Sound-front : {h : History} {f g : List ℕ} {q : Queue} → f ≡ g → Sound h f q → Sound h g q
Sound-front {h} {f} {g} {q} e o = subst (λ x. Sound h x q) e o

-- The writer leaves its loop: what it has not written is lost.
leave :
    (h : History) (output part : List ℕ) (q : Queue) (lost : ℕ)
    → lost ≡ h.lost + length part
    → Sound h (output ++ part) q
    → Sound
        (record { accepted = h.accepted; taken = h.taken; texts = h.texts; lost = lost })
        (output ++ [])
        q
leave h output part q lost e o = record {
  kept =
      subst (λ l. Kept ((output ++ []) ++ q.pending) l h.accepted) (sym e)
        (subst (λ f. Kept (f ++ q.pending) (h.lost + length part) h.accepted)
          (sym (append-nil output))
          (Kept-lose output part q.pending h.lost h.accepted
            (subst (λ f. Kept f h.lost h.accepted) (append_assoc output part q.pending) o.kept)));
  fits = o.fits;
  texts = o.texts;
}

write_some-Inv :
    (message : ℕ → ℕ → Option (List ℕ)) (h : History) (s : Log) (done n : ℕ)
    → Sound h (s.output ++ drop s.batch done) s.queue
    → Inv (noted message n (writing done) s h) (write_some s done n)
unfolding write_some noted
write_some-Inv message h s done n o = elim (Bool-cases (n == 0)) [
  | inl e ↦
      let lost = leave h s.output (drop s.batch done) s.queue _ refl o in
      elim (Bool-cases (ltb done (length s.batch))) [
        | inl l ↦ rw (e, l) record { sound = lost; tidy = tt }
        | inr l ↦ rw (e, l) record { sound = lost; tidy = tt }
      ]
  | inr e ↦ elim (Bool-cases (ltb done (length s.batch))) [
    | inl l ↦ rw (e, l) record { sound = Sound-front (sym rest) o; tidy = tt }
    | inr l ↦
        let none_left : h.lost ≡ h.lost + length (drop s.batch done) =
          ground (arith, length-drop s.batch done) in
        rw (e, l)
          record {
            sound = leave h s.output (drop s.batch done) s.queue h.lost none_left o;
            tidy = tt;
          }
  ]
]
  where
    rest :
        (s.output ++ take (drop s.batch done) n) ++ drop s.batch (done + n)
        ≡ s.output ++ drop s.batch done
    rest =
        append_assoc s.output _ _
        ∙ ap (λ l. s.output ++ l)
            (subst (λ l. take (drop s.batch done) n ++ l ≡ drop s.batch done)
              (drop-drop s.batch done n) (take-drop (drop s.batch done) n))

report-Sound :
    (message : ℕ → ℕ → Option (List ℕ)) (h : History) (front : List ℕ) (s : Log) (nanos : ℕ)
    → Sound h front s.queue
    → Sound
        (noted message 0 (reporting nanos) s h)
        front
        (report message s.queue (length s.batch) nanos)
unfolding report noted
report-Sound message h front s nanos o = elim (Bool-cases (leb slow_write nanos)) [
  | inl e ↦ rw e (push_formatted-Sound h front s.queue 160 (message (length s.batch) nanos) o)
  | inr e ↦ rw e o
]

run_step-Inv :
    (message : ℕ → ℕ → Option (List ℕ)) (h : History) (s : Log) (input : ℕ) (p : Writer)
    → Sound h (s.output ++ unwritten p s.batch) s.queue
    → Tidy p s.batch
    → p ≡ s.pc
    → Inv (noted message input p s h) (run_step message input p s)
unfolding run_step noted
run_step-Inv message h s input waiting o t e = elim (Bool-cases (length s.queue.pending == 0)) [
  | inl n ↦ rw n record {
    sound = subst (λ p. Sound h (s.output ++ unwritten p s.batch) s.queue) e o;
    tidy = subst (λ p. Tidy p s.batch) e t;
  }
  | inr n ↦ rw n record { sound = o; tidy = t }
]
run_step-Inv message h s input sleeping o t e = record {
  sound = record {
    kept = subst (λ f. Kept f h.lost h.accepted) swapped o.kept;
    fits = rw t (omega arith);
    texts = o.texts;
  };
  tidy = tt;
}
  where
    swapped : (s.output ++ []) ++ s.queue.pending ≡ (s.output ++ s.queue.pending) ++ s.batch
    swapped =
        ap (λ l. l ++ s.queue.pending) (append-nil s.output)
        ∙ sym (append-nil (s.output ++ s.queue.pending))
        ∙ ap (λ l. (s.output ++ s.queue.pending) ++ l) (sym t)
run_step-Inv message h s input (writing done) o t e = write_some-Inv message h s done input o
run_step-Inv message h s input measuring o t e = record {
  sound = record { kept = o.kept; fits = o.fits; texts = o.texts };
  tidy = tt;
}
run_step-Inv message h s input (reporting nanos) o t e = record {
  sound = report-Sound message h (s.output ++ []) s nanos o;
  tidy = refl;
}

Run-Inv : {message : ℕ → ℕ → Option (List ℕ)} {h : History} {s : Log} → Run message h s → Inv h s
unfolding mkw_log push_formatted
Run-Inv start = record {
  sound = record {
    kept = record { order = Sublist.refl []; whole = λ e. refl; counted = refl };
    fits = omega arith;
    texts = refl;
  };
  tidy = refl;
}
Run-Inv (logs {h} {s} r format) = record {
  sound =
      push_formatted-Sound h (s.output ++ unwritten s.pc s.batch) s.queue line_limit format
        (Run-Inv r).sound;
  tidy = (Run-Inv r).tidy;
}
Run-Inv {message} (writes {h} {s} r input) =
    run_step-Inv message h s input s.pc (Run-Inv r).sound (Run-Inv r).tidy refl

-- What stderr was given, what the writer has still to write and what waits.
abbrev pub flight : Log → List ℕ
flight s = s.output ++ unwritten s.pc s.batch ++ s.queue.pending

-- In every order of the calls and the writer's actions: stderr, the writer's text and the queue hold
-- in this sequence accepted text in its order, all but as many bytes as failed writes left; at most
-- 2^20 bytes wait; and the texts are those that were taken whole and those that were counted as dropped.
pub Run-flight :
    (message : ℕ → ℕ → Option (List ℕ)) (h : History) (s : Log)
    → Run message h s
    → Sublist (flight s) h.accepted
      × (length (flight s) + h.lost ≡ length h.accepted)
      × (length s.queue.pending ≤ queue_limit)
      × ((h.taken + s.queue.dropped) % 2 ^ 64 ≡ h.texts % 2 ^ 64)
Run-flight message h s r = (o.kept.order, o.kept.counted, o.fits, o.texts)
  where
    o : Sound h (s.output ++ unwritten s.pc s.batch) s.queue
    o = (Run-Inv r).sound

-- As long as failed writes have left no byte, the log is a queue: what stderr was given, what the
-- writer has still to write and what waits are together the text that was accepted.
pub Run-whole :
    (message : ℕ → ℕ → Option (List ℕ)) (h : History) (s : Log)
    → Run message h s
    → h.lost ≡ 0
    → flight s ≡ h.accepted
Run-whole message h s r e = (Run-Inv r).sound.kept.whole e
