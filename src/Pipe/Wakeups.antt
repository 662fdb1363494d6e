-- ===== src/Pipe/Wakeups.antt =====
-- A writing and a reading process on one pipe, and whom each call wakes: `sleep` on `&p->nwrite`
-- makes the writer sleep, on `&p->nread` the reader.
use cs461_hw.Base.{
  ℕ, ◌≡◌, refl, ◌≢◌, ◌∙◌, sym, Bool, true, false, List, Bool-cases, inl, inr, arith, length,
}
use cs461_hw.Pipe.{
  Pipe, pipe_size, init_pipe, is_full, is_empty, WriteEnd, written, refused, waiting, pipewrite,
  ReadEnd, got, interrupted, blocked, piperead, pipeclose,
}
use cs461_hw.Pipe.Fifo.{IsValid, Wrote, pipewrite-Wrote, Read, piperead-Read}

-- A process with respect to the pipe: not in a call, asleep in one, or to run on in one.
pub data Task {ℓ} (A : Type ℓ) : Type ℓ where
  idle : Task A
  asleep : A → Task A
  ready : A → Task A

-- `wakeup`
abbrev pub wake {ℓ} : {A : Type ℓ} → Task A → Task A
wake idle = idle
wake (asleep a) = ready a
wake (ready a) = ready a

pub record System : Type 0 where
  pub pipe : Pipe
  pub writer : Task (List ℕ)
  pub reader : Task ℕ

unfoldable pub after_write : System → WriteEnd → Pipe → System
after_write s written p = record { pipe = p; writer = idle; reader = wake s.reader }
after_write s refused p = record { pipe = p; writer = idle; reader = s.reader }
after_write s (waiting bs) p = record { pipe = p; writer = asleep bs; reader = wake s.reader }

-- A run of `pipewrite`, with its wakeups.
unfoldable pub run_write : Bool → List ℕ → System → System
run_write killed bs s = let (e, p) = pipewrite killed bs s.pipe in after_write s e p

unfoldable pub after_read : ℕ → System → ReadEnd → Pipe → System
after_read n s (got xs) p = record { pipe = p; writer = wake s.writer; reader = idle }
after_read n s interrupted p = record { pipe = p; writer = s.writer; reader = idle }
after_read n s blocked p = record { pipe = p; writer = s.writer; reader = asleep n }

-- A run of `piperead`, with its wakeup.
unfoldable pub run_read : Bool → ℕ → System → System
run_read killed n s = let (e, p) = piperead killed n s.pipe in after_read n s e p

-- `pipeclose` of the last descriptor of an end, with its wakeup.
pub run_close : Bool → System → System
run_close true s = record s { pipe = (pipeclose true s.pipe).0; reader = wake s.reader }
run_close false s = record s { pipe = (pipeclose false s.pipe).0; writer = wake s.writer }

-- What may happen next while the writer is not killed.
pub data Step (s : System) : System → Type 0 where
  call_write :
      (bs : List ℕ) → s.writer ≡ idle → s.pipe.writeopen ≡ true → Step s (run_write false bs s)
  resume_write : (bs : List ℕ) → s.writer ≡ ready bs → Step s (run_write false bs s)
  call_read :
      (killed : Bool) (n : ℕ)
      → s.reader ≡ idle
      → s.pipe.readopen ≡ true
      → Step s (run_read killed n s)
  resume_read : (killed : Bool) (n : ℕ) → s.reader ≡ ready n → Step s (run_read killed n s)
  close_write : s.writer ≡ idle → Step s (run_close true s)
  close_read : s.reader ≡ idle → Step s (run_close false s)
  wake_reader : Step s (record s { reader = wake s.reader })
  wake_writer : Step s (record s { writer = wake s.writer })

-- Who sleeps waits for something that has not happened yet.
pub record NoneLost (s : System) : Type 0 where
  pub valid : IsValid s.pipe
  pub writer_waits :
      (bs : List ℕ) → s.writer ≡ asleep bs → (is_full s.pipe ≡ true) × (s.pipe.readopen ≡ true)
  pub reader_waits :
      (n : ℕ) → s.reader ≡ asleep n → (is_empty s.pipe ≡ true) × (s.pipe.writeopen ≡ true)
  pub read_closed : s.pipe.readopen ≡ false → s.reader ≡ idle
  pub write_closed : s.pipe.writeopen ≡ false → s.writer ≡ idle

wake-ne {ℓ} : {A : Type ℓ} (t : Task A) (a : A) → wake t ≢ asleep a
wake-ne idle a e = cc
wake-ne (asleep b) a e = cc
wake-ne (ready b) a e = cc

wake-idle {ℓ} : {A : Type ℓ} (t : Task A) → t ≡ idle → wake t ≡ idle
wake-idle idle e = refl
wake-idle (asleep b) e = cc
wake-idle (ready b) e = cc

after_write-NoneLost :
    (s : System) (bs : List ℕ) (e : WriteEnd) (p : Pipe)
    → NoneLost s
    → s.pipe.writeopen ≡ true
    → Wrote false bs s.pipe (e, p)
    → NoneLost (after_write s e p)
unfolding after_write
after_write-NoneLost s bs written p h open_end w = record {
  valid = w.valid;
  writer_waits = λ l e. cc;
  reader_waits = λ n e. absurd (wake-ne s.reader n e);
  read_closed = λ e. wake-idle s.reader (h.read_closed (sym w.ends_kept.0 ∙ e));
  write_closed = λ e. refl;
}
after_write-NoneLost s bs refused p h open_end w = record {
  valid = w.valid;
  writer_waits = λ l e. cc;
  reader_waits = λ n e. ground (arith, h.read_closed, w.reason.2, w.ends_kept.0);
  read_closed = λ e. h.read_closed (sym w.ends_kept.0 ∙ e);
  write_closed = λ e. refl;
}
after_write-NoneLost s bs (waiting l) p h open_end w = record {
  valid = w.valid;
  writer_waits = λ l' e. (w.reason.2, w.reason.3);
  reader_waits = λ n e. absurd (wake-ne s.reader n e);
  read_closed = λ e. wake-idle s.reader (h.read_closed (sym w.ends_kept.0 ∙ e));
  write_closed = λ e. ground (arith, w.ends_kept.1);
}

after_read-NoneLost :
    (killed : Bool) (n : ℕ) (s : System) (e : ReadEnd) (p : Pipe)
    → NoneLost s
    → s.pipe.readopen ≡ true
    → Read killed n s.pipe e p
    → NoneLost (after_read n s e p)
unfolding after_read
after_read-NoneLost killed n s (got xs) p h open_end r = record {
  valid = r.0.valid;
  writer_waits = λ l e. absurd (wake-ne s.writer l e);
  reader_waits = λ k e. cc;
  read_closed = λ e. refl;
  write_closed = λ e. wake-idle s.writer (h.write_closed (sym r.0.ends_kept.1 ∙ e));
}
after_read-NoneLost killed n s interrupted p h open_end r = rw (r.0) (record {
  valid = h.valid;
  writer_waits = h.writer_waits;
  reader_waits = λ k e. cc;
  read_closed = λ e. refl;
  write_closed = h.write_closed;
})
after_read-NoneLost killed n s blocked p h open_end r = rw (r.0) (record {
  valid = h.valid;
  writer_waits = h.writer_waits;
  reader_waits = λ k e. (r.1, r.2);
  read_closed = λ e. ground arith;
  write_closed = h.write_closed;
})

still_open_write :
    (s : System) (bs : List ℕ) → NoneLost s → s.writer ≡ ready bs → s.pipe.writeopen ≡ true
still_open_write s bs h e = elim (Bool-cases s.pipe.writeopen) [
  | inl o ↦ o
  | inr c ↦ cc (h.write_closed c)
]

still_open_read : (s : System) (n : ℕ) → NoneLost s → s.reader ≡ ready n → s.pipe.readopen ≡ true
still_open_read s n h e = elim (Bool-cases s.pipe.readopen) [
  | inl o ↦ o
  | inr c ↦ cc (h.read_closed c)
]

pub Step-NoneLost : {s t : System} → Step s t → NoneLost s → NoneLost t
unfolding run_write run_read run_close pipeclose is_full is_empty
Step-NoneLost {s} (call_write bs e o) h =
    after_write-NoneLost s bs _ _ h o (pipewrite-Wrote false bs s.pipe h.valid)
Step-NoneLost {s} (resume_write bs e) h =
    after_write-NoneLost s bs _ _ h (still_open_write s bs h e)
      (pipewrite-Wrote false bs s.pipe h.valid)
Step-NoneLost {s} (call_read k n e o) h =
    after_read-NoneLost k n s _ _ h o (piperead-Read k n s.pipe h.valid)
Step-NoneLost {s} (resume_read k n e) h =
    after_read-NoneLost k n s _ _ h (still_open_read s n h e) (piperead-Read k n s.pipe h.valid)
Step-NoneLost {s} (close_write e) h = record {
  valid = omega (arith, h.valid);
  writer_waits = λ bs w. cc;
  reader_waits = λ n r. absurd (wake-ne s.reader n r);
  read_closed = λ c. wake-idle s.reader (h.read_closed c);
  write_closed = λ c. e;
}
Step-NoneLost {s} (close_read e) h = record {
  valid = omega (arith, h.valid);
  writer_waits = λ bs w. absurd (wake-ne s.writer bs w);
  reader_waits = λ n r. cc;
  read_closed = λ c. e;
  write_closed = λ c. wake-idle s.writer (h.write_closed c);
}
Step-NoneLost {s} wake_reader h = record {
  valid = h.valid;
  writer_waits = h.writer_waits;
  reader_waits = λ n r. absurd (wake-ne s.reader n r);
  read_closed = λ c. wake-idle s.reader (h.read_closed c);
  write_closed = h.write_closed;
}
Step-NoneLost {s} wake_writer h = record {
  valid = h.valid;
  writer_waits = λ bs w. absurd (wake-ne s.writer bs w);
  reader_waits = h.reader_waits;
  read_closed = h.read_closed;
  write_closed = λ c. wake-idle s.writer (h.write_closed c);
}

-- A new pipe, over a page of the right size.
unfoldable pub start : List ℕ → System
start page = record { pipe = init_pipe page; writer = idle; reader = idle }

pub data Reach (page : List ℕ) : System → Type 0 where
  here : Reach page (start page)
  next : {s t : System} → Reach page s → Step s t → Reach page t

start-NoneLost : (page : List ℕ) → length page ≡ pipe_size → NoneLost (start page)
unfolding start init_pipe
start-NoneLost page e = record {
  valid = record {
    storage = e;
    read_word = omega arith;
    write_word = omega arith;
    within = omega arith;
  };
  writer_waits = λ bs w. cc;
  reader_waits = λ n r. cc;
  read_closed = λ c. refl;
  write_closed = λ c. refl;
}

-- No wakeup is lost: in every reachable state (with a writer that is not killed) a sleeping writer
-- has a full pipe and a reader to wait for, and a sleeping reader an empty pipe and a writer.
pub Reach-NoneLost :
    {page : List ℕ} {s : System} → length page ≡ pipe_size → Reach page s → NoneLost s
Reach-NoneLost {page} e here = start-NoneLost page e
Reach-NoneLost e (next r st) = Step-NoneLost st (Reach-NoneLost e r)

full-ne-empty : (p : Pipe) → IsValid p → is_full p ≡ true → is_empty p ≡ false
unfolding is_full is_empty
full-ne-empty p v h = ground arith

-- Writer and reader never sleep at once.
no_deadlock :
    {page : List ℕ} {s : System} (bs : List ℕ) (n : ℕ)
    → length page ≡ pipe_size
    → Reach page s
    → s.writer ≡ asleep bs
    → s.reader ≢ asleep n
no_deadlock {s = s} bs n e r w rd =
    let h = Reach-NoneLost e r in
    let full = (h.writer_waits bs w).0 in
    let empty = (h.reader_waits n rd).0 in cc (full-ne-empty s.pipe h.valid full)

-- A killed writer that fills the pipe returns without a wakeup: a reader asleep stays asleep,
-- although the pipe is no longer empty.
pub killed_write_wakes_nobody :
    (s : System) (bs : List ℕ) (n : ℕ)
    → IsValid s.pipe
    → s.reader ≡ asleep n
    → (pipewrite true bs s.pipe).0 ≡ refused
    → ((run_write true bs s).reader ≡ asleep n) × (is_empty (run_write true bs s).pipe ≡ false)
unfolding run_write after_write
killed_write_wakes_nobody s bs n v rd e =
    result (pipewrite true bs s.pipe).0 (pipewrite true bs s.pipe).1
      (pipewrite-Wrote true bs s.pipe v) e
  where
    result :
        (e : WriteEnd) (p : Pipe)
        → Wrote true bs s.pipe (e, p)
        → e ≡ refused
        → ((after_write s e p).reader ≡ asleep n) × (is_empty (after_write s e p).pipe ≡ false)
    result written p w q = cc
    result refused p w q = (rd, full-ne-empty p w.valid w.reason.0)
    result (waiting l) p w q = cc
