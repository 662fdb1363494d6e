-- ===== src/Pipe/Tests.antt =====
-- Pipes on concrete inputs.
use cs461_hw.Base.{ℕ, ◌≡◌, refl, true, false, List, [], ◌∷◌, replicate, arith}
use cs461_hw.Pipe.{
  Pipe, init_pipe, is_full, is_empty, put, front, advance, refused, pipewrite, got, copy_out,
  piperead,
}
use cs461_hw.Pipe.Fifo.{IsValid, Wrote, pipewrite-Wrote, Read, piperead-Read}
use cs461_hw.Pipe.Wakeups.{
  System, idle, asleep, run_write, run_read, after_write, after_read, start, Reach, here, next,
  call_read, call_write, NoneLost, Reach-NoneLost, killed_write_wakes_nobody,
}

abbrev page : List ℕ
page = replicate 512 0

-- Counters about to wrap.
abbrev late : Pipe
late = record {
  bytes = page;
  nread = 0xffffffff;
  nwrite = 0xffffffff;
  readopen = true;
  writeopen = true;
}

late-IsValid : IsValid late
late-IsValid = record {
  storage = refl;
  read_word = omega arith;
  write_word = omega arith;
  within = omega arith;
}

pipewrite-Wrote_example : Wrote false (7 ∷ 8 ∷ []) late (pipewrite false (7 ∷ 8 ∷ []) late)
pipewrite-Wrote_example = pipewrite-Wrote false (7 ∷ 8 ∷ []) late late-IsValid

piperead-Read_example : let (e, p) = piperead false 3 late in Read false 3 late e p
piperead-Read_example = piperead-Read false 3 late late-IsValid

write_then_read : (piperead false 9 (pipewrite false (7 ∷ 8 ∷ []) late).1).0 ≡ got (7 ∷ 8 ∷ [])
unfolding pipewrite piperead copy_out put is_full is_empty front advance
write_then_read = refl

-- A reader asleep on a new pipe.
reader_first : Reach page (record { pipe = init_pipe page; writer = idle; reader = asleep 3 })
unfolding run_read after_read start piperead init_pipe is_empty
reader_first = next here (call_read false 3 refl refl)

Reach-NoneLost_example :
    NoneLost (record { pipe = init_pipe page; writer = idle; reader = asleep 3 })
Reach-NoneLost_example = Reach-NoneLost refl reader_first

writer_first : Reach page (record {
  pipe = (pipewrite false (replicate 513 7) (init_pipe page)).1;
  writer = asleep (7 ∷ []);
  reader = idle;
})
unfolding run_write after_write start pipewrite put init_pipe is_full
writer_first = next here (call_write (replicate 513 7) refl refl)

abbrev waiting_reader : System
waiting_reader = record { pipe = init_pipe page; writer = idle; reader = asleep 3 }

killed_refused : (pipewrite true (replicate 513 7) (init_pipe page)).0 ≡ refused
unfolding pipewrite put init_pipe is_full
killed_refused = refl

init_pipe-IsValid : IsValid (init_pipe page)
unfolding init_pipe
init_pipe-IsValid = record {
  storage = refl;
  read_word = omega arith;
  write_word = omega arith;
  within = omega arith;
}

killed_write_wakes_nobody_example :
    ((run_write true (replicate 513 7) waiting_reader).reader ≡ asleep 3)
    × (is_empty (run_write true (replicate 513 7) waiting_reader).pipe ≡ false)
killed_write_wakes_nobody_example =
    killed_write_wakes_nobody waiting_reader (replicate 513 7) 3 init_pipe-IsValid refl
      killed_refused
