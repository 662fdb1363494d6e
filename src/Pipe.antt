-- ===== src/Pipe.antt =====
-- pipe.c: a ring of PIPESIZE bytes between processes. Its `uint` counters run freely and wrap.
-- A call runs under the pipe's lock until it returns or sleeps; after a sleep it goes on where it
-- stood, which is the same loop on what is left.
use cs461_hw.Base.{
  ℕ, zero, suc, ◌+◌, ◌-◌, ◌%◌, ◌^◌, Bool, true, false, not, ◌&&◌, ◌||◌, List, [], ◌∷◌, ◌==◌,
  if◌then◌else◌, get_or, set, replicate,
}
pub mod Fifo
pub mod Wakeups
mod Tests

abbrev pub pipe_size : ℕ
pipe_size = 512

-- `struct pipe`, without its lock.
pub record Pipe : Type 0 where
  pub bytes : List ℕ
  pub nread : ℕ
  pub nwrite : ℕ
  pub readopen : Bool
  pub writeopen : Bool

-- The pipe that `pipealloc` sets up in a page with contents `page`.
pub init_pipe : List ℕ → Pipe
init_pipe page = record { bytes = page; nread = 0; nwrite = 0; readopen = true; writeopen = true }

pub is_full : Pipe → Bool
is_full p = p.nwrite == (p.nread + pipe_size) % 2 ^ 32

pub is_empty : Pipe → Bool
is_empty p = p.nread == p.nwrite

-- `p->data[p->nwrite++ % PIPESIZE] = b`
pub put : ℕ → Pipe → Pipe
put b p = record p {
  bytes = set p.bytes (p.nwrite % pipe_size) b;
  nwrite = (p.nwrite + 1) % 2 ^ 32;
}

-- `p->data[p->nread++ % PIPESIZE]`
pub front : Pipe → ℕ
front p = get_or p.bytes (p.nread % pipe_size) 0

pub advance : Pipe → Pipe
advance p = record p { nread = (p.nread + 1) % 2 ^ 32 }

-- How a run of `pipewrite` ends: `return n`, `return -1`, or `sleep` with these bytes left.
pub data WriteEnd : Type 0 where
  written : WriteEnd
  refused : WriteEnd
  waiting : List ℕ → WriteEnd

pub pipewrite : Bool → List ℕ → Pipe → WriteEnd × Pipe
pipewrite killed [] p = (written, p)
pipewrite killed (b ∷ bs) p =
    let rest = pipewrite killed bs (put b p) in
    if is_full p
    then if not p.readopen || killed then (refused, p) else (waiting (b ∷ bs), p)
    else rest

-- How a run of `piperead` ends: with the bytes read, with -1, or with `sleep`.
pub data ReadEnd : Type 0 where
  got : List ℕ → ReadEnd
  interrupted : ReadEnd
  blocked : ReadEnd

-- The copying loop of `piperead`, for at most `n` bytes.
pub copy_out : ℕ → Pipe → List ℕ × Pipe
copy_out zero p = ([], p)
copy_out (suc n) p =
    let rest = copy_out n (advance p) in if is_empty p then ([], p) else (front p ∷ rest.0, rest.1)

pub piperead : Bool → ℕ → Pipe → ReadEnd × Pipe
piperead killed n p =
    let out = copy_out n p in
    if is_empty p && p.writeopen
    then if killed then (interrupted, p) else (blocked, p)
    else (got out.0, out.1)

-- `pipeclose`: the pipe, and whether its page is freed.
pub pipeclose : Bool → Pipe → Pipe × Bool
pipeclose true p = (record p { writeopen = false }, not p.readopen)
pipeclose false p = (record p { readopen = false }, not p.writeopen)
