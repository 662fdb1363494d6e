-- ===== src/Log/Bound.antt =====
-- How large a log the reservations of `begin_op` need, against the size that mkfs.c gives it.
use cs461_hw.Base.{ℕ, zero, suc, ◌+◌, ◌≡◌, refl, false, Option, some, none, get_elem?}
use cs461_hw.Log.{
  Machine, Block, log_size, begin_op, log_write, absorb, slot_from, exceeds, below_one,
}
use cs461_hw.Log.Space.{System, begin, write, Reach, here, next, IsIdle}

abbrev pub zeros : ℕ → Block
zeros b w = 0

-- A log of `size` blocks from block 2 on, with nothing in it.
abbrev pub idle_log : ℕ → Machine
idle_log size = record {
  disk = zeros;
  mem = zeros;
  dirty = λ _. false;
  power = 100;
  start = 2;
  size = size;
  outstanding = 0;
  committing = false;
  n = 0;
  block = λ _. 0;
}

pub idle_log-IsIdle : (size : ℕ) → IsIdle (idle_log size)
idle_log-IsIdle size = record { none_logged = refl; none_active = refl; not_committing = refl }

-- Reachable states by evaluation.
record Run (m : Machine) : Type 0 where
  last : System
  reach : Reach m last

begin_run : {m : Machine} → Run m → Run m
begin_run {m} r = attempt (begin_op r.last.log) refl
  where
    attempt : (o : Option Machine) → begin_op r.last.log ≡ o → Run m
    attempt none e = r
    attempt (some l) e = record { last = _; reach = next r.reach (begin e) }

write_run : {m : Machine} → ℕ → ℕ → Run m → Run m
write_run {m} i b r =
    attempt (get_elem? r.last.left i) refl (log_write b zeros_block r.last.log) refl
  where
    zeros_block : Block
    zeros_block w = 0

    attempt :
        (o : Option ℕ)
        → get_elem? r.last.left i ≡ o
        → (l : Option Machine) → log_write b zeros_block r.last.log ≡ l
        → Run m
    attempt (some (suc k)) e (some l) f = record {
      last = _;
      reach = next r.reach (write i k b zeros_block e f);
    }
    attempt _ e _ f = r

-- Operation `i` writes `k` further blocks, from block `b` on.
writes_run : {m : Machine} → ℕ → ℕ → ℕ → Run m → Run m
writes_run zero i b r = r
writes_run (suc k) i b r = writes_run k i (b + 1) (write_run i b r)

-- Three operations, of which two have written ten blocks each, and the third nine.
three_operations : Run (idle_log 30)
three_operations = writes_run 9 2 120 (
    writes_run 10 1 110
      (writes_run 10 0 100 (begin_run (begin_run (begin_run (record { last = _; reach = here }))))))

-- The size that mkfs gives the log, LOGSIZE blocks, is one too small for the reservations: with it a
-- reachable operation that has written fewer than MAXOPBLOCKS blocks may panic in `log_write`.
log_size_too_small : ¬ (
    (m : Machine) (s : System) (i r b : ℕ) (d : Block)
    → IsIdle m
    → Reach m s
    → s.log.size ≡ log_size
    → get_elem? s.left i ≡ some (suc r)
    → (m' : Machine) × (log_write b d s.log ≡ some m'))
unfolding three_operations writes_run write_run begin_run begin_op exceeds log_write below_one
    absorb slot_from
log_size_too_small all = cc (
    (all (idle_log 30) three_operations.last 2 0 500 zeros_block (idle_log-IsIdle 30)
      three_operations.reach refl refl).1)
  where
    zeros_block : Block
    zeros_block w = 0
