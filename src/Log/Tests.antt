-- ===== src/Log/Tests.antt =====
-- The log on concrete disks, and its theorems applied to them.
use cs461_hw.Base.{ℕ, ◌+◌, ◌*◌, ◌≡◌, refl, ◌⊎◌, inr, [], ◌∷◌, some, arith, update, fun_ext}
use cs461_hw.Log.{
  Machine, Block, max_op_blocks, begin_op, log_write, exceeds, commit, initlog, write_log,
  write_log_from, install_trans, install_from, write_head, fill_head, read_head, load_head,
  recover_from_log, bwrite,
}
use cs461_hw.Log.Disk.{Clear}
use cs461_hw.Log.Recovery.{recoveries}
use cs461_hw.Log.Crash.{IsReady, commit_durable, commit_atomic}
use cs461_hw.Log.Space.{System, begin, Reach, here, next, log_write_no_panic}
use cs461_hw.Log.Bound.{zeros, idle_log, idle_log-IsIdle}

abbrev sevens : Block
sevens w = 7

-- Blocks 50 and 60 logged, each with new contents in memory.
abbrev two_logged : ℕ → Machine
two_logged power = record (idle_log 31) {
  power = power;
  mem = update (update zeros 50 sevens) 60 sevens;
  n = 2;
  block = λ i. 50 + i * 10;
}

two_logged-IsReady : (power : ℕ) → IsReady (two_logged power)
two_logged-IsReady power = record {
  fits = omega arith;
  homes = λ i h. inr (omega arith);
  agree = λ b h ne. fun_ext λ w. ground (arith, ne 0, ne 1);
  empty = refl;
}

-- A crash after four writes: the log and its header are on disk, and block 50 is installed.
commit_atomic_example :
    let d = (initlog 2 31 5 (recoveries 2 31 (1 ∷ 0 ∷ []) (commit (two_logged 4)).disk)).disk in
    Clear 2 31 zeros d ⊎ Clear 2 31 (two_logged 4).mem d
commit_atomic_example =
    commit_atomic (two_logged 4) (two_logged-IsReady 4) (1 ∷ 0 ∷ []) 5 (omega arith)

commit_durable_example :
    Clear 2 31 (two_logged 6).mem (commit (two_logged 6)).disk × ((commit (two_logged 6)).n ≡ 0)
commit_durable_example = commit_durable (two_logged 6) (two_logged-IsReady 6) (omega arith)

crash_before_header : (initlog 2 31 9 (commit (two_logged 2)).disk).disk 50 3 ≡ 0
unfolding initlog recover_from_log read_head load_head commit write_log write_log_from install_trans
    install_from write_head fill_head bwrite
crash_before_header = refl

crash_after_header : (initlog 2 31 9 (commit (two_logged 3)).disk).disk 60 3 ≡ 7
unfolding initlog recover_from_log read_head load_head commit write_log write_log_from install_trans
    install_from write_head fill_head bwrite
crash_after_header = refl

abbrev one_begun : ℕ → System
one_begun size = record {
  log = record (idle_log size) { outstanding = 1 };
  left = max_op_blocks ∷ [];
}

one_begun-Reach : (size : ℕ) → Reach (idle_log size) (one_begun size)
unfolding begin_op exceeds
one_begun-Reach size = next here (begin refl)

log_write_no_panic_example : (m : Machine) × (log_write 50 sevens (one_begun 31).log ≡ some m)
log_write_no_panic_example =
    log_write_no_panic 0 9 50 sevens (idle_log-IsIdle 31) (one_begun-Reach 31) (omega arith) refl
