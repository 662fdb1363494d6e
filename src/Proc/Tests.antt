-- ===== src/Proc/Tests.antt =====
-- A table with init in slot 0 and a shell in slot 1.
use cs461_hw.Base.{◌≡◌, refl, true, false, none, some, [], ◌==◌, if◌then◌else◌, arith}
use cs461_hw.Proc.{
  unused, runnable, sleeping, running, Proc, Table, is_child, find_unused, allocproc, fork, exit,
  exit_table, wait, kill, find_pid, kill_proc,
}
use cs461_hw.Proc.Pids.{HasPids, allocates, Step-HasPids}
use cs461_hw.Proc.Family.{exit-parent, WaitResult, wait-Result}
use cs461_hw.Proc.Killing.{born_killed}

abbrev empty_slot : Proc
empty_slot = record {
  sz = 0;
  pgdir = 0;
  kstack = 0;
  state = unused;
  pid = 0;
  parent = none;
  chan = 0;
  killed = false;
  ofile = [];
  cwd = 0;
  name = [];
}

abbrev two_procs : Table
two_procs = record {
  proc = λ i.
      if i == 0
      then record empty_slot { state = sleeping; pid = 1; chan = 1 }
      else if i == 1
      then record empty_slot { state = running; pid = 2; parent = some 0 }
      else empty_slot;
  nextpid = 3;
  initproc = 0;
}

two_procs-HasPids : HasPids two_procs
two_procs-HasPids = record { issued = λ i u. ground arith; unique = λ i j u v e. ground arith }

Step-HasPids_example : HasPids (allocproc 4096 two_procs).1
Step-HasPids_example = Step-HasPids (allocates 4096) (omega arith) two_procs-HasPids

exit-parent_example :
    (is_child 1 (two_procs.proc 2) ≡ true → ((exit_table 1 two_procs).proc 2).parent ≡ some 0)
    × (is_child 1 (two_procs.proc 2) ≡ false → ((exit_table 1 two_procs).proc 2).parent ≡ none)
    × (is_child 1 ((exit_table 1 two_procs).proc 2) ≡ false)
unfolding exit
exit-parent_example = exit-parent 1 two_procs 2 refl (omega arith)

wait-Result_example : WaitResult 1 two_procs (wait 1 two_procs)
wait-Result_example = wait-Result 1 two_procs

born_killed_example :
    let (r, t') = fork 1 4096 8192 (kill 0 two_procs).1 in
    ((kill 0 two_procs).0 ≡ true)
    × (r ≡ some 3)
    × ((t'.proc 2).state ≡ runnable)
    × ((t'.proc 2).parent ≡ some 1)
    × ((t'.proc 2).killed ≡ true)
unfolding find_pid find_unused kill kill_proc
born_killed_example = born_killed 0 2 1 4096 8192 two_procs refl refl (omega arith) (omega arith)
