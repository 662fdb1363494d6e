-- ===== src/Proc/Killing.antt =====
-- `kill` does not look at the state of the slot that it finds.
use cs461_hw.Base.{ℕ, ◌≡◌, ◌≢◌, refl, true, false, some, ◌==◌, arith, ap, ◌∙◌}
use cs461_hw.Proc.{
  runnable, sleeping, is_state, Table, nproc, find_unused, allocproc, fork, fork_into, fork_with,
  claim_slot, embryo, child_of, find_pid, kill_proc, kill,
}
use cs461_hw.Proc.Loops.{find_pid-some}

-- `kill` answers 0 exactly if it finds a slot with the pid; that slot is marked, and if its process
-- sleeps it is made runnable. No other slot changes.
pub kill_lem :
    (pid : ℕ) (t : Table) (i : ℕ)
    → find_pid nproc 0 pid t.proc ≡ some i
    → let (r, t') = kill pid t in
      (r ≡ true)
      × ((t.proc i).pid ≡ pid)
      × ((t'.proc i).killed ≡ true)
      × (is_state (t'.proc i).state sleeping ≡ false)
      × ((j : ℕ) → j ≢ i → t'.proc j ≡ t.proc j)
unfolding kill kill_proc
kill_lem pid t i e =
    rw (e, kill)
      (
        refl,
        (find_pid-some nproc 0 pid t.proc i e).2,
        ground arith,
        ground arith,
        λ j ne. ground arith,
      )

kill-nextpid : (pid : ℕ) (t : Table) → (kill pid t).1.nextpid ≡ t.nextpid
unfolding kill
kill-nextpid pid t = ground arith

pub allocproc-some :
    (i kstack : ℕ) (t : Table)
    → find_unused nproc 0 t.proc ≡ some i
    → kstack ≢ 0
    → allocproc kstack t ≡ (some i, claim_slot i embryo kstack t)
unfolding allocproc
allocproc-some i kstack t e k =
    let test : (kstack == 0) ≡ false = ground arith in rw (e, allocproc) (rw test refl)

-- `fork` with a free slot and enough memory.
pub fork-some :
    (i cur kstack pgdir : ℕ) (t : Table)
    → find_unused nproc 0 t.proc ≡ some i
    → kstack ≢ 0
    → fork cur kstack pgdir t ≡ fork_into cur pgdir i (claim_slot i embryo kstack t)
unfolding fork fork_with
fork-some i cur kstack pgdir t e k = ap (fork_with cur pgdir) (allocproc-some i kstack t e k)

fork_into_lem :
    (i cur kstack pgdir : ℕ) (t : Table)
    → pgdir ≢ 0
    → let (r, t') = fork_into cur pgdir i (claim_slot i embryo kstack t) in
      (r ≡ some t.nextpid)
      × ((t'.proc i).state ≡ runnable)
      × ((t'.proc i).parent ≡ some cur)
      × ((t'.proc i).killed ≡ (t.proc i).killed)
unfolding fork_into claim_slot child_of
fork_into_lem i cur kstack pgdir t p = (ground arith, ground arith, ground arith, ground arith)

-- The pid of a slot that is not in use may be killed, and `kill` answers 0 (an UNUSED slot has pid 0, or the pid of a failed
-- `fork`). The mark stays: the next process that `fork` makes there is killed from its birth.
pub born_killed :
    (pid i cur kstack pgdir : ℕ) (t : Table)
    → find_pid nproc 0 pid t.proc ≡ some i
    → find_unused nproc 0 (kill pid t).1.proc ≡ some i
    → kstack ≢ 0
    → pgdir ≢ 0
    → let (r, t') = fork cur kstack pgdir (kill pid t).1 in
      ((kill pid t).0 ≡ true)
      × (r ≡ some t.nextpid)
      × ((t'.proc i).state ≡ runnable)
      × ((t'.proc i).parent ≡ some cur)
      × ((t'.proc i).killed ≡ true)
born_killed pid i cur kstack pgdir t e u k p =
    let (r, st, pa, ki) = fork_into_lem i cur kstack pgdir (kill pid t).1 p in
    rw (fork-some i cur kstack pgdir (kill pid t).1 u k) (
      (kill_lem pid t i e).0,
      r ∙ ap some (kill-nextpid pid t),
      st,
      pa,
      ki ∙ (kill_lem pid t i e).2,
    )
