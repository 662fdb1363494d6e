-- ===== src/Proc/Pids.antt =====
-- No two processes have the same pid, whatever the processes do.
use cs461_hw.Base.{
  ℕ, zero, suc, ◌+◌, ◌-◌, ◌^◌, ◌<◌, ◌≡◌, ◌∙◌, refl, sym, ap, Bool, true, false, not, ◌||◌, Option,
  none, some, ◌==◌, if◌then◌else◌, update, arith, Bool-cases, inl, inr, ◌⊎◌, replicate,
}
use cs461_hw.Proc.{
  State, unused, embryo, runnable, running, zombie, is_state, Proc, Table, nproc, find_unused,
  claim_slot, allocproc, fork_into, child_of, exit_table, wait_with, nofile, rouse, wakeup1, wakeup,
  abandon_from, wake_parent, exit, is_child, proc_chan, wait, freed, yield, sleep, sleep_end, kill,
  kill_proc, find_pid, dispatch, scan_children,
}
use cs461_hw.Proc.Loops.{find_unused-some, wakeup1_lem}

abbrev pub in_use : Proc → Bool
in_use p = not (is_state p.state unused)

pub record HasPids (t : Table) : Type 0 where
  pub issued : (i : ℕ) → in_use (t.proc i) ≡ true → (t.proc i).pid < t.nextpid
  pub unique :
      (i j : ℕ)
      → in_use (t.proc i) ≡ true
      → in_use (t.proc j) ≡ true
      → (t.proc i).pid ≡ (t.proc j).pid
      → i ≡ j

-- `t'` has no process that `t` lacks, and no pid has changed.
pub record Keeps (t t' : ℕ → Proc) : Type 0 where
  pub used_before : (j : ℕ) → in_use (t' j) ≡ true → in_use (t j) ≡ true
  pub same_pid : (j : ℕ) → in_use (t' j) ≡ true → (t' j).pid ≡ (t j).pid

Keeps-trans : {t u v : ℕ → Proc} → Keeps t u → Keeps u v → Keeps t v
Keeps-trans k l = record {
  used_before = λ j h. k.used_before j (l.used_before j h);
  same_pid = λ j h. l.same_pid j h ∙ k.same_pid j (l.used_before j h);
}

Keeps-HasPids :
    (t : Table) (procs : ℕ → Proc)
    → Keeps t.proc procs
    → HasPids t
    → HasPids (record t { proc = procs })
Keeps-HasPids t procs k h = record {
  issued = λ i u. ground (arith, k.used_before i u, k.same_pid i u, h.issued i);
  unique = λ i j u v e.
      h.unique i j (k.used_before i u) (k.used_before j v)
        (sym (k.same_pid i u) ∙ e ∙ k.same_pid j v);
}

Keeps-update :
    (t : ℕ → Proc) (i : ℕ) (p : Proc)
    → (in_use p ≡ true → in_use (t i) ≡ true)
    → p.pid ≡ (t i).pid ⊎ (in_use p ≡ false)
    → Keeps t (update t i p)
Keeps-update t i p used pid = record {
  used_before = λ j h. elim (Bool-cases (i == j)) [
    | inl e ↦ let s : i ≡ j = ground arith in rw (← s) (used (ground arith))
    | inr n ↦ ground arith
  ];
  same_pid = λ j h. elim (Bool-cases (i == j)) [ inl e ↦ ground arith | inr n ↦ ground arith ];
}

wakeup1-Keeps : (chan : ℕ) (t : ℕ → Proc) → Keeps t (wakeup1 chan t)
unfolding rouse
wakeup1-Keeps chan t = record {
  used_before = λ j h. ground (arith, wakeup1_lem chan t j);
  same_pid = λ j h. ground (arith, wakeup1_lem chan t j);
}

abandon_step-Keeps :
    (i cur init : ℕ) (t : ℕ → Proc)
    → let adopted = update t i (record (t i) { parent = some init }) in
      Keeps t (
        if is_child cur (t i)
        then if is_state (t i).state zombie then wakeup1 (proc_chan init) adopted else adopted
        else t)
abandon_step-Keeps i cur init t = pick (is_child cur (t i)) (is_state (t i).state zombie)
  where
    adopted : ℕ → Proc
    adopted = update t i (record (t i) { parent = some init })

    adopted-Keeps : Keeps t adopted
    adopted-Keeps = Keeps-update t i (record (t i) { parent = some init }) (λ h. h) (inl refl)

    pick :
        (a b : Bool)
        → Keeps t (if a then if b then wakeup1 (proc_chan init) adopted else adopted else t)
    pick false b = record { used_before = λ j h. h; same_pid = λ j h. refl }
    pick true false = adopted-Keeps
    pick true true = Keeps-trans adopted-Keeps (wakeup1-Keeps (proc_chan init) adopted)

abandon_from-Keeps : (k i cur init : ℕ) (t : ℕ → Proc) → Keeps t (abandon_from k i cur init t)
unfolding abandon_from
abandon_from-Keeps zero i cur init t = record { used_before = λ j h. h; same_pid = λ j h. refl }
abandon_from-Keeps (suc k) i cur init t =
    Keeps-trans (abandon_step-Keeps i cur init t) (abandon_from-Keeps k (i + 1) cur init _)

wake_parent-Keeps : (p : Option ℕ) (t : ℕ → Proc) → Keeps t (wake_parent p t)
unfolding wake_parent
wake_parent-Keeps none t = wakeup1-Keeps 0 t
wake_parent-Keeps (some i) t = wakeup1-Keeps (proc_chan i) t

claim_slot-HasPids :
    (i kstack : ℕ) (st : State) (t : Table)
    → is_state (t.proc i).state unused ≡ true
    → t.nextpid < 2 ^ 31 - 1
    → HasPids t
    → HasPids (claim_slot i st kstack t)
unfolding claim_slot
claim_slot-HasPids i kstack st t free small h = record {
  issued = λ j u. ground (arith, h.issued j);
  unique = λ j k u v e. ground (arith, h.issued j, h.issued k, h.unique j k);
}

claim_slot-state :
    (i kstack : ℕ) (st : State) (t : Table) → ((claim_slot i st kstack t).proc i).state ≡ st
unfolding claim_slot
claim_slot-state i kstack st t = ground arith

-- A table with distinct pids; a slot that is returned is the new process's.
abbrev Claimed : Option ℕ × Table → Type 0
Claimed (none, t) = HasPids t
Claimed (some i, t) = HasPids t × (is_state (t.proc i).state embryo ≡ true)

allocproc-Claimed :
    (kstack : ℕ) (t : Table) → t.nextpid < 2 ^ 31 - 1 → HasPids t → Claimed (allocproc kstack t)
unfolding allocproc
allocproc-Claimed kstack t small h = found (find_unused nproc 0 t.proc) refl
  where
    found : (o : Option ℕ) → find_unused nproc 0 t.proc ≡ o → Claimed (allocproc kstack t)
    found none e = rw (e, allocproc) h
    found (some i) e =
        let free = (find_unused-some nproc 0 t.proc i e).2 in
        elim (Bool-cases (kstack == 0)) [
          | inl z ↦ rw (e, allocproc, z) (claim_slot-HasPids i 0 unused t free small h)
          | inr n ↦
              rw (e, allocproc, n)
                (
                  claim_slot-HasPids i kstack embryo t free small h,
                  rw (claim_slot-state i kstack embryo t) refl,
                )
        ]

fork_into-HasPids :
    (cur pgdir i : ℕ) (t : Table)
    → is_state (t.proc i).state embryo ≡ true
    → HasPids t
    → HasPids (fork_into cur pgdir i t).1
unfolding fork_into child_of
fork_into-HasPids cur pgdir i t e h = elim (Bool-cases (pgdir == 0)) [
  | inl z ↦ rw z (Keeps-HasPids t _ (Keeps-update t.proc i _ (λ u. cc) (inr refl)) h)
  | inr n ↦ rw n (Keeps-HasPids t _ (Keeps-update t.proc i _ (λ u. ground arith) (inl refl)) h)
]

claimed : (r : Option ℕ × Table) → Claimed r → HasPids r.1
claimed (none, t) h = h
claimed (some i, t) h = h.0

-- What a function of the process table does in one hold of its lock: for the process `cur`, which runs,
-- for any code (`wakeup`, `kill`), or for the scheduler. `fork` is `allocates` and then `forks`, with any
-- steps of other processes in between.
pub data Step (t : Table) : Table → Type 0 where
  allocates : (kstack : ℕ) → Step t (allocproc kstack t).1
  forks :
      (cur pgdir i : ℕ)
      → (t.proc cur).state ≡ running
      → (t.proc i).state ≡ embryo
      → Step t (fork_into cur pgdir i t).1
  exits : (cur : ℕ) {t' : Table} → (t.proc cur).state ≡ running → exit cur t ≡ some t' → Step t t'
  waits : (cur : ℕ) → (t.proc cur).state ≡ running → Step t (wait cur t).1
  yields : (cur : ℕ) → (t.proc cur).state ≡ running → Step t (yield cur t)
  sleeps : (cur chan : ℕ) → (t.proc cur).state ≡ running → Step t (sleep cur chan t)
  wakes : (cur : ℕ) → (t.proc cur).state ≡ running → Step t (sleep_end cur t)
  rouses : (chan : ℕ) → Step t (wakeup chan t)
  kills : (pid : ℕ) → Step t (kill pid t).1
  runs : (i : ℕ) {t' : Table} → dispatch i t ≡ some t' → Step t t'

wakeup1-pid : (chan : ℕ) (t : ℕ → Proc) (j : ℕ) → (wakeup1 chan t j).pid ≡ (t j).pid
unfolding rouse
wakeup1-pid chan t j = ground (arith, wakeup1_lem chan t j)

wake_parent-pid : (p : Option ℕ) (t : ℕ → Proc) (j : ℕ) → (wake_parent p t j).pid ≡ (t j).pid
unfolding wake_parent
wake_parent-pid none t j = wakeup1-pid 0 t j
wake_parent-pid (some i) t j = wakeup1-pid (proc_chan i) t j

adopt-pid :
    (t : ℕ → Proc) (i init j : ℕ)
    → (update t i (record (t i) { parent = some init }) j).pid ≡ (t j).pid
adopt-pid t i init j = ground arith

abandon_from-pid :
    (k i cur init : ℕ) (t : ℕ → Proc) (j : ℕ) → (abandon_from k i cur init t j).pid ≡ (t j).pid
unfolding abandon_from
abandon_from-pid zero i cur init t j = refl
abandon_from-pid (suc k) i cur init t j =
    abandon_from-pid k (i + 1) cur init _ j
    ∙ round (is_child cur (t i)) (is_state (t i).state zombie)
  where
    adopted : ℕ → Proc
    adopted = update t i (record (t i) { parent = some init })

    round :
        (a b : Bool)
        → ((if a then if b then wakeup1 (proc_chan init) adopted else adopted else t) j).pid
          ≡ (t j).pid
    round false b = refl
    round true false = adopt-pid t i init j
    round true true = wakeup1-pid (proc_chan init) adopted j ∙ adopt-pid t i init j

Keeps-zombie :
    (t u : ℕ → Proc) (cur : ℕ)
    → Keeps t u
    → in_use (t cur) ≡ true
    → (u cur).pid ≡ (t cur).pid
    → Keeps t (update u cur (record (u cur) { state = zombie }))
Keeps-zombie t u cur k used pid = record {
  used_before = λ j h. elim (Bool-cases (cur == j)) [
    | inl e ↦ let s : cur ≡ j = ground arith in rw (← s) used
    | inr n ↦ k.used_before j (ground arith)
  ];
  same_pid = λ j h. elim (Bool-cases (cur == j)) [
    | inl e ↦ ground arith
    | inr n ↦ ground (arith, k.same_pid j)
  ];
}

exit_table-HasPids :
    (cur : ℕ) (t : Table) → (t.proc cur).state ≡ running → HasPids t → HasPids (exit_table cur t)
unfolding exit_table
exit_table-HasPids cur t r h =
    Keeps-HasPids t _ (Keeps-zombie t.proc orphans cur all (ground arith) pid) h
  where
    closed : ℕ → Proc
    closed = update t.proc cur (record (t.proc cur) { ofile = replicate nofile none; cwd = 0 })

    orphans : ℕ → Proc
    orphans = abandon_from nproc 0 cur t.initproc (wake_parent (t.proc cur).parent closed)

    all : Keeps t.proc orphans
    all = Keeps-trans (Keeps-update t.proc cur _ (λ u. ground arith) (inl refl)) (
        Keeps-trans (wake_parent-Keeps (t.proc cur).parent closed)
          (abandon_from-Keeps nproc 0 cur t.initproc _))

    pid : (orphans cur).pid ≡ (t.proc cur).pid
    pid =
        abandon_from-pid nproc 0 cur t.initproc _ cur
        ∙ wake_parent-pid (t.proc cur).parent closed cur
        ∙ ground arith

exit-HasPids :
    (cur : ℕ) (t : Table) {t' : Table}
    → (t.proc cur).state ≡ running
    → exit cur t ≡ some t'
    → HasPids t
    → HasPids t'
unfolding exit
exit-HasPids cur t {t'} r e h =
    let same : exit_table cur t ≡ t' = ground arith in rw (← same) (exit_table-HasPids cur t r h)

kill-HasPids : (pid : ℕ) (t : Table) → HasPids t → HasPids (kill pid t).1
unfolding kill kill_proc
kill-HasPids pid t h = found (find_pid nproc 0 pid t.proc) refl
  where
    found : (o : Option ℕ) → find_pid nproc 0 pid t.proc ≡ o → HasPids (kill pid t).1
    found none e = rw (e, kill) h
    found (some i) e =
        rw (e, kill) (Keeps-HasPids t _ (Keeps-update t.proc i _ (λ u. ground arith) (inl refl)) h)

wait_with-HasPids :
    (cur : ℕ) (t : Table) (r : Option ℕ × Bool)
    → (t.proc cur).state ≡ running
    → HasPids t
    → HasPids (wait_with cur t r).1
unfolding wait_with freed
wait_with-HasPids cur t (some i, b) r h =
    Keeps-HasPids t _ (Keeps-update t.proc i _ (λ u. cc) (inr refl)) h
wait_with-HasPids cur t (none, b) r h = elim (Bool-cases (not b || (t.proc cur).killed)) [
  | inl e ↦ rw e h
  | inr n ↦ rw n (Keeps-HasPids t _ (Keeps-update t.proc cur _ (λ u. ground arith) (inl refl)) h)
]

dispatch-HasPids :
    (i : ℕ) (t : Table) {t' : Table} → dispatch i t ≡ some t' → HasPids t → HasPids t'
unfolding dispatch
dispatch-HasPids i t {t'} e h = elim (Bool-cases (is_state (t.proc i).state runnable)) [
  | inl u ↦
      let same : record t { proc = update t.proc i (record (t.proc i) { state = running }) } ≡ t' =
        ground arith in
      rw (← same) (Keeps-HasPids t _ (Keeps-update t.proc i _ (λ v. ground arith) (inl refl)) h)
  | inr n ↦ ground arith
]

-- While `nextpid` has not come to the largest `int`, every step keeps the pids of the processes in use
-- distinct, and below `nextpid`.
pub Step-HasPids : {t t' : Table} → Step t t' → t.nextpid < 2 ^ 31 - 1 → HasPids t → HasPids t'
unfolding yield sleep sleep_end wakeup wait
Step-HasPids {t} (allocates kstack) small h =
    claimed (allocproc kstack t) (allocproc-Claimed kstack t small h)
Step-HasPids {t} (forks cur pgdir i r e) small h =
    fork_into-HasPids cur pgdir i t (ap (λ s. is_state s embryo) e) h
Step-HasPids {t} (exits cur r e) small h = exit-HasPids cur t r e h
Step-HasPids {t} (waits cur r) small h =
    wait_with-HasPids cur t (scan_children nproc 0 cur t.proc false) r h
Step-HasPids {t} (yields cur r) small h =
    Keeps-HasPids t _ (Keeps-update t.proc cur _ (λ u. ground arith) (inl refl)) h
Step-HasPids {t} (sleeps cur chan r) small h =
    Keeps-HasPids t _ (Keeps-update t.proc cur _ (λ u. ground arith) (inl refl)) h
Step-HasPids {t} (wakes cur r) small h =
    Keeps-HasPids t _ (Keeps-update t.proc cur _ (λ u. ground arith) (inl refl)) h
Step-HasPids {t} (rouses chan) small h = Keeps-HasPids t _ (wakeup1-Keeps chan t.proc) h
Step-HasPids {t} (kills pid) small h = kill-HasPids pid t h
Step-HasPids {t} (runs i e) small h = dispatch-HasPids i t e h
