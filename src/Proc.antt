-- ===== src/Proc.antt =====
-- proc.c: the process table. A process is its index in the table. What a function below does while it
-- holds `ptable.lock` is one step. `fork` takes the lock twice at most: in `allocproc`, and for its last
-- store; `fork_into` is all that it does after `allocproc`.
-- Page tables, stacks and files are the addresses that the table holds; what `kalloc`, `copyuvm` and
-- the like return is an argument (0 is NULL).
use cs461_hw.Base.{
  ℕ, zero, suc, ◌+◌, ◌*◌, ◌%◌, ◌^◌, ◌<◌, Bool, true, false, not, ◌&&◌, ◌||◌, Option, none, some,
  List, [], ◌∷◌, ◌==◌, if◌then◌else◌, update, replicate,
}
pub mod Loops
pub mod Pids
pub mod Family
pub mod Killing
mod Tests

abbrev pub nproc : ℕ
nproc = 64

abbrev pub nofile : ℕ
nofile = 16

pub data State : Type 0 where
  unused embryo sleeping runnable running zombie : State

abbrev pub is_state : State → State → Bool
is_state unused unused = true
is_state embryo embryo = true
is_state sleeping sleeping = true
is_state runnable runnable = true
is_state running running = true
is_state zombie zombie = true
is_state _ _ = false

-- `struct proc`; a parent is an index.
pub record Proc : Type 0 where
  pub sz : ℕ
  pub pgdir : ℕ
  pub kstack : ℕ
  pub state : State
  pub pid : ℕ
  pub parent : Option ℕ
  pub chan : ℕ
  pub killed : Bool
  pub ofile : List (Option ℕ)
  pub cwd : ℕ
  pub name : List ℕ

-- `ptable` with `nextpid`, the bit pattern of an `int`, and the index of `initproc`.
pub record Table : Type 0 where
  pub proc : ℕ → Proc
  pub nextpid : ℕ
  pub initproc : ℕ

-- The address that a process sleeps on in `wait`: `&ptable.proc[i]`, from the table's address on.
pub proc_chan : ℕ → ℕ
proc_chan i = i + 1

abbrev pub is_child : ℕ → Proc → Bool
is_child i p = elim (p.parent) [ none ↦ false | some j ↦ j == i ]

-- The scan of `allocproc`, over `k` slots from `i` on.
pub find_unused : ℕ → ℕ → (ℕ → Proc) → Option ℕ
find_unused zero i t = none
find_unused (suc k) i t =
    let rest = find_unused k (i + 1) t in if is_state (t i).state unused then some i else rest

-- The slot `i` with the next pid, in state `st` and with the stack `kstack`.
pub claim_slot : ℕ → State → ℕ → Table → Table
claim_slot i st kstack t = record t {
  proc = update t.proc i (record (t.proc i) { state = st; pid = t.nextpid; kstack = kstack });
  nextpid = (t.nextpid + 1) % 2 ^ 32;
}

-- `allocproc`, with what `kalloc` returns. The frame and the context on the new stack are left out.
pub allocproc : ℕ → Table → Option ℕ × Table
allocproc kstack t = elim (find_unused nproc 0 t.proc) [
  | none ↦ (none, t)
  | some i ↦
      if kstack == 0
      then (none, claim_slot i unused 0 t)
      else (some i, claim_slot i embryo kstack t)
]

-- The loop `if(proc->ofile[i]) np->ofile[i] = filedup(proc->ofile[i])`: a slot that is empty in the
-- parent keeps what the child's slot held.
pub dup_files : List (Option ℕ) → List (Option ℕ) → List (Option ℕ)
dup_files [] old = old
dup_files (f ∷ fs) [] = []
dup_files (some f ∷ fs) (g ∷ gs) = some f ∷ dup_files fs gs
dup_files (none ∷ fs) (g ∷ gs) = g ∷ dup_files fs gs

-- What `fork` writes to the slot of the child.
pub child_of : ℕ → ℕ → Proc → Proc → Proc
child_of cur pgdir p np = record np {
  pgdir = pgdir;
  sz = p.sz;
  parent = some cur;
  ofile = dup_files p.ofile np.ofile;
  cwd = p.cwd;
  name = p.name;
  state = runnable;
}

-- `fork` by the process `cur` once it has the slot `i`: `none` is -1.
pub fork_into : ℕ → ℕ → ℕ → Table → Option ℕ × Table
fork_into cur pgdir i t =
    if pgdir == 0
    then (
      none,
      record t {
        proc = update t.proc i (record (t.proc i) { pgdir = 0; kstack = 0; state = unused });
      },
    )
    else (
      some (t.proc i).pid,
      record t { proc = update t.proc i (child_of cur pgdir (t.proc cur) (t.proc i)) },
    )

pub fork_with : ℕ → ℕ → Option ℕ × Table → Option ℕ × Table
fork_with cur pgdir (none, t) = (none, t)
fork_with cur pgdir (some i, t) = fork_into cur pgdir i t

pub fork : ℕ → ℕ → ℕ → Table → Option ℕ × Table
fork cur kstack pgdir t = fork_with cur pgdir (allocproc kstack t)

-- What `wakeup1` does to one process.
pub rouse : ℕ → Proc → Proc
rouse chan p =
    if is_state p.state sleeping && p.chan == chan then record p { state = runnable } else p

-- `wakeup1`, over `k` slots from `i` on.
pub wakeup_from : ℕ → ℕ → ℕ → (ℕ → Proc) → ℕ → Proc
wakeup_from zero i chan t = t
wakeup_from (suc k) i chan t = wakeup_from k (i + 1) chan (update t i (rouse chan (t i)))

pub wakeup1 : ℕ → (ℕ → Proc) → ℕ → Proc
wakeup1 chan t = wakeup_from nproc 0 chan t

pub wakeup : ℕ → Table → Table
wakeup chan t = record t { proc = wakeup1 chan t.proc }

-- The loop of `exit` that passes the children of `cur` to init.
pub abandon_from : ℕ → ℕ → (cur init : ℕ) → (ℕ → Proc) → ℕ → Proc
abandon_from zero i cur init t = t
abandon_from (suc k) i cur init t =
    let adopted = update t i (record (t i) { parent = some init }) in
    abandon_from k (i + 1) cur init (
      if is_child cur (t i)
      then if is_state (t i).state zombie then wakeup1 (proc_chan init) adopted else adopted
      else t)

-- `wakeup1(proc->parent)`; no process sleeps on NULL.
pub wake_parent : Option ℕ → (ℕ → Proc) → ℕ → Proc
wake_parent none t = wakeup1 0 t
wake_parent (some i) t = wakeup1 (proc_chan i) t

-- `exit` of `cur` up to `sched`, after the test for init.
pub exit_table : ℕ → Table → Table
exit_table cur t =
    let p = t.proc cur in
    let closed = update t.proc cur (record p { ofile = replicate nofile none; cwd = 0 }) in
    let orphans = abandon_from nproc 0 cur t.initproc (wake_parent p.parent closed) in
    record t { proc = update orphans cur (record (orphans cur) { state = zombie }) }

-- `none` is the panic for init.
pub exit : ℕ → Table → Option Table
exit cur t = if cur == t.initproc then none else some (exit_table cur t)

-- How a round of `wait` ends: a child's pid, -1, or `sleep`.
pub data Waited : Type 0 where
  reaped : ℕ → Waited
  no_child : Waited
  asleep : Waited

-- A slot that `wait` frees.
pub freed : Proc → Proc
freed p = record p {
  kstack = 0;
  pid = 0;
  parent = none;
  name = 0 ∷ [];
  killed = false;
  state = unused;
}

-- The scan of `wait`: the first zombie child, and whether there was a child.
pub scan_children : ℕ → ℕ → ℕ → (ℕ → Proc) → Bool → Option ℕ × Bool
scan_children zero i cur t havekids = (none, havekids)
scan_children (suc k) i cur t havekids =
    let rest = scan_children k (i + 1) cur t (is_child cur (t i) || havekids) in
    if is_child cur (t i) && is_state (t i).state zombie then (some i, true) else rest

-- What `wait` does after its scan.
pub wait_with : ℕ → Table → Option ℕ × Bool → Waited × Table
wait_with cur t (some i, _) =
    (reaped (t.proc i).pid, record t { proc = update t.proc i (freed (t.proc i)) })
wait_with cur t (none, havekids) = if not havekids || (t.proc cur).killed then (no_child, t) else (
  asleep,
  record t {
    proc = update t.proc cur (record (t.proc cur) { chan = proc_chan cur; state = sleeping });
  },
)

pub wait : ℕ → Table → Waited × Table
wait cur t = wait_with cur t (scan_children nproc 0 cur t.proc false)

-- `yield` up to `sched`.
pub yield : ℕ → Table → Table
yield cur t = record t { proc = update t.proc cur (record (t.proc cur) { state = runnable }) }

-- `sleep` up to `sched`, and what it does when the process runs again.
pub sleep : ℕ → ℕ → Table → Table
sleep cur chan t = record t {
  proc = update t.proc cur (record (t.proc cur) { chan = chan; state = sleeping });
}

pub sleep_end : ℕ → Table → Table
sleep_end cur t = record t { proc = update t.proc cur (record (t.proc cur) { chan = 0 }) }

-- The scan of `kill`.
pub find_pid : ℕ → ℕ → ℕ → (ℕ → Proc) → Option ℕ
find_pid zero i pid t = none
find_pid (suc k) i pid t =
    let rest = find_pid k (i + 1) pid t in if (t i).pid == pid then some i else rest

pub kill_proc : Proc → Proc
kill_proc p = record p {
  killed = true;
  state = if is_state p.state sleeping then runnable else p.state;
}

-- `kill`: true is 0, false is -1.
pub kill : ℕ → Table → Bool × Table
kill pid t = elim (find_pid nproc 0 pid t.proc) [
  | none ↦ (false, t)
  | some i ↦ (true, record t { proc = update t.proc i (kill_proc (t.proc i)) })
]

-- The scheduler starts the process `i` that it finds runnable.
pub dispatch : ℕ → Table → Option Table
dispatch i t =
    if is_state (t.proc i).state runnable
    then some (record t { proc = update t.proc i (record (t.proc i) { state = running }) })
    else none
