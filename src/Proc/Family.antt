-- ===== src/Proc/Family.antt =====
-- Parents and children: `exit` leaves no orphans, and `wait` reaps zombie children only.
use cs461_hw.Base.{
  ℕ, zero, suc, ◌+◌, ◌<◌, ◌≡◌, ◌≢◌, ◌∙◌, refl, ap, Bool, true, false, not, ◌&&◌, ◌||◌, Option, none,
  some, ◌==◌, if◌then◌else◌, update, arith, Bool-cases, inl, inr, replicate,
}
use cs461_hw.Proc.{
  sleeping, zombie, is_state, Proc, Table, nproc, nofile, is_child, proc_chan, rouse, wakeup1,
  abandon_from, wake_parent, exit_table, exit, Waited, reaped, no_child, asleep, freed, wait_with,
  wait,
}
use cs461_hw.Proc.Loops.{covers, wakeup1_lem, Scanned, scan_children-Scanned}

wakeup1-parent : (chan : ℕ) (t : ℕ → Proc) (j : ℕ) → (wakeup1 chan t j).parent ≡ (t j).parent
unfolding rouse
wakeup1-parent chan t j = ground (arith, wakeup1_lem chan t j)

wake_parent-parent :
    (p : Option ℕ) (t : ℕ → Proc) (j : ℕ) → (wake_parent p t j).parent ≡ (t j).parent
unfolding wake_parent
wake_parent-parent none t j = wakeup1-parent 0 t j
wake_parent-parent (some i) t j = wakeup1-parent (proc_chan i) t j

-- The parent after a round, or after all rounds, of the loop in `exit`.
abbrev adopted_parent : Bool → ℕ → ℕ → Option ℕ → Option ℕ
adopted_parent here cur init none = none
adopted_parent here cur init (some p) = if here && p == cur then some init else some p

round-parent :
    (i cur init : ℕ) (t : ℕ → Proc) (j : ℕ)
    → let adopted = update t i (record (t i) { parent = some init }) in
      ((if is_child cur (t i)
          then if is_state (t i).state zombie then wakeup1 (proc_chan init) adopted else adopted
          else t)
        j).parent
      ≡ adopted_parent (i == j) cur init (t j).parent
round-parent i cur init t j =
    ground
      (arith, wakeup1-parent (proc_chan init) (update t i (record (t i) { parent = some init })) j)

abandon_from-parent :
    (k i cur init : ℕ) (t : ℕ → Proc) (j : ℕ)
    → cur ≢ init
    → (abandon_from k i cur init t j).parent ≡ adopted_parent (covers k i j) cur init (t j).parent
unfolding abandon_from
abandon_from-parent zero i cur init t j ne = ground arith
abandon_from-parent (suc k) i cur init t j ne =
    abandon_from-parent k (i + 1) cur init _ j ne
    ∙ ap (adopted_parent (covers k (i + 1) j) cur init) (round-parent i cur init t j)
    ∙ ground arith

exit_table-parent :
    (cur : ℕ) (t : Table) (j : ℕ)
    → cur ≢ t.initproc
    → j < nproc
    → ((exit_table cur t).proc j).parent ≡ adopted_parent true cur t.initproc (t.proc j).parent
unfolding exit_table
exit_table-parent cur t j ne lt =
    last
    ∙ abandon_from-parent nproc 0 cur t.initproc woken j ne
    ∙ rw (here, wake_parent-parent (t.proc cur).parent closed j)
        (ap (adopted_parent true cur t.initproc) first)
  where
    closed : ℕ → Proc
    closed = update t.proc cur (record (t.proc cur) { ofile = replicate nofile none; cwd = 0 })

    woken : ℕ → Proc
    woken = wake_parent (t.proc cur).parent closed

    orphans : ℕ → Proc
    orphans = abandon_from nproc 0 cur t.initproc woken

    here : covers nproc 0 j ≡ true
    here = ground arith

    first : (closed j).parent ≡ (t.proc j).parent
    first = ground arith

    last :
        (update orphans cur (record (orphans cur) { state = zombie }) j).parent ≡ (orphans j).parent
    last = ground arith

-- After `exit` no process of the table is a child of the one that exited: its children are init's, and
-- every other process has the parent that it had.
pub exit-parent :
    (cur : ℕ) (t : Table) {t' : Table} (j : ℕ)
    → exit cur t ≡ some t'
    → j < nproc
    → (is_child cur (t.proc j) ≡ true → (t'.proc j).parent ≡ some t.initproc)
      × (is_child cur (t.proc j) ≡ false → (t'.proc j).parent ≡ (t.proc j).parent)
      × (is_child cur (t'.proc j) ≡ false)
unfolding exit
exit-parent cur t {t'} j e lt =
    let ne : cur ≢ t.initproc = ground arith in
    let same : exit_table cur t ≡ t' = ground arith in
    let par : (t'.proc j).parent ≡ adopted_parent true cur t.initproc (t.proc j).parent =
      rw (← same) (exit_table-parent cur t j ne lt) in
    (λ c. ground (arith, par), λ c. ground (arith, par), ground (arith, par, ne))

-- What `wait` does on each branch.
abbrev pub WaitResult : ℕ → Table → Waited × Table → Type 0
WaitResult cur t (reaped pid, t') =
    (i : ℕ) × (i < nproc)
    × (is_child cur (t.proc i) ≡ true)
    × (is_state (t.proc i).state zombie ≡ true)
    × ((t.proc i).pid ≡ pid)
    × (t'.proc ≡ update t.proc i (freed (t.proc i)))
WaitResult cur t (no_child, t') =
    (t' ≡ t)
    × ((j : ℕ)
        → j < nproc
        → is_child cur (t.proc j) ≡ true
        → ((t.proc cur).killed ≡ true) × (is_state (t.proc j).state zombie ≡ false))
WaitResult cur t (asleep, t') =
    ((t'.proc cur).state ≡ sleeping)
    × ((t'.proc cur).chan ≡ proc_chan cur)
    × ((j : ℕ) × (j < nproc) × (is_child cur (t.proc j) ≡ true))
    × ((j : ℕ)
        → j < nproc
        → is_child cur (t.proc j) ≡ true
        → is_state (t.proc j).state zombie ≡ false)

wait_with-Result :
    (cur : ℕ) (t : Table) (r : Option ℕ × Bool)
    → Scanned nproc 0 cur t.proc false r
    → WaitResult cur t (wait_with cur t r)
unfolding wait_with
wait_with-Result cur t (some i, kids) s = (i, omega (arith, s.1), s.2, s.3, refl, refl)
wait_with-Result cur t (none, kids) s = elim (Bool-cases (not kids || (t.proc cur).killed)) [
  | inl e ↦
      rw e (refl, λ j lt c. let (k, z) = s.0 j (omega arith) (omega arith) c in (ground arith, z))
  | inr n ↦
      rw n (ground arith, ground arith, child n, λ j lt c. (s.0 j (omega arith) (omega arith) c).1)
]
  where
    child :
        (not kids || (t.proc cur).killed) ≡ false
        → (j : ℕ) × (j < nproc) × (is_child cur (t.proc j) ≡ true)
    child n = elim (s.1 (ground arith)) [ inl b ↦ cc | inr (j, lo, hi, c) ↦ (j, omega arith, c) ]

-- `wait` answers a pid only of a zombie child, whose slot it frees and no other; -1 only if no child of
-- the process is a zombie, and, where it has a child, only if it is killed; and it sleeps on its own
-- address only if it has a child and no child is a zombie.
pub wait-Result : (cur : ℕ) (t : Table) → WaitResult cur t (wait cur t)
unfolding wait
wait-Result cur t = wait_with-Result cur t _ (scan_children-Scanned nproc 0 cur t.proc false)
