-- ===== src/Proc/Loops.antt =====
-- The scans of the process table, slot by slot.
use cs461_hw.Base.{
  ℕ, zero, suc, ◌+◌, ◌<◌, ◌≤◌, ◌≡◌, ◌≢◌, ◌⊎◌, ◌∙◌, refl, sym, ap, Bool, true, false, ◌&&◌, ◌||◌,
  Option, none, some, ◌==◌, ltb, leb, if◌then◌else◌, update, arith, Bool-cases, inl, inr,
  ℕ_discrete,
}
use cs461_hw.Proc.{
  unused, sleeping, zombie, is_state, Proc, Table, wakeup, nproc, is_child, find_unused, rouse,
  wakeup_from, wakeup1, find_pid, scan_children,
}

-- Is the slot `j` one of the `k` slots from `i` on?
abbrev pub covers : ℕ → ℕ → ℕ → Bool
covers k i j = leb i j && ltb j (i + k)

pub find_unused-some :
    (k i : ℕ) (t : ℕ → Proc) (j : ℕ)
    → find_unused k i t ≡ some j
    → (i ≤ j) × (j < i + k) × (is_state (t j).state unused ≡ true)
unfolding find_unused
find_unused-some zero i t j e = cc
find_unused-some (suc k) i t j e = elim (Bool-cases (is_state (t i).state unused)) [
  | inl u ↦ let same : i ≡ j = ground arith in (omega arith, omega arith, rw (← same) u)
  | inr n ↦
      let (lo, hi, u) = find_unused-some k (i + 1) t j (ground arith) in
      (omega arith, omega arith, u)
]

pub find_pid-some :
    (k i pid : ℕ) (t : ℕ → Proc) (j : ℕ)
    → find_pid k i pid t ≡ some j
    → (i ≤ j) × (j < i + k) × ((t j).pid ≡ pid)
unfolding find_pid
find_pid-some zero i pid t j e = cc
find_pid-some (suc k) i pid t j e = elim (Bool-cases ((t i).pid == pid)) [
  | inl u ↦
      let same : i ≡ j = ground arith in (omega arith, omega arith, rw (← same) (ground arith))
  | inr n ↦
      let (lo, hi, u) = find_pid-some k (i + 1) pid t j (ground arith) in
      (omega arith, omega arith, u)
]

pub wakeup_from_lem :
    (k i chan : ℕ) (t : ℕ → Proc) (j : ℕ)
    → wakeup_from k i chan t j ≡ (if covers k i j then rouse chan (t j) else t j)
unfolding wakeup_from
wakeup_from_lem zero i chan t j = ground arith
wakeup_from_lem (suc k) i chan t j = elim (ℕ_discrete i j) [
  | yes e ↦
      let none_left : covers k (i + 1) j ≡ false = ground arith in
      let one : covers (suc k) i j ≡ true = ground arith in
      wakeup_from_lem k (i + 1) chan (update t i (rouse chan (t i))) j
      ∙ rw (none_left, one) (ground (arith, e))
  | no ne ↦
      let same : covers (suc k) i j ≡ covers k (i + 1) j = ground arith in
      let other : update t i (rouse chan (t i)) j ≡ t j = ground arith in
      wakeup_from_lem k (i + 1) chan (update t i (rouse chan (t i))) j ∙ rw (other, same)
]

pub wakeup1_lem :
    (chan : ℕ) (t : ℕ → Proc) (j : ℕ)
    → wakeup1 chan t j ≡ (if ltb j nproc then rouse chan (t j) else t j)
unfolding wakeup1
wakeup1_lem chan t j =
    let same : covers nproc 0 j ≡ ltb j nproc = ground arith in
    wakeup_from_lem nproc 0 chan t j ∙ rw same

-- What the scan of `wait` finds.
abbrev pub Scanned : ℕ → ℕ → ℕ → (ℕ → Proc) → Bool → Option ℕ × Bool → Type 0
Scanned k i cur t before (some j, _) =
    (i ≤ j) × (j < i + k) × (is_child cur (t j) ≡ true) × (is_state (t j).state zombie ≡ true)
Scanned k i cur t before (none, kids) =
    ((j : ℕ)
      → i ≤ j
      → j < i + k
      → is_child cur (t j) ≡ true
      → (kids ≡ true) × (is_state (t j).state zombie ≡ false))
    × (kids ≡ true
        → (before ≡ true) ⊎ ((j : ℕ) × (i ≤ j) × (j < i + k) × (is_child cur (t j) ≡ true)))
    × (before ≡ true → kids ≡ true)

scan_more :
    (k i cur : ℕ) (t : ℕ → Proc) (before : Bool) (r : Option ℕ × Bool)
    → (is_child cur (t i) && is_state (t i).state zombie) ≡ false
    → Scanned k (i + 1) cur t (is_child cur (t i) || before) r
    → Scanned (suc k) i cur t before r
scan_more k i cur t before (some j, kids) h s = (omega (arith, s.0), omega (arith, s.1), s.2, s.3)
scan_more k i cur t before (none, kids) h s = (
  (λ j lo hi c. elim (ℕ_discrete i j) [
    | yes e ↦
        let c' : is_child cur (t i) ≡ true = rw e c in
        let live : is_state (t i).state zombie ≡ false = ground arith in
        (s.2 (ground arith), rw (← e) live)
    | no ne ↦ s.0 j (omega arith) (omega arith) c
  ]),
  (λ e. elim (s.1 e) [
    | inl b ↦ elim (Bool-cases (is_child cur (t i))) [
      | inl c ↦ inr (i, omega arith, omega arith, c)
      | inr n ↦ inl (ground arith)
    ]
    | inr (j, lo, hi, c) ↦ inr (j, omega arith, omega arith, c)
  ]),
  λ b. s.2 (ground arith),
)

pub scan_children-Scanned :
    (k i cur : ℕ) (t : ℕ → Proc) (before : Bool)
    → Scanned k i cur t before (scan_children k i cur t before)
unfolding scan_children
scan_children-Scanned zero i cur t before =
    ((λ j lo hi c. absurd (omega arith)), (λ e. inl e), λ b. b)
scan_children-Scanned (suc k) i cur t before =
    elim (Bool-cases (is_child cur (t i) && is_state (t i).state zombie)) [
      | inl z ↦ rw z (omega arith, omega arith, ground arith, ground arith)
      | inr n ↦ rw n (
          scan_more k i cur t before _ n
            (scan_children-Scanned k (i + 1) cur t (is_child cur (t i) || before)))
    ]

rouse-awake : (chan : ℕ) (p : Proc) → (rouse chan p).chan ≡ chan → (rouse chan p).state ≢ sleeping
unfolding rouse
rouse-awake chan p c = elim (Bool-cases (is_state p.state sleeping)) [
  | inl s ↦ elim (Bool-cases (p.chan == chan)) [
    | inl e ↦ rw (s, e) (λ h. cc)
    | inr ne ↦ absurd (let same : p.chan ≡ chan = rw (s, ne) at c in ground arith)
  ]
  | inr ns ↦ rw ns (λ h. cc (sym ns ∙ ap (λ q. is_state q sleeping) h))
]

-- After a wakeup no slot of the table sleeps on the channel.
pub wakeup-awake :
    (chan : ℕ) (t : Table) (j : ℕ)
    → j < nproc
    → ((wakeup chan t).proc j).chan ≡ chan
    → ((wakeup chan t).proc j).state ≢ sleeping
unfolding wakeup
wakeup-awake chan t j b =
    let in_table : ltb j nproc ≡ true = ground arith in
    let roused : wakeup1 chan t.proc j ≡ rouse chan (t.proc j) =
      wakeup1_lem chan t.proc j ∙ rw in_table refl in
    rw roused (rouse-awake chan (t.proc j))
