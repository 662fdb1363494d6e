-- ===== src/Locks/Exclusion.antt =====
-- Any number of CPUs at one spinlock, interleaved at every access to it.
use cs461_hw.Base.{
  ℕ, ◌≡◌, ◌≢◌, ◌↔◌, ◌∙◌, refl, sym, ap, Bool, true, false, ◌&&◌, Option, none, some, update,
  update_self, update_ne, arith, ℕ_discrete,
}
use cs461_hw.Locks.{
  Spinlock, initlock, Cpu, holding, is_cpu, xchg, acquire_enter, acquire_own, release_enter,
  release_store, popcli,
}

-- Where a CPU stands: outside, in the loop of `acquire`, past it, past all of `acquire`, and in
-- `release` before its store.
pub data Phase : Type 0 where
  outside : Phase
  spinning : Phase
  won : Phase
  inside : Phase
  leaving : Phase

abbrev pub is_critical : Phase → Bool
is_critical outside = false
is_critical spinning = false
is_critical _ = true

pub record System : Type 0 where
  pub lock : Spinlock
  pub phase : ℕ → Phase
  pub cpus : ℕ → Cpu

abbrev pub move : System → ℕ → Phase → Spinlock → System
move s i p lk = record s { lock = lk; phase = update s.phase i p }

-- One access of CPU `i` to the lock.
pub data Step : System → System → Type 0 where
  enter :
      {s : System} (i : ℕ) (c : Cpu)
      → s.phase i ≡ outside
      → acquire_enter i s.lock (s.cpus i) ≡ some c
      → Step s (record (move s i spinning s.lock) { cpus = update s.cpus i c })
  spin :
      {s : System} (i : ℕ)
      → s.phase i ≡ spinning
      → (xchg s.lock).0 ≡ true
      → Step s (move s i spinning (xchg s.lock).1)
  win :
      {s : System} (i : ℕ)
      → s.phase i ≡ spinning
      → (xchg s.lock).0 ≡ false
      → Step s (move s i won (xchg s.lock).1)
  own : {s : System} (i : ℕ) → s.phase i ≡ won → Step s (move s i inside (acquire_own i s.lock))
  leave :
      {s : System} (i : ℕ) (lk : Spinlock)
      → s.phase i ≡ inside
      → release_enter i s.lock ≡ some lk
      → Step s (move s i leaving lk)
  store :
      {s : System} (i : ℕ) (c : Cpu)
      → s.phase i ≡ leaving
      → popcli (s.cpus i) ≡ some c
      → Step s (record (move s i outside (release_store s.lock)) { cpus = update s.cpus i c })

-- All CPUs outside an initialised lock, with interrupts counted from 0.
pub record IsStart (s : System) : Type 0 where
  pub unlocked : s.lock ≡ initlock
  pub all_outside : (i : ℕ) → s.phase i ≡ outside
  pub none_off : (i : ℕ) → (s.cpus i).ncli ≡ 0

pub data Reach (s : System) : System → Type 0 where
  here : Reach s s
  next : {a b : System} → Reach s a → Step a b → Reach s b

abbrev pub owner_in : ℕ → Phase → Option ℕ
owner_in h inside = some h
owner_in h _ = none

-- Either the lock is free and no CPU is past the loop, or one is, and the lock is taken and names it as
-- its owner while it is inside.
pub data Excludes (lk : Spinlock) (phase : ℕ → Phase) : Type 0 where
  free :
      lk.locked ≡ false
      → lk.cpu ≡ none
      → ((i : ℕ) → is_critical (phase i) ≡ false)
      → Excludes lk phase
  held :
      (h : ℕ)
      → lk.locked ≡ true
      → lk.cpu ≡ owner_in h (phase h)
      → is_critical (phase h) ≡ true
      → ((j : ℕ) → h ≢ j → is_critical (phase j) ≡ false)
      → Excludes lk phase

-- CPU `i` goes from one place that is not critical to another.
quiet-Excludes :
    (lk : Spinlock) (phase : ℕ → Phase) (i : ℕ) (p : Phase)
    → is_critical (phase i) ≡ false
    → is_critical p ≡ false
    → Excludes lk phase
    → Excludes lk (update phase i p)
quiet-Excludes lk phase i p a b (free l c n) = free l c (λ j. quiet j)
  where
    quiet : (j : ℕ) → is_critical (update phase i p j) ≡ false
    quiet j = elim (ℕ_discrete i j) [
      | yes e ↦ rw (← e, update_self phase i p) b
      | no ne ↦ rw (update_ne phase i j p ne) (n j)
    ]
quiet-Excludes lk phase i p a b (held h l c x n) =
    held h l (rw same c) (rw same x) (λ j ne. quiet j ne)
  where
    apart : i ≢ h
    apart e = cc (sym (ap (λ k. is_critical (phase k)) e) ∙ a)

    same : update phase i p h ≡ phase h
    same = update_ne phase i h p apart

    quiet : (j : ℕ) → h ≢ j → is_critical (update phase i p j) ≡ false
    quiet j hj = elim (ℕ_discrete i j) [
      | yes e ↦ rw (← e, update_self phase i p) b
      | no ne ↦ rw (update_ne phase i j p ne) (n j hj)
    ]

-- CPU `i` is the only critical one after a step.
alone-Excludes :
    (lk : Spinlock) (phase : ℕ → Phase) (i : ℕ) (p : Phase)
    → lk.locked ≡ true
    → lk.cpu ≡ owner_in i p
    → is_critical p ≡ true
    → ((j : ℕ) → i ≢ j → is_critical (phase j) ≡ false)
    → Excludes lk (update phase i p)
alone-Excludes lk phase i p l c x n =
    held i l (rw (update_self phase i p) c) (rw (update_self phase i p) x)
      (λ j ne. rw (update_ne phase i j p ne) (n j ne))

-- The critical CPU is the holder.
holder_unique :
    {lk : Spinlock} {phase : ℕ → Phase} (i : ℕ)
    → is_critical (phase i) ≡ true
    → Excludes lk phase
    → (lk.locked ≡ true)
      × (lk.cpu ≡ owner_in i (phase i))
      × ((j : ℕ) → i ≢ j → is_critical (phase j) ≡ false)
holder_unique i a (free l c n) = absurd (cc (sym a ∙ n i))
holder_unique {phase} i a (held h l c x n) = elim (ℕ_discrete h i) [
  | yes e ↦ rw (← e) (l, c, n)
  | no ne ↦ absurd (cc (sym a ∙ n i ne))
]

relock : (lk : Spinlock) → lk.locked ≡ true → (xchg lk).1 ≡ lk
unfolding xchg
relock lk l = ap (λ b. (let r : Spinlock = record { locked = b; cpu = lk.cpu } in r)) (sym l)

disowned :
    (i : ℕ) (lk lk' : Spinlock)
    → release_enter i lk ≡ some lk'
    → (lk'.locked ≡ lk.locked) × (lk'.cpu ≡ none)
unfolding release_enter
disowned i lk lk' e = (ground arith, ground arith)

-- Each step keeps the exclusion.
Step-Excludes : {s t : System} → Step s t → Excludes s.lock s.phase → Excludes t.lock t.phase
unfolding xchg acquire_own release_store
Step-Excludes (enter {s} i c o e) inv =
    quiet-Excludes s.lock s.phase i spinning (ap is_critical o) refl inv
Step-Excludes (spin {s} i o l) inv =
    rw (relock s.lock l) (quiet-Excludes s.lock s.phase i spinning (ap is_critical o) refl inv)
Step-Excludes (win {s} i o l) (free _ c n) =
    alone-Excludes (xchg s.lock).1 s.phase i won refl c refl (λ j ne. n j)
Step-Excludes (win {s} i o l) (held h l' c x n) = absurd (cc (sym l ∙ l'))
Step-Excludes (own {s} i o) inv =
    let (l, c, n) = holder_unique i (ap is_critical o) inv in
    alone-Excludes (acquire_own i s.lock) s.phase i inside l refl refl n
Step-Excludes (leave {s} i lk o e) inv =
    let (l, c, n) = holder_unique i (ap is_critical o) inv in
    let (l', c') = disowned i s.lock lk e in alone-Excludes lk s.phase i leaving (l' ∙ l) c' refl n
Step-Excludes (store {s} i c o e) inv =
    let (l, w, n) = holder_unique i (ap is_critical o) inv in
    free refl (w ∙ ap (owner_in i) o) (none_left n)
  where
    none_left :
        ((j : ℕ) → i ≢ j → is_critical (s.phase j) ≡ false)
        → (j : ℕ) → is_critical (update s.phase i outside j) ≡ false
    none_left n j = elim (ℕ_discrete i j) [
      | yes e ↦ rw (← e, update_self s.phase i outside) refl
      | no ne ↦ rw (update_ne s.phase i j outside ne) (n j ne)
    ]

pub Reach-Excludes : {s t : System} → IsStart s → Reach s t → Excludes t.lock t.phase
unfolding initlock
Reach-Excludes st here =
    free (ap (λ k. k.locked) st.unlocked) (ap (λ k. k.cpu) st.unlocked)
      (λ i. ap is_critical (st.all_outside i))
Reach-Excludes st (next r x) = Step-Excludes x (Reach-Excludes st r)

-- However the CPUs' accesses interleave, no two of them are past the loop of `acquire` at once.
pub mutual_exclusion :
    {s t : System} (i j : ℕ)
    → IsStart s
    → Reach s t
    → is_critical (t.phase i) ≡ true
    → is_critical (t.phase j) ≡ true
    → i ≡ j
mutual_exclusion {t} i j st r a b =
    let (l, c, n) = holder_unique i a (Reach-Excludes st r) in
    elim (ℕ_discrete i j) [ yes e ↦ e | no ne ↦ absurd (cc (sym b ∙ n j ne)) ]

is_cpu-owner_in : (i h : ℕ) (p : Phase) → is_cpu i (owner_in h p) ≡ true → (i ≡ h) × (p ≡ inside)
is_cpu-owner_in i h inside e = (ground arith, refl)
is_cpu-owner_in i h outside e = cc
is_cpu-owner_in i h spinning e = cc
is_cpu-owner_in i h won e = cc
is_cpu-owner_in i h leaving e = cc

-- In every reachable state the test `holding` is true exactly for the CPU that is inside: so
-- `acquire` does not panic for a CPU that is outside, nor `release` for one that is inside.
pub holding_iff :
    {s t : System} (i : ℕ)
    → IsStart s
    → Reach s t
    → (holding i t.lock ≡ true) ↔ (t.phase i ≡ inside)
unfolding holding
holding_iff {t} i st r = (forth (Reach-Excludes st r), back)
  where
    forth :
        Excludes t.lock t.phase → (t.lock.locked && is_cpu i t.lock.cpu) ≡ true → t.phase i ≡ inside
    forth (free l c n) e = absurd (let no : false ≡ true = rw l at e in cc)
    forth (held h l c x n) e =
        let own : is_cpu i (owner_in h (t.phase h)) ≡ true = rw (l, c) at e in
        let (same, p) = is_cpu-owner_in i h (t.phase h) own in rw same p

    back : t.phase i ≡ inside → (t.lock.locked && is_cpu i t.lock.cpu) ≡ true
    back p =
        let (l, c, n) = holder_unique i (ap is_critical p) (Reach-Excludes st r) in
        let own : t.lock.cpu ≡ some i = c ∙ ap (owner_in i) p in rw (l, own) (ground arith)
