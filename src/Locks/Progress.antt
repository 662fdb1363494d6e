-- ===== src/Locks/Progress.antt =====
-- Progress at one spinlock: a CPU in the loop of `acquire` is never locked out for good.
use cs461_hw.Base.{
  ℕ, ◌-◌, ◌≡◌, ◌≢◌, ◌<◌, ◌∙◌, refl, sym, ap, subst, true, false, ◌&&◌, none, some, ◌==◌, update,
  update_self, update_ne, arith, ℕ_discrete,
}
use cs461_hw.Locks.{
  Spinlock, Cpu, holding, xchg, acquire_enter, acquire_own, release_enter, release_store, pushcli,
  popcli,
}
use cs461_hw.Locks.Exclusion.{
  Phase, outside, spinning, won, inside, leaving, is_critical, System, move, Step, enter, spin, win,
  own, leave, store, IsStart, Reach, here, next, Excludes, free, held, owner_in, Reach-Excludes,
}

-- The interrupts of the CPU are off, and counted.
abbrev IsOff : Cpu → Type 0
IsOff c = (c.interrupts ≡ false) × (0 < c.ncli)

-- So it is with each CPU that is not outside.
abbrev AllOff : (ℕ → Phase) → (ℕ → Cpu) → Type 0
AllOff phase cpus = (j : ℕ) → phase j ≢ outside → IsOff (cpus j)

-- CPU `i`, which is not outside, goes on.
on-AllOff :
    (phase : ℕ → Phase) (cpus : ℕ → Cpu) (i : ℕ) (p q : Phase)
    → phase i ≡ q
    → q ≢ outside
    → AllOff phase cpus
    → AllOff (update phase i p) cpus
on-AllOff phase cpus i p q e ne a j n = elim (ℕ_discrete i j) [
  | yes s ↦ subst (λ k. IsOff (cpus k)) s (a i (λ z. ne (sym e ∙ z)))
  | no d ↦ a j (λ z. n (update_ne phase i j p d ∙ z))
]

-- CPU `i` gets the state `c`, which is off unless it is outside.
set-AllOff :
    (phase : ℕ → Phase) (cpus : ℕ → Cpu) (i : ℕ) (p : Phase) (c : Cpu)
    → (p ≢ outside → IsOff c)
    → AllOff phase cpus
    → AllOff (update phase i p) (update cpus i c)
set-AllOff phase cpus i p c o a j n = elim (ℕ_discrete i j) [
  | yes s ↦
      subst IsOff (sym (update_self cpus i c) ∙ ap (update cpus i c) s)
        (o (λ z. n (ap (update phase i p) (sym s) ∙ update_self phase i p ∙ z)))
  | no d ↦ subst IsOff (sym (update_ne cpus i j c d)) (a j (λ z. n (update_ne phase i j p d ∙ z)))
]

enter-IsOff : (i : ℕ) (lk : Spinlock) (c d : Cpu) → acquire_enter i lk c ≡ some d → IsOff d
unfolding acquire_enter pushcli
enter-IsOff i lk c d e = (ground arith, ground arith)

Step-AllOff : {s t : System} → Step s t → AllOff s.phase s.cpus → AllOff t.phase t.cpus
Step-AllOff (enter {s} i c o e) a =
    set-AllOff s.phase s.cpus i spinning c (λ _. enter-IsOff i s.lock (s.cpus i) c e) a
Step-AllOff (spin {s} i o l) a = on-AllOff s.phase s.cpus i spinning spinning o (λ e. cc) a
Step-AllOff (win {s} i o l) a = on-AllOff s.phase s.cpus i won spinning o (λ e. cc) a
Step-AllOff (own {s} i o) a = on-AllOff s.phase s.cpus i inside won o (λ e. cc) a
Step-AllOff (leave {s} i lk o e) a = on-AllOff s.phase s.cpus i leaving inside o (λ e. cc) a
Step-AllOff (store {s} i c o e) a = set-AllOff s.phase s.cpus i outside c (λ n. absurd (n refl)) a

Reach-AllOff : {s t : System} → IsStart s → Reach s t → AllOff t.phase t.cpus
Reach-AllOff st here = λ j n. absurd (n (st.all_outside j))
Reach-AllOff st (next r x) = Step-AllOff x (Reach-AllOff st r)

Reach-trans : {a b c : System} → Reach a b → Reach b c → Reach a c
Reach-trans r here = r
Reach-trans r (next q x) = next (Reach-trans r q) x

-- CPU `i` gets inside from `t` on.
abbrev GetsIn : ℕ → System → Type 0
GetsIn i t = (u : System) × Reach t u × (u.phase i ≡ inside)

after_step : {a b : System} (i : ℕ) → Step a b → GetsIn i b → GetsIn i a
after_step i x (u, r, e) = (u, Reach-trans (next here x) r, e)

module _ (i : ℕ) where
  take_free : (t : System) → t.phase i ≡ spinning → t.lock.locked ≡ false → GetsIn i t
  unfolding xchg
  take_free t p f =
      let a = move t i won (xchg t.lock).1 in
      let b = move a i inside (acquire_own i a.lock) in
      (
        b,
        next (next here (win i p f)) (own i (update_self t.phase i won)),
        update_self a.phase i inside,
      )

  from_leaving :
      (t : System) (h : ℕ)
      → h ≢ i
      → t.phase i ≡ spinning
      → t.phase h ≡ leaving
      → IsOff (t.cpus h)
      → GetsIn i t
  unfolding release_store popcli
  from_leaving t h n p l (off, pos) =
      let c = record (t.cpus h) {
        ncli = (t.cpus h).ncli - 1;
        interrupts = (t.cpus h).ncli - 1 == 0 && (t.cpus h).intena;
      } in
      let pops : popcli (t.cpus h) ≡ some c =
        let nz : ((t.cpus h).ncli == 0) ≡ false = ground arith in rw (off, nz) refl in
      after_step i (store h c l pops) (
        take_free (record (move t h outside (release_store t.lock)) { cpus = update t.cpus h c })
          (update_ne t.phase h i outside n ∙ p) refl)

  from_inside :
      (t : System) (h : ℕ)
      → h ≢ i
      → t.phase i ≡ spinning
      → t.phase h ≡ inside
      → t.lock.locked ≡ true
      → t.lock.cpu ≡ some h
      → IsOff (t.cpus h)
      → GetsIn i t
  unfolding release_enter holding
  from_inside t h n p l k c o =
      let lk = record t.lock { cpu = none } in
      let e : release_enter h t.lock ≡ some lk =
        let same : (h == h) ≡ true = ground arith in rw (k, c, same) refl in
      after_step i (leave h lk l e) (
        from_leaving (move t h leaving lk) h n (update_ne t.phase h i leaving n ∙ p)
          (update_self t.phase h leaving) o)

  from_won :
      (t : System) (h : ℕ)
      → h ≢ i
      → t.phase i ≡ spinning
      → t.phase h ≡ won
      → t.lock.locked ≡ true
      → IsOff (t.cpus h)
      → GetsIn i t
  unfolding acquire_own
  from_won t h n p l k o = after_step i (own h l) (
      from_inside (move t h inside (acquire_own h t.lock)) h n (update_ne t.phase h i inside n ∙ p)
        (update_self t.phase h inside) k refl o)

-- From every state that the CPUs reach, a CPU in the loop of `acquire` can still get inside: the
-- CPU that has the lock can always go on to its release, and neither of the two panics on the way.
pub acquire_progress :
    {s t : System} (i : ℕ) → IsStart s → Reach s t → t.phase i ≡ spinning → GetsIn i t
acquire_progress {s} {t} i st r p = by_lock (Reach-Excludes st r)
  where
    by_phase :
        (h : ℕ) (q : Phase)
        → t.phase h ≡ q
        → t.lock.locked ≡ true
        → t.lock.cpu ≡ owner_in h q
        → is_critical q ≡ true
        → h ≢ i
        → GetsIn i t
    by_phase h outside e l c x n = absurd cc
    by_phase h spinning e l c x n = absurd cc
    by_phase h won e l c x n = from_won i t h n p e l (Reach-AllOff st r h (λ z. cc (sym e ∙ z)))
    by_phase h inside e l c x n =
        from_inside i t h n p e l c (Reach-AllOff st r h (λ z. cc (sym e ∙ z)))
    by_phase h leaving e l c x n =
        from_leaving i t h n p e (Reach-AllOff st r h (λ z. cc (sym e ∙ z)))

    by_lock : Excludes t.lock t.phase → GetsIn i t
    by_lock (free l c n) = take_free i t p l
    by_lock (held h l c x n) =
        by_phase h (t.phase h) refl l c x
          (λ e. cc (sym (ap (λ k. is_critical (t.phase k)) e) ∙ x, ap is_critical p))
