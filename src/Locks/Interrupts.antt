-- ===== src/Locks/Interrupts.antt =====
-- Interrupts around spinlocks, and the sleeping processes of a sleeplock.
use cs461_hw.Base.{
  ℕ, zero, suc, ◌+◌, ◌≡◌, ◌≢◌, ◌<◌, ◌∙◌, refl, sym, ap, Bool, true, false, Option, none, some, ◌==◌,
  arith,
}
use cs461_hw.Locks.{Cpu, pushcli, popcli, Sleeplock, releasesleep, holdingsleep, acquiresleep}
use cs461_hw.Proc.{Table, sleeping, nproc}
use cs461_hw.Proc.Loops.{wakeup-awake}

-- `k` calls of `pushcli`.
abbrev pub pushes : ℕ → Cpu → Cpu
pushes zero c = c
pushes (suc k) c = pushes k (pushcli c)

-- `k` calls of `popcli`.
abbrev pub pops : ℕ → Cpu → Option Cpu
pops zero c = some c
pops (suc k) c = elim (popcli c) [ none ↦ none | some c' ↦ pops k c' ]

abbrev off : ℕ → Bool → Cpu
off n intena = record { interrupts = false; ncli = n; intena = intena }

pushcli-off : (n : ℕ) (intena : Bool) → pushcli (off (suc n) intena) ≡ off (suc (suc n)) intena
unfolding pushcli
pushcli-off n intena =
    let nz : (suc n == 0) ≡ false = ground arith in rw nz (ap (λ m. off m intena) (omega arith))

pushes-off : (k n : ℕ) (intena : Bool) → pushes k (off (suc n) intena) ≡ off (suc n + k) intena
pushes-off zero n intena = ap (λ m. off m intena) (omega arith)
pushes-off (suc k) n intena =
    ap (pushes k) (pushcli-off n intena)
    ∙ pushes-off k (suc n) intena
    ∙ ap (λ m. off m intena) (omega arith)

popcli-off : (n : ℕ) (intena : Bool) → popcli (off (suc (suc n)) intena) ≡ some (off (suc n) intena)
unfolding popcli
popcli-off n intena = ground arith

pops-off :
    (k : ℕ) (intena : Bool)
    → pops (suc k) (off (suc k) intena)
      ≡ some (record { interrupts = intena; ncli = 0; intena = intena })
unfolding popcli
pops-off zero intena = ground arith
pops-off (suc k) intena = rw (popcli-off k intena, pops) (pops-off k intena)

-- From outside all critical sections, any number of calls of `pushcli` followed by as many of
-- `popcli` panics nowhere and leaves the interrupt flag as it was, on or off.
pub popcli-pushcli :
    (k : ℕ) (c : Cpu)
    → c.ncli ≡ 0
    → pops (suc k) (pushes (suc k) c) ≡ some (record c { intena = c.interrupts })
unfolding pushcli
popcli-pushcli k c z = ap (pops (suc k)) (first ∙ pushes-off k 0 c.interrupts) ∙ last
  where
    first : pushes (suc k) c ≡ pushes k (off 1 c.interrupts)
    first = rw z refl

    one_more : 1 + k ≡ suc k
    one_more = omega arith

    last : pops (suc k) (off (1 + k) c.interrupts) ≡ some (record c { intena = c.interrupts })
    last =
        ap (λ m. pops (suc k) (off m c.interrupts)) one_more
        ∙ pops-off k c.interrupts
        ∙ ap (λ n. some (record { interrupts = c.interrupts; ncli = n; intena = c.interrupts }))
            (sym z)

-- `releasesleep` frees the lock and leaves no process of the table asleep on it, and the lock can be
-- acquired at once.
pub releasesleep_lem :
    (chan pid : ℕ) (lk : Sleeplock) (t : Table)
    → let (lk', t') = releasesleep chan lk t in
      (holdingsleep lk' ≡ false)
      × (acquiresleep pid lk' ≡ some (record { locked = true; pid = pid }))
      × ((j : ℕ) → j < nproc → (t'.proc j).chan ≡ chan → (t'.proc j).state ≢ sleeping)
unfolding releasesleep holdingsleep acquiresleep
releasesleep_lem chan pid lk t = (refl, refl, wakeup-awake chan t)
