-- ===== src/Locks.antt =====
-- spinlock.c and sleeplock.c: the two kinds of lock. A CPU is its number. `xchg` and the stores to the
-- lock are the points at which other CPUs are seen to act, so `acquire` and `release` are cut there.
use cs461_hw.Base.{
  ℕ, zero, suc, ◌+◌, ◌-◌, ◌≡◌, Bool, true, false, not, ◌&&◌, Option, none, some, ◌==◌,
  if◌then◌else◌, update,
}
use cs461_hw.Proc.{Table, wakeup}
pub mod Exclusion
pub mod Progress
pub mod Interrupts
mod Tests

-- `struct spinlock`, without its name and call stack; the owner is NULL or a CPU.
pub record Spinlock : Type 0 where
  pub locked : Bool
  pub cpu : Option ℕ

-- `initlock`
pub initlock : Spinlock
initlock = record { locked = false; cpu = none }

-- The interrupt flag of a CPU, and the fields `ncli` and `intena` of its `struct cpu`.
pub record Cpu : Type 0 where
  pub interrupts : Bool
  pub ncli : ℕ
  pub intena : Bool

pub pushcli : Cpu → Cpu
pushcli c = record {
  interrupts = false;
  ncli = c.ncli + 1;
  intena = if c.ncli == 0 then c.interrupts else c.intena;
}

-- `none` is one of the two panics.
pub popcli : Cpu → Option Cpu
popcli c =
    if c.interrupts
    then none
    else if c.ncli == 0
    then none
    else some (record c { ncli = c.ncli - 1; interrupts = c.ncli - 1 == 0 && c.intena })

abbrev pub is_cpu : ℕ → Option ℕ → Bool
is_cpu i none = false
is_cpu i (some j) = i == j

pub holding : ℕ → Spinlock → Bool
holding i lk = lk.locked && is_cpu i lk.cpu

-- `xchg(&lk->locked, 1)`: the old value, and the lock after it.
pub xchg : Spinlock → Bool × Spinlock
xchg lk = (lk.locked, record lk { locked = true })

-- `acquire` up to its loop: `none` is the panic.
pub acquire_enter : ℕ → Spinlock → Cpu → Option Cpu
acquire_enter i lk c = if holding i lk then none else some (pushcli c)

-- The end of `acquire`.
pub acquire_own : ℕ → Spinlock → Spinlock
acquire_own i lk = record lk { cpu = some i }

-- `release` up to its barrier: `none` is the panic.
pub release_enter : ℕ → Spinlock → Option Spinlock
release_enter i lk = if holding i lk then some (record lk { cpu = none }) else none

-- `movl $0, locked`
pub release_store : Spinlock → Spinlock
release_store lk = record lk { locked = false }

-- `struct sleeplock`, without its spinlock and name.
pub record Sleeplock : Type 0 where
  pub locked : Bool
  pub pid : ℕ

-- `initsleeplock`
pub initsleeplock : Sleeplock
initsleeplock = record { locked = false; pid = 0 }

-- One round of the loop of `acquiresleep`: `none` is `sleep`.
pub acquiresleep : ℕ → Sleeplock → Option Sleeplock
acquiresleep pid lk = if lk.locked then none else some (record { locked = true; pid = pid })

-- `releasesleep` of the lock at address `chan`.
pub releasesleep : ℕ → Sleeplock → Table → Sleeplock × Table
releasesleep chan lk t = (record { locked = false; pid = 0 }, wakeup chan t)

pub holdingsleep : Sleeplock → Bool
holdingsleep lk = lk.locked
