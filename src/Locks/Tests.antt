-- ===== src/Locks/Tests.antt =====
-- Two CPUs at one lock.
use cs461_hw.Base.{ℕ, ◌≡◌, ◌↔◌, refl, true, false, some, update}
use cs461_hw.Locks.{initlock, Cpu, pushcli, holding, xchg, acquire_enter, acquire_own}
use cs461_hw.Locks.Exclusion.{
  System, Phase, outside, inside, enter, spin, win, own, IsStart, Reach, here, next,
  mutual_exclusion, holding_iff,
}
use cs461_hw.Locks.Progress.{acquire_progress}

abbrev idle : Cpu
idle = record { interrupts = true; ncli = 0; intena = false }

abbrev start : System
start = record { lock = initlock; phase = λ _. outside; cpus = λ _. idle }

start-IsStart : IsStart start
start-IsStart = record { unlocked = refl; all_outside = λ i. refl; none_off = λ i. refl }

-- CPU 0 takes the lock while CPU 1 spins.
abbrev last : System
last = record {
  lock = record { locked = true; cpu = some 0 };
  phase =
      update
        (update
          (update (update (update (λ _. outside) 0 Phase.spinning) 1 Phase.spinning) 0 Phase.won) 1
          Phase.spinning)
        0 inside;
  cpus = update (update (λ _. idle) 0 (pushcli idle)) 1 (pushcli idle);
}

last-Reach : Reach start last
unfolding initlock acquire_enter holding xchg acquire_own
last-Reach =
    next
      (next
        (next
          (next (next here (enter 0 (pushcli idle) refl refl)) (enter 1 (pushcli idle) refl refl))
          (win 0 refl refl))
        (spin 1 refl refl))
      (own 0 refl)

mutual_exclusion_example : ◌≡◌ {A = ℕ} 0 0
mutual_exclusion_example = mutual_exclusion 0 0 start-IsStart last-Reach refl refl

holding_iff_example : (holding 0 last.lock ≡ true) ↔ (last.phase 0 ≡ inside)
holding_iff_example = holding_iff 0 start-IsStart last-Reach

acquire_progress_example : (u : System) × Reach last u × (u.phase 1 ≡ inside)
acquire_progress_example = acquire_progress 1 start-IsStart last-Reach refl
