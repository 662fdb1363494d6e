-- ===== src/Log/Crash.antt =====
-- A crash at any write of a commit, and any number of crashes during the recoveries that follow.
use cs461_hw.Base.{
  ℕ, zero, suc, ◌+◌, ◌<◌, ◌≡◌, refl, ◌≢◌, ◌⊎◌, inl, ℕ_discrete, arith, List, true, ltb, lt→ltb, ◌∙◌,
  ap,
}
use cs461_hw.Log.{
  Machine, bwrite, write_log, install_from, install_trans, write_head, initlog, commit,
  write_log_from,
}
use cs461_hw.Log.Disk.{Home, Clear}
use cs461_hw.Log.Commit.{Copying, Installing, copy_loop, install_loop}
use cs461_hw.Log.Recovery.{
  Outcome, recoveries, commit_point, erase, recovered, recoveries-Outcome, install_from-power,
  write_log_from-power, write_log_from-n, write_head-n, write_head-power,
}

-- A transaction that may be committed: it fits in the log, its blocks are home blocks, all other
-- home blocks are as on disk, and the log on disk is empty.
pub record IsReady (m : Machine) : Type 0 where
  pub fits : m.n < m.size
  pub homes : (i : ℕ) → i < m.n → Home m.start m.size (m.block i)
  pub agree :
      (b : ℕ) → Home m.start m.size b → ((i : ℕ) → i < m.n → m.block i ≢ b) → m.disk b ≡ m.mem b
  pub empty : m.disk m.start 0 ≡ 0

commit-empty : (m : Machine) → m.n ≡ 0 → commit m ≡ m
unfolding commit
commit-empty m e = ground arith

commit-steps :
    (m : Machine)
    → 0 < m.n
    → commit m
      ≡ write_head (record (install_from m.n 0 (write_head (write_log_from m.n 0 m))) { n = 0 })
unfolding commit write_log install_trans
commit-steps m pos = rw on_count (ap (λ k. after k) same)
  where
    on_count : ltb 0 m.n ≡ true
    on_count = ground arith

    after : ℕ → Machine
    after k = write_head (record (install_from k 0 (write_head (write_log_from m.n 0 m))) { n = 0 })

    same : (write_head (write_log_from m.n 0 m)).n ≡ m.n
    same = write_head-n (write_log_from m.n 0 m) ∙ write_log_from-n m.n 0 m

module _ (m : Machine) (r : IsReady m) where
  ready-Copying : Copying m.start m.size m.n m.block m.disk m.mem r.fits r.homes r.agree 0 m
  ready-Copying = record {
    frame = record { start_eq = refl; block_eq = λ i h. refl };
    clear = record { empty = r.empty; homes = λ b h. refl };
    view = λ b h. refl;
    copied = λ i h. absurd (omega arith);
    flushed = λ p i h. absurd (omega arith);
  }

  installed :
      Installing m.start m.size m.n m.block m.disk m.mem r.fits r.homes r.agree m.n
        (install_from m.n 0 (write_head (write_log_from m.n 0 m)))
  installed =
      install_loop m.start m.size m.n m.block m.disk m.mem r.fits r.homes r.agree m.n 0 _
        (omega arith)
        (commit_point m.start m.size m.n m.block m.disk m.mem r.fits r.homes r.agree
          (write_log_from m.n 0 m) (write_log_from-n m.n 0 m)
          (copy_loop m.start m.size m.n m.block m.disk m.mem r.fits r.homes r.agree m.n 0 m
            (omega arith) ready-Copying))

  installed-power :
      m.n + m.n + 1 < m.power → 0 < (install_from m.n 0 (write_head (write_log_from m.n 0 m))).power
  installed-power h = omega (
    arith,
    install_from-power m.n 0 (write_head (write_log_from m.n 0 m)),
    write_head-power (write_log_from m.n 0 m),
    write_log_from-power m.n 0 m,
  )

  commit-Outcome :
      Outcome m.start m.size m.n m.block m.disk m.mem r.fits r.homes r.agree (commit m).disk
  unfolding Outcome
  commit-Outcome = elim (ℕ_discrete m.n 0) [
    | yes e ↦ rw (commit-empty m e) (inl (record { empty = r.empty; homes = λ b h. refl }))
    | no ne ↦
        rw (commit-steps m (omega arith))
          (erase m.start m.size m.n m.block m.disk m.mem r.fits r.homes r.agree _ installed).0
  ]

  -- A commit that no crash interrupts (it makes `2 n + 2` writes) leaves every home block on disk
  -- as memory shows it, the log on disk empty, and no block in the transaction.
  pub commit_durable :
      m.n + m.n + 1 < m.power → Clear m.start m.size m.mem (commit m).disk × ((commit m).n ≡ 0)
  commit_durable h = elim (ℕ_discrete m.n 0) [
    | yes e ↦
        rw (commit-empty m e) (
          record { empty = r.empty; homes = λ b hb. r.agree b hb (λ i lt. absurd (omega arith)) },
          e,
        )
    | no ne ↦ rw (commit-steps m (omega arith)) (
      (erase m.start m.size m.n m.block m.disk m.mem r.fits r.homes r.agree _ installed).1
          (installed-power h),
      write_head-n _,
    )
  ]

  -- Atomicity of a commit: cut off after any number of writes (the `power` of `m`), followed by any
  -- number of recoveries that are cut off too, and by one recovery that has the power for the
  -- writes that it makes, it leaves the log empty, and the home blocks on disk are all as they were
  -- before the commit, or all as memory showed them.
  pub commit_atomic :
      (powers : List ℕ) (last : ℕ)
      → m.n < last
      → let d =
          (initlog m.start m.size last (recoveries m.start m.size powers (commit m).disk)).disk in
        Clear m.start m.size m.disk d ⊎ Clear m.start m.size m.mem d
  commit_atomic powers last h =
      recovered m.start m.size m.n m.block m.disk m.mem r.fits r.homes r.agree last _ h (
        recoveries-Outcome m.start m.size m.n m.block m.disk m.mem r.fits r.homes r.agree powers _
          commit-Outcome)

-- After a commit the transaction is empty.
pub commit-n : (m : Machine) → (commit m).n ≡ 0
unfolding commit
commit-n m = elim (ℕ_discrete m.n 0) [
  | yes e ↦ ground arith
  | no ne ↦ rw (lt→ltb 0 m.n (omega arith)) (write_head-n _)
]

-- What a commit leaves alone.
pub record SameOps (m m' : Machine) : Type 0 where
  pub outstanding_eq : m'.outstanding ≡ m.outstanding
  pub start_eq : m'.start ≡ m.start
  pub size_eq : m'.size ≡ m.size

write_log_from-SameOps : (k tail : ℕ) (m : Machine) → SameOps m (write_log_from k tail m)
unfolding write_log_from bwrite
write_log_from-SameOps zero tail m = omega arith
write_log_from-SameOps (suc k) tail m =
    let h =
      write_log_from-SameOps k (tail + 1) (bwrite (m.start + tail + 1) (m.mem (m.block tail)) m) in
    omega (arith, h)

install_from-SameOps : (k tail : ℕ) (m : Machine) → SameOps m (install_from k tail m)
unfolding install_from bwrite
install_from-SameOps zero tail m = omega arith
install_from-SameOps (suc k) tail m =
    let h =
      install_from-SameOps k (tail + 1) (bwrite (m.block tail) (m.mem (m.start + tail + 1)) m) in
    omega (arith, h)

pub commit-SameOps : (m : Machine) → SameOps m (commit m)
unfolding commit write_log install_trans write_head bwrite
commit-SameOps m =
    let l = write_log_from m.n 0 m in
    ground (
      arith,
      write_log_from-SameOps m.n 0 m,
      install_from-SameOps (write_head l).n 0 (write_head l),
    )
