-- ===== src/Log/Commit.antt =====
-- The stages of `commit` and of a recovery, for any power: what memory holds, and to which disk
-- states the writes have led so far.
use cs461_hw.Base.{
  ℕ, zero, suc, ◌+◌, ◌-◌, ◌<◌, ◌≡◌, refl, ◌≢◌, ◌⊎◌, inl, inr, ◌==◌, if◌then◌else◌, update,
  ℕ_discrete, arith, false,
}
use cs461_hw.Log.{Block, Machine, bwrite, write_log_from, install_from}
use cs461_hw.Log.Disk.{Home, Clear, Committed}

module _ (s size n : ℕ) (block : ℕ → ℕ) (old v : ℕ → Block) (fits : n < size)
    (homes : (i : ℕ) → i < n → Home s size (block i))
    (agree : (b : ℕ) → Home s size b → ((i : ℕ) → i < n → block i ≢ b) → old b ≡ v b) where
  -- The log's place and the list of blocks.
  pub record Frame (m : Machine) : Type 0 where
    pub start_eq : m.start ≡ s
    pub block_eq : (i : ℕ) → i < n → m.block i ≡ block i

  -- `write_log` has copied `tail` blocks.
  pub record Copying (tail : ℕ) (m : Machine) : Type 0 where
    pub frame : Frame m
    pub clear : Clear s size old m.disk
    pub view : (b : ℕ) → Home s size b → m.mem b ≡ v b
    pub copied : (i : ℕ) → i < tail → m.mem (s + i + 1) ≡ v (block i)
    pub flushed : 0 < m.power → (i : ℕ) → i < tail → m.disk (s + i + 1) ≡ v (block i)

  copy_step :
      (tail : ℕ) (m : Machine)
      → tail < n
      → Copying tail m
      → Copying (tail + 1) (bwrite (m.start + tail + 1) (m.mem (m.block tail)) m)
  unfolding bwrite
  copy_step tail m lt c = record {
    frame = record { start_eq = c.frame.start_eq; block_eq = c.frame.block_eq };
    clear = record {
      empty = ground (arith, c.frame.start_eq, c.clear.empty);
      homes = λ b h. ground (arith, c.frame.start_eq, c.clear.homes b h, h);
    };
    view = λ b h. ground (arith, c.frame.start_eq, c.view b h, h);
    copied = λ i h. ground (arith, c.frame.start_eq, c.copied i, content);
    flushed = λ p i h. ground (arith, c.frame.start_eq, c.flushed (omega arith) i, content);
  }
    where
      content : m.mem (m.block tail) ≡ v (block tail)
      content = ground (arith, c.frame.block_eq tail lt, c.view (block tail) (homes tail lt))

  pub copy_loop :
      (k tail : ℕ) (m : Machine)
      → tail + k ≡ n
      → Copying tail m
      → Copying n (write_log_from k tail m)
  unfolding write_log_from
  copy_loop zero tail m e c = subst_tail (omega arith) c
    where
      subst_tail : tail ≡ n → Copying tail m → Copying n m
      subst_tail e' c' = rw e' at c'
  copy_loop (suc k) tail m e c =
      copy_loop k (tail + 1) _ (omega arith) (copy_step tail m (omega arith) c)

  -- Installing one block of a committed transaction keeps it committed.
  install_disk :
      (i : ℕ) (d : ℕ → Block)
      → i < n
      → Committed s size n block v d
      → Committed s size n block v (update d (block i) (v (block i)))
  install_disk i d lt c = record {
    count = ground (arith, homes i lt, c.count);
    listed = λ j h. ground (arith, homes i lt, c.listed j h);
    logged = λ j h. ground (arith, homes i lt, c.logged j h);
    others = λ b h ne. ground (arith, c.others b h ne, ne i lt);
  }

  -- `install_trans` has installed `tail` blocks, unless the power failed before the commit.
  pub record Installing (tail : ℕ) (m : Machine) : Type 0 where
    pub frame : Frame m
    pub copied : (i : ℕ) → i < n → m.mem (s + i + 1) ≡ v (block i)
    pub settled : ((m.power ≡ 0) × Clear s size old m.disk) ⊎ Committed s size n block v m.disk
    pub installed : 0 < m.power → (i : ℕ) → i < tail → m.disk (block i) ≡ v (block i)

  install_settled :
      (tail : ℕ) (m : Machine)
      → tail < n
      → ((m.power ≡ 0) × Clear s size old m.disk) ⊎ Committed s size n block v m.disk
      → (((m.power - 1) ≡ 0)
          × Clear s size old
              (if m.power == 0 then m.disk else update m.disk (block tail) (v (block tail))))
        ⊎ Committed s size n block v
            (if m.power == 0 then m.disk else update m.disk (block tail) (v (block tail)))
  install_settled tail m lt (inl (off, c)) = rw off (inl (refl, c))
  install_settled tail m lt (inr c) = elim (ℕ_discrete m.power 0) [
    | yes off ↦ rw off (inr c)
    | no on ↦ inr (rw (on_test on) (install_disk tail m.disk lt c))
  ]
    where
      on_test : m.power ≢ 0 → (m.power == 0) ≡ false
      on_test h = ground arith

  install_step :
      (tail : ℕ) (m : Machine)
      → tail < n
      → Installing tail m
      → Installing (tail + 1) (bwrite (m.block tail) (m.mem (m.start + tail + 1)) m)
  unfolding bwrite
  install_step tail m lt c = record {
    frame = record { start_eq = c.frame.start_eq; block_eq = c.frame.block_eq };
    copied = λ i h. ground (arith, target, homes tail lt, c.copied i h);
    settled = rw (target, content) (install_settled tail m lt c.settled);
    installed = λ p i h. ground (arith, target, content, c.installed (omega arith) i);
  }
    where
      target : m.block tail ≡ block tail
      target = c.frame.block_eq tail lt

      content : m.mem (m.start + tail + 1) ≡ v (block tail)
      content = rw c.frame.start_eq (c.copied tail lt)

  pub install_loop :
      (k tail : ℕ) (m : Machine)
      → tail + k ≡ n
      → Installing tail m
      → Installing n (install_from k tail m)
  unfolding install_from
  install_loop zero tail m e c = subst_tail (omega arith) c
    where
      subst_tail : tail ≡ n → Installing tail m → Installing n m
      subst_tail e' c' = rw e' at c'
  install_loop (suc k) tail m e c =
      install_loop k (tail + 1) _ (omega arith) (install_step tail m (omega arith) c)
