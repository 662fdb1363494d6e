-- ===== src/Log/Recovery.antt =====
-- A recovery from each disk state that a commit leaves, cut off after any number of writes.
use cs461_hw.Base.{
  ℕ, zero, suc, ◌+◌, ◌-◌, ◌<◌, ◌≡◌, refl, ◌≢◌, ◌⊎◌, inl, inr, ◌==◌, update, ℕ_discrete, arith, List,
  [], ◌∷◌, false, sym, subst, ◌∙◌,
}
use cs461_hw.Log.{
  Block, Machine, bwrite, install_from, install_trans, fill_head, write_head, read_head,
  recover_from_log, initlog, write_log_from, load_head,
}
use cs461_hw.Log.Disk.{
  Home, Clear, Committed, fill_head-low, fill_head-entry, load_head-entry, entry_cases,
  bwrite-power,
}
use cs461_hw.Log.Commit.{Copying, Installing, install_loop}

on_test : (p : ℕ) → p ≢ 0 → (p == 0) ≡ false
on_test p h = ground arith

recover-Clear :
    (s size power : ℕ) (x d : ℕ → Block)
    → Clear s size x d
    → Clear s size x (initlog s size power d).disk
unfolding initlog recover_from_log read_head install_trans install_from write_head bwrite fill_head
recover-Clear s size power x d c =
    rw (c.empty, install_from)
      (elim (ℕ_discrete power 0) [
        | yes off ↦ rw off c
        | no on ↦
            rw (on_test power on)
              (record { empty = ground arith; homes = λ b h. ground (arith, h, c.homes b h) })
      ])

pub install_from-power : (k tail : ℕ) (m : Machine) → (install_from k tail m).power ≡ m.power - k
unfolding install_from
install_from-power zero tail m = omega arith
install_from-power (suc k) tail m =
    let b = bwrite (m.block tail) (m.mem (m.start + tail + 1)) m in
    omega (
      arith,
      install_from-power k (tail + 1) b,
      bwrite-power (m.block tail) (m.mem (m.start + tail + 1)) m,
    )

pub write_log_from-power :
    (k tail : ℕ) (m : Machine) → (write_log_from k tail m).power ≡ m.power - k
unfolding write_log_from
write_log_from-power zero tail m = omega arith
write_log_from-power (suc k) tail m =
    let b = bwrite (m.start + tail + 1) (m.mem (m.block tail)) m in
    omega (
      arith,
      write_log_from-power k (tail + 1) b,
      bwrite-power (m.start + tail + 1) (m.mem (m.block tail)) m,
    )

pub write_log_from-n : (k tail : ℕ) (m : Machine) → (write_log_from k tail m).n ≡ m.n
unfolding write_log_from bwrite
write_log_from-n zero tail m = refl
write_log_from-n (suc k) tail m = write_log_from-n k (tail + 1) _

pub write_head-n : (m : Machine) → (write_head m).n ≡ m.n
unfolding write_head bwrite
write_head-n m = refl

pub write_head-power : (m : Machine) → (write_head m).power ≡ m.power - 1
unfolding write_head bwrite
write_head-power m = refl

-- Recoveries one after the other, each cut off after so many writes.
pub recoveries : (start size : ℕ) → List ℕ → (ℕ → Block) → ℕ → Block
recoveries start size [] d = d
recoveries start size (p ∷ ps) d = recoveries start size ps (initlog start size p d).disk

module _ (s size n : ℕ) (block : ℕ → ℕ) (old v : ℕ → Block) (fits : n < size)
    (homes : (i : ℕ) → i < n → Home s size (block i))
    (agree : (b : ℕ) → Home s size b → ((i : ℕ) → i < n → block i ≢ b) → old b ≡ v b) where
  -- The disk a crash may leave: no transaction, a committed one, or an installed one.
  unfoldable pub Outcome : (ℕ → Block) → Type 0
  Outcome d = Clear s size old d ⊎ Committed s size n block v d ⊎ Clear s size v d

  pub commit_point :
      (m : Machine)
      → m.n ≡ n
      → Copying s size n block old v fits homes agree n m
      → Installing s size n block old v fits homes agree 0 (write_head m)
  unfolding write_head bwrite
  commit_point m en c = record {
    frame = record { start_eq = c.frame.start_eq; block_eq = c.frame.block_eq };
    copied = λ i h. ground (arith, c.frame.start_eq, c.copied i h);
    settled = elim (ℕ_discrete m.power 0) [
      | yes off ↦ rw off (inl (refl, c.clear))
      | no on ↦ inr (
          rw (on_test m.power on) (record {
            count = ground (arith, c.frame.start_eq, zeroth, en);
            listed = λ i h. ground (arith, c.frame.start_eq, entry i h, c.frame.block_eq i h);
            logged = λ i h. ground (arith, c.frame.start_eq, c.flushed (omega arith) i h);
            others = λ b h ne. ground (arith, c.frame.start_eq, h, c.clear.homes b h, agree b h ne);
          }))
    ];
    installed = λ p i h. absurd (omega arith);
  }
    where
      header : Block
      header = fill_head m.n 0 m.block (update (m.mem m.start) 0 m.n)

      zeroth : header 0 ≡ m.n
      zeroth =
          ground (arith, fill_head-low m.n 0 0 m.block (update (m.mem m.start) 0 m.n) (omega arith))

      entry : (i : ℕ) → i < n → header (i + 1) ≡ m.block i
      entry i h =
          fill_head-entry m.n 0 i m.block (update (m.mem m.start) 0 m.n) (omega arith) (omega arith)

  -- The installed transaction is erased from the log.
  pub erase :
      (m : Machine)
      → Installing s size n block old v fits homes agree n m
      → let d = (write_head (record m { n = 0 })).disk in
        Outcome d × (0 < m.power → Clear s size v d)
  unfolding write_head bwrite fill_head Outcome
  erase m c = elim (ℕ_discrete m.power 0) [
    | yes off ↦ rw off (off_outcome c.settled, λ p. absurd (omega arith))
    | no on ↦ rw (on_test m.power on) (on_outcome on c.settled)
  ]
    where
      off_outcome :
          ((m.power ≡ 0) × Clear s size old m.disk) ⊎ Committed s size n block v m.disk
          → Clear s size old m.disk ⊎ Committed s size n block v m.disk ⊎ Clear s size v m.disk
      off_outcome (inl (_, k)) = inl k
      off_outcome (inr k) = inr (inl k)

      cleared :
          m.power ≢ 0
          → Committed s size n block v m.disk
          → Clear s size v (update m.disk m.start (update (m.mem m.start) 0 0))
      cleared on k = record {
        empty = ground (arith, c.frame.start_eq);
        homes = λ b h. elim (entry_cases n block b) [
          | inl (i, lt, e) ↦ ground (arith, c.frame.start_eq, h, c.installed (omega arith) i lt, e)
          | inr ne ↦ ground (arith, c.frame.start_eq, h, k.others b h ne)
        ];
      }

      on_outcome :
          m.power ≢ 0
          → ((m.power ≡ 0) × Clear s size old m.disk) ⊎ Committed s size n block v m.disk
          → (let d = update m.disk m.start (update (m.mem m.start) 0 0) in
              (Clear s size old d ⊎ Committed s size n block v d ⊎ Clear s size v d)
              × (0 < m.power → Clear s size v d))
      on_outcome on (inl (off, _)) = absurd (on off)
      on_outcome on (inr k) = (inr (inr (cleared on k)), λ _. cleared on k)

  -- The machine that has read a header of `k` entries from the disk `d`.
  loaded : ℕ → ℕ → (ℕ → Block) → Machine
  loaded power k d = record {
    disk = d;
    mem = d;
    dirty = λ _. false;
    power = power;
    start = s;
    size = size;
    outstanding = 0;
    committing = false;
    n = k;
    block = load_head k 0 (d s) (λ _. 0);
  }

  loaded-Installing :
      (power : ℕ) (d : ℕ → Block)
      → Committed s size n block v d
      → Installing s size n block old v fits homes agree 0 (loaded power n d)
  unfolding loaded
  loaded-Installing power d c = record {
    frame = record {
      start_eq = refl;
      block_eq =
          λ i h. load_head-entry n 0 i (d s) (λ _. 0) (omega arith) (omega arith) ∙ c.listed i h;
    };
    copied = c.logged;
    settled = inr c;
    installed = λ p i h. absurd (omega arith);
  }

  -- A recovery of a committed transaction, cut off after any number of writes.
  recover-Committed :
      (power : ℕ) (d : ℕ → Block)
      → Committed s size n block v d
      → let r = (initlog s size power d).disk in Outcome r × (n < power → Clear s size v r)
  unfolding initlog recover_from_log read_head install_trans loaded
  recover-Committed power d c = subst Recovers (sym c.count) (out.0, λ h. out.1 (left h))
    where
      Recovers : ℕ → Type 0
      Recovers k =
          let r = (write_head (record (install_from k 0 (loaded power k d)) { n = 0 })).disk in
          Outcome r × (n < power → Clear s size v r)

      done :
          Installing s size n block old v fits homes agree n (install_from n 0 (loaded power n d))
      done =
          install_loop s size n block old v fits homes agree n 0 (loaded power n d) (omega arith)
            (loaded-Installing power d c)

      out :
          let r = (write_head (record (install_from n 0 (loaded power n d)) { n = 0 })).disk in
          Outcome r × (0 < (install_from n 0 (loaded power n d)).power → Clear s size v r)
      out = erase (install_from n 0 (loaded power n d)) done

      left : n < power → 0 < (install_from n 0 (loaded power n d)).power
      left h = omega (arith, install_from-power n 0 (loaded power n d))

  -- Recoveries keep the outcomes, and one that is not cut off leaves an empty log.
  pub recover-Outcome :
      (power : ℕ) (d : ℕ → Block) → Outcome d → Outcome (initlog s size power d).disk
  unfolding Outcome
  recover-Outcome power d (inl c) = inl (recover-Clear s size power old d c)
  recover-Outcome power d (inr (inl c)) = (recover-Committed power d c).0
  recover-Outcome power d (inr (inr c)) = inr (inr (recover-Clear s size power v d c))

  pub recovered :
      (power : ℕ) (d : ℕ → Block)
      → n < power
      → Outcome d
      → let r = (initlog s size power d).disk in Clear s size old r ⊎ Clear s size v r
  unfolding Outcome
  recovered power d h (inl c) = inl (recover-Clear s size power old d c)
  recovered power d h (inr (inl c)) = inr ((recover-Committed power d c).1 h)
  recovered power d h (inr (inr c)) = inr (recover-Clear s size power v d c)

  pub recoveries-Outcome :
      (powers : List ℕ) (d : ℕ → Block) → Outcome d → Outcome (recoveries s size powers d)
  unfolding recoveries
  recoveries-Outcome [] d o = o
  recoveries-Outcome (p ∷ ps) d o = recoveries-Outcome ps _ (recover-Outcome p d o)
