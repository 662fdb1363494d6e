-- ===== src/Log/Disk.antt =====
-- What the disk says to a recovery: the states between which the writes of a commit move it.
use cs461_hw.Base.{
  ℕ, zero, suc, ◌+◌, ◌-◌, ◌≤◌, ◌<◌, ◌≡◌, refl, ◌≢◌, ◌⊎◌, inl, inr, update, ℕ_discrete, arith,
}
use cs461_hw.Log.{Block, Machine, bwrite, fill_head, load_head}

pub bwrite-power : (b : ℕ) (d : Block) (m : Machine) → (bwrite b d m).power ≡ m.power - 1
unfolding bwrite
bwrite-power b d m = refl

pub fill_head-low :
    (k i w : ℕ) (block : ℕ → ℕ) (buf : Block) → w ≤ i → fill_head k i block buf w ≡ buf w
unfolding fill_head
fill_head-low zero i w block buf h = refl
fill_head-low (suc k) i w block buf h =
    ground (arith, fill_head-low k (i + 1) w block (update buf (i + 1) (block i)))

pub fill_head-entry :
    (k i j : ℕ) (block : ℕ → ℕ) (buf : Block)
    → i ≤ j
    → j < i + k
    → fill_head k i block buf (j + 1) ≡ block j
unfolding fill_head
fill_head-entry zero i j block buf lo hi = absurd (omega arith)
fill_head-entry (suc k) i j block buf lo hi = elim (ℕ_discrete i j) [
  | yes e ↦ ground (arith, fill_head-low k (i + 1) (j + 1) block (update buf (i + 1) (block i)), e)
  | no ne ↦
      fill_head-entry k (i + 1) j block (update buf (i + 1) (block i)) (omega arith) (omega arith)
]

pub load_head-low :
    (k i w : ℕ) (buf : Block) (block : ℕ → ℕ) → w < i → load_head k i buf block w ≡ block w
unfolding load_head
load_head-low zero i w buf block h = refl
load_head-low (suc k) i w buf block h =
    ground (arith, load_head-low k (i + 1) w buf (update block i (buf (i + 1))))

pub load_head-entry :
    (k i j : ℕ) (buf : Block) (block : ℕ → ℕ)
    → i ≤ j
    → j < i + k
    → load_head k i buf block j ≡ buf (j + 1)
unfolding load_head
load_head-entry zero i j buf block lo hi = absurd (omega arith)
load_head-entry (suc k) i j buf block lo hi = elim (ℕ_discrete i j) [
  | yes e ↦ ground (arith, load_head-low k (i + 1) j buf (update block i (buf (i + 1))), e)
  | no ne ↦
      load_head-entry k (i + 1) j buf (update block i (buf (i + 1))) (omega arith) (omega arith)
]

-- Is `b` among the first `n` entries of `block`?
pub entry_cases :
    (n : ℕ) (block : ℕ → ℕ) (b : ℕ)
    → ((i : ℕ) × (i < n) × (block i ≡ b)) ⊎ ((i : ℕ) → i < n → block i ≢ b)
entry_cases zero block b = inr (λ i h. absurd (omega arith))
entry_cases (suc n) block b = elim (ℕ_discrete (block n) b) [
  | yes e ↦ inl (n, omega arith, e)
  | no ne ↦ elim (entry_cases n block b) [
    | inl (i, h, e) ↦ inl (i, omega arith, e)
    | inr none_below ↦ inr (λ i h. elim (ℕ_discrete i n) [
      | yes e ↦ ground (arith, ne, e)
      | no i≢n ↦ none_below i (omega arith)
    ])
  ]
]

-- Blocks outside the log, which begins at block `s` and has `size` blocks.
abbrev pub Home : ℕ → ℕ → ℕ → Type 0
Home s size b = (b < s) ⊎ (s + size ≤ b)

-- The log holds no transaction, and the home blocks hold `v`.
pub record Clear (s size : ℕ) (v : ℕ → Block) (d : ℕ → Block) : Type 0 where
  pub empty : d s 0 ≡ 0
  pub homes : (b : ℕ) → Home s size b → d b ≡ v b

-- The log holds a transaction of `n` blocks, whose installation makes the home blocks `v`.
pub record Committed (s size n : ℕ) (block : ℕ → ℕ) (v d : ℕ → Block) : Type 0 where
  pub count : d s 0 ≡ n
  pub listed : (i : ℕ) → i < n → d s (i + 1) ≡ block i
  pub logged : (i : ℕ) → i < n → d (s + i + 1) ≡ v (block i)
  pub others : (b : ℕ) → Home s size b → ((i : ℕ) → i < n → block i ≢ b) → d b ≡ v b
