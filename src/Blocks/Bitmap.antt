-- ===== src/Blocks/Bitmap.antt =====
-- What the allocator does to the bitmap and to the blocks.
use cs461_hw.Base.{
  ℕ, zero, suc, ◌+◌, ◌≡◌, ◌≢◌, ◌≤◌, ◌<◌, refl, ap, Bool, true, false, Option, none, some,
  update_self, update_ne, arith, Bool-cases, inl, inr, ℕ_discrete,
}
use cs461_hw.Blocks.{Volume, bzero, find_clear, mark, balloc, bfree}

-- What a scan for a clear bit finds.
abbrev Found : ℕ → ℕ → (ℕ → Bool) → Option ℕ → Type 0
Found k b used none = (j : ℕ) → b ≤ j → j < b + k → used j ≡ true
Found k b used (some j) = (j < b + k) × (used j ≡ false)

find_clear-Found : (k b : ℕ) (used : ℕ → Bool) → Found k b used (find_clear k b used)
unfolding find_clear
find_clear-Found zero b used = λ j x y. absurd (omega arith)
find_clear-Found (suc k) b used = elim (Bool-cases (used b)) [
  | inl u ↦ rw u (later (find_clear k (b + 1) used) (find_clear-Found k (b + 1) used) u)
  | inr c ↦ rw c (omega arith, c)
]
  where
    later : (o : Option ℕ) → Found k (b + 1) used o → used b ≡ true → Found (suc k) b used o
    later none f u = λ j x y. elim (ℕ_discrete b j) [
      | yes e ↦ rw (← e) u
      | no n ↦ f j (omega arith) (omega arith)
    ]
    later (some j) (y, c) u = (omega arith, c)

-- What a call of `balloc` returns and leaves.
abbrev pub Allocated : Volume → Option (ℕ × Volume) → Type 0
Allocated v none = (b : ℕ) → b < v.size → v.used b ≡ true
Allocated v (some (b, v')) =
    (b < v.size)
    × (v.used b ≡ false)
    × (v'.used b ≡ true)
    × ((i : ℕ) → v'.word b i ≡ 0)
    × ((c : ℕ) → b ≢ c → (v'.used c ≡ v.used c) × (v'.word c ≡ v.word c))

-- `balloc` gives out a clear block of the volume, marked and zeroed, and changes no other block; it
-- panics only if every block is marked.
pub balloc-Allocated : (v : Volume) → Allocated v (balloc v)
unfolding balloc bzero mark
balloc-Allocated v = scanned (find_clear v.size 0 v.used) refl (find_clear-Found v.size 0 v.used)
  where
    scanned :
        (o : Option ℕ)
        → find_clear v.size 0 v.used ≡ o
        → Found v.size 0 v.used o
        → Allocated v (balloc v)
    scanned none e f = rw (e, balloc) (λ b h. f b (omega arith) (omega arith))
    scanned (some b) e (x, c) =
        rw (e, balloc)
          (
            omega arith,
            c,
            update_self v.used b true,
            λ i. ap (λ (w : ℕ → ℕ). w i) (update_self v.word b (λ _. 0)),
            λ d ne. (update_ne v.used b d true ne, update_ne v.word b d (λ _. 0) ne),
          )

-- What a call of `bfree` leaves.
abbrev Freed : ℕ → Volume → Option Volume → Type 0
Freed b v none = v.used b ≡ false
Freed b v (some v') =
    (v.used b ≡ true)
    × (v'.used b ≡ false)
    × (v'.word ≡ v.word)
    × ((c : ℕ) → b ≢ c → v'.used c ≡ v.used c)

-- `bfree` panics exactly on a block that is not marked; else it clears its bit and nothing more.
bfree-Freed : (b : ℕ) (v : Volume) → Freed b v (bfree b v)
unfolding bfree
bfree-Freed b v = elim (Bool-cases (v.used b)) [
  | inl u ↦ rw u (u, update_self v.used b false, refl, λ c ne. update_ne v.used b c false ne)
  | inr n ↦ rw n n
]
