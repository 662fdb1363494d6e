-- ===== src/Bcache/Contents.antt =====
-- What buffers and disk hold after a transfer, and which buffers `bget` leaves alone.
use mathlib.Core.Option
use cs461_hw.Base.{
  ℕ, ◌≡◌, ◌≢◌, ◌∙◌, refl, sym, subst, true, false, Option, none, some, List, [], ◌∷◌, arith,
  Bool-cases, inl, inr,
}
use cs461_hw.Bcache.{
  Block, Buf, has_block, grab, find_cached, is_free, recycle, find_free, bget, iderw,
}

-- A transfer that does not panic leaves the buffer valid and clean, and equal to its block on disk; a
-- dirty buffer is written and keeps its bytes, another one is read and the disk keeps its blocks; no
-- other block of the disk changes.
pub iderw_lem :
    (size : ℕ) (b : Buf) (disk : ℕ → Block) {b' : Buf} {disk' : ℕ → Block}
    → iderw size b disk ≡ some (b', disk')
    → (b'.valid ≡ true)
      × (b'.dirty ≡ false)
      × (b'.bytes ≡ disk' b.blockno)
      × (b.dirty ≡ true → b'.bytes ≡ b.bytes)
      × (b.dirty ≡ false → disk' b.blockno ≡ disk b.blockno)
      × ((n : ℕ) → n ≢ b.blockno → disk' n ≡ disk n)
unfolding iderw
iderw_lem size b disk e = (
  ground arith,
  ground arith,
  ground arith,
  λ d. ground arith,
  λ d. ground arith,
  λ n ne. ground arith,
)

-- The buffers in use or dirty, with what they hold.
abbrev pub Pinned : List Buf → List Buf → Type 0
Pinned [] [] = Unit
Pinned [] (_ ∷ _) = ⊥
Pinned (_ ∷ _) [] = ⊥
Pinned (b ∷ bs) (c ∷ cs) =
    ((b.id ≡ c.id)
      × (is_free b ≡ false
          → (b.dev ≡ c.dev)
            × (b.blockno ≡ c.blockno)
            × (b.bytes ≡ c.bytes)
            × (b.dirty ≡ c.dirty)
            × (b.valid ≡ c.valid)))
    × Pinned bs cs

Pinned-refl : (bs : List Buf) → Pinned bs bs
Pinned-refl [] = tt
Pinned-refl (b ∷ bs) = ((refl, λ h. (refl, refl, refl, refl, refl)), Pinned-refl bs)

abbrev PinnedIn : List Buf → Option (List Buf) → Type 0
PinnedIn bufs none = Unit
PinnedIn bufs (some bufs') = Pinned bufs bufs'

find_cached-Pinned :
    (dev blockno : ℕ) (bufs : List Buf) → PinnedIn bufs (find_cached dev blockno bufs)
unfolding find_cached grab
find_cached-Pinned dev blockno [] = tt
find_cached-Pinned dev blockno (b ∷ bs) = elim (Bool-cases (has_block dev blockno b)) [
  | inl e ↦ rw e ((refl, λ h. (refl, refl, refl, refl, refl)), Pinned-refl bs)
  | inr ne ↦ rw ne (later (find_cached dev blockno bs) (find_cached-Pinned dev blockno bs))
]
  where
    later :
        (o : Option (List Buf)) → PinnedIn bs o → PinnedIn (b ∷ bs) (Option.map (λ bs'. b ∷ bs') o)
    later none p = tt
    later (some bs') p = ((refl, λ h. (refl, refl, refl, refl, refl)), p)

find_free-Pinned : (dev blockno : ℕ) (bufs : List Buf) → PinnedIn bufs (find_free dev blockno bufs)
unfolding find_free recycle
find_free-Pinned dev blockno [] = tt
find_free-Pinned dev blockno (b ∷ bs) =
    later (find_free dev blockno bs) refl (find_free-Pinned dev blockno bs)
  where
    later :
        (o : Option (List Buf))
        → find_free dev blockno bs ≡ o
        → PinnedIn bs o
        → PinnedIn (b ∷ bs) (find_free dev blockno (b ∷ bs))
    later none e p = elim (Bool-cases (is_free b)) [
      | inl f ↦ rw (e, find_free, f) ((refl, λ h. cc (sym f ∙ h)), Pinned-refl bs)
      | inr n ↦ rw (e, find_free, n) tt
    ]
    later (some bs') e p = rw (e, find_free) ((refl, λ h. (refl, refl, refl, refl, refl)), p)

-- `bget` recycles no buffer that is in use or dirty: each such buffer stays in its place, with its
-- block, its bytes and its flags.
pub bget-Pinned :
    (dev blockno : ℕ) (bufs : List Buf) {bufs' : List Buf}
    → bget dev blockno bufs ≡ some bufs'
    → Pinned bufs bufs'
unfolding bget
bget-Pinned dev blockno bufs {bufs'} e =
    searched (find_cached dev blockno bufs) refl (find_cached-Pinned dev blockno bufs)
  where
    result : (o : Option (List Buf)) → PinnedIn bufs o → o ≡ some bufs' → Pinned bufs bufs'
    result none p q = cc
    result (some l) p q = let same : l ≡ bufs' = ground arith in subst (λ k. Pinned bufs k) same p

    searched :
        (o : Option (List Buf))
        → find_cached dev blockno bufs ≡ o
        → PinnedIn bufs o
        → Pinned bufs bufs'
    searched none f s =
        result (find_free dev blockno bufs) (find_free-Pinned dev blockno bufs) (rw (f, bget) at e)
    searched (some l) f s = result (some l) s (rw (f, bget) at e)
