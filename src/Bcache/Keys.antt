-- ===== src/Bcache/Keys.antt =====
-- No disk block has two buffers.
use mathlib.Core.Option
use cs461_hw.Base.{
  ℕ, ◌≡◌, ◌≢◌, refl, subst, false, ◌&&◌, Option, none, some, List, [], ◌∷◌, ◌==◌, if◌then◌else◌,
  arith, Bool-cases, inl, inr,
}
use cs461_hw.Bcache.{Buf, has_block, grab, find_cached, is_free, recycle, find_free, bget}

-- No buffer of the list holds this block.
abbrev pub IsAbsent : ℕ → ℕ → List Buf → Type 0
IsAbsent dev blockno [] = Unit
IsAbsent dev blockno (b ∷ bs) = (has_block dev blockno b ≡ false) × IsAbsent dev blockno bs

-- A block of a device other than 0 (the device of a blank buffer) is in one buffer at most.
abbrev pub Distinct : List Buf → Type 0
Distinct [] = Unit
Distinct (b ∷ bs) = (b.dev ≢ 0 → IsAbsent b.dev b.blockno bs) × Distinct bs

-- What a search of the cached buffers does.
abbrev Searched : ℕ → ℕ → List Buf → Option (List Buf) → Type 0
Searched dev blockno bufs none = IsAbsent dev blockno bufs
Searched dev blockno bufs (some bufs') =
    Distinct bufs' × ((d n : ℕ) → IsAbsent d n bufs → IsAbsent d n bufs')

find_cached-Searched :
    (dev blockno : ℕ) (bufs : List Buf)
    → Distinct bufs
    → Searched dev blockno bufs (find_cached dev blockno bufs)
unfolding find_cached grab
find_cached-Searched dev blockno [] h = tt
find_cached-Searched dev blockno (b ∷ bs) h = elim (Bool-cases (has_block dev blockno b)) [
  | inl e ↦ rw e (h, λ d n a. a)
  | inr ne ↦ rw ne (later (find_cached dev blockno bs) (find_cached-Searched dev blockno bs h.1) ne)
]
  where
    later :
        (o : Option (List Buf))
        → Searched dev blockno bs o
        → has_block dev blockno b ≡ false
        → Searched dev blockno (b ∷ bs) (Option.map (λ bs'. b ∷ bs') o)
    later none s ne = (ne, s)
    later (some bs') s ne = ((λ nz. s.1 b.dev b.blockno (h.0 nz), s.0), λ d n a. (a.0, s.1 d n a.1))

-- What the search for a free buffer does, for a block that is not cached.
abbrev Recycled : ℕ → ℕ → List Buf → Option (List Buf) → Type 0
Recycled dev blockno bufs none = Unit
Recycled dev blockno bufs (some bufs') =
    Distinct bufs'
    × ((d n : ℕ) → IsAbsent d n bufs → (dev == d && blockno == n) ≡ false → IsAbsent d n bufs')

absent_other :
    (b : Buf) (dev blockno : ℕ)
    → has_block dev blockno b ≡ false
    → (dev == b.dev && blockno == b.blockno) ≡ false
absent_other b dev blockno h = ground arith

find_free-Recycled :
    (dev blockno : ℕ) (bufs : List Buf)
    → Distinct bufs
    → IsAbsent dev blockno bufs
    → Recycled dev blockno bufs (find_free dev blockno bufs)
unfolding find_free recycle
find_free-Recycled dev blockno [] h a = tt
find_free-Recycled dev blockno (b ∷ bs) h a =
    later (find_free dev blockno bs) refl (find_free-Recycled dev blockno bs h.1 a.1)
  where
    here :
        Recycled dev blockno
          (b ∷ bs)
          (if is_free b then some (recycle dev blockno b ∷ bs) else none)
    here = elim (Bool-cases (is_free b)) [
      | inl e ↦ rw e ((λ nz. a.1, h.1), λ d n abs ne. (ne, abs.1))
      | inr ne ↦ rw ne tt
    ]

    later :
        (o : Option (List Buf))
        → find_free dev blockno bs ≡ o
        → Recycled dev blockno bs o
        → Recycled dev blockno (b ∷ bs) (find_free dev blockno (b ∷ bs))
    later none e r = rw (e, find_free) here
    later (some bs') e r =
        rw (e, find_free)
          (
            (λ nz. r.1 b.dev b.blockno (h.0 nz) (absent_other b dev blockno a.0), r.0),
            λ d n abs ne. (abs.0, r.1 d n abs.1 ne),
          )

-- `bget` never makes a second buffer for a block: if the blocks in the cache are distinct before, they
-- are distinct after.
pub bget-Distinct :
    (dev blockno : ℕ) (bufs : List Buf) {bufs' : List Buf}
    → Distinct bufs
    → bget dev blockno bufs ≡ some bufs'
    → Distinct bufs'
unfolding bget
bget-Distinct dev blockno bufs {bufs'} h e =
    searched (find_cached dev blockno bufs) refl (find_cached-Searched dev blockno bufs h)
  where
    free : (o : Option (List Buf)) → Recycled dev blockno bufs o → o ≡ some bufs' → Distinct bufs'
    free none r q = cc
    free (some l) r q = let same : l ≡ bufs' = ground arith in subst Distinct same r.0

    searched :
        (o : Option (List Buf))
        → find_cached dev blockno bufs ≡ o
        → Searched dev blockno bufs o
        → Distinct bufs'
    searched none f s =
        free (find_free dev blockno bufs) (find_free-Recycled dev blockno bufs h s)
          (rw (f, bget) at e)
    searched (some l) f s = let same : l ≡ bufs' = ground arith in subst Distinct same s.0
