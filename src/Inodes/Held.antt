-- ===== src/Inodes/Held.antt =====
-- The locks of the inodes in the cache: what each call does to them.
use cs461_hw.Base.{
  ℕ, ◌≡◌, ◌≢◌, ◌∙◌, ◌&&◌, ◌||◌, not, refl, sym, ap, subst, false, Option, none, some, ◌==◌, arith,
  Bool-cases, inl, inr, ℕ_discrete, update, update_self, update_ne,
}
use cs461_hw.Blocks.{Volume, Inode, itrunc}
use cs461_hw.Inodes.{
  Entry, Inodes, Slot, cached, vacant, full, ninode, scan_cache, set_entry, iget_at, iget, idup,
  iupdate, drop_ref, is_last, free_inode, iput, Locking, got, sleeps, panics, load_entry, ilock,
  is_positive, iunlock, iunlockput,
}

-- No inode is locked, and none but that of entry `i`.
abbrev pub IsQuiet : Inodes → Type 0
IsQuiet fs = (l : ℕ) → (fs.cache l).locked ≡ false

abbrev pub IsHeld : ℕ → Inodes → Type 0
IsHeld i fs = (l : ℕ) → l ≢ i → (fs.cache l).locked ≡ false

-- The same inodes are locked.
abbrev pub SameLocks : Inodes → Inodes → Type 0
SameLocks fs fs' = (l : ℕ) → (fs'.cache l).locked ≡ (fs.cache l).locked

abbrev pub SameLocksIn : Inodes → Option Inodes → Type 0
SameLocksIn fs none = Unit
SameLocksIn fs (some fs') = SameLocks fs fs'

abbrev pub SameLocksGot : Inodes → Option (ℕ × Inodes) → Type 0
SameLocksGot fs none = Unit
SameLocksGot fs (some (_, fs')) = SameLocks fs fs'

pub set_entry-SameLocks :
    (i : ℕ) (e : Entry) (fs : Inodes)
    → e.locked ≡ (fs.cache i).locked
    → SameLocks fs (set_entry i e fs)
set_entry-SameLocks i e fs h = λ l. elim (ℕ_discrete i l) [
  | yes s ↦
      subst (λ j. (update fs.cache i e j).locked ≡ (fs.cache j).locked) s
        (ap (λ (x : Entry). x.locked) (update_self fs.cache i e) ∙ h)
  | no ne ↦ ap (λ (x : Entry). x.locked) (update_ne fs.cache i l e ne)
]

iget_at-SameLocks :
    (dev inum : ℕ) (s : Slot) (fs : Inodes) → SameLocksGot fs (iget_at dev inum s fs)
unfolding iget_at
iget_at-SameLocks dev inum (cached i) fs = set_entry-SameLocks i _ fs refl
iget_at-SameLocks dev inum (vacant i) fs = set_entry-SameLocks i _ fs refl
iget_at-SameLocks dev inum full fs = tt

pub iget-SameLocks : (dev inum : ℕ) (fs : Inodes) → SameLocksGot fs (iget dev inum fs)
unfolding iget
iget-SameLocks dev inum fs =
    iget_at-SameLocks dev inum (scan_cache ninode 0 dev inum none fs.cache) fs

pub idup-SameLocks : (i : ℕ) (fs : Inodes) → SameLocks fs (idup i fs)
unfolding idup
idup-SameLocks i fs = set_entry-SameLocks i _ fs refl

drop_ref-SameLocks : (i : ℕ) (fs : Inodes) → SameLocks fs (drop_ref i fs)
unfolding drop_ref
drop_ref-SameLocks i fs = set_entry-SameLocks i _ fs refl

free_inode-SameLocks : (i : ℕ) (fs : Inodes) → SameLocksIn fs (free_inode i fs)
unfolding free_inode iupdate
free_inode-SameLocks i fs = freed (itrunc (fs.cache i).node.content fs.volume)
  where
    freed :
        (r : Option (Inode × Volume))
        → SameLocksIn fs (elim r as (λ _. Option Inodes) [
          | none ↦ none
          | some (content, volume) ↦
              let e = fs.cache i in
              let cut = iupdate i (
                set_entry i
                  (record e { node = record e.node { content = content } })
                  (record fs { volume = volume })) in
              let node = record e.node { content = content; kind = 0 } in
              let freed = iupdate i (set_entry i (record e { node = node }) cut) in
              some (set_entry i (record e { node = node; valid = false }) freed)
        ])
    freed none = tt
    freed (some (content, volume)) = λ l. ground arith

pub iput-SameLocks : (i : ℕ) (fs : Inodes) → SameLocksIn fs (iput i fs)
unfolding iput
iput-SameLocks i fs = elim (Bool-cases (is_last (fs.cache i))) [
  | inl last ↦ rw last (dropped (free_inode i fs) (free_inode-SameLocks i fs))
  | inr more ↦ rw more (drop_ref-SameLocks i fs)
]
  where
    dropped :
        (r : Option Inodes)
        → SameLocksIn fs r
        → SameLocksIn fs
            (elim r as (λ _. Option Inodes) [ none ↦ none | some fs' ↦ some (drop_ref i fs') ])
    dropped none h = tt
    dropped (some fs') h = λ l. drop_ref-SameLocks i fs' l ∙ h l

-- What `ilock` leaves where no inode is locked: it never sleeps.
abbrev pub Taken : ℕ → Locking → Type 0
Taken i (got fs) = IsHeld i fs
Taken i sleeps = ⊥
Taken i panics = Unit

pub ilock-Taken : (i : ℕ) (fs : Inodes) → IsQuiet fs → Taken i (ilock i fs)
unfolding ilock load_entry
ilock-Taken i fs q = elim (Bool-cases (is_positive (fs.cache i).ref)) [
  | inr bad ↦ rw bad tt
  | inl good ↦
      elim (Bool-cases
        (not (fs.cache i).valid && (load_entry (fs.cache i) fs.dinode).node.kind == 0)) [
          | inl free ↦ rw (good, q i, free) tt
          | inr used ↦
              rw (good, q i, used)
                (λ l ne.
                  ap (λ (x : Entry). x.locked)
                    (update_ne fs.cache i l (load_entry (fs.cache i) fs.dinode) (λ e. ne (sym e)))
                  ∙ q l)
        ]
]

abbrev pub QuietIn : Option Inodes → Type 0
QuietIn none = Unit
QuietIn (some fs) = IsQuiet fs

pub iunlock-QuietIn : (i : ℕ) (fs : Inodes) → IsHeld i fs → QuietIn (iunlock i fs)
unfolding iunlock
iunlock-QuietIn i fs h =
    elim (Bool-cases (not (fs.cache i).locked || not (is_positive (fs.cache i).ref))) [
      | inl bad ↦ rw bad tt
      | inr good ↦ rw good (λ l. elim (ℕ_discrete i l) [
        | yes s ↦
            subst
              (λ j. (update fs.cache i (record (fs.cache i) { locked = false }) j).locked ≡ false) s
              (ap (λ (x : Entry). x.locked)
                (update_self fs.cache i (record (fs.cache i) { locked = false })))
        | no ne ↦
            ap (λ (x : Entry). x.locked)
              (update_ne fs.cache i l (record (fs.cache i) { locked = false }) ne)
            ∙ h l (λ e. ne (sym e))
      ])
    ]

pub iput-QuietIn : (i : ℕ) (fs : Inodes) → IsQuiet fs → QuietIn (iput i fs)
iput-QuietIn i fs q = kept (iput i fs) (iput-SameLocks i fs)
  where
    kept : (r : Option Inodes) → SameLocksIn fs r → QuietIn r
    kept none h = tt
    kept (some fs') h = λ l. h l ∙ q l

pub iunlockput-QuietIn : (i : ℕ) (fs : Inodes) → IsHeld i fs → QuietIn (iunlockput i fs)
unfolding iunlockput
iunlockput-QuietIn i fs h = put (iunlock i fs) (iunlock-QuietIn i fs h)
  where
    put :
        (r : Option Inodes)
        → QuietIn r
        → QuietIn (elim r as (λ _. Option Inodes) [ none ↦ none | some fs' ↦ iput i fs' ])
    put none q = tt
    put (some fs') q = iput-QuietIn i fs' q
