-- ===== src/Walk/Ends.antt =====
-- The walk along a path ends, and leaves no inode locked.
use cs461_hw.Base.{
  ◌⊎◌, ℕ, zero, suc, ◌+◌, ◌≡◌, ◌<◌, ◌∙◌, ◌&&◌, not, refl, Bool, true, false, Option, none, some,
  List, [], ◌∷◌, ◌==◌, length, arith, Bool-cases, inl, inr,
}
use cs461_hw.Paths.{skipelem, skipelem-shorter}
use cs461_hw.Inodes.{Inodes, Locking, got, sleeps, panics, ilock, iunlock, iput, iunlockput, iget}
use cs461_hw.Inodes.Held.{
  IsQuiet, IsHeld, Taken, QuietIn, SameLocksGot, ilock-Taken, iunlock-QuietIn, iput-QuietIn,
  iunlockput-QuietIn, iget-SameLocks, idup-SameLocks,
}
use cs461_hw.Blocks.Content.{Run, ok, panic, out_of_rounds}
use cs461_hw.Directories.{t_dir, dirlookup}
use cs461_hw.Directories.Ending.{Locked, dirlookup-Locked}
use cs461_hw.Walk.Course.{Course, CourseIn, walk-CourseIn}
use cs461_hw.Walk.{
  End, found, missing, waits, crashed, no_rounds, Move, stop, go_on, give_up, stop_early, descend,
  is_end, enter_locked, enter_dir, leave_walk, walk, root_dev, root_ino, start_inode, namex,
}

-- An end that returns with no inode locked, or a panic: not a wait, and not a search cut short.
abbrev pub Rests : End → Type 0
Rests (found i name fs) = IsQuiet fs
Rests (missing fs) = IsQuiet fs
Rests waits = ⊥
Rests crashed = Unit
Rests no_rounds = ⊥

-- A round that comes to such an end, or goes on with no inode locked.
abbrev MovesOn : Move → Type 0
MovesOn (stop e) = Rests e
MovesOn (go_on j fs) = IsQuiet fs

give_up-Rests : (i : ℕ) (fs : Inodes) → IsHeld i fs → Rests (give_up i fs)
unfolding give_up
give_up-Rests i fs h = put (iunlockput i fs) (iunlockput-QuietIn i fs h)
  where
    put :
        (r : Option Inodes)
        → QuietIn r
        → Rests (elim r as (λ _. End) [ none ↦ crashed | some fs' ↦ missing fs' ])
    put none q = tt
    put (some fs') q = q

stop_early-Rests :
    (i : ℕ) (name : List ℕ) (fs : Inodes) → IsHeld i fs → Rests (stop_early i name fs)
unfolding stop_early
stop_early-Rests i name fs h = unlocked (iunlock i fs) (iunlock-QuietIn i fs h)
  where
    unlocked :
        (r : Option Inodes)
        → QuietIn r
        → Rests (elim r as (λ _. End) [ none ↦ crashed | some fs' ↦ found i name fs' ])
    unlocked none q = tt
    unlocked (some fs') q = q

descend-MovesOn :
    (i : ℕ) (fs : Inodes) (r : Run (Option (ℕ × ℕ) × Inodes))
    → IsHeld i fs
    → Locked fs r
    → MovesOn (descend i r)
unfolding descend
descend-MovesOn i fs (ok (none, fs')) h s = give_up-Rests i fs' (λ l ne. s l ∙ h l ne)
descend-MovesOn i fs (ok (some (next, off), fs')) h s =
    put (iunlockput i fs') (iunlockput-QuietIn i fs' (λ l ne. s l ∙ h l ne))
  where
    put :
        (r : Option Inodes)
        → QuietIn r
        → MovesOn (elim r as (λ _. Move) [ none ↦ stop crashed | some fs'' ↦ go_on next fs'' ])
    put none q = tt
    put (some fs'') q = q
descend-MovesOn i fs panic h s = tt
descend-MovesOn i fs out_of_rounds h s = s

enter_locked-MovesOn :
    (parent : Bool) (i : ℕ) (name rest : List ℕ) (fs : Inodes)
    → IsHeld i fs
    → MovesOn (enter_locked parent i name rest fs)
unfolding enter_locked
enter_locked-MovesOn parent i name rest fs h =
    elim (Bool-cases (not ((fs.cache i).node.kind == t_dir))) [
      | inl other ↦ rw other (give_up-Rests i fs h)
      | inr dir ↦ elim (Bool-cases (parent && is_end rest)) [
        | inl early ↦ rw (dir, early) (stop_early-Rests i name fs h)
        | inr on ↦
            rw (dir, on) (descend-MovesOn i fs (dirlookup i name fs) h (dirlookup-Locked i name fs))
      ]
    ]

enter_dir-MovesOn :
    (parent : Bool) (i : ℕ) (name rest : List ℕ) (fs : Inodes)
    → IsQuiet fs
    → MovesOn (enter_dir parent i name rest fs)
unfolding enter_dir
enter_dir-MovesOn parent i name rest fs q = locked (ilock i fs) (ilock-Taken i fs q)
  where
    locked :
        (r : Locking)
        → Taken i r
        → MovesOn (elim r as (λ _. Move) [
          | got fs' ↦ enter_locked parent i name rest fs'
          | sleeps ↦ stop waits
          | panics ↦ stop crashed
        ])
    locked (got fs') h = enter_locked-MovesOn parent i name rest fs' h
    locked sleeps h = h
    locked panics h = tt

leave_walk-Rests :
    (parent : Bool) (i : ℕ) (name : List ℕ) (fs : Inodes)
    → IsQuiet fs
    → Rests (leave_walk parent i name fs)
unfolding leave_walk
leave_walk-Rests false i name fs q = q
leave_walk-Rests true i name fs q = put (iput i fs) (iput-QuietIn i fs q)
  where
    put :
        (r : Option Inodes)
        → QuietIn r
        → Rests (elim r as (λ _. End) [ none ↦ crashed | some fs' ↦ missing fs' ])
    put none h = tt
    put (some fs') h = h

-- The walk has come to such an end.
abbrev pub HasEnded : Option End → Type 0
HasEnded none = ⊥
HasEnded (some e) = Rests e

walk-HasEnded :
    (fuel : ℕ) (parent : Bool) (i : ℕ) (path name : List ℕ) (fs : Inodes)
    → length path < fuel
    → IsQuiet fs
    → HasEnded (walk fuel parent i path name fs)
unfolding walk
walk-HasEnded zero parent i path name fs h q = absurd (omega arith)
walk-HasEnded (suc fuel) parent i path name fs h q =
    taken (λ j rest next fs' s q'. walk-HasEnded fuel parent j rest next fs' s q') (skipelem path)
      (λ x rest e. skipelem-shorter path e)
  where
    moved :
        (next rest : List ℕ) (m : Move)
        → MovesOn m
        → ((j : ℕ) (fs' : Inodes) → IsQuiet fs' → HasEnded (walk fuel parent j rest next fs'))
        → HasEnded (elim m as (λ _. Option End) [
          | stop e ↦ some e
          | go_on j fs' ↦ walk fuel parent j rest next fs'
        ])
    moved next rest (stop e) r ih = r
    moved next rest (go_on j fs') r ih = ih j fs' r

    taken :
        ((j : ℕ) (rest next : List ℕ) (fs' : Inodes)
          → length rest < fuel
          → IsQuiet fs'
          → HasEnded (walk fuel parent j rest next fs'))
        → (r : Option (List ℕ × List ℕ))
        → ((x rest : List ℕ) → r ≡ some (x, rest) → length rest < length path)
        → HasEnded (elim r as (λ _. Option End) [
          | none ↦ some (leave_walk parent i name fs)
          | some (next, rest) ↦ elim (enter_dir parent i next rest fs) as (λ _. Option End) [
            | stop e ↦ some e
            | go_on j fs' ↦ walk fuel parent j rest next fs'
          ]
        ])
    taken ih none s = leave_walk-Rests parent i name fs q
    taken ih (some (next, rest)) s =
        let shorter = s next rest refl in
        moved next rest (enter_dir parent i next rest fs)
          (enter_dir-MovesOn parent i next rest fs q)
          (λ j fs' q'. ih j rest next fs' (omega arith) q')

abbrev Started : Option (ℕ × Inodes) → Type 0
Started none = Unit
Started (some (i, fs)) = IsQuiet fs

got-Started : (fs : Inodes) (r : Option (ℕ × Inodes)) → IsQuiet fs → SameLocksGot fs r → Started r
got-Started fs none q h = tt
got-Started fs (some (i, fs')) q h = λ l. h l ∙ q l

start_inode-Started :
    (cwd : ℕ) (path : List ℕ) (fs : Inodes) → IsQuiet fs → Started (start_inode cwd path fs)
unfolding start_inode
start_inode-Started cwd [] fs q = λ l. idup-SameLocks cwd fs l ∙ q l
start_inode-Started cwd (c ∷ cs) fs q = elim (Bool-cases (c == b'/')) [
  | inl root ↦
      rw root (got-Started fs (iget root_dev root_ino fs) q (iget-SameLocks root_dev root_ino fs))
  | inr other ↦ rw other (λ l. idup-SameLocks cwd fs l ∙ q l)
]

-- A walk that has come to such an end on its course from the root or the directory of the process; or
-- `iget` of the root panics.
abbrev pub Walks : ℕ → List ℕ → Bool → List ℕ → Inodes → Option End → Type 0
Walks cwd path parent name fs none = ⊥
Walks cwd path parent name fs (some e) =
    Rests e
    × (((start_inode cwd path fs ≡ none) × (e ≡ crashed))
        ⊎ ((i : ℕ) × (fs' : Inodes) × (start_inode cwd path fs ≡ some (i, fs'))
            × Course parent i path name fs' e))

-- Where no inode is locked before, and no other process comes between, `namex` ends on every path,
-- after at most one round for each of its characters and one more. It goes from inode to inode by the
-- names of the path, each locked, found to be a directory, searched, unlocked and dropped; and it ends
-- at the last name, at an inode that is no directory or does not have the name, or where one of these
-- calls panics. Where it returns, no inode is locked. It never waits for the lock of an inode, and no
-- search in a directory is cut short.
pub namex-Walks :
    (cwd : ℕ) (path : List ℕ) (parent : Bool) (name : List ℕ) (fs : Inodes)
    → IsQuiet fs
    → Walks cwd path parent name fs (namex cwd path parent name fs)
unfolding namex
namex-Walks cwd path parent name fs q =
    started (start_inode cwd path fs) refl (start_inode-Started cwd path fs q)
  where
    both :
        (i : ℕ) (fs' : Inodes) (r : Option End)
        → start_inode cwd path fs ≡ some (i, fs')
        → HasEnded r
        → CourseIn parent i path name fs' r
        → Walks cwd path parent name fs r
    both i fs' none s h c = h
    both i fs' (some e) s h c = (h, inr (i, fs', s, c))

    started :
        (r : Option (ℕ × Inodes))
        → start_inode cwd path fs ≡ r
        → Started r
        → Walks cwd path parent name fs (elim r as (λ _. Option End) [
          | none ↦ some crashed
          | some (i, fs') ↦ walk (length path + 1) parent i path name fs'
        ])
    started none s h = (tt, inl (s, refl))
    started (some (i, fs')) s h =
        both i fs' (walk (length path + 1) parent i path name fs') s
          (walk-HasEnded (length path + 1) parent i path name fs' (omega arith) h)
          (walk-CourseIn (length path + 1) parent i path name fs')
