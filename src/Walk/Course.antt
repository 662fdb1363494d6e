-- ===== src/Walk/Course.antt =====
-- What a walk along a path does in the inodes that it comes to, and why it ends.
use cs461_hw.Base.{
  ℕ, zero, suc, ◌≡◌, ◌≢◌, ◌⊎◌, ◌&&◌, not, refl, Bool, true, false, Option, none, some, List, [],
  ◌∷◌, ◌==◌, arith, Bool-cases, inl, inr,
}
use cs461_hw.Inodes.{Inodes, Locking, got, sleeps, panics, ilock, iunlock, iput, iunlockput}
use cs461_hw.Blocks.Content.{Run, ok, panic, out_of_rounds}
use cs461_hw.Paths.{skipelem}
use cs461_hw.Directories.{t_dir, dirlookup}
use cs461_hw.Walk.{
  End, found, missing, waits, crashed, no_rounds, Move, stop, go_on, give_up, stop_early, descend,
  is_end, enter_locked, enter_dir, leave_walk, walk,
}

-- The name is that of inode `k` in directory `i`, which is locked, searched, unlocked and dropped.
abbrev pub Descends : ℕ → List ℕ → Inodes → ℕ → Inodes → Type 0
Descends i next fs k fs' =
    (fs1 : Inodes) × (fs2 : Inodes) × (off : ℕ) × (ilock i fs ≡ got fs1)
    × ((fs1.cache i).node.kind ≡ t_dir)
    × (dirlookup i next fs1 ≡ ok (some (k, off), fs2))
    × (iunlockput i fs2 ≡ some fs')

-- Why a walk ends in inode `i`, with the name `next` and the path `rest` after it: at the last name
-- where the parent is asked for, where the inode is no directory or does not have the name, or where
-- one of the calls panics.
abbrev pub Stops : Bool → ℕ → List ℕ → List ℕ → Inodes → End → Type 0
Stops parent i next rest fs (found j name fs') =
    (parent ≡ true)
    × (rest ≡ [])
    × (j ≡ i)
    × (name ≡ next)
    × (fs1 : Inodes) × (ilock i fs ≡ got fs1)
    × ((fs1.cache i).node.kind ≡ t_dir)
    × (iunlock i fs1 ≡ some fs')
Stops parent i next rest fs (missing fs') =
    (fs1 : Inodes) × (ilock i fs ≡ got fs1)
    × ((((fs1.cache i).node.kind ≢ t_dir) × (iunlockput i fs1 ≡ some fs'))
        ⊎ ((fs2 : Inodes) × (dirlookup i next fs1 ≡ ok (none, fs2))
            × (iunlockput i fs2 ≡ some fs')))
Stops parent i next rest fs waits = ilock i fs ≡ sleeps
Stops parent i next rest fs crashed =
    (ilock i fs ≡ panics)
    ⊎ ((fs1 : Inodes) × (ilock i fs ≡ got fs1)
        × ((iunlockput i fs1 ≡ none)
            ⊎ (iunlock i fs1 ≡ none)
            ⊎ (dirlookup i next fs1 ≡ panic)
            ⊎ ((r : Option (ℕ × ℕ)) × (fs2 : Inodes) × (dirlookup i next fs1 ≡ ok (r, fs2))
                × (iunlockput i fs2 ≡ none))))
Stops parent i next rest fs no_rounds =
    (fs1 : Inodes) × (ilock i fs ≡ got fs1) × (dirlookup i next fs1 ≡ out_of_rounds)

-- How a walk ends in inode `i` at the end of the path, with the last name.
abbrev pub Leaves : Bool → ℕ → List ℕ → Inodes → End → Type 0
Leaves parent i name fs (found j last fs') = (parent ≡ false) × (j ≡ i) × (last ≡ name) × (fs' ≡ fs)
Leaves parent i name fs (missing fs') = (parent ≡ true) × (iput i fs ≡ some fs')
Leaves parent i name fs waits = ⊥
Leaves parent i name fs crashed = (parent ≡ true) × (iput i fs ≡ none)
Leaves parent i name fs no_rounds = ⊥

-- A walk from inode `i` along a path, to its end.
pub data Course (parent : Bool) : ℕ → List ℕ → List ℕ → Inodes → End → Type 0 where
  leaves :
      {i : ℕ}
      → {path name : List ℕ} → {fs : Inodes} → {e : End} → skipelem path ≡ none
      → Leaves parent i name fs e
      → Course parent i path name fs e
  stops :
      {i : ℕ}
      → {path name : List ℕ} → {fs : Inodes} → {e : End} → (next rest : List ℕ)
      → skipelem path ≡ some (next, rest)
      → Stops parent i next rest fs e
      → Course parent i path name fs e
  descends :
      {i : ℕ}
      → {path name : List ℕ} → {fs : Inodes} → {e : End}
      → (next rest : List ℕ) (k : ℕ) (fs' : Inodes) → skipelem path ≡ some (next, rest)
      → Descends i next fs k fs'
      → Course parent k rest next fs' e
      → Course parent i path name fs e

abbrev MovesTo : Bool → ℕ → List ℕ → List ℕ → Inodes → Move → Type 0
MovesTo parent i next rest fs (stop e) = Stops parent i next rest fs e
MovesTo parent i next rest fs (go_on k fs') = Descends i next fs k fs'

is_end-nil : (rest : List ℕ) → is_end rest ≡ true → rest ≡ []
is_end-nil [] e = refl
is_end-nil (c ∷ cs) e = absurd (ground arith)

module _ (parent : Bool) (i : ℕ) (next rest : List ℕ) (fs : Inodes) where
  given_up :
      (fs1 : Inodes) (r : Option Inodes)
      → ilock i fs ≡ got fs1
      → (fs1.cache i).node.kind ≢ t_dir
      → iunlockput i fs1 ≡ r
      → Stops parent i next rest fs
          (elim r as (λ _. End) [ none ↦ crashed | some fs' ↦ missing fs' ])
  given_up fs1 none l k e = inr (fs1, l, inl e)
  given_up fs1 (some fs') l k e = (fs1, l, inl (k, e))

  stopped :
      (fs1 : Inodes) (r : Option Inodes)
      → ilock i fs ≡ got fs1
      → (fs1.cache i).node.kind ≡ t_dir
      → (parent && is_end rest) ≡ true
      → iunlock i fs1 ≡ r
      → Stops parent i next rest fs
          (elim r as (λ _. End) [ none ↦ crashed | some fs' ↦ found i next fs' ])
  stopped fs1 none l k p e = inr (fs1, l, inr (inl e))
  stopped fs1 (some fs') l k p e =
      (ground arith, is_end-nil rest (ground arith), refl, refl, fs1, l, k, e)

  not_found :
      (fs1 fs2 : Inodes) (r : Option Inodes)
      → ilock i fs ≡ got fs1
      → dirlookup i next fs1 ≡ ok (none, fs2)
      → iunlockput i fs2 ≡ r
      → Stops parent i next rest fs
          (elim r as (λ _. End) [ none ↦ crashed | some fs' ↦ missing fs' ])
  not_found fs1 fs2 none l d e = inr (fs1, l, inr (inr (inr (none, fs2, d, e))))
  not_found fs1 fs2 (some fs') l d e = (fs1, l, inr (fs2, d, e))

  went_down :
      (fs1 fs2 : Inodes) (k off : ℕ) (r : Option Inodes)
      → ilock i fs ≡ got fs1
      → (fs1.cache i).node.kind ≡ t_dir
      → dirlookup i next fs1 ≡ ok (some (k, off), fs2)
      → iunlockput i fs2 ≡ r
      → MovesTo parent i next rest fs
          (elim r as (λ _. Move) [ none ↦ stop crashed | some fs' ↦ go_on k fs' ])
  went_down fs1 fs2 k off none l t d e = inr (fs1, l, inr (inr (inr (some (k, off), fs2, d, e))))
  went_down fs1 fs2 k off (some fs') l t d e = (fs1, fs2, off, l, t, d, e)

  descended :
      (fs1 : Inodes) (r : Run (Option (ℕ × ℕ) × Inodes))
      → ilock i fs ≡ got fs1
      → (fs1.cache i).node.kind ≡ t_dir
      → dirlookup i next fs1 ≡ r
      → MovesTo parent i next rest fs (descend i r)
  unfolding descend give_up
  descended fs1 (ok (none, fs2)) l t d = not_found fs1 fs2 (iunlockput i fs2) l d refl
  descended fs1 (ok (some (k, off), fs2)) l t d =
      went_down fs1 fs2 k off (iunlockput i fs2) l t d refl
  descended fs1 panic l t d = inr (fs1, l, inr (inr (inl d)))
  descended fs1 out_of_rounds l t d = (fs1, l, d)

  locked :
      (r : Locking)
      → ilock i fs ≡ r
      → MovesTo parent i next rest fs (elim r as (λ _. Move) [
        | got fs1 ↦ enter_locked parent i next rest fs1
        | sleeps ↦ stop waits
        | panics ↦ stop crashed
      ])
  unfolding enter_locked give_up stop_early
  locked sleeps l = l
  locked panics l = inl l
  locked (got fs1) l = elim (Bool-cases (not ((fs1.cache i).node.kind == t_dir))) [
    | inl other ↦ rw other (given_up fs1 (iunlockput i fs1) l (ground arith) refl)
    | inr dir ↦
        let t : (fs1.cache i).node.kind ≡ t_dir = ground arith in
        elim (Bool-cases (parent && is_end rest)) [
          | inl early ↦ rw (dir, early) (stopped fs1 (iunlock i fs1) l t early refl)
          | inr on ↦ rw (dir, on) (descended fs1 (dirlookup i next fs1) l t refl)
        ]
  ]

  pub enter_dir-MovesTo : MovesTo parent i next rest fs (enter_dir parent i next rest fs)
  unfolding enter_dir
  enter_dir-MovesTo = locked (ilock i fs) refl

left :
    (parent : Bool) (i : ℕ) (name : List ℕ) (fs : Inodes)
    → Leaves parent i name fs (leave_walk parent i name fs)
unfolding leave_walk
left false i name fs = (refl, refl, refl, refl)
left true i name fs = put (iput i fs) refl
  where
    put :
        (r : Option Inodes)
        → iput i fs ≡ r
        → Leaves true i name fs (elim r as (λ _. End) [ none ↦ crashed | some fs' ↦ missing fs' ])
    put none e = (refl, e)
    put (some fs') e = (refl, e)

-- The end of a walk has such a course.
abbrev pub CourseIn : Bool → ℕ → List ℕ → List ℕ → Inodes → Option End → Type 0
CourseIn parent i path name fs none = Unit
CourseIn parent i path name fs (some e) = Course parent i path name fs e

pub walk-CourseIn :
    (fuel : ℕ) (parent : Bool) (i : ℕ) (path name : List ℕ) (fs : Inodes)
    → CourseIn parent i path name fs (walk fuel parent i path name fs)
unfolding walk
walk-CourseIn zero parent i path name fs = tt
walk-CourseIn (suc fuel) parent i path name fs =
    taken (λ j rest next fs'. walk-CourseIn fuel parent j rest next fs') (skipelem path) refl
  where
    went :
        (next rest : List ℕ) (k : ℕ) (fs' : Inodes) (r : Option End)
        → skipelem path ≡ some (next, rest)
        → Descends i next fs k fs'
        → CourseIn parent k rest next fs' r
        → CourseIn parent i path name fs r
    went next rest k fs' none s d c = tt
    went next rest k fs' (some e) s d c = descends next rest k fs' s d c

    moved :
        (next rest : List ℕ) (m : Move)
        → skipelem path ≡ some (next, rest)
        → MovesTo parent i next rest fs m
        → ((j : ℕ) (fs' : Inodes)
            → CourseIn parent j rest next fs' (walk fuel parent j rest next fs'))
        → CourseIn parent i path name fs (elim m as (λ _. Option End) [
          | stop e ↦ some e
          | go_on j fs' ↦ walk fuel parent j rest next fs'
        ])
    moved next rest (stop e) s m ih = stops next rest s m
    moved next rest (go_on j fs') s m ih =
        went next rest j fs' (walk fuel parent j rest next fs') s m (ih j fs')

    taken :
        ((j : ℕ) (rest next : List ℕ) (fs' : Inodes)
          → CourseIn parent j rest next fs' (walk fuel parent j rest next fs'))
        → (r : Option (List ℕ × List ℕ)) → skipelem path ≡ r
        → CourseIn parent i path name fs (elim r as (λ _. Option End) [
          | none ↦ some (leave_walk parent i name fs)
          | some (next, rest) ↦ elim (enter_dir parent i next rest fs) as (λ _. Option End) [
            | stop e ↦ some e
            | go_on j fs' ↦ walk fuel parent j rest next fs'
          ]
        ])
    taken ih none s = leaves s (left parent i name fs)
    taken ih (some (next, rest)) s =
        moved next rest (enter_dir parent i next rest fs) s
          (enter_dir-MovesTo parent i next rest fs) (λ j fs'. ih j rest next fs')
