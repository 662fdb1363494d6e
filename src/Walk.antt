-- ===== src/Walk.antt =====
-- `namex` of fs.c: the walk along a path. Inodes are entries of the cache; the directory of the process
-- is an argument.
use cs461_hw.Base.{
  ℕ, zero, suc, ◌+◌, Bool, true, false, not, ◌&&◌, Option, none, some, List, [], ◌∷◌, ◌==◌,
  if◌then◌else◌, length,
}
use cs461_hw.Paths.{skipelem}
use cs461_hw.Blocks.Content.{Run, ok, panic, out_of_rounds}
use cs461_hw.Inodes.{
  Entry, Inodes, Locking, got, sleeps, panics, iget, idup, ilock, iunlock, iput, iunlockput,
}
use cs461_hw.Directories.{t_dir, dirlookup}
pub mod Course
pub mod Ends
mod Tests

abbrev pub root_dev : ℕ
root_dev = 1

abbrev pub root_ino : ℕ
root_ino = 1

-- How a walk ends: with an inode and the last name, with NULL, waiting for the lock of an inode, at a
-- panic, or in a search that has run out of its rounds.
pub data End : Type 0 where
  found : ℕ → List ℕ → Inodes → End
  missing : Inodes → End
  waits : End
  crashed : End
  no_rounds : End

-- What one round of the loop comes to: the end of the walk, or the next inode.
pub data Move : Type 0 where
  stop : End → Move
  go_on : ℕ → Inodes → Move

-- `iunlockput(ip); return 0`
pub give_up : ℕ → Inodes → End
give_up i fs = elim (iunlockput i fs) [ none ↦ crashed | some fs' ↦ missing fs' ]

-- `iunlock(ip); return ip`
pub stop_early : ℕ → List ℕ → Inodes → End
stop_early i name fs = elim (iunlock i fs) [ none ↦ crashed | some fs' ↦ found i name fs' ]

-- The rest of a round, after `dirlookup`.
pub descend : ℕ → Run (Option (ℕ × ℕ) × Inodes) → Move
descend i (ok (none, fs)) = stop (give_up i fs)
descend i (ok (some (next, _), fs)) = elim (iunlockput i fs) [
  | none ↦ stop crashed
  | some fs' ↦ go_on next fs'
]
descend i panic = stop crashed
descend i out_of_rounds = stop no_rounds

abbrev pub is_end : List ℕ → Bool
is_end [] = true
is_end (_ ∷ _) = false

-- A round with the inode locked.
pub enter_locked : (parent : Bool) → ℕ → (name rest : List ℕ) → Inodes → Move
enter_locked parent i name rest fs =
    if not ((fs.cache i).node.kind == t_dir)
    then stop (give_up i fs)
    else if parent && is_end rest
    then stop (stop_early i name fs)
    else descend i (dirlookup i name fs)

pub enter_dir : (parent : Bool) → ℕ → (name rest : List ℕ) → Inodes → Move
enter_dir parent i name rest fs = elim (ilock i fs) [
  | got fs' ↦ enter_locked parent i name rest fs'
  | sleeps ↦ stop waits
  | panics ↦ stop crashed
]

-- What follows the loop.
pub leave_walk : (parent : Bool) → ℕ → List ℕ → Inodes → End
leave_walk parent i name fs =
    let put = elim (iput i fs) as (λ _. End) [ none ↦ crashed | some fs' ↦ missing fs' ] in
    if parent then put else found i name fs

-- The loop, for at most `fuel` rounds: `none` is that they are used up.
pub walk : ℕ → (parent : Bool) → ℕ → (path name : List ℕ) → Inodes → Option End
walk zero parent i path name fs = none
walk (suc fuel) parent i path name fs = elim (skipelem path) [
  | none ↦ some (leave_walk parent i name fs)
  | some (next, rest) ↦ elim (enter_dir parent i next rest fs) [
    | stop e ↦ some e
    | go_on j fs' ↦ walk fuel parent j rest next fs'
  ]
]

-- The inode where the walk starts: `none` is the panic of `iget`.
pub start_inode : ℕ → List ℕ → Inodes → Option (ℕ × Inodes)
start_inode cwd [] fs = some (cwd, idup cwd fs)
start_inode cwd (c ∷ cs) fs =
    if c == b'/' then iget root_dev root_ino fs else some (cwd, idup cwd fs)

-- `name` is what the buffer holds before the call; `none` is that the rounds are used up.
pub namex : (cwd : ℕ) → List ℕ → (parent : Bool) → (name : List ℕ) → Inodes → Option End
namex cwd path parent name fs = elim (start_inode cwd path fs) [
  | none ↦ some crashed
  | some (i, fs') ↦ walk (length path + 1) parent i path name fs'
]
