-- ===== src/Directories/Ending.antt =====
-- `dirlookup` on any inode: its loop has rounds enough, and it locks and unlocks nothing.
use cs461_hw.Base.{
  ℕ, zero, suc, ◌+◌, ◌≡◌, ◌≤◌, ◌∙◌, refl, Bool, false, not, Option, none, some, List, ◌==◌, ltb,
  if◌then◌else◌, length, arith, Bool-cases, inl, inr,
}
use cs461_hw.Blocks.{Volume, Inode}
use cs461_hw.Blocks.Content.{Run, ok, panic, out_of_rounds, readi}
use cs461_hw.Blocks.Content.Sizes.{SizedRead, readi-SizedRead}
use cs461_hw.Inodes.{Inodes, iget}
use cs461_hw.Inodes.Held.{SameLocks, SameLocksGot, set_entry-SameLocks, iget-SameLocks}
use cs461_hw.Directories.{
  dirent_size, ◌>>=◌, inum_of, scan_dir, is_named, find_name, with_content, enter_inode, dirlookup,
}

-- The loop has ended by itself.
abbrev Ends : Run (Option (List ℕ) × ℕ × Inode × Volume) → Type 0
Ends (ok _) = Unit
Ends panic = Unit
Ends out_of_rounds = ⊥

scan_dir-Ends :
    (stop : List ℕ → Bool) (fuel off : ℕ) (ip : Inode) (v : Volume)
    → ip.size ≤ off + fuel
    → Ends (scan_dir stop fuel off ip v)
unfolding scan_dir
scan_dir-Ends stop zero off ip v f = let done : ltb off ip.size ≡ false = ground arith in rw done tt
scan_dir-Ends stop (suc fuel) off ip v f = elim (Bool-cases (ltb off ip.size)) [
  | inr past ↦ rw past tt
  | inl more ↦ rw more (
      round (readi off dirent_size ip v) (readi-SizedRead off dirent_size ip v)
        (λ ip' v' e. scan_dir-Ends stop fuel (off + dirent_size) ip' v' (omega (arith, e))))
]
  where
    round :
        (r : Run (Option (List ℕ) × Inode × Volume))
        → SizedRead ip.size r
        → ((ip' : Inode) (v' : Volume)
            → ip'.size ≡ ip.size
            → Ends (scan_dir stop fuel (off + dirent_size) ip' v'))
        → Ends (
            r >>= λ (got, ip', v'). elim got [
              | none ↦ panic
              | some de ↦
                  let rest = scan_dir stop fuel (off + dirent_size) ip' v' in
                  if not (length de == dirent_size)
                  then panic
                  else if stop de
                  then ok (some de, off, ip', v')
                  else rest
            ])
    round panic s ih = tt
    round out_of_rounds s ih = s
    round (ok (none, ip', v')) s ih = tt
    round (ok (some de, ip', v')) s ih = elim (Bool-cases (not (length de == dirent_size))) [
      | inl bad ↦ rw bad tt
      | inr full ↦ elim (Bool-cases (stop de)) [
        | inl here ↦ rw (full, here) tt
        | inr other ↦ rw (full, other) (ih ip' v' s)
      ]
    ]

-- It ends, and the same inodes are locked where it returns.
abbrev pub Locked : Inodes → Run (Option (ℕ × ℕ) × Inodes) → Type 0
Locked fs (ok (_, fs')) = SameLocks fs fs'
Locked fs panic = Unit
Locked fs out_of_rounds = ⊥

with_content-SameLocks :
    (i : ℕ) (ip : Inode) (v : Volume) (fs : Inodes) → SameLocks fs (with_content i ip v fs)
with_content-SameLocks i ip v fs = set_entry-SameLocks i _ (record fs { volume = v }) refl

enter_inode-Locked :
    (dev : ℕ) (de : Option (List ℕ)) (off : ℕ) (fs fs' : Inodes)
    → SameLocks fs fs'
    → Locked fs (enter_inode dev de off fs')
unfolding enter_inode
enter_inode-Locked dev none off fs fs' h = h
enter_inode-Locked dev (some de) off fs fs' h =
    entered (iget dev (inum_of de) fs') (iget-SameLocks dev (inum_of de) fs')
  where
    entered :
        (r : Option (ℕ × Inodes))
        → SameLocksGot fs' r
        → Locked fs (elim r as (λ _. Run (Option (ℕ × ℕ) × Inodes)) [
          | none ↦ panic
          | some (k, fs'') ↦ ok (some (k, off), fs'')
        ])
    entered none g = tt
    entered (some (k, fs'')) g = λ l. g l ∙ h l

pub dirlookup-Locked : (i : ℕ) (name : List ℕ) (fs : Inodes) → Locked fs (dirlookup i name fs)
unfolding dirlookup find_name
dirlookup-Locked i name fs = elim (Bool-cases (not ((fs.cache i).node.kind == 1))) [
  | inl other ↦ rw other tt
  | inr dir ↦
      let ip = (fs.cache i).node.content in
      rw dir (
        looked (scan_dir (is_named name) ip.size 0 ip fs.volume)
          (scan_dir-Ends (is_named name) ip.size 0 ip fs.volume (omega arith)))
]
  where
    looked :
        (r : Run (Option (List ℕ) × ℕ × Inode × Volume))
        → Ends r
        → Locked fs
            (r >>= λ (de, off, ip, v). enter_inode (fs.cache i).dev de off (with_content i ip v fs))
    looked panic e = tt
    looked out_of_rounds e = e
    looked (ok (de, off, ip, v)) e =
        enter_inode-Locked (fs.cache i).dev de off fs (with_content i ip v fs)
          (with_content-SameLocks i ip v fs)
