-- ===== src/Inodes/Lifetime.antt =====
-- How inodes come into use and go out of it.
use cs461_hw.Base.{
  ℕ, zero, suc, ◌+◌, ◌-◌, ◌^◌, ◌≡◌, ◌≢◌, ◌≤◌, ◌<◌, ◌⊎◌, ◌∙◌, refl, sym, ap, subst, fun_ext, true,
  false, Option, none, some, ◌==◌, update, update_self, update_ne, arith, Bool-cases, inl, inr,
  ℕ_discrete,
}
use cs461_hw.Blocks.{Volume, Inode, itrunc}
use cs461_hw.Inodes.{
  ninode, Dinode, Entry, Inodes, dec, is_for, iget, find_free, new_dinode, ialloc, iupdate, is_last,
  drop_ref, free_inode, iput,
}
use cs461_hw.Inodes.Cache.{IsUnique, IsSmall, Got, iget-Got, same_inode-IsUnique}

-- `itrunc` of this inode leaves that volume.
abbrev pub Truncates : Inode → Volume → Volume → Type 0
Truncates ip v v' = (ip' : Inode) × (itrunc ip v ≡ some (ip', v'))

-- What a call of `iput` leaves.
pub record Dropped (i : ℕ) (fs fs' : Inodes) : Type 0 where
  pub count : (fs'.cache i).ref + 1 ≡ (fs.cache i).ref
  pub unique : IsUnique fs'.cache
  pub others : (j : ℕ) → i ≢ j → fs'.cache j ≡ fs.cache j
  pub kept : is_last (fs.cache i) ≡ false → (fs'.dinode ≡ fs.dinode) × (fs'.volume ≡ fs.volume)
  pub freed :
      is_last (fs.cache i) ≡ true
      → ((fs'.dinode (fs.cache i).inum).kind ≡ 0)
        × ((fs'.cache i).valid ≡ false)
        × ((fs'.cache i).node.kind ≡ 0)
        × Truncates (fs.cache i).node.content fs.volume fs'.volume
        × ((n : ℕ) → (fs.cache i).inum ≢ n → fs'.dinode n ≡ fs.dinode n)

abbrev pub DroppedIn : ℕ → Inodes → Option Inodes → Type 0
DroppedIn i fs none =
    (is_last (fs.cache i) ≡ true) × (itrunc (fs.cache i).node.content fs.volume ≡ none)
DroppedIn i fs (some fs') = Dropped i fs fs'

drop_ref-IsUnique :
    (i : ℕ) (fs : Inodes)
    → i < ninode
    → IsUnique fs.cache
    → 0 < (fs.cache i).ref
    → (fs.cache i).ref < 2 ^ 31
    → IsUnique (drop_ref i fs).cache
unfolding drop_ref
drop_ref-IsUnique i fs h u p s =
    same_inode-IsUnique fs.cache i (record (fs.cache i) { ref = dec (fs.cache i).ref }) h u
      (λ d n g. ground arith)

-- What `free_inode` leaves.
record Emptied (i : ℕ) (fs fs' : Inodes) : Type 0 where
  same_inode :
      ((fs'.cache i).ref ≡ (fs.cache i).ref)
      × ((fs'.cache i).dev ≡ (fs.cache i).dev)
      × ((fs'.cache i).inum ≡ (fs.cache i).inum)
  others : (j : ℕ) → i ≢ j → fs'.cache j ≡ fs.cache j
  type_cleared : (fs'.dinode (fs.cache i).inum).kind ≡ 0
  flag_cleared : (fs'.cache i).valid ≡ false
  copy_cleared : (fs'.cache i).node.kind ≡ 0
  truncates : Truncates (fs.cache i).node.content fs.volume fs'.volume
  other_dinodes : (n : ℕ) → (fs.cache i).inum ≢ n → fs'.dinode n ≡ fs.dinode n

abbrev EmptiedIn : ℕ → Inodes → Option Inodes → Type 0
EmptiedIn i fs none = itrunc (fs.cache i).node.content fs.volume ≡ none
EmptiedIn i fs (some fs') = Emptied i fs fs'

free_inode-EmptiedIn : (i : ℕ) (fs : Inodes) → EmptiedIn i fs (free_inode i fs)
unfolding free_inode iupdate
free_inode-EmptiedIn i fs = truncated (itrunc (fs.cache i).node.content fs.volume) refl
  where
    failed : itrunc (fs.cache i).node.content fs.volume ≡ none → free_inode i fs ≡ none
    failed e = rw (e, free_inode) refl

    truncated :
        (r : Option (Inode × Volume))
        → itrunc (fs.cache i).node.content fs.volume ≡ r
        → EmptiedIn i fs (free_inode i fs)
    truncated none e = subst (EmptiedIn i fs) (sym (failed e)) e
    truncated (some (c, v)) e =
        rw (e, free_inode)
          (record {
            same_inode = (ground arith, ground arith, ground arith);
            others = λ j ne. ground arith;
            type_cleared = ground arith;
            flag_cleared = ground arith;
            copy_cleared = ground arith;
            truncates = (c, e);
            other_dinodes = λ n ne. ground arith;
          })

drop_ref-Dropped :
    (i : ℕ) (fs fs' : Inodes)
    → i < ninode
    → IsUnique fs.cache
    → 0 < (fs.cache i).ref
    → (fs.cache i).ref < 2 ^ 31
    → is_last (fs.cache i) ≡ true
    → Emptied i fs fs'
    → Dropped i fs (drop_ref i fs')
unfolding drop_ref
drop_ref-Dropped i fs fs' h u p s last e =
    let (r, d, n) = e.same_inode in
    let back = drop_ref-IsUnique i fs h u p s in
    record {
      count = ground arith;
      unique = unique;
      others = λ j ne. update_ne fs'.cache i j _ ne ∙ e.others j ne;
      kept = λ not_last. absurd (cc (sym last ∙ not_last));
      freed = λ _. (
        e.type_cleared,
        ground (arith, e.flag_cleared),
        ground (arith, e.copy_cleared),
        e.truncates,
        e.other_dinodes,
      );
    }
  where
    entry : Entry
    entry = record (fs'.cache i) { ref = dec (fs'.cache i).ref }

    entries : update fs'.cache i entry ≡ update fs.cache i entry
    entries = fun_ext λ j. elim (ℕ_discrete i j) [
      | yes ij ↦
          ap (update fs'.cache i entry) (sym ij)
          ∙ update_self fs'.cache i entry
          ∙ sym (update_self fs.cache i entry)
          ∙ ap (update fs.cache i entry) ij
      | no nj ↦
          update_ne fs'.cache i j entry nj ∙ e.others j nj ∙ sym (update_ne fs.cache i j entry nj)
    ]

    unique : IsUnique (update fs'.cache i entry)
    unique =
        let (r, d, n) = e.same_inode in
        subst IsUnique (sym entries)
          (same_inode-IsUnique fs.cache i entry h u (λ a b g. ground arith))

-- Where no other process changes the inode while `iput` has given up the lock of the cache, to truncate,
-- `iput` takes a reference away. The last one of an inode without links also clears its type, on disk
-- and in the cache, frees its blocks as `itrunc` does, and makes the cache's copy invalid; otherwise the
-- disk stays. The cache still has one entry for an inode, and nothing happens to other inodes. It panics
-- only where `itrunc` does.
pub iput-DroppedIn :
    (i : ℕ) (fs : Inodes)
    → i < ninode
    → IsUnique fs.cache
    → 0 < (fs.cache i).ref
    → (fs.cache i).ref < 2 ^ 31
    → DroppedIn i fs (iput i fs)
unfolding iput
iput-DroppedIn i fs h u p s = elim (Bool-cases (is_last (fs.cache i))) [
  | inl last ↦ rw last (emptied (free_inode i fs) (free_inode-EmptiedIn i fs) last)
  | inr more ↦ rw more (record {
    count = unfold drop_ref in ground arith;
    unique = drop_ref-IsUnique i fs h u p s;
    others = λ j ne. unfold drop_ref in update_ne fs.cache i j _ ne;
    kept = λ _. unfold drop_ref in (refl, refl);
    freed = λ last. absurd (cc (sym last ∙ more));
  })
]
  where
    emptied :
        (r : Option Inodes)
        → EmptiedIn i fs r
        → is_last (fs.cache i) ≡ true
        → DroppedIn i fs
            (elim r as (λ _. Option Inodes) [ none ↦ none | some fs' ↦ some (drop_ref i fs') ])
    emptied none e last = (last, e)
    emptied (some fs') e last = drop_ref-Dropped i fs fs' h u p s last e

-- What the loop of `ialloc` finds.
abbrev Searched : ℕ → ℕ → (ℕ → Dinode) → Option ℕ → Type 0
Searched k n dinode none = (m : ℕ) → n ≤ m → m < n + k → (dinode m).kind ≢ 0
Searched k n dinode (some m) = (n ≤ m) × (m < n + k) × ((dinode m).kind ≡ 0)

find_free-Searched : (k n : ℕ) (dinode : ℕ → Dinode) → Searched k n dinode (find_free k n dinode)
unfolding find_free
find_free-Searched zero n dinode = λ m a b. absurd (omega arith)
find_free-Searched (suc k) n dinode = elim (Bool-cases ((dinode n).kind == 0)) [
  | inl z ↦ rw z (omega arith, omega arith, ground arith)
  | inr nz ↦
      rw nz
        (later (find_free k (n + 1) dinode) (find_free-Searched k (n + 1) dinode) (ground arith))
]
  where
    later :
        (o : Option ℕ)
        → Searched k (n + 1) dinode o
        → (dinode n).kind ≢ 0
        → Searched (suc k) n dinode o
    later none h nz = λ m a b. elim (ℕ_discrete n m) [
      | yes e ↦ rw (← e) nz
      | no ne ↦ h m (omega arith) (omega arith)
    ]
    later (some m) (a, b, z) nz = (omega arith, omega arith, z)

-- What a call of `ialloc` returns and leaves.
abbrev pub Made : (dev kind : ℕ) → Inodes → Option (ℕ × Inodes) → Type 0
Made dev kind fs none =
    ((m : ℕ) → 1 ≤ m → m < fs.ninodes → (fs.dinode m).kind ≢ 0)
    ⊎ ((l : ℕ) → l < ninode → (fs.cache l).ref ≢ 0)
Made dev kind fs (some (i, fs')) =
    (inum : ℕ) × (1 ≤ inum)
    × (inum < fs.ninodes)
    × ((fs.dinode inum).kind ≡ 0)
    × (fs'.dinode ≡ update fs.dinode inum (new_dinode kind))
    × (is_for dev inum (fs'.cache i) ≡ true)
    × IsUnique fs'.cache

-- `ialloc` takes an inode that is free on disk and not inode 0, sets its type and clears the rest of
-- it, leaves all other inodes on disk, and returns a cached entry for it. It panics only if no inode is
-- free or the cache is full.
pub ialloc-Made :
    (dev kind : ℕ) (fs : Inodes)
    → IsUnique fs.cache
    → IsSmall fs.cache
    → Made dev kind fs (ialloc dev kind fs)
unfolding ialloc
ialloc-Made dev kind fs u s =
    searched (find_free (fs.ninodes - 1) 1 fs.dinode) refl
      (find_free-Searched (fs.ninodes - 1) 1 fs.dinode)
  where
    gotten :
        (inum : ℕ)
        → 1 ≤ inum
        → inum < fs.ninodes
        → (fs.dinode inum).kind ≡ 0
        → (r : Option (ℕ × Inodes))
        → Got dev inum (record fs { dinode = update fs.dinode inum (new_dinode kind) }) r
        → Made dev kind fs r
    gotten inum a b z none g = inr (λ l h. (g l h).1)
    gotten inum a b z (some (i, fs')) (lt, here, count, old, others, unique, same) =
        (inum, a, b, z, same, here, unique)

    searched :
        (o : Option ℕ)
        → find_free (fs.ninodes - 1) 1 fs.dinode ≡ o
        → Searched (fs.ninodes - 1) 1 fs.dinode o
        → Made dev kind fs (ialloc dev kind fs)
    searched none e h = rw (e, ialloc) (inl (λ m a b. h m a (omega arith)))
    searched (some inum) e (a, b, z) =
        rw (e, ialloc)
          (gotten inum a (omega arith) z
            (iget dev inum (record fs { dinode = update fs.dinode inum (new_dinode kind) }))
            (iget-Got dev inum (record fs { dinode = update fs.dinode inum (new_dinode kind) }) u
              s))
