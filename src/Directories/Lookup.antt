-- ===== src/Directories/Lookup.antt =====
-- `dirlookup` and `dirlink` on the inodes in use.
use cs461_hw.Base.{
  ℕ, ◌+◌, ◌*◌, ◌≡◌, ◌≢◌, ◌≤◌, ◌<◌, ◌⊎◌, ◌∙◌, refl, sym, ap, subst, Bool, true, false, Option, none,
  some, List, ◌==◌, if◌then◌else◌, arith, Bool-cases, inl, inr, update_self,
}
use cs461_hw.Blocks.{Volume, Inode}
use cs461_hw.Blocks.Content.{Run, ok, panic, out_of_rounds}
use cs461_hw.Blocks.Content.Owned.{own, Owns, Extends}
use cs461_hw.Blocks.Content.Data.{contents, limit, AllBytes}
use cs461_hw.Blocks.Content.Loops.{Hole}
use cs461_hw.Inodes.{ninode, Entry, Inodes, iget, iput, iupdate, is_for}
use cs461_hw.Inodes.Cache.{IsUnique, IsSmall, Got, iget-Got, same_inode-IsUnique}
use cs461_hw.Directories.{
  t_dir, dirent_size, ◌>>=◌, inum_of, is_named, is_vacant, namecmp, find_name, add_name,
  with_content, enter_inode, dirlookup, dirlink,
}
use cs461_hw.Directories.Scanning.{entry, entry-Extends, Scanned, scan_dir-Scanned}
use cs461_hw.Directories.Linking.{IsFull, Resolves, AddedIn, add_name-AddedIn}

-- The contents of the inode in cache entry `i`, and its bytes.
abbrev pub content_of : ℕ → Inodes → Inode
content_of i fs = (fs.cache i).node.content

abbrev pub bytes_of : ℕ → Inodes → ℕ → ℕ
bytes_of i fs = contents (content_of i fs) fs.volume

-- A directory of `n` entries in cache entry `i`, and a cache in order.
pub record IsDirectory (i n : ℕ) (fs : Inodes) : Type 0 where
  pub in_cache : i < ninode
  pub whole : n * dirent_size ≡ (content_of i fs).size
  pub bounded : (content_of i fs).size ≤ limit
  pub owns : Owns (own (content_of i fs) fs.volume) fs.volume.used
  pub unique : IsUnique fs.cache
  pub small : IsSmall fs.cache

-- Why a search can panic.
abbrev pub Stuck : ℕ → Inodes → Type 0
Stuck i fs =
    ((fs.cache i).node.kind ≢ t_dir)
    ⊎ Hole 0 (content_of i fs).size (content_of i fs) fs.volume
    ⊎ ((l : ℕ) → l < ninode → (fs.cache l).ref ≢ 0)

abbrev pub Looked : ℕ → List ℕ → ℕ → Inodes → Run (Option (ℕ × ℕ) × Inodes) → Type 0
Looked i name n fs (ok (none, fs')) =
    Resolves (bytes_of i fs) n name none
    × Extends (content_of i fs) fs.volume (content_of i fs') fs'.volume
    × (fs'.dinode ≡ fs.dinode)
Looked i name n fs (ok (some (k, off), fs')) =
    (inum : ℕ) × (r : Resolves (bytes_of i fs) n name (some inum)) × (off ≡ r.0 * dirent_size)
    × (is_for (fs.cache i).dev inum (fs'.cache k) ≡ true)
    × ((fs'.cache k).ref ≡ (fs.cache k).ref + 1)
    × IsUnique fs'.cache
    × (fs'.dinode ≡ fs.dinode)
Looked i name n fs panic = Stuck i fs
Looked i name n fs out_of_rounds = ⊥

content_self :
    (i : ℕ) (ip : Inode) (v : Volume) (fs : Inodes) → content_of i (with_content i ip v fs) ≡ ip
content_self i ip v fs =
    ap (λ (x : Entry). x.node.content)
      (update_self fs.cache i
        (record (fs.cache i) { node = record (fs.cache i).node { content = ip } }))

module _ (i n : ℕ) (name : List ℕ) (fs : Inodes) (d : IsDirectory i n fs) where
  -- New contents leave the cache in order.
  content-IsUnique : (ip : Inode) (v : Volume) → IsUnique (with_content i ip v fs).cache
  content-IsUnique ip v =
      same_inode-IsUnique fs.cache i
        (record (fs.cache i) { node = record (fs.cache i).node { content = ip } }) d.in_cache
        d.unique (λ a b g. g)

  content-same_ref :
      (ip : Inode) (v : Volume) (l : ℕ) → ((with_content i ip v fs).cache l).ref ≡ (fs.cache l).ref
  content-same_ref ip v l = ground arith

  entered :
      (inum : ℕ) (ip : Inode) (v : Volume) (off : ℕ) (r : Option (ℕ × Inodes))
      → (place : Resolves (bytes_of i fs) n name (some inum)) → off ≡ place.0 * dirent_size
      → Got (fs.cache i).dev inum (with_content i ip v fs) r
      → Looked i name n fs (elim r as (λ _. Run (Option (ℕ × ℕ) × Inodes)) [
        | none ↦ panic
        | some (k, fs') ↦ ok (some (k, off), fs')
      ])
  entered inum ip v off none r at g = inr (inr (λ l h e. (g l h).1 (content-same_ref ip v l ∙ e)))
  entered inum ip v off (some (k, fs')) r at (lt, here, count, old, others, unique, same) =
      (inum, r, at, here, count ∙ ap (λ m. m + 1) (content-same_ref ip v k), unique, same)

  looked :
      (r : Run (Option (List ℕ) × ℕ × Inode × Volume))
      → Scanned (is_named name) 0 n (content_of i fs) fs.volume r
      → Looked i name n fs
          (r >>= λ (de, off, ip, v). enter_inode (fs.cache i).dev de off (with_content i ip v fs))
  unfolding enter_inode
  looked panic h = inr (inl h)
  looked out_of_rounds h = h
  looked (ok (none, off, ip, v)) (s, e) = (
    λ k lt. s.none_stops k (omega arith) lt,
    subst (λ c. Extends (content_of i fs) fs.volume c v) (sym (content_self i ip v fs)) e,
    refl,
  )
  looked (ok (some de, off, ip, v)) (s, e) =
      entered (inum_of de) ip v off (iget (fs.cache i).dev (inum_of de) (with_content i ip v fs))
        (
          s.index,
          s.in_dir,
          ap (is_named name) (sym s.text) ∙ s.stops,
          ap inum_of (sym s.text),
          λ l lt. s.first l (omega arith) lt,
        )
        s.offset
        (iget-Got (fs.cache i).dev (inum_of de) (with_content i ip v fs) (content-IsUnique ip v)
          (λ j h. subst (λ k. k < 2147483647) (sym (content-same_ref ip v j)) (d.small j h)))

-- Take a directory whose size is a number of entries within the largest file and whose blocks are its
-- own, and an inode cache with one entry for each inode and reference counts below the largest int.
-- `dirlookup` returns the offset of the first entry with the name and the cache entry of that entry's
-- inode, to which it has added one reference, or NULL exactly where no entry has the name. It always
-- ends, and panics only on an inode that is no directory, on a block of the directory that is missing,
-- or with the inode cache full.
pub dirlookup-Looked :
    (i n : ℕ) (name : List ℕ) (fs : Inodes)
    → IsDirectory i n fs
    → Looked i name n fs (dirlookup i name fs)
unfolding dirlookup find_name
dirlookup-Looked i n name fs d = elim (Bool-cases ((fs.cache i).node.kind == 1)) [
  | inr other ↦ rw other (inl (ground arith))
  | inl dir ↦ rw dir (
      looked i n name fs d (find_name name (content_of i fs) fs.volume) (
        scan_dir-Scanned (is_named name) (content_of i fs).size 0 n (content_of i fs) fs.volume
          d.whole d.bounded (omega arith) (omega (arith, d.whole)) d.owns))
]

Resolves-same :
    (f f' : ℕ → ℕ) (n : ℕ) (q : List ℕ) (r : Option ℕ)
    → ((k : ℕ) → k < n → entry f' k ≡ entry f k)
    → Resolves f n q r
    → Resolves f' n q r
Resolves-same f f' n q none same h = λ k lt. ap (is_named q) (same k lt) ∙ h k lt
Resolves-same f f' n q (some m) same (k, lt, a, b, c) = (
  k,
  lt,
  ap (is_named q) (same k lt) ∙ a,
  ap inum_of (same k lt) ∙ b,
  λ l h. ap (is_named q) (same l (omega arith)) ∙ c l h,
)

-- A directory with these contents, in which `name` resolves to `inum`, and all other names to what they
-- did among the `n` entries of `f`.
abbrev pub HasName : List ℕ → ℕ → ℕ → (ℕ → ℕ) → Inode → Volume → Type 0
HasName name inum n f ip v =
    (n' : ℕ) × (n' * dirent_size ≡ ip.size)
    × Owns (own ip v) v.used
    × Resolves (contents ip v) n' name (some inum)
    × ((q : List ℕ) (r : Option ℕ)
        → namecmp q name ≡ false
        → Resolves f n q r
        → Resolves (contents ip v) n' q r)

-- What a call of `dirlink` leaves.
abbrev pub Linked : ℕ → List ℕ → ℕ → ℕ → Inodes → Run (Bool × Inodes) → Type 0
Linked i name inum n fs (ok (false, fs')) =
    (other : ℕ) × Resolves (bytes_of i fs) n name (some other)
Linked i name inum n fs (ok (true, fs')) =
    Resolves (bytes_of i fs) n name none
    × HasName name inum n (bytes_of i fs) (content_of i fs') fs'.volume
Linked i name inum n fs panic =
    Stuck i fs
    ⊎ Hole 0 ((content_of i fs).size + dirent_size) (content_of i fs) fs.volume
    ⊎ ((other : ℕ) × Resolves (bytes_of i fs) n name (some other))
    ⊎ IsFull n (content_of i fs) fs.volume
Linked i name inum n fs out_of_rounds = ⊥

module _ (i n inum : ℕ) (name : List ℕ) (fs : Inodes) (d : IsDirectory i n fs)
    (bytes : AllBytes name) (small : inum < 65536) (nz : inum ≢ 0) where
  same_entries :
      (fs' : Inodes) (k : ℕ)
      → Extends (content_of i fs) fs.volume (content_of i fs') fs'.volume
      → k < n
      → entry (bytes_of i fs') k ≡ entry (bytes_of i fs) k
  same_entries fs' k e lt = entry-Extends k e (omega (arith, d.whole, d.bounded))

  added :
      (fs' : Inodes) (r : Run (Inode × Volume × Bool))
      → Resolves (bytes_of i fs) n name none
      → Extends (content_of i fs) fs.volume (content_of i fs') fs'.volume
      → AddedIn inum name n (content_of i fs') fs'.volume r
      → Linked i name inum n fs (
          r >>= λ (ip, v, update).
          let linked = with_content i ip v fs' in
          if update then ok (true, iupdate i linked) else ok (true, linked))
  unfolding iupdate
  added fs' panic none_now e (inl h) = inr (
      inl (record {
        some_byte = omega arith;
        place = h.place;
        first = omega arith;
        last = omega (arith, h.last, e.same_size);
        empty = e.keeps_blocks h.place (omega (arith, h.last, e.same_size, d.bounded)) h.empty;
      }))
  added fs' panic none_now e (inr (far, full)) = inr (
      inr (
        inr (
          omega (arith, e.same_size),
          λ k lt. ap is_vacant (sym (same_entries fs' k e lt)) ∙ full k lt,
        )))
  added fs' out_of_rounds none_now e h = h
  added fs' (ok (ip, v, update)) none_now e (n', size, owns, new, kept, _) =
      elim (Bool-cases update) [ inl t ↦ rw t (none_now, there) | inr f ↦ rw f (none_now, there) ]
    where
      there : HasName name inum n (bytes_of i fs) (content_of i (with_content i ip v fs')) v
      there =
          subst (λ c. HasName name inum n (bytes_of i fs) c v) (sym (content_self i ip v fs'))
            (
              n',
              size,
              owns,
              new (
                  Resolves-same (bytes_of i fs) (bytes_of i fs') n name none
                    (λ k lt. same_entries fs' k e lt) none_now),
              λ q r dd h. kept q r dd (
                  Resolves-same (bytes_of i fs) (bytes_of i fs') n q r
                    (λ k lt. same_entries fs' k e lt) h),
            )

  put :
      (other : ℕ) (r : Option Inodes)
      → Resolves (bytes_of i fs) n name (some other)
      → Linked i name inum n fs
          (elim r as (λ _. Run (Bool × Inodes)) [ none ↦ panic | some fs'' ↦ ok (false, fs'') ])
  put other none h = inr (inr (inl (other, h)))
  put other (some fs'') h = (other, h)

  linked :
      (r : Run (Option (ℕ × ℕ) × Inodes))
      → Looked i name n fs r
      → Linked i name inum n fs (
          r >>= λ (found, fs'). elim found as (λ _. Run (Bool × Inodes)) [
            | some (k, _) ↦ elim (iput k fs') as (λ _. Run (Bool × Inodes)) [
              | none ↦ panic
              | some fs'' ↦ ok (false, fs'')
            ]
            | none ↦ add_name inum name (fs'.cache i).node.content fs'.volume >>= λ (ip, v, update).
                let linked = with_content i ip v fs' in
                (if update then ok (true, iupdate i linked) else ok (true, linked))
          ])
  linked panic h = inl h
  linked out_of_rounds h = h
  linked (ok (some (k, off), fs')) (other, r, _, _, _, _, _) = put other (iput k fs') r
  linked (ok (none, fs')) (r, e, _) =
      added fs' (add_name inum name (content_of i fs') fs'.volume) r e (
        add_name-AddedIn inum name n (content_of i fs') fs'.volume e.owns
          (d.whole ∙ sym e.same_size) (omega (arith, e.same_size, d.bounded)) bytes small nz)

-- Take a directory whose size is a number of entries within the largest file and whose blocks are its
-- own, an inode cache with one entry for each inode and reference counts below the largest int, a name
-- made of bytes, and an inode number other than 0 that 16 bits hold. `dirlink` returns -1 only where the
-- directory has the name, and 0 only where it has not; then the name resolves to the inode number
-- afterwards, and all other names to what they did. Names are compared by their first 14 characters. It
-- always ends, and panics only on an inode that is no directory, on a block of the directory that is
-- missing, with the inode cache full, while it drops the inode of a name that is there, or where the
-- directory has no vacant entry and no room for another.
pub dirlink-Linked :
    (i n inum : ℕ) (name : List ℕ) (fs : Inodes)
    → IsDirectory i n fs
    → AllBytes name
    → inum < 65536
    → inum ≢ 0
    → Linked i name inum n fs (dirlink i name inum fs)
unfolding dirlink
dirlink-Linked i n inum name fs d bytes small nz =
    linked i n inum name fs d bytes small nz (dirlookup i name fs) (dirlookup-Looked i n name fs d)
