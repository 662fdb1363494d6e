-- ===== src/Inodes.antt =====
-- The inodes of fs.c: the ones on disk by their numbers, and the cache of those in use. Each call is
-- one step under the cache's lock; `ref` is the bit pattern of an `int`.
use cs461_hw.Base.{
  ℕ, zero, suc, ◌+◌, ◌-◌, ◌%◌, ◌^◌, Bool, true, false, not, ◌&&◌, ◌||◌, Option, none, some, ◌==◌,
  ltb, leb, if◌then◌else◌, update,
}
use cs461_hw.Blocks.{Volume, Inode, itrunc}
pub mod Cache
pub mod Held
pub mod Lifetime
mod Tests

abbrev pub ninode : ℕ
ninode = 50

-- `struct dinode`, with its size and its addresses as `content`.
pub record Dinode : Type 0 where
  pub kind : ℕ
  pub major : ℕ
  pub minor : ℕ
  pub nlink : ℕ
  pub content : Inode

-- `struct inode`: `valid` is the flag I_VALID, and `node` the copy of the inode on disk.
pub record Entry : Type 0 where
  pub dev : ℕ
  pub inum : ℕ
  pub ref : ℕ
  pub locked : Bool
  pub valid : Bool
  pub node : Dinode

-- The volume, `sb.ninodes`, the inodes on disk and `icache.inode`.
pub record Inodes : Type 0 where
  pub volume : Volume
  pub ninodes : ℕ
  pub dinode : ℕ → Dinode
  pub cache : ℕ → Entry

abbrev pub is_positive : ℕ → Bool
is_positive r = ltb 0 r && ltb r (2 ^ 31)

abbrev pub inc : ℕ → ℕ
inc r = (r + 1) % 2 ^ 32

abbrev pub dec : ℕ → ℕ
dec r = (r + 2 ^ 32 - 1) % 2 ^ 32

-- Is the entry one for this inode?
abbrev pub is_for : ℕ → ℕ → Entry → Bool
is_for dev inum e = is_positive e.ref && e.dev == dev && e.inum == inum

-- What the loop of `iget` finds: the inode, or an entry to recycle, or neither.
pub data Slot : Type 0 where
  cached : ℕ → Slot
  vacant : ℕ → Slot
  full : Slot

abbrev pub from_empty : Option ℕ → Slot
from_empty none = full
from_empty (some i) = vacant i

-- `if(empty == 0 && ip->ref == 0) empty = ip`
abbrev pub note_empty : ℕ → Entry → Option ℕ → Option ℕ
note_empty i e (some j) = some j
note_empty i e none = if e.ref == 0 then some i else none

-- The loop of `iget` over `k` entries from `i` on.
pub scan_cache : ℕ → ℕ → (dev inum : ℕ) → Option ℕ → (ℕ → Entry) → Slot
scan_cache zero i dev inum empty cache = from_empty empty
scan_cache (suc k) i dev inum empty cache =
    let rest = scan_cache k (i + 1) dev inum (note_empty i (cache i) empty) cache in
    if is_for dev inum (cache i) then cached i else rest

abbrev pub set_entry : ℕ → Entry → Inodes → Inodes
set_entry i e fs = record fs { cache = update fs.cache i e }

-- `iget` with what its loop has found: `none` is the panic.
pub iget_at : (dev inum : ℕ) → Slot → Inodes → Option (ℕ × Inodes)
iget_at dev inum (cached i) fs =
    some (i, set_entry i (record (fs.cache i) { ref = inc (fs.cache i).ref }) fs)
iget_at dev inum (vacant i) fs =
    some
      (i, set_entry i (record (fs.cache i) { dev = dev; inum = inum; ref = 1; valid = false }) fs)
iget_at dev inum full fs = none

pub iget : (dev inum : ℕ) → Inodes → Option (ℕ × Inodes)
iget dev inum fs = iget_at dev inum (scan_cache ninode 0 dev inum none fs.cache) fs

pub idup : ℕ → Inodes → Inodes
idup i fs = set_entry i (record (fs.cache i) { ref = inc (fs.cache i).ref }) fs

-- The loop of `ialloc` over `k` inodes from `inum` on.
pub find_free : ℕ → ℕ → (ℕ → Dinode) → Option ℕ
find_free zero inum dinode = none
find_free (suc k) inum dinode =
    let rest = find_free k (inum + 1) dinode in if (dinode inum).kind == 0 then some inum else rest

-- `memset(dip, 0, sizeof(*dip)); dip->type = type`
pub new_dinode : ℕ → Dinode
new_dinode kind = record {
  kind = kind;
  major = 0;
  minor = 0;
  nlink = 0;
  content = record { addrs = λ _. 0; size = 0 };
}

-- `none` is one of the panics.
pub ialloc : (dev kind : ℕ) → Inodes → Option (ℕ × Inodes)
ialloc dev kind fs = elim (find_free (fs.ninodes - 1) 1 fs.dinode) [
  | none ↦ none
  | some inum ↦ iget dev inum (record fs { dinode = update fs.dinode inum (new_dinode kind) })
]

unfoldable pub iupdate : ℕ → Inodes → Inodes
iupdate i fs = record fs { dinode = update fs.dinode (fs.cache i).inum (fs.cache i).node }

-- How `ilock` ends: locked, asleep on the inode's lock, or at a panic.
pub data Locking : Type 0 where
  got : Inodes → Locking
  sleeps : Locking
  panics : Locking

-- The entry with the lock, and its copy read from disk unless it is valid.
pub load_entry : Entry → (ℕ → Dinode) → Entry
load_entry e dinode =
    if e.valid
    then record e { locked = true }
    else record e { locked = true; valid = true; node = dinode e.inum }

pub ilock : ℕ → Inodes → Locking
ilock i fs =
    let e = fs.cache i in
    let e' = load_entry e fs.dinode in
    if not (is_positive e.ref)
    then panics
    else if e.locked
    then sleeps
    else if not e.valid && e'.node.kind == 0
    then panics
    else got (set_entry i e' fs)

-- `none` is the panic.
pub iunlock : ℕ → Inodes → Option Inodes
iunlock i fs =
    let e = fs.cache i in
    if not e.locked || not (is_positive e.ref)
    then none
    else some (set_entry i (record e { locked = false }) fs)

-- Is this the last reference to an inode without links?
abbrev pub is_last : Entry → Bool
is_last e = e.ref == 1 && e.valid && e.node.nlink == 0

-- `ip->ref--`
pub drop_ref : ℕ → Inodes → Inodes
drop_ref i fs = set_entry i (record (fs.cache i) { ref = dec (fs.cache i).ref }) fs

-- The inode's blocks are freed and its type is cleared, in the cache and on disk.
pub free_inode : ℕ → Inodes → Option Inodes
free_inode i fs = elim (itrunc (fs.cache i).node.content fs.volume) [
  | none ↦ none
  | some (content, volume) ↦
      let e = fs.cache i in
      let cut = iupdate i (
        set_entry i (record e { node = record e.node { content = content } })
          (record fs { volume = volume })) in
      let node = record e.node { content = content; kind = 0 } in
      let freed = iupdate i (set_entry i (record e { node = node }) cut) in
      some (set_entry i (record e { node = node; valid = false }) freed)
]

-- `iput`, where no other process comes between: the code gives up the lock of the cache around
-- `free_inode`. `none` is a panic of `itrunc`.
pub iput : ℕ → Inodes → Option Inodes
iput i fs =
    if is_last (fs.cache i)
    then elim (free_inode i fs) [ none ↦ none | some fs' ↦ some (drop_ref i fs') ]
    else some (drop_ref i fs)

-- `none` is a panic.
pub iunlockput : ℕ → Inodes → Option Inodes
iunlockput i fs = elim (iunlock i fs) [ none ↦ none | some fs' ↦ iput i fs' ]
