-- ===== src/Bcache.antt =====
-- bio.c and memide.c: the buffer cache as its list from most to least recently used, and the disk in
-- memory. Each call is one step: `bget` is shown for a caller that finds the lock of its buffer free.
use mathlib.Core.Option
use cs461_hw.Base.{
  ℕ, zero, suc, ◌+◌, ◌-◌, Bool, true, false, not, ◌&&◌, ◌||◌, Option, none, some, List, [], ◌∷◌,
  ◌++◌, ◌==◌, ltb, leb, if◌then◌else◌, update, ◌%◌, ◌^◌,
}
pub mod Keys
pub mod Contents
mod Tests

abbrev pub nbuf : ℕ
nbuf = 30

abbrev pub Block : Type 0
Block = ℕ → ℕ

-- `struct buf`; `id` is its place in the array.
pub record Buf : Type 0 where
  pub id : ℕ
  pub valid : Bool
  pub dirty : Bool
  pub dev : ℕ
  pub blockno : ℕ
  pub locked : Bool
  pub refcnt : ℕ
  pub bytes : Block

-- A buffer of the zeroed array.
pub blank : ℕ → Buf
blank i = record {
  id = i;
  valid = false;
  dirty = false;
  dev = 0;
  blockno = 0;
  locked = false;
  refcnt = 0;
  bytes = λ _. 0;
}

-- The loop of `binit`: each buffer goes to the front.
pub binit_from : ℕ → ℕ → List Buf → List Buf
binit_from zero i bufs = bufs
binit_from (suc k) i bufs = binit_from k (i + 1) (blank i ∷ bufs)

pub binit : List Buf
binit = binit_from nbuf 0 []

abbrev pub has_block : ℕ → ℕ → Buf → Bool
has_block dev blockno b = b.dev == dev && b.blockno == blockno

-- A cached buffer is taken: `refcnt++`, and its lock.
pub grab : Buf → Buf
grab b = record b { refcnt = (b.refcnt + 1) % 2 ^ 32; locked = true }

-- The first loop of `bget`, from the front.
pub find_cached : ℕ → ℕ → List Buf → Option (List Buf)
find_cached dev blockno [] = none
find_cached dev blockno (b ∷ bs) =
    let rest = find_cached dev blockno bs in
    if has_block dev blockno b then some (grab b ∷ bs) else Option.map (λ bs'. b ∷ bs') rest

abbrev pub is_free : Buf → Bool
is_free b = b.refcnt == 0 && not b.dirty

pub recycle : ℕ → ℕ → Buf → Buf
recycle dev blockno b = record b {
  dev = dev;
  blockno = blockno;
  valid = false;
  dirty = false;
  refcnt = 1;
  locked = true;
}

-- The second loop of `bget`, from the back.
pub find_free : ℕ → ℕ → List Buf → Option (List Buf)
find_free dev blockno [] = none
find_free dev blockno (b ∷ bs) = elim (find_free dev blockno bs) [
  | some bs' ↦ some (b ∷ bs')
  | none ↦ if is_free b then some (recycle dev blockno b ∷ bs) else none
]

-- `none` is the panic.
pub bget : ℕ → ℕ → List Buf → Option (List Buf)
bget dev blockno bufs = elim (find_cached dev blockno bufs) [
  | some bufs' ↦ some bufs'
  | none ↦ find_free dev blockno bufs
]

-- `iderw` of memide.c on a disk of `size` blocks: `none` is one of its panics.
pub iderw : ℕ → Buf → (ℕ → Block) → Option (Buf × (ℕ → Block))
iderw size b disk =
    if not b.locked || b.valid && not b.dirty || not (b.dev == 1) || leb size b.blockno
    then none
    else if b.dirty
    then some (record b { dirty = false; valid = true }, update disk b.blockno b.bytes)
    else some (record b { bytes = disk b.blockno; valid = true }, disk)

-- `bread` once it has the buffer.
pub fill : ℕ → Buf → (ℕ → Block) → Option (Buf × (ℕ → Block))
fill size b disk = if b.valid then some (b, disk) else iderw size b disk

-- `bwrite`
pub bwrite : ℕ → Buf → (ℕ → Block) → Option (Buf × (ℕ → Block))
bwrite size b disk = if b.locked then iderw size (record b { dirty = true }) disk else none

-- `b->refcnt--` and the unlocking in `brelse`.
pub drop_ref : Buf → Buf
drop_ref b = record b { refcnt = (b.refcnt + 2 ^ 32 - 1) % 2 ^ 32; locked = false }

-- The buffer with this id, and the others in order.
pub take_out : ℕ → List Buf → Option (Buf × List Buf)
take_out i [] = none
take_out i (b ∷ bs) =
    let rest = Option.map (λ (r : Buf × List Buf). (r.0, b ∷ r.1)) (take_out i bs) in
    if b.id == i then some (b, bs) else rest

-- The buffer with this id released where it stands.
pub release_at : ℕ → List Buf → List Buf
release_at i [] = []
release_at i (b ∷ bs) =
    let rest = release_at i bs in if b.id == i then drop_ref b ∷ bs else b ∷ rest

-- `brelse`: the last reference moves the buffer to the front. `none`: no such buffer, or the panic.
pub brelse : ℕ → List Buf → Option (List Buf)
unfolding drop_ref
brelse i bufs = elim (take_out i bufs) [
  | none ↦ none
  | some (b, others) ↦
      if not b.locked
      then none
      else if (drop_ref b).refcnt == 0
      then some (drop_ref b ∷ others)
      else some (release_at i bufs)
]
