-- ===== src/Log.antt =====
-- log.c: the write-ahead log, over the disk and the contents that the buffer cache shows.
-- A block is its 128 words. `mem b` is what `bread` of block `b` returns, `disk b` what the disk
-- holds. `power` counts the writes that still reach the disk: a crash after `k` writes is a run with
-- `power` `k`. C's `int outstanding` is a bit pattern below 2^32.
use cs461_hw.Base.{
  ℕ, zero, suc, ◌+◌, ◌-◌, ◌*◌, ◌%◌, ◌^◌, Bool, true, false, ◌&&◌, ◌||◌, Option, none, some, ◌==◌,
  ltb, leb, if◌then◌else◌, update,
}
pub mod Disk
pub mod Commit
pub mod Recovery
pub mod Crash
pub mod Space
pub mod Bound
mod Tests

abbrev pub Block : Type 0
Block = ℕ → ℕ

abbrev pub log_size : ℕ  -- LOGSIZE
log_size = 30

abbrev pub max_op_blocks : ℕ  -- MAXOPBLOCKS
max_op_blocks = 10

-- `struct log` with the disk, the cached contents and the B_DIRTY flag of each block.
pub record Machine : Type 0 where
  pub disk : ℕ → Block
  pub mem : ℕ → Block
  pub dirty : ℕ → Bool
  pub power : ℕ
  pub start : ℕ
  pub size : ℕ
  pub outstanding : ℕ
  pub committing : Bool
  pub n : ℕ  -- lh.n
  pub block : ℕ → ℕ  -- lh.block

-- `bwrite` of a buffer whose contents are now `d`: B_DIRTY is set, and `iderw` clears it.
pub bwrite : ℕ → Block → Machine → Machine
bwrite b d m = record m {
  disk = if m.power == 0 then m.disk else update m.disk b d;
  mem = update m.mem b d;
  dirty = update m.dirty b false;
  power = m.power - 1;
}

-- The loop of `write_log`, with `k` rounds left.
pub write_log_from : ℕ → ℕ → Machine → Machine
write_log_from zero tail m = m
write_log_from (suc k) tail m =
    write_log_from k (tail + 1) (bwrite (m.start + tail + 1) (m.mem (m.block tail)) m)

pub write_log : Machine → Machine
write_log m = write_log_from m.n 0 m

-- The loop of `install_trans`.
pub install_from : ℕ → ℕ → Machine → Machine
install_from zero tail m = m
install_from (suc k) tail m =
    install_from k (tail + 1) (bwrite (m.block tail) (m.mem (m.start + tail + 1)) m)

pub install_trans : Machine → Machine
install_trans m = install_from m.n 0 m

-- `hb->block[i] = log.lh.block[i]`: word 0 of the block is `n`, and word `i + 1` is `block[i]`.
pub fill_head : ℕ → ℕ → (ℕ → ℕ) → Block → Block
fill_head zero i block buf = buf
fill_head (suc k) i block buf = fill_head k (i + 1) block (update buf (i + 1) (block i))

pub write_head : Machine → Machine
write_head m = bwrite m.start (fill_head m.n 0 m.block (update (m.mem m.start) 0 m.n)) m

-- `log.lh.block[i] = lh->block[i]`
pub load_head : ℕ → ℕ → Block → (ℕ → ℕ) → ℕ → ℕ
load_head zero i buf block = block
load_head (suc k) i buf block = load_head k (i + 1) buf (update block i (buf (i + 1)))

pub read_head : Machine → Machine
read_head m =
    let buf = m.mem m.start in record m { n = buf 0; block = load_head (buf 0) 0 buf m.block }

pub recover_from_log : Machine → Machine
recover_from_log m = write_head (record (install_trans (read_head m)) { n = 0 })

-- `initlog` after a reset, from the superblock's `logstart` and `nlog`: memory holds nothing, so
-- each `bread` shows the disk, and static storage is zero.
pub initlog : (logstart nlog power : ℕ) → (ℕ → Block) → Machine
initlog logstart nlog power disk = recover_from_log (record {
  disk = disk;
  mem = disk;
  dirty = λ _. false;
  power = power;
  start = logstart;
  size = nlog;
  outstanding = 0;
  committing = false;
  n = 0;
  block = λ _. 0;
})

pub commit : Machine → Machine
commit m =
    if ltb 0 m.n
    then write_head (record (install_trans (write_head (write_log m))) { n = 0 })
    else m

-- `x > LOGSIZE` for the `int` with bit pattern `x`.
pub exceeds : ℕ → Bool
exceeds x = ltb log_size x && ltb x (2 ^ 31)

-- One round of the loop of `begin_op`: `none` is `sleep`, after which the round is made again.
pub begin_op : Machine → Option Machine
begin_op m =
    if m.committing
    then none
    else if exceeds ((m.n + (m.outstanding + 1) * max_op_blocks) % 2 ^ 32)
    then none
    else some (record m { outstanding = (m.outstanding + 1) % 2 ^ 32 })

-- The first locked part of `end_op`: whether to commit. `none` is the panic.
pub end_op_enter : Machine → Option Machine
end_op_enter m =
    let left = (m.outstanding + 2 ^ 32 - 1) % 2 ^ 32 in
    if m.committing
    then none
    else if left == 0
    then some (record m { outstanding = left; committing = true })
    else some (record m { outstanding = left })

pub end_op : Machine → Option Machine
end_op m = elim (end_op_enter m) [
  | none ↦ none
  | some m' ↦ some (if m'.committing then record (commit m') { committing = false } else m')
]

-- The search loop of `log_write`: the index of `b`, or `n`.
pub slot_from : ℕ → ℕ → (ℕ → ℕ) → ℕ → ℕ
slot_from zero i block b = i
slot_from (suc k) i block b =
    let rest = slot_from k (i + 1) block b in if block i == b then i else rest

-- `outstanding < 1` for the `int` with bit pattern `x`.
pub below_one : ℕ → Bool
below_one x = x == 0 || leb (2 ^ 31) x

-- The locked part of `log_write`, for block `b` whose buffer now holds `d`.
pub absorb : ℕ → Block → Machine → Machine
absorb b d m =
    let i = slot_from m.n 0 m.block b in
    record m {
      mem = update m.mem b d;
      dirty = update m.dirty b true;
      block = update m.block i b;
      n = if i == m.n then m.n + 1 else m.n;
    }

-- `none` is a panic. `n >= size - 1` is a comparison of `int`s, so nothing is cut off at 0.
pub log_write : ℕ → Block → Machine → Option Machine
log_write b d m =
    if leb log_size m.n || leb m.size (m.n + 1)
    then none
    else if below_one m.outstanding
    then none
    else some (absorb b d m)
