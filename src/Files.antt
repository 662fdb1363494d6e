-- ===== src/Files.antt =====
-- file.c: the table of open files, and how `filewrite` cuts a write to an inode into transactions.
use cs461_hw.Base.{
  ℕ, zero, suc, ◌+◌, ◌-◌, ◌/◌, ◌%◌, ◌*◌, ◌^◌, Bool, true, false, not, Option, none, some, List, [],
  ◌∷◌, ◌==◌, ltb, if◌then◌else◌, update, length, take, drop, ℤ, pos, negsuc,
}
use cs461_hw.Log.{log_size}
pub mod Counts
pub mod Chunks
mod Tests

abbrev pub nfile : ℕ
nfile = 100

pub data Kind : Type 0 where
  fd_none : Kind
  fd_pipe : Kind
  fd_inode : Kind

-- `struct file`; pipes and inodes are their addresses.
pub record File : Type 0 where
  pub kind : Kind
  pub ref : ℕ
  pub readable : Bool
  pub writable : Bool
  pub pipe : ℕ
  pub inode : ℕ
  pub off : ℕ

abbrev pub Files : Type 0
Files = ℕ → File

-- The loop of `filealloc` over `k` files from `i` on.
pub find_file : ℕ → ℕ → Files → Option ℕ
find_file zero i t = none
find_file (suc k) i t = let rest = find_file k (i + 1) t in if (t i).ref == 0 then some i else rest

pub filealloc : Files → Option ℕ × Files
filealloc t = elim (find_file nfile 0 t) [
  | none ↦ (none, t)
  | some i ↦ (some i, update t i (record (t i) { ref = 1 }))
]

-- `none` is the panic.
pub filedup : ℕ → Files → Option Files
filedup i t =
    if (t i).ref == 0 then none else some (update t i (record (t i) { ref = (t i).ref + 1 }))

-- What `fileclose` goes on to: nothing, `pipeclose`, or `iput` in a transaction.
pub data Closing : Type 0 where
  nothing : Closing
  close_pipe : ℕ → Bool → Closing
  put_inode : ℕ → Closing

pub closing : File → Closing
closing f = elim f.kind [
  | fd_none ↦ nothing
  | fd_pipe ↦ close_pipe f.pipe f.writable
  | fd_inode ↦ put_inode f.inode
]

-- `none` is the panic.
pub fileclose : ℕ → Files → Option (Closing × Files)
fileclose i t =
    if (t i).ref == 0
    then none
    else if (t i).ref - 1 == 0
    then some (closing (t i), update t i (record (t i) { ref = 0; kind = fd_none }))
    else some (nothing, update t i (record (t i) { ref = (t i).ref - 1 }))

-- `fileread` on a file with what `piperead` and `readi` answer, the latter at the file's offset: the
-- result and the file after it. The outer `none` is the panic.
pub after_read : File → ℤ → ℤ × File
after_read f (pos r) = (pos r, record f { off = (f.off + r) % 2 ^ 32 })
after_read f (negsuc r) = (negsuc r, f)

pub fileread : (from_pipe from_inode : ℤ) → File → Option (ℤ × File)
fileread from_pipe from_inode f = if not f.readable then some (negsuc 0, f) else elim f.kind [
  | fd_none ↦ none
  | fd_pipe ↦ some (from_pipe, f)
  | fd_inode ↦ some (after_read f from_inode)
]

-- `((LOGSIZE-1-1-2) / 2) * 512`
abbrev pub max_chunk : ℕ
max_chunk = (log_size - 1 - 1 - 2) / 2 * 512

-- How the loop of `filewrite` ends, with `f->off`: all written, -1 from `writei`, or the panic.
pub data WriteEnd (S : Type 0) : Type 0 where
  complete : ℕ → S → WriteEnd S
  failed : ℕ → S → WriteEnd S
  short : WriteEnd S
  out_of_rounds : WriteEnd S

-- What a round of the loop of `filewrite` makes of the answer to its `n1` bytes.
pub after_writei : {S : Type 0} → (ℕ → S → WriteEnd S) → ℕ → ℕ → Option ℕ × S → WriteEnd S
after_writei again off n1 (none, s) = failed off s
after_writei again off n1 (some r, s) =
    let rest = again ((off + r) % 2 ^ 32) s in if r == n1 then rest else short

-- The loop of `filewrite` on an inode, for at most `fuel` rounds; `writei off bytes s` is the result
-- of `writei` (`none` is negative) in the transaction of one round, and the state after it.
module _ {S : Type 0} (writei : ℕ → List ℕ → S → Option ℕ × S) where
  pub write_loop : ℕ → ℕ → List ℕ → S → WriteEnd S
  write_loop fuel off [] s = complete off s
  write_loop zero off (b ∷ bs) s = out_of_rounds
  write_loop (suc fuel) off (b ∷ bs) s =
      let chunk = take max_chunk (b ∷ bs) in
      after_writei (λ off' s'. write_loop fuel off' (drop max_chunk (b ∷ bs)) s') off (length chunk)
        (writei off chunk s)

  -- `filewrite` on an inode that is open for writing.
  pub filewrite : ℕ → List ℕ → S → WriteEnd S
  filewrite off bytes s = write_loop (length bytes) off bytes s
