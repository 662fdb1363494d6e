-- ===== src/Blocks/Content.antt =====
-- `readi` and `writei` of fs.c on a file or directory, over the blocks of an inode. Blocks are read as
-- bytes here: byte `i` of a block is byte `i % 4`, from the lowest, of its word `i / 4`.
use cs461_hw.Base.{
  ℕ, zero, suc, ◌+◌, ◌-◌, ◌*◌, ◌/◌, ◌%◌, ◌^◌, Bool, true, false, ◌&&◌, ◌||◌, Option, none, some,
  List, [], ◌∷◌, ◌++◌, ◌==◌, ltb, if◌then◌else◌, update, length, take, drop, min,
}
use cs461_hw.Blocks.{Volume, Inode, bmap}
mod Word
pub mod Owned
mod Fresh
mod Finding
pub mod Data
pub mod Loops
pub mod Refines
pub mod Sizes
mod Freeing
pub mod Truncate
mod Tests

abbrev pub bsize : ℕ
bsize = 512

-- `MAXFILE`
abbrev pub max_file : ℕ
max_file = 140

-- Byte `k` of a word, and the word with it set.
pub byte_in : ℕ → ℕ → ℕ
byte_in w zero = w % 256
byte_in w (suc k) = byte_in (w / 256) k

pub set_in : ℕ → ℕ → ℕ → ℕ
set_in w zero x = w / 256 * 256 + x
set_in w (suc k) x = set_in (w / 256) k x * 256 + w % 256

pub get_byte : Volume → ℕ → ℕ → ℕ
get_byte v b i = byte_in (v.word b (i / 4)) (i % 4)

pub put_byte : ℕ → ℕ → ℕ → Volume → Volume
put_byte b i x v = record v {
  word = update v.word b (update (v.word b) (i / 4) (set_in (v.word b (i / 4)) (i % 4) x));
}

-- `memmove` out of a block and into it.
pub get_bytes : ℕ → ℕ → ℕ → Volume → List ℕ
get_bytes zero b i v = []
get_bytes (suc m) b i v = get_byte v b i ∷ get_bytes m b (i + 1) v

pub put_bytes : ℕ → ℕ → List ℕ → Volume → Volume
put_bytes b i [] v = v
put_bytes b i (x ∷ xs) v = put_bytes b (i + 1) xs (put_byte b i x v)

-- How a loop ends: with a value, at a panic of `bmap`, or with no rounds left.
pub data Run {ℓ} (A : Type ℓ) : Type ℓ where
  ok : A → Run A
  panic : Run A
  out_of_rounds : Run A

-- `m`, for `n` bytes left at offset `off`.
abbrev pub chunk : ℕ → ℕ → ℕ
chunk off n = min n (bsize - off % bsize)

-- What `readi` still has to do after its bytes of one block.
pub join_read : List ℕ → Run (List ℕ × Inode × Volume) → Run (List ℕ × Inode × Volume)
join_read bs (ok (cs, ip, v)) = ok (bs ++ cs, ip, v)
join_read bs panic = panic
join_read bs out_of_rounds = out_of_rounds

-- The loop of `readi` for `n` bytes at `off`; `bmap` may allocate here too.
pub read_loop : ℕ → ℕ → ℕ → Inode → Volume → Run (List ℕ × Inode × Volume)
read_loop fuel off zero ip v = ok ([], ip, v)
read_loop zero off (suc n) ip v = out_of_rounds
read_loop (suc fuel) off (suc n) ip v = elim (bmap (off / bsize) ip v) [
  | none ↦ panic
  | some (b, ip', v') ↦
      let m = chunk off (suc n) in
      join_read (get_bytes m b (off % bsize) v') (read_loop fuel (off + m) (suc n - m) ip' v')
]

-- The loop of `writei` for these bytes at `off`.
pub write_loop : ℕ → ℕ → List ℕ → Inode → Volume → Run (Inode × Volume)
write_loop fuel off [] ip v = ok (ip, v)
write_loop zero off (x ∷ xs) ip v = out_of_rounds
write_loop (suc fuel) off (x ∷ xs) ip v = elim (bmap (off / bsize) ip v) [
  | none ↦ panic
  | some (b, ip', v') ↦
      let m = chunk off (length (x ∷ xs)) in
      write_loop fuel (off + m) (drop m (x ∷ xs)) ip'
        (put_bytes b (off % bsize) (take m (x ∷ xs)) v')
]

pub read_end : Run (List ℕ × Inode × Volume) → Run (Option (List ℕ) × Inode × Volume)
read_end (ok (bs, ip, v)) = ok (some bs, ip, v)
read_end panic = panic
read_end out_of_rounds = out_of_rounds

-- `readi`, where the inode is no device: `none` is -1.
pub readi : ℕ → ℕ → Inode → Volume → Run (Option (List ℕ) × Inode × Volume)
readi off n ip v =
    let n' = if ltb ip.size ((off + n) % 2 ^ 32) then ip.size - off else n in
    if ltb ip.size off || ltb ((off + n) % 2 ^ 32) off
    then ok (none, ip, v)
    else read_end (read_loop n' off n' ip v)

-- The end of `writei` after `n` bytes up to `off`, and whether it calls `iupdate`.
pub write_end : ℕ → ℕ → Run (Inode × Volume) → Run (Option ℕ × Inode × Volume × Bool)
write_end n off (ok (ip, v)) =
    if ltb 0 n && ltb ip.size off
    then ok (some n, record ip { size = off }, v, true)
    else ok (some n, ip, v, false)
write_end n off panic = panic
write_end n off out_of_rounds = out_of_rounds

-- `writei`, where the inode is no device: `none` is -1.
pub writei : ℕ → List ℕ → Inode → Volume → Run (Option ℕ × Inode × Volume × Bool)
writei off bytes ip v =
    let n = length bytes in
    if ltb ip.size off || ltb ((off + n) % 2 ^ 32) off
    then ok (none, ip, v, false)
    else if ltb (max_file * bsize) ((off + n) % 2 ^ 32)
    then ok (none, ip, v, false)
    else write_end n (off + n) (write_loop n off bytes ip v)
