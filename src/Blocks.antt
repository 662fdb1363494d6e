-- ===== src/Blocks.antt =====
-- The block layer of fs.c: the free bitmap, and the blocks of an inode. A volume shows each block as
-- the buffer cache holds it, in words of four bytes, and the blocks of the bitmap as their bits.
use cs461_hw.Base.{
  ℕ, zero, suc, ◌+◌, ◌-◌, Bool, true, false, not, Option, none, some, ◌==◌, ltb, if◌then◌else◌,
  update,
}
pub mod Bitmap
pub mod Mapping
pub mod Content

abbrev pub ndirect : ℕ
ndirect = 12

abbrev pub nindirect : ℕ
nindirect = 128

-- `size` is `sb.size`; `used` is the bit of a block.
pub record Volume : Type 0 where
  pub size : ℕ
  pub used : ℕ → Bool
  pub word : ℕ → ℕ → ℕ

pub bzero : ℕ → Volume → Volume
bzero b v = record v { word = update v.word b (λ _. 0) }

-- The two loops of `balloc`, over `k` blocks from `b` on: the bits of all the bitmap blocks in order.
pub find_clear : ℕ → ℕ → (ℕ → Bool) → Option ℕ
find_clear zero b used = none
find_clear (suc k) b used = let rest = find_clear k (b + 1) used in if used b then rest else some b

pub mark : ℕ → Volume → Volume
mark b v = record v { used = update v.used b true }

-- `none` is the panic.
pub balloc : Volume → Option (ℕ × Volume)
balloc v = elim (find_clear v.size 0 v.used) [ none ↦ none | some b ↦ some (b, bzero b (mark b v)) ]

-- `none` is the panic.
pub bfree : ℕ → Volume → Option Volume
bfree b v = if v.used b then some (record v { used = update v.used b false }) else none

-- The fields of `struct inode` that hold its blocks.
pub record Inode : Type 0 where
  pub addrs : ℕ → ℕ
  pub size : ℕ

-- `if((addr = x) == 0) addr = balloc(dev)`
pub block_or_new : ℕ → Volume → Option (ℕ × Volume)
block_or_new addr v = if addr == 0 then balloc v else some (addr, v)

-- `ip->addrs[i] = addr`
pub set_addr : ℕ → Inode → Option (ℕ × Volume) → Option (ℕ × Inode × Volume)
set_addr i ip none = none
set_addr i ip (some (addr, v)) = some (addr, record ip { addrs = update ip.addrs i addr }, v)

-- `a[i] = addr` in the indirect block `ind`.
pub set_word : ℕ → ℕ → Inode → Option (ℕ × Volume) → Option (ℕ × Inode × Volume)
set_word ind i ip none = none
set_word ind i ip (some (addr, v)) =
    some (addr, ip, record v { word = update v.word ind (update (v.word ind) i addr) })

-- The word `i` of the indirect block that the first part of `bmap` has found or made.
pub bmap_indirect : ℕ → Option (ℕ × Inode × Volume) → Option (ℕ × Inode × Volume)
bmap_indirect i none = none
bmap_indirect i (some (ind, ip, v)) = set_word ind i ip (block_or_new (v.word ind i) v)

-- `none` is a panic.
pub bmap : ℕ → Inode → Volume → Option (ℕ × Inode × Volume)
bmap bn ip v =
    if ltb bn ndirect
    then set_addr bn ip (block_or_new (ip.addrs bn) v)
    else if ltb (bn - ndirect) nindirect
    then bmap_indirect (bn - ndirect) (set_addr ndirect ip (block_or_new (ip.addrs ndirect) v))
    else none

-- `bfree` of the addresses that are not 0 among the `k` from `i` on.
pub free_from : ℕ → ℕ → (ℕ → ℕ) → Volume → Option Volume
free_from zero i addrs v = some v
free_from (suc k) i addrs v = elim (if addrs i == 0 then some v else bfree (addrs i) v) [
  | none ↦ none
  | some v' ↦ free_from k (i + 1) addrs v'
]

pub clear_from : ℕ → ℕ → (ℕ → ℕ) → ℕ → ℕ
clear_from zero i addrs = addrs
clear_from (suc k) i addrs = clear_from k (i + 1) (update addrs i 0)

-- The second part of `itrunc`, for the indirect block.
pub free_indirect : ℕ → Volume → Option Volume
free_indirect ind v =
    if ind == 0
    then some v
    else elim (free_from nindirect 0 (v.word ind) v) [ none ↦ none | some v' ↦ bfree ind v' ]

-- `itrunc` up to `iupdate`.
pub itrunc : Inode → Volume → Option (Inode × Volume)
itrunc ip v = elim (free_from ndirect 0 ip.addrs v) [
  | none ↦ none
  | some v' ↦ elim (free_indirect (ip.addrs ndirect) v') [
    | none ↦ none
    | some v'' ↦ some (record { addrs = clear_from (ndirect + 1) 0 ip.addrs; size = 0 }, v'')
  ]
]
