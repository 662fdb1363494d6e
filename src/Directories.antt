-- ===== src/Directories.antt =====
-- Directories of fs.c: files whose bytes are entries of 16 bytes, a number of two bytes and a name of
-- 14. A name is the list of its characters before the NUL.
use cs461_hw.Base.{
  ℕ, zero, suc, ◌+◌, ◌*◌, ◌/◌, ◌%◌, Bool, true, false, not, ◌&&◌, Option, none, some, List, [], ◌∷◌,
  ◌==◌, ltb, if◌then◌else◌, length, drop,
}
use cs461_hw.Blocks.{Volume, Inode}
use cs461_hw.Blocks.Content.{Run, ok, panic, out_of_rounds, readi, writei}
use cs461_hw.Inodes.{Dinode, Entry, Inodes, iget, iput, iupdate, set_entry}
use cs461_hw.Paths.{dirsiz}
mod Names
pub mod Scanning
pub mod Linking
pub mod Lookup
pub mod Ending
mod Tests

-- `T_DIR`
abbrev pub t_dir : ℕ
t_dir = 1

-- `sizeof(struct dirent)`
abbrev pub dirent_size : ℕ
dirent_size = 16

infixl 5 ◌>>=◌
abbrev pub ◌>>=◌ {ℓ κ} : {A : Type ℓ} {B : Type κ} → Run A → (A → Run B) → Run B
ok a >>= f = f a
panic >>= f = panic
out_of_rounds >>= f = out_of_rounds

-- `*p`
abbrev pub head_char : List ℕ → ℕ
head_char [] = 0
head_char (c ∷ cs) = c

-- `strncmp(p, q, n) == 0`
pub is_same : ℕ → List ℕ → List ℕ → Bool
is_same zero p q = true
is_same (suc n) [] q = head_char q == 0
is_same (suc n) (c ∷ p) [] = c == 0
is_same (suc n) (c ∷ p) (d ∷ q) =
    let rest = is_same n p q in if c == 0 then d == 0 else if c == d then rest else false

-- `namecmp(s, t) == 0`
abbrev pub namecmp : List ℕ → List ℕ → Bool
namecmp s t = is_same dirsiz s t

-- The `n` bytes that `strncpy` leaves.
pub name_field : ℕ → List ℕ → List ℕ
name_field zero name = []
name_field (suc n) [] = 0 ∷ name_field n []
name_field (suc n) (c ∷ cs) = c ∷ name_field n cs

-- `de.inum` and `de.name` of the bytes of an entry, and the bytes of an entry with these.
abbrev pub inum_of : List ℕ → ℕ
inum_of (a ∷ b ∷ _) = a + 256 * b
inum_of _ = 0

abbrev pub name_of : List ℕ → List ℕ
name_of de = drop 2 de

pub dirent : ℕ → List ℕ → List ℕ
dirent inum name = inum % 256 ∷ inum / 256 % 256 ∷ name_field dirsiz name

-- The loop over the entries from `off` on, up to the first that `stop` accepts: the entry, if there is
-- one, and `off` at the end.
pub scan_dir :
    (stop : List ℕ → Bool) → ℕ → ℕ → Inode → Volume → Run (Option (List ℕ) × ℕ × Inode × Volume)
scan_dir stop zero off ip v = if ltb off ip.size then out_of_rounds else ok (none, off, ip, v)
scan_dir stop (suc fuel) off ip v =
    let round = readi off dirent_size ip v >>= λ (got, ip', v'). elim got [
      | none ↦ panic
      | some de ↦
          let rest = scan_dir stop fuel (off + dirent_size) ip' v' in
          if not (length de == dirent_size)
          then panic
          else if stop de
          then ok (some de, off, ip', v')
          else rest
    ] in
    if ltb off ip.size then round else ok (none, off, ip, v)

-- The entry that `dirlookup` looks for, and the one that `dirlink` does.
abbrev pub is_named : List ℕ → List ℕ → Bool
is_named name de = not (inum_of de == 0) && namecmp name (name_of de)

abbrev pub is_vacant : List ℕ → Bool
is_vacant de = inum_of de == 0

-- The loop of `dirlookup`.
pub find_name : List ℕ → Inode → Volume → Run (Option (List ℕ) × ℕ × Inode × Volume)
find_name name ip v = scan_dir (is_named name) ip.size 0 ip v

-- The end of `dirlink`: the new entry goes to the first vacant place, or to the end. The last answer is
-- whether `writei` calls `iupdate`.
pub add_name : ℕ → List ℕ → Inode → Volume → Run (Inode × Volume × Bool)
add_name inum name ip v = scan_dir is_vacant ip.size 0 ip v >>= λ (_, off, ip1, v1).
    writei off (dirent inum name) ip1 v1 >>= λ (n, ip2, v2, update). elim n [
      | none ↦ panic
      | some k ↦ if k == dirent_size then ok (ip2, v2, update) else panic
    ]

-- The inode of cache entry `i` with these contents, on this volume.
abbrev pub with_content : ℕ → Inode → Volume → Inodes → Inodes
with_content i ip v fs =
    let e = fs.cache i in
    set_entry i (record e { node = record e.node { content = ip } }) (record fs { volume = v })

-- What `dirlookup` makes of the entry found.
pub enter_inode : ℕ → Option (List ℕ) → ℕ → Inodes → Run (Option (ℕ × ℕ) × Inodes)
enter_inode dev none off fs = ok (none, fs)
enter_inode dev (some de) off fs = elim (iget dev (inum_of de) fs) [
  | none ↦ panic
  | some (k, fs') ↦ ok (some (k, off), fs')
]

-- The cache entry of the inode with this name, and the offset of its place in the directory.
pub dirlookup : ℕ → List ℕ → Inodes → Run (Option (ℕ × ℕ) × Inodes)
dirlookup i name fs =
    let e = fs.cache i in
    let looked = find_name name e.node.content fs.volume >>= λ (de, off, ip, v).
    enter_inode e.dev de off (with_content i ip v fs) in
    if not (e.node.kind == t_dir) then panic else looked

-- `false` is -1.
pub dirlink : ℕ → List ℕ → ℕ → Inodes → Run (Bool × Inodes)
dirlink i name inum fs = dirlookup i name fs >>= λ (found, fs'). elim found [
  | some (k, _) ↦ elim (iput k fs') [ none ↦ panic | some fs'' ↦ ok (false, fs'') ]
  | none ↦ add_name inum name (fs'.cache i).node.content fs'.volume >>= λ (ip, v, update).
      let linked = with_content i ip v fs' in
      (if update then ok (true, iupdate i linked) else ok (true, linked))
]
