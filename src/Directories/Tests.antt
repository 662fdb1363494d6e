-- ===== src/Directories/Tests.antt =====
-- A directory with "." as inode 1 and "a" as inode 7, in block 3.
use cs461_hw.Base.{◌+◌, ◌*◌, ◌≡◌, refl, true, false, [], ◌∷◌, ◌==◌, ltb, if◌then◌else◌, arith}
use cs461_hw.Blocks.{Volume, Inode}
use cs461_hw.Blocks.Content.Owned.{own, Owns}
use cs461_hw.Inodes.{Dinode, Inodes}
use cs461_hw.Inodes.Cache.{IsUnique}
use cs461_hw.Directories.{dirlookup, dirlink, name_field, is_same}
use cs461_hw.Directories.Lookup.{IsDirectory, Looked, Linked, dirlookup-Looked, dirlink-Linked}

abbrev volume : Volume
volume = record {
  size = 9;
  used = λ b. ltb b 4;
  word = λ b j.
      if b == 3
      then (if j == 0 then 1 + 46 * 65536 else if j == 4 then 7 + 97 * 65536 else 0)
      else 0;
}

abbrev contents : Inode
contents = record { addrs = λ i. if i == 0 then 3 else 0; size = 32 }

abbrev node : Dinode
node = record { kind = 1; major = 0; minor = 0; nlink = 1; content = contents }

abbrev system : Inodes
system = record {
  volume = volume;
  ninodes = 20;
  dinode = λ n. node;
  cache = λ i. record {
    dev = 1;
    inum = 1;
    ref = if i == 0 then 1 else 0;
    locked = false;
    valid = true;
    node = node;
  };
}

system-IsUnique : IsUnique system.cache
system-IsUnique = record { one = λ i j d n hi hj a b. ground arith }

contents-Owns : Owns (own contents volume) volume.used
contents-Owns = record {
  boot = refl;
  marked = λ s h ne. ground arith;
  apart = λ s t h k ne e. ground arith;
}

system-IsDirectory : IsDirectory 0 2 system
system-IsDirectory = record {
  in_cache = omega arith;
  whole = refl;
  bounded = omega arith;
  owns = contents-Owns;
  unique = system-IsUnique;
  small = λ j h. ground arith;
}

-- Names are compared by their first characters only.
same_start : is_same 2 (b'a' ∷ b'b' ∷ b'c' ∷ []) (b'a' ∷ b'b' ∷ b'd' ∷ []) ≡ true
unfolding is_same
same_start = refl

padded : name_field 3 (b'a' ∷ []) ≡ b'a' ∷ 0 ∷ 0 ∷ []
unfolding name_field
padded = refl

dirlookup-Looked_example : Looked 0 (b'a' ∷ []) 2 system (dirlookup 0 (b'a' ∷ []) system)
dirlookup-Looked_example = dirlookup-Looked 0 2 (b'a' ∷ []) system system-IsDirectory

dirlink-Linked_example : Linked 0 (b'b' ∷ []) 9 2 system (dirlink 0 (b'b' ∷ []) 9 system)
dirlink-Linked_example =
    dirlink-Linked 0 2 9 (b'b' ∷ []) system system-IsDirectory (omega arith, tt) (omega arith)
      (omega arith)
