-- ===== src/Inodes/Tests.antt =====
-- A cache with inode 7 in entry 0, without links, and a disk on which only inode 7 is in use.
use cs461_hw.Base.{ℕ, true, false, ◌==◌, if◌then◌else◌, arith}
use cs461_hw.Inodes.{Dinode, Inodes, iget, iput, ialloc}
use cs461_hw.Inodes.Cache.{IsUnique, IsSmall, Got, iget-Got}
use cs461_hw.Inodes.Lifetime.{DroppedIn, iput-DroppedIn, Made, ialloc-Made}

abbrev node : ℕ → Dinode
node kind = record {
  kind = kind;
  major = 0;
  minor = 0;
  nlink = 0;
  content = record { addrs = λ _. 0; size = 0 };
}

abbrev one_used : Inodes
one_used = record {
  volume = record { size = 9; used = λ _. true; word = λ _ _. 0 };
  ninodes = 20;
  dinode = λ n. if n == 7 then node 2 else node 0;
  cache = λ i. record {
    dev = 1;
    inum = 7;
    ref = if i == 0 then 1 else 0;
    locked = false;
    valid = true;
    node = node 2;
  };
}

one_used-IsUnique : IsUnique one_used.cache
one_used-IsUnique = record { one = λ i j d n hi hj a b. ground arith }

one_used-IsSmall : IsSmall one_used.cache
one_used-IsSmall j h = ground arith

iget-Got_example : Got 1 8 one_used (iget 1 8 one_used)
iget-Got_example = iget-Got 1 8 one_used one_used-IsUnique one_used-IsSmall

iput-DroppedIn_example : DroppedIn 0 one_used (iput 0 one_used)
iput-DroppedIn_example =
    iput-DroppedIn 0 one_used (omega arith) one_used-IsUnique (omega arith) (omega arith)

ialloc-Made_example : Made 1 2 one_used (ialloc 1 2 one_used)
ialloc-Made_example = ialloc-Made 1 2 one_used one_used-IsUnique one_used-IsSmall
