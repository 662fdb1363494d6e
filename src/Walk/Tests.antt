-- ===== src/Walk/Tests.antt =====
-- A walk in a directory of inode 1, which is empty.
use cs461_hw.Base.{refl, true, false, [], ◌∷◌, ◌==◌, if◌then◌else◌}
use cs461_hw.Inodes.{Dinode, Inodes}
use cs461_hw.Walk.{namex}
use cs461_hw.Walk.Ends.{Walks, namex-Walks}

abbrev node : Dinode
node = record {
  kind = 1;
  major = 0;
  minor = 0;
  nlink = 1;
  content = record { addrs = λ _. 0; size = 0 };
}

abbrev system : Inodes
system = record {
  volume = record { size = 9; used = λ _. true; word = λ _ _. 0 };
  ninodes = 20;
  dinode = λ _. node;
  cache = λ i. record {
    dev = 1;
    inum = 1;
    ref = if i == 0 then 1 else 0;
    locked = false;
    valid = true;
    node = node;
  };
}

namex-Walks_example :
    Walks 0 (b'/' ∷ b'a' ∷ []) false [] system (namex 0 (b'/' ∷ b'a' ∷ []) false [] system)
namex-Walks_example = namex-Walks 0 (b'/' ∷ b'a' ∷ []) false [] system (λ l. refl)
