-- ===== src/Blocks/Content/Tests.antt =====
-- A file of two bytes in block 3.
use cs461_hw.Base.{ℕ, ◌≡◌, refl, true, some, List, [], ◌∷◌, ◌==◌, ltb, if◌then◌else◌, arith, update}
use cs461_hw.Blocks.{Volume, Inode, bmap, block_or_new, set_addr, itrunc}
use cs461_hw.Blocks.Content.{
  readi, writei, read_loop, write_loop, read_end, write_end, get_byte, put_byte, get_bytes,
  put_bytes, byte_in, set_in, join_read, ok,
}
use cs461_hw.Blocks.Content.Owned.{own, Owns}
use cs461_hw.Blocks.Content.Truncate.{TruncatedIn, itrunc-TruncatedIn}
use cs461_hw.Blocks.Content.Refines.{
  ReadResult, WriteResult, readi-ReadResult, writei-WriteResult, readi-writei,
}

abbrev volume : Volume
volume = record { size = 9; used = λ b. ltb b 4; word = λ b i. if i == 0 then 1027 else 0 }

abbrev file : Inode
file = record { addrs = λ i. if i == 0 then 3 else 0; size = 2 }

file-Owns : Owns (own file volume) volume.used
file-Owns = record {
  boot = refl;
  marked = λ s h ne. ground arith;
  apart = λ s t h k ne e. ground arith;
}

abbrev new_bytes : List ℕ
new_bytes = 65 ∷ 66 ∷ []

readi-ReadResult_example : ReadResult 1 5 file volume (readi 1 5 file volume)
readi-ReadResult_example =
    readi-ReadResult 1 5 file volume file-Owns (omega arith) (omega arith) (omega arith)

writei-WriteResult_example : WriteResult 1 new_bytes file volume (writei 1 new_bytes file volume)
writei-WriteResult_example =
    writei-WriteResult 1 new_bytes file volume file-Owns (omega arith) (omega arith) (omega arith)

abbrev written : Volume
written = put_byte 3 2 66 (put_byte 3 1 65 volume)

abbrev longer : Inode
longer = record { addrs = update file.addrs 0 3; size = 3 }

writes : writei 1 new_bytes file volume ≡ ok (some 2, longer, written, true)
unfolding writei write_loop write_end bmap block_or_new set_addr put_bytes
writes = refl

reads :
    readi 1 2 longer written
    ≡ ok (some new_bytes, record longer { addrs = update longer.addrs 0 3 }, written)
unfolding readi read_loop read_end join_read bmap block_or_new set_addr get_bytes get_byte put_byte
    byte_in set_in
reads = refl

readi-writei_example :
    (ip2 : Inode) × (v2 : Volume) × (readi 1 2 longer written ≡ ok (some new_bytes, ip2, v2))
readi-writei_example =
    readi-writei 1 new_bytes file volume 2 longer written true file-Owns (omega arith)
      (omega arith, (omega arith, tt)) (omega arith) (omega arith) writes

itrunc-TruncatedIn_example : TruncatedIn file volume (itrunc file volume)
itrunc-TruncatedIn_example = itrunc-TruncatedIn file volume file-Owns
