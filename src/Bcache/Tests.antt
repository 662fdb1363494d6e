-- ===== src/Bcache/Tests.antt =====
-- A cache of two buffers: a dirty one for block 5, and a free one.
use cs461_hw.Base.{ℕ, ◌≡◌, refl, true, false, none, some, List, [], ◌∷◌, update}
use cs461_hw.Bcache.{Block, Buf, find_cached, find_free, recycle, bget, iderw}
use cs461_hw.Bcache.Keys.{Distinct, bget-Distinct}
use cs461_hw.Bcache.Contents.{Pinned, bget-Pinned}

abbrev dirty_five : Buf
dirty_five = record {
  id = 1;
  valid = true;
  dirty = true;
  dev = 1;
  blockno = 5;
  locked = true;
  refcnt = 1;
  bytes = λ _. 77;
}

abbrev free_zero : Buf
free_zero = record {
  id = 0;
  valid = false;
  dirty = false;
  dev = 0;
  blockno = 0;
  locked = false;
  refcnt = 0;
  bytes = λ _. 0;
}

abbrev two : List Buf
two = dirty_five ∷ free_zero ∷ []

abbrev nine : Buf
nine = record free_zero { dev = 1; blockno = 9; refcnt = 1; locked = true }

two-Distinct : Distinct two
two-Distinct = (λ _. (refl, tt), (λ ne. tt, tt))

nine_found : bget 1 9 two ≡ some (dirty_five ∷ nine ∷ [])
unfolding bget find_cached find_free recycle
nine_found = refl

panics : bget 1 9 (dirty_five ∷ []) ≡ none
unfolding bget find_cached find_free recycle
panics = refl

bget-Distinct_example : Distinct (dirty_five ∷ nine ∷ [])
bget-Distinct_example = bget-Distinct 1 9 two two-Distinct nine_found

bget-Pinned_example : Pinned two (dirty_five ∷ nine ∷ [])
bget-Pinned_example = bget-Pinned 1 9 two nine_found

abbrev empty_disk : ℕ → Block
empty_disk _ _ = 0

abbrev clean_five : Buf
clean_five = record dirty_five { dirty = false }

writes_five : iderw 1000 dirty_five empty_disk ≡ some (clean_five, update empty_disk 5 (λ _. 77))
unfolding iderw
writes_five = refl
