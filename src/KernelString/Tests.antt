-- ===== src/KernelString/Tests.antt =====
-- The routines on a small memory: "ab" at 100, "abc" at 110.
use cs461_hw.Base.{◌≡◌, refl, ◌==◌, if◌then◌else◌}
use cs461_hw.KernelString.{Memory, memmove, safestrcpy, copy_down, safestrcpy_loop}
use cs461_hw.KernelString.Move.{memmove_lem}

abbrev memory : Memory
memory a =
    if a == 100
    then b'a'
    else if a == 101
    then b'b'
    else if a == 110
    then b'a'
    else if a == 111
    then b'b'
    else if a == 112
    then b'c'
    else 0

overlap_up : memmove 101 100 2 memory 102 ≡ b'b'
unfolding memmove copy_down
overlap_up = refl

truncated : safestrcpy 200 110 3 memory 202 ≡ 0
unfolding safestrcpy safestrcpy_loop
truncated = refl

memmove_lem_example : memmove 101 100 2 memory 102 ≡ b'b'
memmove_lem_example = memmove_lem 101 100 2 memory 102
