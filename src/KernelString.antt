-- ===== src/KernelString.antt =====
-- string.c: memory and string routines over byte-addressed memory, with the `rep stos` of x86.h.
-- A `uint` or `int` length is the number of rounds of its loop; a pointer does not wrap.
use cs461_hw.Base.{
  ℕ, zero, suc, ◌+◌, ◌-◌, ◌*◌, ◌/◌, ◌%◌, ◌^◌, Bool, true, false, ◌&&◌, ◌||◌, not, Option, none,
  some, ◌==◌, ltb, leb, if◌then◌else◌, update, ℤ, pos, sub_ℕ,
}
pub mod Fill
pub mod Move
pub mod Compare
pub mod Copy
mod Tests

abbrev pub Memory : Type 0
Memory = ℕ → ℕ

-- `rep stosb`: `n` bytes from `dst` on.
pub stosb : ℕ → ℕ → ℕ → Memory → Memory
stosb dst c zero m = m
stosb dst c (suc n) m = stosb (dst + 1) c n (update m dst (c % 256))

-- One 32-bit word, the low byte first.
pub store_long : ℕ → ℕ → Memory → Memory
store_long dst w m =
    update
      (update (update (update m dst (w % 256)) (dst + 1) (w / 2 ^ 8 % 256)) (dst + 2)
        (w / 2 ^ 16 % 256))
      (dst + 3) (w / 2 ^ 24 % 256)

-- `rep stosl`: `n` words.
pub stosl : ℕ → ℕ → ℕ → Memory → Memory
stosl dst w zero m = m
stosl dst w (suc n) m = stosl (dst + 4) w n (store_long dst w m)

-- `(c<<24)|(c<<16)|(c<<8)|c` of a byte: the four parts have no bit in common.
pub spread : ℕ → ℕ
spread c = c * 2 ^ 24 + c * 2 ^ 16 + c * 2 ^ 8 + c

pub memset : ℕ → ℕ → ℕ → Memory → Memory
memset dst c n m =
    if dst % 4 == 0 && n % 4 == 0 then stosl dst (spread (c % 256)) (n / 4) m else stosb dst c n m

pub memcmp : ℕ → ℕ → ℕ → Memory → ℤ
memcmp p q zero m = pos 0
memcmp p q (suc n) m =
    let rest = memcmp (p + 1) (q + 1) n m in if m p == m q then rest else sub_ℕ (m p) (m q)

-- `*d++ = *s++`
pub copy_up : ℕ → ℕ → ℕ → Memory → Memory
copy_up d s zero m = m
copy_up d s (suc n) m = copy_up (d + 1) (s + 1) n (update m d (m s))

-- `*--d = *--s`, with `n` bytes left below `d` and `s`.
pub copy_down : ℕ → ℕ → ℕ → Memory → Memory
copy_down d s zero m = m
copy_down d s (suc n) m = copy_down (d - 1) (s - 1) n (update m (d - 1) (m (s - 1)))

pub memmove : ℕ → ℕ → ℕ → Memory → Memory
memmove dst src n m =
    if ltb src dst && ltb dst (src + n)
    then copy_down (dst + n) (src + n) n m
    else copy_up dst src n m

-- `memcpy` is `memmove`.
pub memcpy : ℕ → ℕ → ℕ → Memory → Memory
memcpy dst src n m = memmove dst src n m

pub strncmp : ℕ → ℕ → ℕ → Memory → ℤ
strncmp p q zero m = pos 0
strncmp p q (suc n) m =
    let rest = strncmp (p + 1) (q + 1) n m in
    if not (m p == 0) && m p == m q then rest else sub_ℕ (m p) (m q)

-- The second loop of `strncpy`.
pub pad : ℕ → ℕ → Memory → Memory
pad s zero m = m
pad s (suc n) m = pad (s + 1) n (update m s 0)

pub strncpy : ℕ → ℕ → ℕ → Memory → Memory
strncpy s t zero m = m
strncpy s t (suc n) m =
    let rest = strncpy (s + 1) (t + 1) n (update m s (m t)) in
    if m t == 0 then pad (s + 1) n (update m s (m t)) else rest

-- The loop of `safestrcpy` with `n` the value that `--n` has left, then `*s = 0`.
pub safestrcpy_loop : ℕ → ℕ → ℕ → Memory → Memory
safestrcpy_loop s t zero m = update m s 0
safestrcpy_loop s t (suc n) m =
    let rest = safestrcpy_loop (s + 1) (t + 1) n (update m s (m t)) in
    if m t == 0 then update (update m s (m t)) (s + 1) 0 else rest

pub safestrcpy : ℕ → ℕ → ℕ → Memory → Memory
safestrcpy s t zero m = m
safestrcpy s t (suc n) m = safestrcpy_loop s t n m

-- `none` if no NUL stands in the first `fuel` bytes.
pub strlen_from : ℕ → ℕ → ℕ → Memory → Option ℕ
strlen_from zero s n m = none
strlen_from (suc fuel) s n m =
    let rest = strlen_from fuel s (n + 1) m in if m (s + n) == 0 then some n else rest

pub strlen : ℕ → ℕ → Memory → Option ℕ
strlen fuel s m = strlen_from fuel s 0 m
