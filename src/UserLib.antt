-- ===== src/UserLib.antt =====
-- ulib.c and printf.c: the user library. A string is the list of its characters before the NUL.
use cs461_hw.Base.{
  ℕ, zero, suc, ◌+◌, ◌-◌, ◌*◌, ◌/◌, ◌%◌, ◌^◌, Bool, true, false, ◌&&◌, ◌||◌, not, Option, none,
  some, List, [], ◌∷◌, ◌++◌, ◌==◌, ltb, leb, if◌then◌else◌, get_or, ℤ, pos, negsuc, sub_ℕ,
}
pub mod Decimal
pub mod Strings
pub mod Format
mod Tests

-- The value of `*p` for the rest `s` of a string.
abbrev pub head_or_nul : List ℕ → ℕ
head_or_nul [] = 0
head_or_nul (c ∷ cs) = c

pub strcmp : List ℕ → List ℕ → ℤ
strcmp [] q = sub_ℕ 0 (head_or_nul q)
strcmp (c ∷ cs) [] = sub_ℕ c 0
strcmp (c ∷ cs) (d ∷ ds) = let rest = strcmp cs ds in if c == d then rest else sub_ℕ c d

-- The rest of the string from the first `c` on; `none` is NULL.
unfoldable pub strchr : List ℕ → ℕ → Option (List ℕ)
strchr [] c = none
strchr (s ∷ ss) c = let rest = strchr ss c in if s == c then some (s ∷ ss) else rest

-- The loop of `gets`, with `k` bytes of room before the NUL: the characters that it stores, and what
-- is left of the input. The end of the list is an end of file or an error.
pub gets_loop : ℕ → List ℕ → List ℕ × List ℕ
gets_loop zero input = ([], input)
gets_loop (suc k) [] = ([], [])
gets_loop (suc k) (c ∷ input) =
    let (cs, rest) = gets_loop k input in
    if c == 10 || c == 13 then (c ∷ [], input) else (c ∷ cs, rest)

-- `gets(buf, max)`: `i + 1 < max` leaves `max - 1` bytes of room.
pub gets : ℕ → List ℕ → List ℕ × List ℕ
gets max input = gets_loop (max - 1) input

-- The loop of `atoi`, on values that fit an `int`.
pub atoi_from : ℕ → List ℕ → ℕ
atoi_from n [] = n
atoi_from n (c ∷ cs) =
    let rest = atoi_from (n * 10 + (c - b'0')) cs in if leb b'0' c && leb c b'9' then rest else n

pub atoi : List ℕ → ℕ
atoi s = atoi_from 0 s

-- "0123456789abcdef"
abbrev pub digits : List ℕ
digits =
    b'0' ∷ b'1' ∷ b'2' ∷ b'3' ∷ b'4' ∷ b'5' ∷ b'6' ∷ b'7' ∷ b'8' ∷ b'9' ∷ b'a' ∷ b'b' ∷ b'c' ∷ b'd'
    ∷ b'e' ∷ b'f' ∷ []

-- `print_x32` and `print_x64`, with `k` digits to go.
pub hex_loop : ℕ → ℕ → ℕ → List ℕ
hex_loop zero width x = []
hex_loop (suc k) width x =
    get_or digits (x / 2 ^ (width - 4)) 0 ∷ hex_loop k width (x * 2 ^ 4 % 2 ^ width)

pub print_x32 : ℕ → List ℕ
print_x32 x = hex_loop 8 32 x

pub print_x64 : ℕ → List ℕ
print_x64 x = hex_loop 16 64 x

-- The `do` loop of `print_d`: `buf` with its last character first, as it is printed.
pub dec_loop : ℕ → ℕ → List ℕ → List ℕ
dec_loop zero x buf = buf
dec_loop (suc fuel) x buf =
    let here = get_or digits (x % 10) 0 ∷ buf in
    let rest = dec_loop fuel (x / 10) here in if x / 10 == 0 then here else rest

-- `print_d`; `buf` has 16 places.
pub print_d : ℤ → List ℕ
print_d (pos n) = dec_loop 16 n []
print_d (negsuc n) = b'-' ∷ dec_loop 16 (suc n) []

-- An argument of `printf`, as its directive reads it.
pub data Arg : Type 0 where
  int : ℤ → Arg
  word : ℕ → Arg
  text : Option (List ℕ) → Arg

abbrev pub null_text : List ℕ
null_text = b'(' ∷ b'n' ∷ b'u' ∷ b'l' ∷ b'l' ∷ b')' ∷ []

-- What a directive prints; `none` if the next argument is missing or of another type, where C's
-- behaviour is undefined. The second part is the arguments left.
pub directive : ℕ → List Arg → Option (List ℕ × List Arg)
directive c (int v ∷ args) =
    if c == b'd'
    then some (print_d v, args)
    else if c == b'%'
    then some (b'%' ∷ [], int v ∷ args)
    else if c == b'c' || c == b'x' || c == b'p' || c == b's'
    then none
    else some (b'%' ∷ c ∷ [], int v ∷ args)
directive c (word x ∷ args) =
    if c == b'x'
    then some (print_x32 x, args)
    else if c == b'p'
    then some (print_x64 x, args)
    else if c == b'c'
    then some (x ∷ [], args)
    else if c == b'%'
    then some (b'%' ∷ [], word x ∷ args)
    else if c == b'd' || c == b's'
    then none
    else some (b'%' ∷ c ∷ [], word x ∷ args)
directive c (text o ∷ args) =
    if c == b's'
    then some (elim o [ none ↦ null_text | some s ↦ s ], args)
    else if c == b'%'
    then some (b'%' ∷ [], text o ∷ args)
    else if c == b'c' || c == b'd' || c == b'x' || c == b'p'
    then none
    else some (b'%' ∷ c ∷ [], text o ∷ args)
directive c [] =
    if c == b'%'
    then some (b'%' ∷ [], [])
    else if c == b'c' || c == b'd' || c == b'x' || c == b'p' || c == b's'
    then none
    else some (b'%' ∷ c ∷ [], [])

-- What is printed before the rest of the format.
pub emit : List ℕ → Option (List ℕ) → Option (List ℕ)
emit out none = none
emit out (some rest) = some (out ++ rest)

pub after_directive : Option (List ℕ × List Arg) → (List Arg → Option (List ℕ)) → Option (List ℕ)
after_directive none rest = none
after_directive (some (out, args)) rest = emit out (rest args)

-- `printf`, as the characters that it writes.
pub printf : List ℕ → List Arg → Option (List ℕ)
printf [] args = some []
printf (c ∷ []) args = if c == b'%' then some [] else some (c ∷ [])
printf (c ∷ d ∷ fmt) args =
    let plain = emit (c ∷ []) (printf (d ∷ fmt) args) in
    let special = after_directive (directive d args) (printf fmt) in
    if c == b'%' then special else plain
