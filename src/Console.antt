-- ===== src/Console.antt =====
-- The input side of console.c: the ring of characters that the keyboard fills and `consoleread`
-- empties. A character is a byte; the counters are `uint`. The echo to the screen is left out.
use cs461_hw.Base.{
  ℕ, zero, suc, ◌+◌, ◌-◌, ◌%◌, ◌^◌, Bool, true, false, not, ◌||◌, List, [], ◌∷◌, ◌==◌, ltb,
  if◌then◌else◌, update,
}
mod Ring
pub mod Editing
pub mod Reading
mod Tests

-- `INPUT_BUF`
abbrev pub input_buf : ℕ
input_buf = 128

-- `input`: characters from `r` to `w` can be read, those from `w` to `e` are still edited.
pub record Input : Type 0 where
  pub buf : ℕ → ℕ
  pub r : ℕ
  pub w : ℕ
  pub e : ℕ

-- `input.e--`
abbrev pub step_back : Input → Input
step_back s = record s { e = (s.e + 2 ^ 32 - 1) % 2 ^ 32 }

-- The case of C('U'), for at most `fuel` characters.
pub kill_line : ℕ → Input → Input
kill_line zero s = s
kill_line (suc fuel) s =
    let rest = kill_line fuel (step_back s) in
    if s.e == s.w || s.buf ((step_back s).e % input_buf) == b'\n' then s else rest

-- `c == '\n' || c == C('D') || input.e == input.r+INPUT_BUF`
abbrev pub ends_line : ℕ → Input → Bool
ends_line c s = c == b'\n' || c == 4 || s.e == (s.r + input_buf) % 2 ^ 32

abbrev pub commit : ℕ → Input → Input
commit c s = if ends_line c s then record s { w = s.e } else s

-- The default case.
pub store_char : ℕ → Input → Input
store_char c s =
    let c' = if c == b'\r' then b'\n' else c in
    if c == 0 || not (ltb ((s.e + 2 ^ 32 - s.r) % 2 ^ 32) input_buf)
    then s
    else commit c' (record s { buf = update s.buf (s.e % input_buf) c'; e = (s.e + 1) % 2 ^ 32 })

-- One character of `consoleintr`. C('Z') and C('P') do not touch the input.
pub type_char : ℕ → Input → Input
type_char c s =
    if c == 26 || c == 16
    then s
    else if c == 21
    then kill_line input_buf s
    else if c == 8 || c == 127
    then if s.e == s.w then s else step_back s
    else store_char c s

-- `consoleintr` on the characters that `getc` gives before it fails.
pub consoleintr : List ℕ → Input → Input
consoleintr [] s = s
consoleintr (c ∷ cs) s = consoleintr cs (type_char c s)

-- How a run of `consoleread` ends: it returns its bytes, or finds nothing to read, where it sleeps, or
-- returns -1 if its process is killed.
pub data ReadEnd : Type 0 where
  returned : ReadEnd
  empty : ReadEnd

-- The loop of `consoleread` for `n` further bytes; `first` says that there is none yet.
pub consoleread : ℕ → Bool → Input → List ℕ × Input × ReadEnd
consoleread zero first s = ([], s, returned)
consoleread (suc n) first s =
    let c = s.buf (s.r % input_buf) in
    let s' = record s { r = (s.r + 1) % 2 ^ 32 } in
    let rest = consoleread n false s' in
    if s.r == s.w
    then ([], s, empty)
    else if c == 4
    then ([], (if first then s' else s), returned)
    else if c == b'\n'
    then (c ∷ [], s', returned)
    else (c ∷ rest.0, rest.1, rest.2)
