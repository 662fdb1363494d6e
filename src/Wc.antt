-- ===== src/Wc.antt =====
-- wc.c: lines, words and characters, over the chunks that `read` returns.
use cs461_hw.Base.{
  ℕ, zero, suc, ◌+◌, ◌%◌, ◌^◌, Bool, true, false, not, ◌||◌, Option, none, some, List, [], ◌∷◌,
  ◌==◌, if◌then◌else◌,
}
pub mod Meaning
mod Tests

-- The counters of `wc` as bit patterns of `int`, and whether the last character belongs to a word.
pub record Counts : Type 0 where
  pub lines : ℕ
  pub words : ℕ
  pub chars : ℕ
  pub inword : Bool

abbrev pub inc : ℕ → ℕ
inc n = (n + 1) % 2 ^ 32

-- `strchr(" \r\t\n\v", c)`
pub is_blank : ℕ → Bool
is_blank c = c == b' ' || c == 13 || c == 9 || c == 10 || c == 11

-- The body of the inner loop.
pub count_char : ℕ → Counts → Counts
count_char c s =
    let l = (if c == 10 then inc s.lines else s.lines) in
    if is_blank c
    then record { lines = l; words = s.words; chars = inc s.chars; inword = false }
    else record {
      lines = l;
      words = if s.inword then s.words else inc s.words;
      chars = inc s.chars;
      inword = true;
    }

pub count_chunk : List ℕ → Counts → Counts
count_chunk [] s = s
count_chunk (c ∷ cs) s = count_chunk cs (count_char c s)

-- The outer loop, over the chunks that `read` returns before an answer that is not positive.
pub count_chunks : List (List ℕ) → Counts → Counts
count_chunks [] s = s
count_chunks (b ∷ bs) s = count_chunks bs (count_chunk b s)

-- The counts that `wc` prints, where `failed` says that the last answer of `read` is negative: then it
-- prints none.
pub wc : List (List ℕ) → (failed : Bool) → Option Counts
wc chunks failed =
    let all = count_chunks chunks (record { lines = 0; words = 0; chars = 0; inword = false }) in
    if failed then none else some all
