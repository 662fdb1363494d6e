-- ===== src/Grep.antt =====
-- grep.c: the matcher of Kernighan and Pike, on texts as lists of character codes.
-- The end of a list is the terminating NUL, so no list holds the code 0.
use cs461_hw.Base.{ℕ, Bool, true, false, ◌&&◌, ◌||◌, List, [], ◌∷◌, ◌==◌, if◌then◌else◌}
pub mod Matching
mod Tests

-- `matchstar`, with the call of `matchhere` on what follows the star as an argument.
pub matchstar : (List ℕ → Bool) → ℕ → List ℕ → Bool
matchstar rest c [] = rest []
matchstar rest c (t ∷ ts) = rest (t ∷ ts) || (t == c || c == b'.') && matchstar rest c ts

-- `*text == '\0'`
pub at_end : List ℕ → Bool
at_end [] = true
at_end (_ ∷ _) = false

-- The last test of `matchhere`: one character, then the rest of the pattern.
pub one : ℕ → (List ℕ → Bool) → List ℕ → Bool
one c rest [] = false
one c rest (t ∷ ts) = (c == b'.' || c == t) && rest ts

pub matchhere : List ℕ → List ℕ → Bool
matchhere [] text = true
matchhere (c ∷ []) text = if c == b'$' then at_end text else one c (matchhere []) text
matchhere (c ∷ d ∷ re) text =
    if d == b'*' then matchstar (matchhere re) c text else one c (matchhere (d ∷ re)) text

-- The `do` loop of `match`.
pub anywhere : List ℕ → List ℕ → Bool
anywhere re [] = matchhere re []
anywhere re (t ∷ ts) = matchhere re (t ∷ ts) || anywhere re ts

-- `match`
pub matches : List ℕ → List ℕ → Bool
matches [] text = anywhere [] text
matches (c ∷ re) text = if c == b'^' then matchhere re text else anywhere (c ∷ re) text
