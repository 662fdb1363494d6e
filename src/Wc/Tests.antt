-- ===== src/Wc/Tests.antt =====
-- wc on a text in two chunks.
use mathlib.Core.List.{flatten}
use cs461_hw.Base.{ℕ, ◌≡◌, ◌%◌, ◌^◌, refl, true, false, none, some, List, [], ◌∷◌, length}
use cs461_hw.Wc.{Counts, wc, count_chunks, count_chunk, count_char, is_blank}
use cs461_hw.Wc.Meaning.{newlines, word_starts, wc_counts}

-- "ab c" and "d" with a newline: the word "cd" is cut in two
abbrev text : List (List ℕ)
text = (b'a' ∷ b'b' ∷ b' ' ∷ b'c' ∷ []) ∷ (b'd' ∷ 10 ∷ []) ∷ []

wc-text : wc text false ≡ some (record { lines = 1; words = 2; chars = 6; inword = false })
unfolding wc count_chunks count_chunk count_char is_blank
wc-text = refl

wc_counts_example :
    (wc text true ≡ none)
    × (s : Counts) × (wc text false ≡ some s)
    × (s.lines ≡ newlines (flatten text) % 2 ^ 32)
    × (s.words ≡ word_starts false (flatten text) % 2 ^ 32)
    × (s.chars ≡ length (flatten text) % 2 ^ 32)
wc_counts_example = wc_counts text
