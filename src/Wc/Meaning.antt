-- ===== src/Wc/Meaning.antt =====
-- What wc prints, against counts that are taken from the text as a whole.
use mathlib.Core.List.{flatten}
use cs461_hw.Base.{
  ℕ, ◌+◌, ◌%◌, ◌^◌, ◌<◌, ◌≡◌, refl, ◌∙◌, sym, ap, leb, not, ◌||◌, ◌&&◌, Bool, true, false, none,
  some, List, [], ◌∷◌, ◌++◌, ◌==◌, if◌then◌else◌, length, Bool-cases, inl, inr, arith,
}
use cs461_hw.Wc.{Counts, is_blank, count_char, count_chunk, count_chunks, wc}

count_chunk-append :
    (xs ys : List ℕ) (s : Counts) → count_chunk (xs ++ ys) s ≡ count_chunk ys (count_chunk xs s)
unfolding count_chunk
count_chunk-append [] ys s = refl
count_chunk-append (x ∷ xs) ys s = count_chunk-append xs ys (count_char x s)

count_chunks-flatten :
    (chunks : List (List ℕ)) (s : Counts) → count_chunks chunks s ≡ count_chunk (flatten chunks) s
unfolding count_chunks count_chunk flatten
count_chunks-flatten [] s = refl
count_chunks-flatten (b ∷ bs) s =
    count_chunks-flatten bs (count_chunk b s) ∙ sym (count_chunk-append b (flatten bs) s)

-- The number of newlines in a text.
pub newlines : List ℕ → ℕ
newlines [] = 0
newlines (c ∷ cs) = (if c == 10 then 1 else 0) + newlines cs

-- White space: a blank, or one of the control characters from tab to carriage return but the form feed.
pub is_white : ℕ → Bool
is_white c = c == 32 || (leb 9 c && leb c 13 && not (c == 12))

is_blank-is_white : (c : ℕ) → is_blank c ≡ is_white c
unfolding is_blank is_white
is_blank-is_white c = ground arith

-- The number of words that begin in a text: characters that are no white space, after white space or at
-- the start (`before` tells whether a word's character stands before the text).
pub word_starts : Bool → List ℕ → ℕ
word_starts before [] = 0
word_starts before (c ∷ cs) =
    (if is_white c then 0 else if before then 0 else 1) + word_starts (not (is_white c)) cs

record Totals (cs : List ℕ) (s t : Counts) : Type 0 where
  lines_eq : t.lines ≡ (s.lines + newlines cs) % 2 ^ 32
  words_eq : t.words ≡ (s.words + word_starts s.inword cs) % 2 ^ 32
  chars_eq : t.chars ≡ (s.chars + length cs) % 2 ^ 32

-- Counters that are bit patterns.
record IsSmall (s : Counts) : Type 0 where
  lines_small : s.lines < 2 ^ 32
  words_small : s.words < 2 ^ 32
  chars_small : s.chars < 2 ^ 32

count_char-IsSmall : (c : ℕ) (s : Counts) → IsSmall s → IsSmall (count_char c s)
unfolding count_char
count_char-IsSmall c s h = elim (Bool-cases (is_blank c)) [
  | inl b ↦ rw b (record {
    lines_small = ground (arith, h.lines_small);
    words_small = h.words_small;
    chars_small = omega arith;
  })
  | inr b ↦ rw b (record {
    lines_small = ground (arith, h.lines_small);
    words_small = ground (arith, h.words_small);
    chars_small = omega arith;
  })
]

-- What one character adds.
record Added (c : ℕ) (s t : Counts) : Type 0 where
  line : t.lines ≡ (s.lines + (if c == 10 then 1 else 0)) % 2 ^ 32
  start : t.words ≡ (s.words + (if is_white c then 0 else if s.inword then 0 else 1)) % 2 ^ 32
  char : t.chars ≡ (s.chars + 1) % 2 ^ 32
  in_word : t.inword ≡ not (is_white c)

count_char-Added : (c : ℕ) (s : Counts) → IsSmall s → Added c s (count_char c s)
unfolding count_char
count_char-Added c s h =
    let l = h.lines_small in
    let w = h.words_small in
    elim (Bool-cases (is_white c)) [
      | inl b ↦
          rw (is_blank-is_white c, b)
            (record {
              line = ground arith;
              start = rw b (omega arith);
              char = refl;
              in_word = rw b refl;
            })
      | inr b ↦
          rw (is_blank-is_white c, b)
            (record { line = ground arith; start = ground arith; char = refl; in_word = rw b refl })
    ]

count_chunk-Totals : (cs : List ℕ) (s : Counts) → IsSmall s → Totals cs s (count_chunk cs s)
unfolding count_chunk newlines word_starts
count_chunk-Totals [] s h = record {
  lines_eq = omega (arith, h.lines_small);
  words_eq = omega (arith, h.words_small);
  chars_eq = omega (arith, h.chars_small);
}
count_chunk-Totals (c ∷ cs) s h =
    one (count_chunk-Totals cs (count_char c s) (count_char-IsSmall c s h))
  where
    one :
        Totals cs (count_char c s) (count_chunk cs (count_char c s))
        → Totals (c ∷ cs) s (count_chunk cs (count_char c s))
    one t =
        let a = count_char-Added c s h in
        let w : word_starts (count_char c s).inword cs ≡ word_starts (not (is_white c)) cs =
          ap (λ b. word_starts b cs) a.in_word in
        record {
          lines_eq = omega (arith, t.lines_eq, a.line);
          words_eq = omega (arith, t.words_eq, a.start, w);
          chars_eq = omega (arith, t.chars_eq, a.char);
        }

-- However `read` cuts the text into chunks, wc prints the numbers of newlines, words and characters of
-- the whole text, each modulo 2 ^ 32; it prints none exactly where `read` fails.
pub wc_counts :
    (chunks : List (List ℕ))
    → (wc chunks true ≡ none)
      × (s : Counts) × (wc chunks false ≡ some s)
      × (s.lines ≡ newlines (flatten chunks) % 2 ^ 32)
      × (s.words ≡ word_starts false (flatten chunks) % 2 ^ 32)
      × (s.chars ≡ length (flatten chunks) % 2 ^ 32)
unfolding wc
wc_counts chunks =
    let zeros : Counts = record { lines = 0; words = 0; chars = 0; inword = false } in
    let t = count_chunk-Totals (flatten chunks) zeros (record {
      lines_small = omega arith;
      words_small = omega arith;
      chars_small = omega arith;
    }) in
    (
      refl,
      count_chunk (flatten chunks) zeros,
      ap some (count_chunks-flatten chunks zeros),
      omega (arith, t.lines_eq),
      omega (arith, t.words_eq),
      omega (arith, t.chars_eq),
    )
