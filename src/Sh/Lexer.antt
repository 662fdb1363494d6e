-- ===== src/Sh/Lexer.antt =====
-- How far the lexer goes, and what it reads.
use cs461_hw.Base.{
  ℕ, suc, ◌≡◌, ◌≢◌, ◌≤◌, ◌<◌, refl, true, false, List, [], ◌∷◌, ◌==◌, length, arith, Bool-cases,
  inl, inr,
}
use cs461_hw.UserLib.{strchr}
use cs461_hw.Sh.{
  is_space, is_word, skip_space, word, is_single, greater, token_at, gettoken, head_in, peek,
}

-- The characters of a word are those that are no white space and no symbol.
pub is_word-other :
    (c : ℕ) → is_space c ≡ false → is_single c ≡ false → (c == b'>') ≡ false → is_word c ≡ true
unfolding is_word is_space strchr
is_word-other c s n g = rw s (ground arith)

pub skip_space_le : (s : List ℕ) → length (skip_space s) ≤ length s
unfolding skip_space
skip_space_le [] = omega arith
skip_space_le (c ∷ cs) = elim (Bool-cases (is_space c)) [
  | inl s ↦ rw s (omega (arith, skip_space_le cs))
  | inr n ↦ rw n (omega arith)
]

-- `skip_space` stops at the end or at a character that is no white space.
abbrev pub Stopped : List ℕ → Type 0
Stopped [] = Unit
Stopped (c ∷ cs) = is_space c ≡ false

pub skip_space-Stopped : (s : List ℕ) → Stopped (skip_space s)
unfolding skip_space
skip_space-Stopped [] = tt
skip_space-Stopped (c ∷ cs) = elim (Bool-cases (is_space c)) [
  | inl s ↦ rw s (skip_space-Stopped cs)
  | inr n ↦ rw n n
]

pub skip_space_none : (s : List ℕ) → Stopped s → skip_space s ≡ s
unfolding skip_space
skip_space_none [] h = refl
skip_space_none (c ∷ cs) h = rw h refl

word_le : (s : List ℕ) → length (word s).1 ≤ length s
unfolding word
word_le [] = omega arith
word_le (c ∷ cs) = elim (Bool-cases (is_word c)) [
  | inl w ↦ rw w (omega (arith, word_le cs))
  | inr n ↦ rw n (omega arith)
]

word_lt : (c : ℕ) (cs : List ℕ) → is_word c ≡ true → length (word (c ∷ cs)).1 < suc (length cs)
unfolding word
word_lt c cs w = rw w (omega (arith, word_le cs))

greater_le : (cs : List ℕ) → length (greater cs).rest ≤ length cs
unfolding greater
greater_le [] = omega arith
greater_le (c ∷ cs) = elim (Bool-cases (c == b'>')) [
  | inl g ↦ rw g (omega (arith, skip_space_le cs))
  | inr n ↦ rw n (omega (arith, skip_space_le (c ∷ cs)))
]

-- A token takes at least a character, unless nothing is left.
pub token_at_lt :
    (c : ℕ) (cs : List ℕ) → is_space c ≡ false → length (token_at (c ∷ cs)).rest < suc (length cs)
unfolding token_at
token_at_lt c cs h = elim (Bool-cases (is_single c)) [
  | inl s ↦ rw s (omega (arith, skip_space_le cs))
  | inr n ↦ elim (Bool-cases (c == b'>')) [
    | inl g ↦ rw (n, g) (omega (arith, greater_le cs))
    | inr m ↦
        rw (n, m)
          (omega (arith, skip_space_le (word (c ∷ cs)).1, word_lt c cs (is_word-other c h n m)))
  ]
]

-- `gettoken` on what is left after `peek` has answered yes.
pub gettoken_lt :
    (toks s : List ℕ) → (peek toks s).0 ≡ true → length (gettoken (peek toks s).1).rest < length s
unfolding peek gettoken
gettoken_lt toks s e = at_rest (skip_space s) (skip_space-Stopped s) (skip_space_le s) e
  where
    at_rest :
        (r : List ℕ)
        → Stopped r
        → length r ≤ length s
        → head_in toks r ≡ true
        → length (token_at (skip_space r)).rest < length s
    at_rest [] st le e = cc
    at_rest (c ∷ cs) st le e = rw (skip_space_none (c ∷ cs) st) (omega (arith, token_at_lt c cs st))

-- `gettoken` goes on wherever it has found a token.
pub gettoken_next : (s : List ℕ) → (gettoken s).ret ≢ 0 → length (gettoken s).rest < length s
unfolding gettoken token_at
gettoken_next s ne = at_rest (skip_space s) (skip_space-Stopped s) (skip_space_le s) ne
  where
    at_rest :
        (r : List ℕ)
        → Stopped r
        → length r ≤ length s
        → (token_at r).ret ≢ 0
        → length (token_at r).rest < length s
    at_rest [] st le e = absurd (e refl)
    at_rest (c ∷ cs) st le e = omega (arith, token_at_lt c cs st)

pub gettoken_le : (s : List ℕ) → length (gettoken s).rest ≤ length s
unfolding gettoken token_at
gettoken_le s = at_rest (skip_space s) (skip_space-Stopped s) (skip_space_le s)
  where
    at_rest : (r : List ℕ) → Stopped r → length r ≤ length s → length (token_at r).rest ≤ length s
    at_rest [] st le = omega arith
    at_rest (c ∷ cs) st le = omega (arith, token_at_lt c cs st)
