-- ===== src/Sh/Lexing.antt =====
-- What the lexer makes of the text of a command.
use cs461_hw.Base.{ℕ, suc, ◌≡◌, refl, true, false, List, [], ◌∷◌, ◌++◌, ◌==◌, arith}
use cs461_hw.UserLib.{strchr}
use cs461_hw.Sh.{
  ok, is_in, is_space, is_word, skip_space, word, is_single, token_at, gettoken, head_in, peek,
  parse_redirs,
}
use cs461_hw.Sh.Lexer.{Stopped, skip_space_none}
use cs461_hw.Sh.Printer.{IsWord, AllWord}

-- What may follow a command: nothing, or a closing parenthesis.
abbrev pub Closes : List ℕ → Type 0
Closes [] = Unit
Closes (c ∷ cs) = c ≡ b')'

-- What ends a word.
abbrev pub EndsWord : List ℕ → Type 0
EndsWord [] = Unit
EndsWord (c ∷ cs) = is_word c ≡ false

pub word-space : (c : ℕ) → is_word c ≡ true → is_space c ≡ false
unfolding is_word
word-space c h = ground arith

pub word-plain : (c : ℕ) → is_word c ≡ true → (is_single c ≡ false) × ((c == b'>') ≡ false)
unfolding is_word is_space strchr
word-plain c h = (ground arith, ground arith)

pub word-append : (w r : List ℕ) → AllWord w → EndsWord r → word (w ++ r) ≡ (w, r)
unfolding word
word-append [] [] h e = refl
word-append [] (c ∷ cs) h e = rw e refl
word-append (c ∷ w) r (h, hs) e = rw (h, word-append w r hs e) refl

pub gettoken-word :
    (w r : List ℕ)
    → IsWord w
    → EndsWord r
    → gettoken (w ++ r) ≡ record { ret = b'a'; text = w; rest = skip_space r }
unfolding gettoken token_at
gettoken-word [] r h e = absurd h
gettoken-word (c ∷ w) r (h, hs) e =
    let (s, g) = word-plain c h in
    rw (skip_space_none (c ∷ (w ++ r)) (word-space c h))
      (rw (s, g) (rw (word-append (c ∷ w) r (h, hs) e) refl))

pub Closes-Stopped : (r : List ℕ) → Closes r → Stopped r
unfolding is_space strchr
Closes-Stopped [] h = tt
Closes-Stopped (c ∷ cs) h = rw h refl

pub Closes-EndsWord : (r : List ℕ) → Closes r → EndsWord r
unfolding is_word is_space strchr
Closes-EndsWord [] h = tt
Closes-EndsWord (c ∷ cs) h = rw h refl

-- A `peek` that looks for something else than a closing parenthesis.
pub peek-Closes : (toks r : List ℕ) → is_in toks b')' ≡ false → Closes r → peek toks r ≡ (false, r)
unfolding peek
peek-Closes toks [] n h = rw (skip_space_none [] tt) refl
peek-Closes toks (c ∷ cs) n h =
    rw (skip_space_none (c ∷ cs) (Closes-Stopped (c ∷ cs) h)) (rw h (rw n refl))

pub parse_redirs-none :
    (g : ℕ) (t : List ℕ)
    → Stopped t
    → head_in (b'<' ∷ b'>' ∷ []) t ≡ false
    → parse_redirs (suc g) t ≡ ok ([], t)
unfolding parse_redirs peek
parse_redirs-none g t s h = rw (skip_space_none t s) (rw h refl)
