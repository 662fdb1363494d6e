-- ===== src/Sh/Printer.antt =====
-- The text of a command.
use cs461_hw.Base.{ℕ, ◌≡◌, ◌<◌, true, List, [], ◌∷◌, ◌++◌, length}
use cs461_hw.Sh.{
  Mode, read_only, write_create, Cmd, exec, redir, pipe, seq, back, max_args, is_word, redir_of,
}

-- A word, and a file name: characters of a word, at least one.
abbrev pub AllWord : List ℕ → Type 0
AllWord [] = Unit
AllWord (c ∷ cs) = (is_word c ≡ true) × AllWord cs

abbrev pub IsWord : List ℕ → Type 0
IsWord [] = ⊥
IsWord (c ∷ cs) = (is_word c ≡ true) × AllWord cs

abbrev pub AllWords : List (List ℕ) → Type 0
AllWords [] = Unit
AllWords (w ∷ ws) = IsWord w × AllWords ws

abbrev pub operator : Mode → ℕ
operator read_only = b'<'
operator write_create = b'>'

-- The commands that the parser makes: few enough words, and redirections of input or output.
abbrev pub IsPlain : Cmd → Type 0
IsPlain (exec ws) = AllWords ws × (length ws < max_args)
IsPlain (redir c r) = IsPlain c × IsWord r.file × (r ≡ redir_of (operator r.mode) r.file)
IsPlain (pipe l r) = IsPlain l × IsPlain r
IsPlain (seq l r) = IsPlain l × IsPlain r
IsPlain (back c) = IsPlain c

-- The text of a command, before `rest`: each part of a command in parentheses.
abbrev pub words : List (List ℕ) → List ℕ → List ℕ
words [] rest = rest
words (w ∷ ws) rest = w ++ (32 ∷ words ws rest)

abbrev pub show : Cmd → List ℕ → List ℕ
show (exec ws) rest = words ws rest
show (redir c r) rest = b'(' ∷ show c (b')' ∷ operator r.mode ∷ (r.file ++ rest))
show (pipe l r) rest = b'(' ∷ show l (b')' ∷ b'|' ∷ b'(' ∷ show r (b')' ∷ rest))
show (seq l r) rest = b'(' ∷ show l (b')' ∷ b';' ∷ b'(' ∷ show r (b')' ∷ rest))
show (back c) rest = b'(' ∷ show c (b')' ∷ b'&' ∷ rest)
