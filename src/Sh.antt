-- ===== src/Sh.antt =====
-- The parser of sh.c. A string is the list of its characters before the NUL, and a pointer into it is
-- the rest from there: the end of the list is `es`, where `*s` is 0. A word is the text from `q` to
-- `eq`, so the NULs that `nulterminate` puts behind the words have nothing to cut here.
use cs461_hw.Base.{
  ℕ, zero, suc, ◌+◌, Bool, true, false, not, ◌&&◌, ◌||◌, Option, none, some, List, [], ◌∷◌, ◌++◌,
  ◌==◌, leb, if◌then◌else◌, length, ◌*◌,
}
use cs461_hw.UserLib.{strchr}
pub mod Lexer
pub mod Fuel
pub mod Printer
mod Lexing
mod Groups
pub mod RoundTrip
mod Tests

-- The calls of `panic`.
pub data Error : Type 0 where
  missing_file : Error
  not_block : Error
  missing_paren : Error
  bad_token : Error
  too_many_args : Error
  leftovers : Error

pub data Result {ℓ} (A : Type ℓ) : Type ℓ where
  ok : A → Result A
  panic : Error → Result A
  out_of_fuel : Result A

infixl 5 ◌>>=◌
abbrev pub ◌>>=◌ {ℓ κ} : {A : Type ℓ} {B : Type κ} → Result A → (A → Result B) → Result B
ok a >>= f = f a
panic e >>= f = panic e
out_of_fuel >>= f = out_of_fuel

-- `O_RDONLY`, and `O_WRONLY|O_CREATE`.
pub data Mode : Type 0 where
  read_only : Mode
  write_create : Mode

-- A file, a mode and a descriptor.
pub record Redir : Type 0 where
  pub file : List ℕ
  pub mode : Mode
  pub fd : ℕ

-- `struct cmd` and its variants.
pub data Cmd : Type 0 where
  exec : List (List ℕ) → Cmd
  redir : Cmd → Redir → Cmd
  pipe : Cmd → Cmd → Cmd
  seq : Cmd → Cmd → Cmd
  back : Cmd → Cmd

abbrev pub max_args : ℕ
max_args = 10

-- `strchr(set, c)` as a test.
abbrev pub is_in : List ℕ → ℕ → Bool
is_in set c = elim (strchr set c) [ none ↦ false | some _ ↦ true ]

-- " \t\r\n\v"
abbrev pub whitespace : List ℕ
whitespace = 32 ∷ 9 ∷ 13 ∷ 10 ∷ 11 ∷ []

abbrev pub symbols : List ℕ
symbols = b'<' ∷ b'|' ∷ b'>' ∷ b'&' ∷ b';' ∷ b'(' ∷ b')' ∷ []

pub is_space : ℕ → Bool
is_space c = is_in whitespace c

-- A character of a word.
pub is_word : ℕ → Bool
unfolding is_space
is_word c = not (is_space c) && not (is_in symbols c)

pub skip_space : List ℕ → List ℕ
skip_space [] = []
skip_space (c ∷ cs) = let rest = skip_space cs in if is_space c then rest else c ∷ cs

-- The loop of the default case of `gettoken`: the word, and the rest.
pub word : List ℕ → List ℕ × List ℕ
word [] = ([], [])
word (c ∷ cs) = let more = word cs in if is_word c then (c ∷ more.0, more.1) else ([], c ∷ cs)

-- A token: the value that `gettoken` returns, its text, and the rest.
pub record Token : Type 0 where
  pub ret : ℕ
  pub text : List ℕ
  pub rest : List ℕ

abbrev pub is_single : ℕ → Bool
is_single c = c == b'|' || c == b'(' || c == b')' || c == b';' || c == b'&' || c == b'<'

-- The case of '>'.
pub greater : List ℕ → Token
greater [] = record { ret = b'>'; text = b'>' ∷ []; rest = [] }
greater (c ∷ cs) =
    if c == b'>'
    then record { ret = b'+'; text = b'>' ∷ b'>' ∷ []; rest = skip_space cs }
    else record { ret = b'>'; text = b'>' ∷ []; rest = skip_space (c ∷ cs) }

-- `gettoken` past the white space.
pub token_at : List ℕ → Token
token_at [] = record { ret = 0; text = []; rest = [] }
token_at (c ∷ cs) =
    let w = word (c ∷ cs) in
    if is_single c
    then record { ret = c; text = c ∷ []; rest = skip_space cs }
    else if c == b'>'
    then greater cs
    else record { ret = b'a'; text = w.0; rest = skip_space w.1 }

pub gettoken : List ℕ → Token
gettoken s = token_at (skip_space s)

abbrev pub head_in : List ℕ → List ℕ → Bool
head_in toks [] = false
head_in toks (c ∷ cs) = is_in toks c

-- `peek`: the answer, and the pointer past the white space.
pub peek : List ℕ → List ℕ → Bool × List ℕ
peek toks s = (head_in toks (skip_space s), skip_space s)

abbrev pub one_of : ℕ → List ℕ
one_of c = c ∷ []

-- The `switch` of `parseredirs`, on one of its three tokens.
pub redir_of : ℕ → List ℕ → Redir
redir_of tok file =
    if tok == b'<'
    then record { file = file; mode = read_only; fd = 0 }
    else record { file = file; mode = write_create; fd = 1 }

-- The loop of `parseredirs`: its redirections in order, for at most `fuel` of them.
pub parse_redirs : ℕ → List ℕ → Result (List Redir × List ℕ)
parse_redirs zero s = out_of_fuel
parse_redirs (suc fuel) s =
    let (more, s1) = peek (b'<' ∷ b'>' ∷ []) s in
    let tok = gettoken s1 in
    let file = gettoken tok.rest in
    let rest = parse_redirs fuel file.rest in
    let all = rest >>= λ (rs, s2). ok (redir_of tok.ret file.text ∷ rs, s2) in
    if not more then ok ([], s1) else if not (file.ret == b'a') then panic missing_file else all

-- The redirections wrapped round a command, the first one inside.
pub wrap : Cmd → List Redir → Cmd
wrap c [] = c
wrap c (r ∷ rs) = wrap (redir c r) rs

-- The loop of `parseexec` after `argc` words: the further words and the redirections between them.
pub parse_args : ℕ → ℕ → List ℕ → Result (List (List ℕ) × List Redir × List ℕ)
parse_args zero argc s = out_of_fuel
parse_args (suc fuel) argc s =
    let (stop, s1) = peek (b'|' ∷ b')' ∷ b'&' ∷ b';' ∷ []) s in
    let tok = gettoken s1 in
    let rest = parse_redirs fuel tok.rest >>= λ (rs, s2).
    parse_args fuel (argc + 1) s2 >>= λ (ws, rs', s3). ok (tok.text ∷ ws, rs ++ rs', s3) in
    if stop
    then ok ([], [], s1)
    else if tok.ret == 0
    then ok ([], [], tok.rest)
    else if not (tok.ret == b'a')
    then panic bad_token
    else if leb max_args (argc + 1)
    then panic too_many_args
    else rest

-- The loop of `parseline` over '&'.
pub parse_backs : ℕ → Cmd → List ℕ → Result (Cmd × List ℕ)
parse_backs zero c s = out_of_fuel
parse_backs (suc fuel) c s =
    let (more, s1) = peek (one_of b'&') s in
    let rest = parse_backs fuel (back c) (gettoken s1).rest in if more then rest else ok (c, s1)

mutual
  pub parse_line : ℕ → List ℕ → Result (Cmd × List ℕ)
  parse_line zero s = out_of_fuel
  parse_line (suc fuel) s = parse_pipe fuel s >>= λ (c, s1). parse_backs fuel c s1 >>= λ (c, s2).
      let (more, s3) = peek (one_of b';') s2 in
      let rest = parse_line fuel (gettoken s3).rest >>= λ (d, s4). ok (seq c d, s4) in
      if more then rest else ok (c, s3)

  pub parse_pipe : ℕ → List ℕ → Result (Cmd × List ℕ)
  parse_pipe zero s = out_of_fuel
  parse_pipe (suc fuel) s = parse_exec fuel s >>= λ (c, s1).
      let (more, s2) = peek (one_of b'|') s1 in
      let rest = parse_pipe fuel (gettoken s2).rest >>= λ (d, s3). ok (pipe c d, s3) in
      if more then rest else ok (c, s2)

  pub parse_block : ℕ → List ℕ → Result (Cmd × List ℕ)
  parse_block zero s = out_of_fuel
  parse_block (suc fuel) s =
      let (opens, s1) = peek (one_of b'(') s in
      let rest = parse_line fuel (gettoken s1).rest >>= λ (c, s2).
      let (closes, s3) = peek (one_of b')') s2 in
      let after = parse_redirs fuel (gettoken s3).rest >>= λ (rs, s4). ok (wrap c rs, s4) in
      (if closes then after else panic missing_paren) in
      if opens then rest else panic not_block

  pub parse_exec : ℕ → List ℕ → Result (Cmd × List ℕ)
  parse_exec zero s = out_of_fuel
  parse_exec (suc fuel) s =
      let (opens, s1) = peek (one_of b'(') s in
      let block = parse_block fuel s1 in
      let words = parse_redirs fuel s1 >>= λ (rs, s2).
      parse_args fuel 0 s2 >>= λ (ws, rs', s3). ok (wrap (exec ws) (rs ++ rs'), s3) in
      if opens then block else words

-- The end of `parsecmd`.
pub finish : Cmd × List ℕ → Result Cmd
finish (c, s) = elim (peek [] s).1 [ [] ↦ ok c | _ ∷ _ ↦ panic leftovers ]

-- `parsecmd`
pub parse_cmd : List ℕ → Result Cmd
parse_cmd s = parse_line (4 * length s + 4) s >>= finish
