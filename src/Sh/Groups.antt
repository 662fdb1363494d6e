-- ===== src/Sh/Groups.antt =====
-- How the parser reads words, groups and redirections.
use cs461_hw.Base.{
  ℕ, zero, suc, ◌+◌, ◌≡◌, ◌<◌, ◌∙◌, refl, ap, true, false, List, [], ◌∷◌, ◌++◌, leb, length, arith,
}
use cs461_hw.UserLib.{strchr}
use cs461_hw.Sh.{
  ok, ◌>>=◌, Mode, read_only, write_create, Cmd, exec, redir, pipe, seq, back, max_args, Token,
  is_space, is_word, skip_space, greater, token_at, gettoken, head_in, peek, one_of, redir_of,
  parse_redirs, wrap, parse_args, parse_backs, parse_line, parse_pipe, parse_exec,
}
use cs461_hw.Sh.Lexer.{Stopped, skip_space_none}
use cs461_hw.Sh.Printer.{IsWord, AllWords, IsPlain, words, operator, show}
use cs461_hw.Sh.Lexing.{
  Closes, word-space, word-plain, gettoken-word, Closes-Stopped, Closes-EndsWord, peek-Closes,
  parse_redirs-none,
}

pub show-Stopped : (c : Cmd) (t : List ℕ) → IsPlain c → Stopped t → Stopped (show c t)
unfolding is_space strchr
show-Stopped (exec []) t p s = s
show-Stopped (exec ([] ∷ ws)) t p s = absurd p.0.0
show-Stopped (exec ((c ∷ w) ∷ ws)) t p s = word-space c p.0.0.0
show-Stopped (redir c r) t p s = refl
show-Stopped (pipe l r) t p s = refl
show-Stopped (seq l r) t p s = refl
show-Stopped (back c) t p s = refl

pub words-Stopped :
    (ws : List (List ℕ)) (t : List ℕ) → AllWords ws → Stopped t → Stopped (words ws t)
words-Stopped [] t p s = s
words-Stopped ([] ∷ ws) t p s = absurd p.0
words-Stopped ((c ∷ w) ∷ ws) t p s = word-space c p.0.0

-- A command in parentheses, and the redirections behind it.
pub block-read :
    (g : ℕ) (c : Cmd) (t : List ℕ)
    → IsPlain c
    → Stopped t
    → parse_line g (show c (b')' ∷ t)) ≡ ok (c, b')' ∷ t)
    → parse_exec (suc (suc g)) (b'(' ∷ show c (b')' ∷ t))
      ≡ (parse_redirs g t >>= λ (rs, s). ok (wrap c rs, s))
unfolding parse_exec peek skip_space gettoken token_at is_space strchr
block-read g c t p s ih =
    rw (skip_space_none (show c (b')' ∷ t)) (show-Stopped c (b')' ∷ t) p refl))
      (rw ih (rw (skip_space_none t s) refl))

-- With nothing to redirect behind it.
pub group-read :
    (g : ℕ) (c : Cmd) (t : List ℕ)
    → IsPlain c
    → Stopped t
    → head_in (b'<' ∷ b'>' ∷ []) t ≡ false
    → parse_line (suc g) (show c (b')' ∷ t)) ≡ ok (c, b')' ∷ t)
    → parse_exec (suc (suc (suc g))) (b'(' ∷ show c (b')' ∷ t)) ≡ ok (c, t)
unfolding wrap
group-read g c t p s h ih = block-read (suc g) c t p s ih ∙ rw (parse_redirs-none g t s h) refl

-- A command that closes is read by the outer functions too.
pub parse_pipe-Closes :
    (g : ℕ) (s : List ℕ) (c : Cmd) (t : List ℕ)
    → Closes t
    → parse_exec g s ≡ ok (c, t)
    → parse_pipe (suc g) s ≡ ok (c, t)
unfolding parse_pipe strchr
parse_pipe-Closes g s c t k e = rw e (rw (peek-Closes (one_of b'|') t refl k) refl)

pub parse_backs-Closes :
    (g : ℕ) (c : Cmd) (t : List ℕ) → Closes t → parse_backs (suc g) c t ≡ ok (c, t)
unfolding parse_backs strchr
parse_backs-Closes g c t k = rw (peek-Closes (one_of b'&') t refl k) refl

pub parse_line-Closes :
    (g : ℕ) (s : List ℕ) (c : Cmd) (t : List ℕ)
    → Closes t
    → parse_pipe (suc g) s ≡ ok (c, t)
    → parse_line (suc (suc g)) s ≡ ok (c, t)
unfolding parse_line strchr
parse_line-Closes g s c t k e =
    rw e (rw (parse_backs-Closes g c t k) (rw (peek-Closes (one_of b';') t refl k) refl))

-- The words of a command.
pub head_in-word :
    (w r : List ℕ)
    → IsWord w
    → (head_in (b'|' ∷ b')' ∷ b'&' ∷ b';' ∷ []) (w ++ r) ≡ false)
      × (head_in (b'<' ∷ b'>' ∷ []) (w ++ r) ≡ false)
      × (head_in (b'(' ∷ []) (w ++ r) ≡ false)
unfolding is_word is_space strchr
head_in-word [] r h = absurd h
head_in-word (c ∷ w) r (h, hs) = (ground arith, ground arith, ground arith)

pub no_redirs :
    (ws : List (List ℕ)) (t : List ℕ)
    → AllWords ws
    → Closes t
    → head_in (b'<' ∷ b'>' ∷ []) (words ws t) ≡ false
unfolding strchr
no_redirs [] [] p k = refl
no_redirs [] (c ∷ cs) p k = rw k refl
no_redirs (w ∷ ws) t p k = (head_in-word w (32 ∷ words ws t) p.0).1

pub args_step :
    (g argc : ℕ) (s w r : List ℕ) (ws : List (List ℕ)) (t : List ℕ)
    → peek (b'|' ∷ b')' ∷ b'&' ∷ b';' ∷ []) s ≡ (false, s)
    → gettoken s ≡ record { ret = b'a'; text = w; rest = r }
    → leb max_args (argc + 1) ≡ false
    → parse_redirs g r ≡ ok ([], r)
    → parse_args g (argc + 1) r ≡ ok (ws, [], t)
    → parse_args (suc g) argc s ≡ ok (w ∷ ws, [], t)
unfolding parse_args
args_step g argc s w r ws t e1 e2 few e3 e4 = rw e1 (rw e2 (rw few (rw e3 (rw e4 refl))))

pub space_ends : is_word 32 ≡ false
unfolding is_word is_space strchr
space_ends = refl

pub skip_one : (r : List ℕ) → Stopped r → skip_space (32 ∷ r) ≡ r
unfolding skip_space is_space strchr
skip_one r s = skip_space_none r s

pub parse_args-words :
    (g argc : ℕ) (ws : List (List ℕ)) (t : List ℕ)
    → AllWords ws
    → argc + length ws < max_args
    → length ws < g
    → Closes t
    → parse_args g argc (words ws t) ≡ ok (ws, [], t)
unfolding parse_args peek strchr
parse_args-words zero argc ws t p a f k = absurd (omega arith)
parse_args-words (suc g) argc [] [] p a f k = unfold skip_space gettoken token_at in refl
parse_args-words (suc g) argc [] (c ∷ cs) p a f k =
    rw (skip_space_none (c ∷ cs) (Closes-Stopped (c ∷ cs) k)) (rw k refl)
parse_args-words (suc zero) argc (w ∷ ws) t p a f k = absurd (omega arith)
parse_args-words (suc (suc g)) argc (w ∷ ws) t p a f k =
    let st = Closes-Stopped t k in
    let here = skip_space_none (words (w ∷ ws) t) (words-Stopped (w ∷ ws) t p st) in
    let after = words-Stopped ws t p.1 st in
    args_step (suc g) argc (words (w ∷ ws) t) w (words ws t) ws t
      (rw here (rw (head_in-word w (32 ∷ words ws t) p.0).0 refl))
      (gettoken-word w (32 ∷ words ws t) p.0 space_ends
        ∙ ap (λ (r : List ℕ). (let tok : Token = record { ret = b'a'; text = w; rest = r } in tok))
            (skip_one (words ws t) after))
      (ground arith) (parse_redirs-none g (words ws t) after (no_redirs ws t p.1 k))
      (parse_args-words (suc g) (argc + 1) ws t p.1 (omega arith) (omega arith) k)

pub no_group :
    (ws : List (List ℕ)) (t : List ℕ)
    → AllWords ws
    → Closes t
    → head_in (one_of b'(') (words ws t) ≡ false
unfolding strchr
no_group [] [] p k = refl
no_group [] (c ∷ cs) p k = rw k refl
no_group (w ∷ ws) t p k = (head_in-word w (32 ∷ words ws t) p.0).2

pub exec-read :
    (g : ℕ) (ws : List (List ℕ)) (t : List ℕ)
    → AllWords ws
    → length ws < max_args
    → length ws < suc g
    → Closes t
    → parse_exec (suc (suc g)) (words ws t) ≡ ok (exec ws, t)
unfolding parse_exec peek wrap
exec-read g ws t p a f k =
    let st = words-Stopped ws t p (Closes-Stopped t k) in
    rw (skip_space_none (words ws t) st) (
      rw (no_group ws t p k) (
        rw (parse_redirs-none g (words ws t) st (no_redirs ws t p k))
          (rw (parse_args-words (suc g) 0 ws t p (omega arith) f k) refl)))

pub redirs_step :
    (g tok : ℕ) (s text q file r : List ℕ)
    → peek (b'<' ∷ b'>' ∷ []) s ≡ (true, s)
    → gettoken s ≡ record { ret = tok; text = text; rest = q }
    → gettoken q ≡ record { ret = b'a'; text = file; rest = r }
    → parse_redirs g r ≡ ok ([], r)
    → parse_redirs (suc g) s ≡ ok (redir_of tok file ∷ [], r)
unfolding parse_redirs
redirs_step g tok s text q file r e1 e2 e3 e4 = rw e1 (rw e2 (rw e3 (rw e4 refl)))

pub gettoken-less :
    (q : List ℕ)
    → Stopped q
    → gettoken (b'<' ∷ q) ≡ record { ret = b'<'; text = b'<' ∷ []; rest = q }
unfolding gettoken token_at skip_space is_space strchr
gettoken-less q s = rw (skip_space_none q s) refl

pub gettoken-greater :
    (w t : List ℕ)
    → IsWord w
    → gettoken (b'>' ∷ (w ++ t)) ≡ record { ret = b'>'; text = b'>' ∷ []; rest = w ++ t }
unfolding gettoken token_at skip_space is_space strchr greater
gettoken-greater [] t h = absurd h
gettoken-greater (c ∷ w) t (h, hs) =
    rw (word-plain c h).1 (rw (skip_space_none (c ∷ (w ++ t)) (word-space c h)) refl)

pub word-Stopped : (w t : List ℕ) → IsWord w → Stopped (w ++ t)
word-Stopped [] t h = absurd h
word-Stopped (c ∷ w) t (h, hs) = word-space c h

pub Closes-no_redir : (t : List ℕ) → Closes t → head_in (b'<' ∷ b'>' ∷ []) t ≡ false
Closes-no_redir t k = no_redirs [] t tt k

-- A redirection behind a group.
pub redir-read :
    (g : ℕ) (m : Mode) (file t : List ℕ)
    → IsWord file
    → Closes t
    → parse_redirs (suc (suc g)) (operator m ∷ (file ++ t))
      ≡ ok (redir_of (operator m) file ∷ [], t)
unfolding peek skip_space is_space strchr
redir-read g m file t w k = by_mode m
  where
    st : Stopped t
    st = Closes-Stopped t k

    file_token : gettoken (file ++ t) ≡ record { ret = b'a'; text = file; rest = t }
    file_token =
        gettoken-word file t w (Closes-EndsWord t k)
        ∙ ap
            (λ (r : List ℕ).
              (let tok : Token = record { ret = b'a'; text = file; rest = r } in tok))
            (skip_space_none t st)

    none_left : parse_redirs (suc g) t ≡ ok ([], t)
    none_left = parse_redirs-none g t st (Closes-no_redir t k)

    by_mode :
        (m : Mode)
        → parse_redirs (suc (suc g)) (operator m ∷ (file ++ t))
          ≡ ok (redir_of (operator m) file ∷ [], t)
    by_mode read_only =
        redirs_step (suc g) b'<' (b'<' ∷ (file ++ t)) (b'<' ∷ []) (file ++ t) file t refl
          (gettoken-less (file ++ t) (word-Stopped file t w)) file_token none_left
    by_mode write_create =
        redirs_step (suc g) b'>' (b'>' ∷ (file ++ t)) (b'>' ∷ []) (file ++ t) file t refl
          (gettoken-greater file t w) file_token none_left
