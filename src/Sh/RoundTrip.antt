-- ===== src/Sh/RoundTrip.antt =====
-- Every command can be written, and the parser reads it back.
use cs461_hw.Base.{
  ℕ, zero, suc, ◌+◌, ◌-◌, ◌*◌, ◌≡◌, ◌≤◌, ◌<◌, ◌∙◌, refl, sym, ap, subst, false, List, [], ◌∷◌, ◌++◌,
  length, length-append, arith,
}
use cs461_hw.UserLib.{strchr}
use cs461_hw.Sh.{
  ok, Redir, Mode, read_only, write_create, Cmd, exec, redir, pipe, seq, back, is_space, skip_space,
  token_at, gettoken, head_in, peek, one_of, wrap, parse_backs, parse_line, parse_pipe, parse_exec,
  finish, parse_cmd,
}
use cs461_hw.Sh.Lexer.{skip_space_none}
use cs461_hw.Sh.Printer.{AllWords, IsPlain, words, operator, show}
use cs461_hw.Sh.Lexing.{Closes, Closes-Stopped, peek-Closes}
use cs461_hw.Sh.Groups.{
  block-read, group-read, parse_pipe-Closes, parse_backs-Closes, parse_line-Closes, exec-read,
  Closes-no_redir, redir-read,
}

-- The rounds that `parse_line` needs for a command.
abbrev cost : Cmd → ℕ
cost (exec ws) = length ws + 3
cost (redir c r) = cost c + 4
cost (pipe l r) = cost l + cost r + 5
cost (seq l r) = cost l + cost r + 5
cost (back c) = cost c + 4

cost_pos : (c : Cmd) → 2 < cost c
cost_pos (exec ws) = omega arith
cost_pos (redir c r) = omega (arith, cost_pos c)
cost_pos (pipe l r) = omega (arith, cost_pos l)
cost_pos (seq l r) = omega (arith, cost_pos l)
cost_pos (back c) = omega (arith, cost_pos c)

-- The command `c` is read off the front of a text that closes behind it.
abbrev Reads : Cmd → Type 0
Reads c = (f : ℕ) (t : List ℕ) → Closes t → cost c < f → parse_line f (show c t) ≡ ok (c, t)

-- Fuel above 5 is a sixfold successor.
spend :
    (f : ℕ) (P : ℕ → Type 0)
    → 5 < f
    → ((g : ℕ) → g + 6 ≡ f → P (suc (suc (suc (suc (suc (suc g)))))))
    → P f
spend f P h p =
    let same : suc (suc (suc (suc (suc (suc (f - 6)))))) ≡ f = omega arith in
    subst P same (p (f - 6) (omega arith))

exec-Reads : (ws : List (List ℕ)) → IsPlain (exec ws) → Reads (exec ws)
exec-Reads ws p zero t k h = absurd (omega arith)
exec-Reads ws p (suc zero) t k h = absurd (omega arith)
exec-Reads ws p (suc (suc zero)) t k h = absurd (omega arith)
exec-Reads ws p (suc (suc (suc zero))) t k h = absurd (omega arith)
exec-Reads ws p (suc (suc (suc (suc g)))) t k h =
    parse_line-Closes (suc (suc g)) (words ws t) (exec ws) t k (
      parse_pipe-Closes (suc (suc g)) (words ws t) (exec ws) t k
        (exec-read g ws t p.0 p.1 (omega arith) k))

-- A line that begins with a group.
group-Closes :
    (g : ℕ) (s : List ℕ) (c : Cmd) (t : List ℕ)
    → Closes t
    → parse_exec (suc g) s ≡ ok (c, t)
    → parse_line (suc (suc (suc g))) s ≡ ok (c, t)
group-Closes g s c t k e = parse_line-Closes (suc g) s c t k (parse_pipe-Closes (suc g) s c t k e)

redir-Reads : (c : Cmd) (r : Redir) → IsPlain (redir c r) → Reads c → Reads (redir c r)
unfolding wrap
redir-Reads c r (p, w, e) ih f t k h =
    spend f (λ n. parse_line n (show (redir c r) t) ≡ ok (redir c r, t)) (omega (arith, cost_pos c))
      λ g same. group-Closes (suc (suc (suc g))) (show (redir c r) t) (redir c r) t k (
        block-read (suc (suc g)) c (operator r.mode ∷ (r.file ++ t)) p (operator-Stopped r.mode)
          (ih (suc (suc g)) (b')' ∷ operator r.mode ∷ (r.file ++ t)) refl (omega arith))
        ∙ (rw (redir-read g r.mode r.file t w k) (ap (λ q. ok (redir c q, t)) (sym e))))
  where
    operator-Stopped : (m : Mode) → is_space (operator m) ≡ false
    operator-Stopped m =
        unfold is_space strchr in
        elim m as (λ x. is_space (operator x) ≡ false) [ read_only ↦ refl | write_create ↦ refl ]

pipe-Reads : (l r : Cmd) → IsPlain (pipe l r) → Reads l → Reads r → Reads (pipe l r)
unfolding parse_pipe peek gettoken token_at skip_space is_space strchr
pipe-Reads l r (p, q) ihl ihr f t k h =
    spend f (λ n. parse_line n (show (pipe l r) t) ≡ ok (pipe l r, t)) (omega (arith, cost_pos l))
      λ g same. parse_line-Closes (suc (suc (suc (suc g)))) (show (pipe l r) t) (pipe l r) t k (
        rw
          (group-read (suc g) l (b'|' ∷ right) p refl refl
            (ihl (suc (suc g)) (b')' ∷ b'|' ∷ right) refl (omega (arith, cost_pos r))))
          (rw
            (parse_pipe-Closes (suc (suc (suc g))) right r t k (
              group-read g r t q (Closes-Stopped t k) (Closes-no_redir t k)
                (ihr (suc g) (b')' ∷ t) refl (omega (arith, cost_pos l)))))
            refl))
  where
    right : List ℕ
    right = b'(' ∷ show r (b')' ∷ t)

seq-Reads : (l r : Cmd) → IsPlain (seq l r) → Reads l → Reads r → Reads (seq l r)
unfolding parse_line parse_pipe parse_backs peek gettoken token_at skip_space is_space strchr
seq-Reads l r (p, q) ihl ihr f t k h =
    spend f (λ n. parse_line n (show (seq l r) t) ≡ ok (seq l r, t)) (omega (arith, cost_pos l))
      λ g same.
        rw
          (group-read (suc g) l (b';' ∷ right) p refl refl
            (ihl (suc (suc g)) (b')' ∷ b';' ∷ right) refl (omega (arith, cost_pos r))))
          (rw
            (group-Closes (suc (suc g)) right r t k (
              group-read g r t q (Closes-Stopped t k) (Closes-no_redir t k)
                (ihr (suc g) (b')' ∷ t) refl (omega (arith, cost_pos l)))))
            refl)
  where
    right : List ℕ
    right = b'(' ∷ show r (b')' ∷ t)

parse_backs-one :
    (g : ℕ) (c : Cmd) (t : List ℕ)
    → Closes t
    → parse_backs (suc (suc g)) c (b'&' ∷ t) ≡ ok (back c, t)
unfolding parse_backs peek gettoken token_at skip_space is_space strchr
parse_backs-one g c t k =
    rw (skip_space_none t (Closes-Stopped t k)) (parse_backs-Closes g (back c) t k)

parse_line_backs :
    (g : ℕ) (s s' : List ℕ) (c d : Cmd) (t : List ℕ)
    → Closes t
    → parse_pipe g s ≡ ok (c, s')
    → parse_backs g c s' ≡ ok (d, t)
    → parse_line (suc g) s ≡ ok (d, t)
unfolding parse_line strchr
parse_line_backs g s s' c d t k e b = rw e (rw b (rw (peek-Closes (one_of b';') t refl k) refl))

parse_pipe_group :
    (g : ℕ) (s : List ℕ) (c : Cmd) (t : List ℕ)
    → parse_exec g s ≡ ok (c, b'&' ∷ t)
    → parse_pipe (suc g) s ≡ ok (c, b'&' ∷ t)
unfolding parse_pipe peek skip_space is_space strchr
parse_pipe_group g s c t e = rw e refl

back-Reads : (c : Cmd) → IsPlain (back c) → Reads c → Reads (back c)
back-Reads c p ih f t k h =
    spend f (λ n. parse_line n (show (back c) t) ≡ ok (back c, t)) (omega (arith, cost_pos c))
      λ g same.
        parse_line_backs (suc (suc (suc (suc (suc g))))) (show (back c) t) (b'&' ∷ t) c (back c) t k
          (parse_pipe_group (suc (suc (suc (suc g)))) (show (back c) t) c t (
            group-read (suc g) c (b'&' ∷ t) p amp_Stopped amp_no_redir
              (ih (suc (suc g)) (b')' ∷ b'&' ∷ t) refl (omega arith))))
          (parse_backs-one (suc (suc (suc g))) c t k)
  where
    amp_Stopped : is_space b'&' ≡ false
    amp_Stopped = unfold is_space strchr in refl

    amp_no_redir : head_in (b'<' ∷ b'>' ∷ []) (b'&' ∷ t) ≡ false
    amp_no_redir = unfold strchr in refl

show-Reads : (c : Cmd) → IsPlain c → Reads c
show-Reads (exec ws) p = exec-Reads ws p
show-Reads (redir c r) p = redir-Reads c r p (show-Reads c p.0)
show-Reads (pipe l r) p = pipe-Reads l r p (show-Reads l p.0) (show-Reads r p.1)
show-Reads (seq l r) p = seq-Reads l r p (show-Reads l p.0) (show-Reads r p.1)
show-Reads (back c) p = back-Reads c p (show-Reads c p)

-- The text of a command is long enough for the fuel of `parse_cmd`.
words_cost :
    (ws : List (List ℕ)) (t : List ℕ) → AllWords ws → length ws + length t ≤ length (words ws t)
words_cost [] t p = omega arith
words_cost (w ∷ ws) t p = omega (arith, length-append w (32 ∷ words ws t), words_cost ws t p.1)

cost-show : (c : Cmd) (t : List ℕ) → IsPlain c → cost c + 4 * length t ≤ 4 * length (show c t) + 3
cost-show (exec ws) t p = omega (arith, words_cost ws t p.0)
cost-show (redir c r) t p =
    omega (arith, cost-show c (b')' ∷ operator r.mode ∷ (r.file ++ t)) p.0, length-append r.file t)
cost-show (pipe l r) t p =
    omega
      (arith, cost-show l (b')' ∷ b'|' ∷ b'(' ∷ show r (b')' ∷ t)) p.0, cost-show r (b')' ∷ t) p.1)
cost-show (seq l r) t p =
    omega
      (arith, cost-show l (b')' ∷ b';' ∷ b'(' ∷ show r (b')' ∷ t)) p.0, cost-show r (b')' ∷ t) p.1)
cost-show (back c) t p = omega (arith, cost-show c (b')' ∷ b'&' ∷ t) p)

-- The parser reads back every command of the shell from its text, with each part in parentheses: no
-- command of at most nine words that are words, and of the redirections that the shell has, is lost
-- or changed.
pub parse_cmd-show : (c : Cmd) → IsPlain c → parse_cmd (show c []) ≡ ok c
unfolding parse_cmd finish peek skip_space
parse_cmd-show c p =
    rw (show-Reads c p (4 * length (show c []) + 4) [] tt (omega (arith, cost-show c [] p))) refl
