-- ===== src/Sh/Tests.antt =====
-- The parser on short lines.
use cs461_hw.Base.{◌≡◌, ◌≢◌, refl, [], ◌∷◌, arith}
use cs461_hw.UserLib.{strchr}
use cs461_hw.Sh.Fuel.{parse_cmd_ends}
use cs461_hw.Sh.Printer.{IsPlain, show}
use cs461_hw.Sh.RoundTrip.{parse_cmd-show}
use cs461_hw.Sh.{
  ok, out_of_fuel, Cmd, exec, redir, pipe, back, write_create, parse_cmd, parse_line, parse_pipe,
  parse_exec, parse_block, parse_args, parse_redirs, parse_backs, finish, wrap, redir_of, peek,
  gettoken, token_at, greater, skip_space, word, is_word, is_space,
}

-- "ls a>b|(c)&"
pipes :
    parse_cmd (b'l' ∷ b's' ∷ 32 ∷ b'a' ∷ b'>' ∷ b'b' ∷ b'|' ∷ b'(' ∷ b'c' ∷ b')' ∷ b'&' ∷ [])
    ≡ ok (
        back (
          pipe
            (redir
              (exec ((b'l' ∷ b's' ∷ []) ∷ (b'a' ∷ []) ∷ []))
              (record { file = b'b' ∷ []; mode = write_create; fd = 1 }))
            (exec ((b'c' ∷ []) ∷ []))))
unfolding parse_cmd parse_line parse_pipe parse_exec parse_block parse_args parse_redirs parse_backs
    finish wrap redir_of peek gettoken token_at greater skip_space word is_word is_space strchr
pipes = refl

abbrev listing : Cmd
listing = back (
    pipe
      (redir (exec ((b'l' ∷ b's' ∷ []) ∷ []))
        (record { file = b'f' ∷ []; mode = write_create; fd = 1 }))
      (exec ((b'w' ∷ b'c' ∷ []) ∷ [])))

listing-IsPlain : IsPlain listing
unfolding redir_of is_word is_space strchr
listing-IsPlain = (
  ((((refl, (refl, tt)), tt), omega arith), (refl, tt), refl),
  (((refl, (refl, tt)), tt), omega arith),
)

parse_cmd-show_example : parse_cmd (show listing []) ≡ ok listing
parse_cmd-show_example = parse_cmd-show listing listing-IsPlain

parse_cmd_ends_example : parse_cmd (b'(' ∷ b'l' ∷ b's' ∷ []) ≢ out_of_fuel
parse_cmd_ends_example = parse_cmd_ends (b'(' ∷ b'l' ∷ b's' ∷ [])
