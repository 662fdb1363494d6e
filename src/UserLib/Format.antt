-- ===== src/UserLib/Format.antt =====
-- `printf` on the text of its format.
use cs461_hw.Base.{
  ℕ, ◌≡◌, ◌≢◌, ◌∙◌, ap, refl, false, List, [], ◌∷◌, ◌++◌, ◌==◌, Option, some, none, ℤ, arith, sym,
  append_assoc,
}
use cs461_hw.UserLib.{Arg, int, print_d, directive, emit, after_directive, printf}

abbrev pub IsPlain : List ℕ → Type 0
IsPlain [] = Unit
IsPlain (c ∷ cs) = (c ≢ b'%') × IsPlain cs

emit-emit : (a b : List ℕ) (r : Option (List ℕ)) → emit a (emit b r) ≡ emit (a ++ b) r
unfolding emit
emit-emit a b none = refl
emit-emit a b (some r) = ground (arith, append_assoc a b r)

printf_plain_char :
    (c : ℕ) (fmt : List ℕ) (args : List Arg)
    → c ≢ b'%'
    → printf (c ∷ fmt) args ≡ emit (c ∷ []) (printf fmt args)
unfolding printf emit
printf_plain_char c [] args h = ground arith
printf_plain_char c (d ∷ fmt) args h = let test : (c == b'%') ≡ false = ground arith in rw test refl

emit-nil : (r : Option (List ℕ)) → emit [] r ≡ r
unfolding emit
emit-nil none = refl
emit-nil (some r) = refl

-- `printf` copies the text before the first `%` to its output, and goes on with what follows.
pub printf-append :
    (pre fmt : List ℕ) (args : List Arg)
    → IsPlain pre
    → printf (pre ++ fmt) args ≡ emit pre (printf fmt args)
printf-append [] fmt args h = sym (emit-nil (printf fmt args))
printf-append (c ∷ pre) fmt args h =
    printf_plain_char c (pre ++ fmt) args h.0
    ∙ ap (emit (c ∷ [])) (printf-append pre fmt args h.1)
    ∙ emit-emit (c ∷ []) pre (printf fmt args)

-- A `%d` after plain text prints the text, then the next argument in decimal, and goes on with the
-- rest of the format and of the arguments.
pub printf_decimal :
    (pre fmt : List ℕ) (v : ℤ) (args : List Arg)
    → IsPlain pre
    → printf (pre ++ (b'%' ∷ b'd' ∷ fmt)) (int v ∷ args) ≡ emit (pre ++ print_d v) (printf fmt args)
printf_decimal pre fmt v args h =
    printf-append pre (b'%' ∷ b'd' ∷ fmt) (int v ∷ args) h
    ∙ ap (emit pre) here
    ∙ emit-emit pre (print_d v) (printf fmt args)
  where
    here : printf (b'%' ∷ b'd' ∷ fmt) (int v ∷ args) ≡ emit (print_d v) (printf fmt args)
    here = unfold printf after_directive directive in refl
