-- ===== src/Sh/Fuel.antt =====
-- The parser of the shell ends on every input.
use cs461_hw.Base.{
  ℕ, zero, suc, ◌+◌, ◌*◌, ◌≢◌, ◌≤◌, ◌<◌, List, [], ◌∷◌, ◌==◌, leb, length, arith, Bool-cases, inl,
  inr,
}
use cs461_hw.Sh.{
  Result, ok, panic, out_of_fuel, ◌>>=◌, Redir, Cmd, back, max_args, Token, gettoken, peek, one_of,
  parse_redirs, parse_args, parse_backs, parse_line, parse_pipe, parse_block, parse_exec, finish,
  parse_cmd, leftovers,
}
use cs461_hw.Sh.Lexer.{skip_space_le, gettoken_lt, gettoken_next, gettoken_le}

-- A parser that has not run out of fuel leaves at most `n` characters.
abbrev pub Runs {ℓ} : {A : Type ℓ} → (A → List ℕ) → ℕ → Result A → Type 0
Runs rest n (ok a) = length (rest a) ≤ n
Runs rest n (panic e) = Unit
Runs rest n out_of_fuel = ⊥

Runs-bind {ℓ κ} :
    {A : Type ℓ} {B : Type κ} (p : A → List ℕ) (q : B → List ℕ) (n n' : ℕ) (m : Result A)
    (f : A → Result B)
    → Runs p n m
    → ((a : A) → length (p a) ≤ n → Runs q n' (f a))
    → Runs q n' (m >>= f)
Runs-bind p q n n' (ok a) f h k = k a h
Runs-bind p q n n' (panic e) f h k = tt
Runs-bind p q n n' out_of_fuel f h k = h

peek_le : (toks s : List ℕ) → length (peek toks s).1 ≤ length s
unfolding peek
peek_le toks s = skip_space_le s

weaken {ℓ} :
    {A : Type ℓ} (p : A → List ℕ) (n n' : ℕ) (m : Result A) → n ≤ n' → Runs p n m → Runs p n' m
weaken p n n' (ok a) le h = omega arith
weaken p n n' (panic e) le h = tt
weaken p n n' out_of_fuel le h = h

abbrev second {ℓ} : {A : Type ℓ} → A × List ℕ → List ℕ
second r = r.1

parse_redirs-Runs :
    (fuel : ℕ) (s : List ℕ) → length s < fuel → Runs second (length s) (parse_redirs fuel s)
unfolding parse_redirs
parse_redirs-Runs zero s h = absurd (omega arith)
parse_redirs-Runs (suc fuel) s h = elim (Bool-cases (peek toks s).0) [
  | inr n ↦ rw n (peek_le toks s)
  | inl y ↦ elim (Bool-cases ((gettoken (gettoken (peek toks s).1).rest).ret == b'a')) [
    | inr n ↦ rw (y, n) tt
    | inl a ↦
        let shorter : length file.rest < length s =
          omega (arith, gettoken_lt toks s y, gettoken_le (gettoken (peek toks s).1).rest) in
        rw (y, a)
          (Runs-bind second second (length file.rest) (length s) (parse_redirs fuel file.rest) _
            (parse_redirs-Runs fuel file.rest (omega arith)) (λ r le. omega arith))
  ]
]
  where
    toks : List ℕ
    toks = b'<' ∷ b'>' ∷ []

    file : Token
    file = gettoken (gettoken (peek toks s).1).rest

abbrev third {ℓ} : {A : Type ℓ} → A × List Redir × List ℕ → List ℕ
third r = r.2

parse_args-Runs :
    (fuel argc : ℕ) (s : List ℕ) → length s < fuel → Runs third (length s) (parse_args fuel argc s)
unfolding parse_args
parse_args-Runs zero argc s h = absurd (omega arith)
parse_args-Runs (suc fuel) argc s h = elim (Bool-cases (peek toks s).0) [
  | inl y ↦ rw y (peek_le toks s)
  | inr n ↦ elim (Bool-cases (tok.ret == 0)) [
    | inl z ↦ rw (n, z) (omega (arith, gettoken_le (peek toks s).1, peek_le toks s))
    | inr nz ↦ elim (Bool-cases (tok.ret == b'a')) [
      | inr m ↦ rw (n, nz, m) tt
      | inl a ↦ elim (Bool-cases (leb max_args (argc + 1))) [
        | inl many ↦ rw (n, nz, a, many) tt
        | inr few ↦
            let shorter : length tok.rest < length s =
              omega (arith, gettoken_next (peek toks s).1 (ground arith), peek_le toks s) in
            rw (n, nz, a, few)
              (Runs-bind second third (length tok.rest) (length s) (parse_redirs fuel tok.rest) _
                (parse_redirs-Runs fuel tok.rest (omega arith))
                (λ r le.
                  Runs-bind third third (length r.1) (length s) (parse_args fuel (argc + 1) r.1) _
                    (parse_args-Runs fuel (argc + 1) r.1 (omega arith)) (λ q le'. omega arith)))
      ]
    ]
  ]
]
  where
    toks : List ℕ
    toks = b'|' ∷ b')' ∷ b'&' ∷ b';' ∷ []

    tok : Token
    tok = gettoken (peek toks s).1

parse_backs-Runs :
    (fuel : ℕ) (c : Cmd) (s : List ℕ)
    → length s < fuel
    → Runs second (length s) (parse_backs fuel c s)
unfolding parse_backs
parse_backs-Runs zero c s h = absurd (omega arith)
parse_backs-Runs (suc fuel) c s h = elim (Bool-cases (peek (one_of b'&') s).0) [
  | inr n ↦ rw n (peek_le (one_of b'&') s)
  | inl y ↦
      let lt = gettoken_lt (one_of b'&') s y in
      rw y (
        weaken second _ _ (parse_backs fuel (back c) (gettoken (peek (one_of b'&') s).1).rest)
          (omega (arith, lt))
          (parse_backs-Runs fuel (back c) (gettoken (peek (one_of b'&') s).1).rest
            (omega (arith, lt))))
]

mutual
  unfolding parse_line parse_pipe parse_block parse_exec

  parse_line-Runs :
      (fuel : ℕ) (s : List ℕ) → 4 * length s + 3 < fuel → Runs second (length s) (parse_line fuel s)
  parse_line-Runs zero s h = absurd (omega arith)
  parse_line-Runs (suc fuel) s h =
      Runs-bind second second (length s) (length s) (parse_pipe fuel s) _
        (parse_pipe-Runs fuel s (omega arith))
        λ r le.
          Runs-bind second second (length s) (length s) (parse_backs fuel r.0 r.1) _
            (weaken second _ _ (parse_backs fuel r.0 r.1) le
              (parse_backs-Runs fuel r.0 r.1 (omega arith)))
            λ q le'. elim (Bool-cases (peek (one_of b';') q.1).0) [
              | inr n ↦ rw n (omega (arith, peek_le (one_of b';') q.1))
              | inl y ↦
                  let lt = gettoken_lt (one_of b';') q.1 y in
                  rw y (
                    Runs-bind second second (length s) (length s)
                      (parse_line fuel (gettoken (peek (one_of b';') q.1).1).rest) _
                      (weaken second _ _
                        (parse_line fuel (gettoken (peek (one_of b';') q.1).1).rest)
                        (omega (arith, lt))
                        (parse_line-Runs fuel (gettoken (peek (one_of b';') q.1).1).rest
                          (omega (arith, lt))))
                      (λ t le''. le''))
            ]

  parse_pipe-Runs :
      (fuel : ℕ) (s : List ℕ) → 4 * length s + 2 < fuel → Runs second (length s) (parse_pipe fuel s)
  parse_pipe-Runs zero s h = absurd (omega arith)
  parse_pipe-Runs (suc fuel) s h =
      Runs-bind second second (length s) (length s) (parse_exec fuel s) _
        (parse_exec-Runs fuel s (omega arith))
        λ r le. elim (Bool-cases (peek (one_of b'|') r.1).0) [
          | inr n ↦ rw n (omega (arith, peek_le (one_of b'|') r.1))
          | inl y ↦
              let lt = gettoken_lt (one_of b'|') r.1 y in
              rw y (
                Runs-bind second second (length s) (length s)
                  (parse_pipe fuel (gettoken (peek (one_of b'|') r.1).1).rest) _
                  (weaken second _ _ (parse_pipe fuel (gettoken (peek (one_of b'|') r.1).1).rest)
                    (omega (arith, lt))
                    (parse_pipe-Runs fuel (gettoken (peek (one_of b'|') r.1).1).rest
                      (omega (arith, lt))))
                  (λ t le'. le'))
        ]

  parse_block-Runs :
      (fuel : ℕ) (s : List ℕ) → 4 * length s < fuel → Runs second (length s) (parse_block fuel s)
  parse_block-Runs zero s h = absurd (omega arith)
  parse_block-Runs (suc fuel) s h = elim (Bool-cases (peek (one_of b'(') s).0) [
    | inr n ↦ rw n tt
    | inl y ↦
        let lt = gettoken_lt (one_of b'(') s y in
        rw y (
          Runs-bind second second (length s) (length s)
            (parse_line fuel (gettoken (peek (one_of b'(') s).1).rest) _
            (weaken second _ _ (parse_line fuel (gettoken (peek (one_of b'(') s).1).rest)
              (omega (arith, lt))
              (parse_line-Runs fuel (gettoken (peek (one_of b'(') s).1).rest (omega (arith, lt))))
            λ r le. elim (Bool-cases (peek (one_of b')') r.1).0) [
              | inr n ↦ rw n tt
              | inl z ↦
                  let lt' = gettoken_lt (one_of b')') r.1 z in
                  rw z (
                    Runs-bind second second (length s) (length s)
                      (parse_redirs fuel (gettoken (peek (one_of b')') r.1).1).rest) _
                      (weaken second _ _
                        (parse_redirs fuel (gettoken (peek (one_of b')') r.1).1).rest)
                        (omega (arith, lt'))
                        (parse_redirs-Runs fuel (gettoken (peek (one_of b')') r.1).1).rest
                          (omega (arith, lt'))))
                      (λ t le'. le'))
            ])
  ]

  parse_exec-Runs :
      (fuel : ℕ) (s : List ℕ) → 4 * length s + 1 < fuel → Runs second (length s) (parse_exec fuel s)
  parse_exec-Runs zero s h = absurd (omega arith)
  parse_exec-Runs (suc fuel) s h =
      let le = peek_le (one_of b'(') s in
      elim (Bool-cases (peek (one_of b'(') s).0) [
        | inl y ↦ rw y (
            weaken second _ _ (parse_block fuel (peek (one_of b'(') s).1) le
              (parse_block-Runs fuel (peek (one_of b'(') s).1 (omega arith)))
        | inr n ↦ rw n (
            Runs-bind second second (length s) (length s)
              (parse_redirs fuel (peek (one_of b'(') s).1) _
              (weaken second _ _ (parse_redirs fuel (peek (one_of b'(') s).1) le
                (parse_redirs-Runs fuel (peek (one_of b'(') s).1 (omega arith)))
              λ r le'.
                Runs-bind third second (length s) (length s) (parse_args fuel 0 r.1) _
                  (weaken third _ _ (parse_args fuel 0 r.1) le'
                    (parse_args-Runs fuel 0 r.1 (omega arith)))
                  λ q le''. le'')
      ]

-- The fuel of `parse_cmd` is enough: on every line the parser ends, with a command or with a panic.
pub parse_cmd_ends : (s : List ℕ) → parse_cmd s ≢ out_of_fuel
unfolding parse_cmd finish
parse_cmd_ends s e =
    result (parse_line (4 * length s + 4) s) (parse_line-Runs (4 * length s + 4) s (omega arith)) e
  where
    result : (r : Result (Cmd × List ℕ)) → Runs second (length s) r → (r >>= finish) ≢ out_of_fuel
    result (ok (c, rest)) h e = ended (peek [] rest).1 e
      where
        ended :
            (t : List ℕ)
            → elim t as (λ _. Result Cmd) [ [] ↦ ok c | _ ∷ _ ↦ panic leftovers ] ≢ out_of_fuel
        ended [] e = cc
        ended (x ∷ xs) e = cc
    result (panic x) h e = cc
    result out_of_fuel h e = h
