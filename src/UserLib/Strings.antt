-- ===== src/UserLib/Strings.antt =====
-- `strcmp`, `strchr` and `gets` against what they are meant to do.
use cs461_hw.Base.{
  ℕ, zero, suc, ◌-◌, ◌<◌, ◌≤◌, ◌≡◌, ◌≢◌, ◌↔◌, ap, refl, true, false, List, [], ◌∷◌, ◌++◌, ◌==◌,
  ◌||◌, pos, Option, some, none, length, arith, Bool-cases, inl, inr, ℕ_discrete,
}
use cs461_hw.UserLib.{strcmp, strchr, gets_loop, gets}

-- Every character is not NUL.
abbrev pub NulFree : List ℕ → Type 0
NulFree [] = Unit
NulFree (c ∷ cs) = (c ≢ 0) × NulFree cs

-- `strcmp` answers 0 exactly on equal strings.
strcmp_iff : (p q : List ℕ) → NulFree p → NulFree q → (strcmp p q ≡ pos 0) ↔ (p ≡ q)
unfolding strcmp
strcmp_iff [] [] hp hq = (λ _. refl, λ _. refl)
strcmp_iff [] (d ∷ ds) hp hq = (λ e. absurd (hq.0 (ground arith)), λ e. cc)
strcmp_iff (c ∷ cs) [] hp hq = (λ e. absurd (hp.0 (ground arith)), λ e. cc)
strcmp_iff (c ∷ cs) (d ∷ ds) hp hq =
    let ih = strcmp_iff cs ds hp.1 hq.1 in
    (
      λ e.
          let heads : c ≡ d = ground arith in
          let tails : cs ≡ ds = ih.0 (ground arith) in ground arith,
      λ e. let tails : cs ≡ ds = ground arith in ground (arith, ih.1 tails),
    )

abbrev pub IsAbsent : ℕ → List ℕ → Type 0
IsAbsent c [] = Unit
IsAbsent c (x ∷ xs) = (x ≢ c) × IsAbsent c xs

-- The rest of the string from the first place of the character, or that it does not stand in it.
abbrev Found : List ℕ → ℕ → Option (List ℕ) → Type 0
Found s c none = IsAbsent c s
Found s c (some t) =
    (pre : List ℕ) × (post : List ℕ) × (s ≡ pre ++ t) × (t ≡ c ∷ post) × IsAbsent c pre

-- `strchr` returns the rest of the string from the first place of the character, or NULL if the
-- character does not stand in the string.
strchr-Found : (s : List ℕ) (c : ℕ) → Found s c (strchr s c)
unfolding strchr
strchr-Found [] c = tt
strchr-Found (x ∷ xs) c = elim (ℕ_discrete x c) [
  | yes e ↦
      let hit : (x == c) ≡ true = ground arith in rw hit ([], xs, refl, ap (λ k. k ∷ xs) e, tt)
  | no ne ↦
      let miss : (x == c) ≡ false = ground arith in
      rw miss (later (strchr xs c) (strchr-Found xs c) ne)
]
  where
    later : (o : Option (List ℕ)) → Found xs c o → x ≢ c → Found (x ∷ xs) c o
    later none h ne = (ne, h)
    later (some t) (pre, post, e, f, a) ne = (x ∷ pre, post, ap (λ l. x ∷ l) e, f, (ne, a))

gets_loop_lem :
    (k : ℕ) (input : List ℕ)
    → let (cs, rest) = gets_loop k input in (input ≡ cs ++ rest) × (length cs ≤ k)
unfolding gets_loop
gets_loop_lem zero input = (refl, omega arith)
gets_loop_lem (suc k) [] = (refl, omega arith)
gets_loop_lem (suc k) (c ∷ input) = elim (Bool-cases (c == 10 || c == 13)) [
  | inl e ↦ rw e (refl, omega arith)
  | inr n ↦ let ih = gets_loop_lem k input in rw n (ap (λ l. c ∷ l) ih.0, omega (arith, ih.1))
]

-- `gets` stores a prefix of the input that fits the buffer with its NUL, and leaves the rest unread.
gets_lem :
    (max : ℕ) (input : List ℕ)
    → 0 < max
    → let (cs, rest) = gets max input in (input ≡ cs ++ rest) × (length cs < max)
unfolding gets
gets_lem max input h = let r = gets_loop_lem (max - 1) input in (r.0, omega (arith, r.1))
