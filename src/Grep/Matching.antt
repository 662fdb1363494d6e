-- ===== src/Grep/Matching.antt =====
-- What a pattern means, and that the matcher decides it.
use cs461_hw.Base.{
  ℕ, ◌≡◌, refl, ◌≢◌, ◌↔◌, ◌⊎◌, inl, inr, Bool, true, ◌||◌, List, [], ◌∷◌, ◌++◌, ap, ◌==◌,
  Bool-cases, arith,
}
use cs461_hw.Grep.{matchstar, at_end, one, matchhere, anywhere, matches}

-- The character `t` fits the pattern character `c`.
abbrev pub Fits : ℕ → ℕ → Type 0
Fits c t = (c ≡ b'.') ⊎ (c ≡ t)

abbrev pub AllFit : ℕ → List ℕ → Type 0
AllFit c [] = Unit
AllFit c (t ∷ ts) = Fits c t × AllFit c ts

-- `Here re text`: the pattern `re`, without `^`, matches a prefix of `text`.
pub data Here : List ℕ → List ℕ → Type 0 where
  done : {text : List ℕ} → Here [] text
  end_of_text : {c : ℕ} → c ≡ b'$' → Here (c ∷ []) []
  last_char : {c t : ℕ} {ts : List ℕ} → c ≢ b'$' → Fits c t → Here (c ∷ []) (t ∷ ts)
  next_char :
      {c d t : ℕ} {re ts : List ℕ}
      → d ≢ b'*'
      → Fits c t
      → Here (d ∷ re) ts
      → Here (c ∷ d ∷ re) (t ∷ ts)
  starred :
      {c d : ℕ} {re text : List ℕ} (xs ys : List ℕ)
      → d ≡ b'*'
      → text ≡ xs ++ ys
      → AllFit c xs
      → Here re ys
      → Here (c ∷ d ∷ re) text

abbrev Stars : (List ℕ → Type 0) → ℕ → List ℕ → Type 0
Stars P c text = (xs : List ℕ) × (ys : List ℕ) × (text ≡ xs ++ ys) × AllFit c xs × P ys

or-true : (a b : Bool) → (a || b) ≡ true → (a ≡ true) ⊎ (b ≡ true)
or-true a b h = ground arith

matchstar_sound :
    (rest : List ℕ → Bool) (P : List ℕ → Type 0)
    → ((ts : List ℕ) → rest ts ≡ true → P ts)
    → (c : ℕ) (text : List ℕ) → matchstar rest c text ≡ true
    → Stars P c text
unfolding matchstar
matchstar_sound rest P f c [] h = ([], [], refl, tt, f [] h)
matchstar_sound rest P f c (t ∷ ts) h = elim (or-true _ _ h) [
  | inl e ↦ ([], t ∷ ts, refl, tt, f (t ∷ ts) e)
  | inr e ↦
      let fits : Fits c t = ground arith in
      let (xs, ys, eq, all, p) = matchstar_sound rest P f c ts (ground arith) in
      (t ∷ xs, ys, ap (λ l. t ∷ l) eq, (fits, all), p)
]

matchstar_complete :
    (rest : List ℕ → Bool) (c : ℕ) (xs ys : List ℕ)
    → AllFit c xs
    → rest ys ≡ true
    → matchstar rest c (xs ++ ys) ≡ true
unfolding matchstar
matchstar_complete rest c [] [] all h = h
matchstar_complete rest c [] (y ∷ ys) all h = ground arith
matchstar_complete rest c (x ∷ xs) ys all h =
    ground (arith, matchstar_complete rest c xs ys all.1 h)

one_sound :
    (c : ℕ) (rest : List ℕ → Bool) (text : List ℕ)
    → one c rest text ≡ true
    → (t : ℕ) × (ts : List ℕ) × (text ≡ t ∷ ts) × Fits c t × (rest ts ≡ true)
unfolding one
one_sound c rest [] h = cc
one_sound c rest (t ∷ ts) h = (t, ts, refl, ground arith, ground arith)

Here-char :
    {c d : ℕ} {re : List ℕ} (text : List ℕ) (t : ℕ) (ts : List ℕ)
    → text ≡ t ∷ ts
    → d ≢ b'*'
    → Fits c t
    → Here (d ∷ re) ts
    → Here (c ∷ d ∷ re) text
Here-char text t ts e ne f h = rw e (next_char ne f h)

matchhere_sound : (re text : List ℕ) → matchhere re text ≡ true → Here re text
unfolding matchhere one at_end
matchhere_sound [] text h = done
matchhere_sound (c ∷ []) [] h = end_of_text (ground arith)
matchhere_sound (c ∷ []) (t ∷ ts) h = last_char (ground arith) (ground arith)
matchhere_sound (c ∷ d ∷ re) text h = elim (Bool-cases (d == b'*')) [
  | inl e ↦
      let (xs, ys, eq, all, p) =
        matchstar_sound (matchhere re) (Here re) (matchhere_sound re) c text (rw e at h) in
      starred xs ys (ground arith) eq all p
  | inr e ↦
      let (t, ts, eq, f, r) = one_sound c (matchhere (d ∷ re)) text (rw e at h) in
      Here-char text t ts eq (ground arith) f (matchhere_sound (d ∷ re) ts r)
]

matchhere_complete : {re text : List ℕ} → Here re text → matchhere re text ≡ true
unfolding matchhere one at_end
matchhere_complete done = refl
matchhere_complete (end_of_text e) = ground arith
matchhere_complete (last_char ne f) = ground arith
matchhere_complete (next_char ne f h) = ground (arith, matchhere_complete h)
matchhere_complete (starred {c} {d} {re} xs ys e eq all h) =
    rw eq (ground (arith, matchstar_complete (matchhere re) c xs ys all (matchhere_complete h)))

-- `matchhere` decides whether the pattern matches a prefix of the text: it answers 1 exactly on
-- the patterns and texts of `Here`.
pub matchhere_iff : (re text : List ℕ) → (matchhere re text ≡ true) ↔ Here re text
matchhere_iff re text = (matchhere_sound re text, λ h. matchhere_complete h)

anywhere_sound :
    (re text : List ℕ)
    → anywhere re text ≡ true
    → (pre : List ℕ) × (suf : List ℕ) × (text ≡ pre ++ suf) × Here re suf
unfolding anywhere
anywhere_sound re [] h = ([], [], refl, matchhere_sound re [] h)
anywhere_sound re (t ∷ ts) h = elim (or-true _ _ h) [
  | inl e ↦ ([], t ∷ ts, refl, matchhere_sound re (t ∷ ts) e)
  | inr e ↦ let (pre, suf, eq, p) = anywhere_sound re ts e in (t ∷ pre, suf, ap (λ l. t ∷ l) eq, p)
]

anywhere_complete :
    (re pre suf : List ℕ) → matchhere re suf ≡ true → anywhere re (pre ++ suf) ≡ true
unfolding anywhere
anywhere_complete re [] [] h = h
anywhere_complete re [] (t ∷ ts) h = ground arith
anywhere_complete re (p ∷ pre) suf h = ground (arith, anywhere_complete re pre suf h)

-- The pattern matches somewhere in the text; `^` ties it to the start.
abbrev pub Found : List ℕ → List ℕ → Type 0
Found re text = (pre : List ℕ) × (suf : List ℕ) × (text ≡ pre ++ suf) × Here re suf

abbrev pub Meaning : List ℕ → List ℕ → Type 0
Meaning [] text = Found [] text
Meaning (c ∷ re) text = ((c ≡ b'^') × Here re text) ⊎ ((c ≢ b'^') × Found (c ∷ re) text)

Found-anywhere : (re text : List ℕ) → Found re text → anywhere re text ≡ true
Found-anywhere re text (pre, suf, eq, h) =
    rw eq (anywhere_complete re pre suf (matchhere_complete h))

-- `match` answers 1 exactly if the pattern, without a leading `^`, matches at some position of the
-- text, and at the start of the text where the pattern has the `^`.
pub matches_iff : (re text : List ℕ) → (matches re text ≡ true) ↔ Meaning re text
unfolding matches
matches_iff [] text = (anywhere_sound [] text, Found-anywhere [] text)
matches_iff (c ∷ re) text = elim (Bool-cases (c == b'^')) [
  | inl e ↦ rw e (λ h. inl (ground arith, matchhere_sound re text h), λ m. caret (ground arith) m)
  | inr e ↦
      rw e (λ h. inr (ground arith, anywhere_sound (c ∷ re) text h), λ m. plain (ground arith) m)
]
  where
    caret : c ≡ b'^' → Meaning (c ∷ re) text → matchhere re text ≡ true
    caret e (inl (_, h)) = matchhere_complete h
    caret e (inr (n, _)) = absurd (n e)

    plain : c ≢ b'^' → Meaning (c ∷ re) text → anywhere (c ∷ re) text ≡ true
    plain n (inl (e, _)) = absurd (n e)
    plain n (inr (_, f)) = Found-anywhere (c ∷ re) text f
