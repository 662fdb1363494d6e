-- ===== src/Console/Editing.antt =====
-- The console against a line editor on lists.
use cs461_hw.Base.{
  ℕ, zero, suc, ◌+◌, ◌-◌, ◌%◌, ◌^◌, ◌≡◌, ◌≢◌, ◌≤◌, ◌<◌, ◌∙◌, ap, subst, true, false, not, ◌||◌,
  List, [], ◌∷◌, ◌++◌, ◌==◌, ltb, if◌then◌else◌, length, length-append, update, update_self, arith,
  Bool-cases, inl, inr, ℕ_discrete,
}
use cs461_hw.Console.{
  Input, step_back, kill_line, ends_line, commit, store_char, type_char, consoleintr,
}
use cs461_hw.Console.Ring.{
  Ring, Ring-update, Ring-append, drop_last, length-drop_last, Ring-drop_last, IsLine,
  drop_last-IsLine, append-IsLine, last_plain,
}

-- What can be read, and the line that is still edited.
pub record Editor : Type 0 where
  pub ready : List ℕ
  pub line : List ℕ

-- A character that is kept goes to the end of the line; a newline, C('D') and the last one that fits
-- make the line ready.
abbrev pub keep : ℕ → Editor → Editor
keep c t =
    let line = t.line ++ (c ∷ []) in
    if c == 10 || c == 4 || length t.ready + length line == 128
    then record { ready = t.ready ++ line; line = [] }
    else record t { line = line }

abbrev pub edit : ℕ → Editor → Editor
edit c t =
    if c == 26 || c == 16
    then t
    else if c == 21
    then record t { line = [] }
    else if c == 8 || c == 127
    then record t { line = drop_last t.line }
    else if c == 0 || not (ltb (length t.ready + length t.line) 128)
    then t
    else keep (if c == 13 then 10 else c) t

abbrev pub edits : List ℕ → Editor → Editor
edits [] t = t
edits (c ∷ cs) t = edits cs (edit c t)

-- The ring holds what the editor does.
pub record Holds (s : Input) (t : Editor) : Type 0 where
  pub start : s.r < 2 ^ 32
  pub room : length t.ready + length t.line ≤ 128
  pub at_w : s.w ≡ (s.r + length t.ready) % 2 ^ 32
  pub at_e : s.e ≡ (s.r + length t.ready + length t.line) % 2 ^ 32
  pub readable : Ring s.buf s.r t.ready
  pub editable : Ring s.buf (s.r + length t.ready) t.line
  pub one_line : IsLine t.line

-- The counters of a line that is not empty.
not_at_w :
    (s : Input) (ready xs : List ℕ) (x : ℕ)
    → Holds s (record { ready = ready; line = x ∷ xs })
    → (s.e == s.w) ≡ false
not_at_w s ready xs x h =
    let a = h.start in
    let b = h.room in
    let c = h.at_w in let d = h.at_e in let ne : s.e ≢ s.w = λ e. omega arith in ground arith

at_w_empty :
    (s : Input) (ready : List ℕ)
    → Holds s (record { ready = ready; line = [] })
    → (s.e == s.w) ≡ true
at_w_empty s ready h =
    let a = h.at_w in let b = h.at_e in let q : s.e ≡ s.w = omega arith in ground arith

back_place :
    (s : Input) (ready xs : List ℕ) (x : ℕ)
    → Holds s (record { ready = ready; line = x ∷ xs })
    → (step_back s).e ≡ (s.r + length ready + length xs) % 2 ^ 32
back_place s ready xs x h = let a = h.start in let b = h.room in let d = h.at_e in omega arith

back-Holds :
    (s : Input) (ready xs : List ℕ) (x : ℕ)
    → Holds s (record { ready = ready; line = x ∷ xs })
    → Holds (step_back s) (record { ready = ready; line = drop_last (x ∷ xs) })
back-Holds s ready xs x h = record {
  start = h.start;
  room = omega (arith, h.room, length-drop_last (x ∷ xs));
  at_w = h.at_w;
  at_e =
      back_place s ready xs x h
      ∙ ap (λ k. (s.r + length ready + k) % 2 ^ 32)
          (let q : length xs ≡ length (drop_last (x ∷ xs)) =
              omega (arith, length-drop_last (x ∷ xs)) in
            q);
  readable = h.readable;
  editable = Ring-drop_last s.buf (s.r + length ready) (x ∷ xs) h.editable;
  one_line = drop_last-IsLine (x ∷ xs) h.one_line;
}

-- C('U') erases the whole line: there is no newline in it that stops it.
kill_line-Holds :
    (fuel : ℕ) (s : Input) (ready line : List ℕ)
    → length line ≤ fuel
    → Holds s (record { ready = ready; line = line })
    → Holds (kill_line fuel s) (record { ready = ready; line = [] })
unfolding kill_line
kill_line-Holds zero s ready [] f h = h
kill_line-Holds (suc fuel) s ready [] f h = rw (at_w_empty s ready h) h
kill_line-Holds zero s ready (x ∷ xs) f h = absurd (omega arith)
kill_line-Holds (suc fuel) s ready (x ∷ xs) f h =
    let plain : s.buf ((step_back s).e % 128) ≢ 10 = λ e.
      last_plain s.buf (s.r + length ready) x xs h.editable h.one_line (
        ap s.buf (
          let p = back_place s ready xs x h in
          let q : (s.r + length ready + length xs) % 128 ≡ (step_back s).e % 128 = omega arith in q)
        ∙ e) in
    let stays : (s.buf ((step_back s).e % 128) == 10) ≡ false = ground arith in
    rw (not_at_w s ready xs x h, stays)
      (kill_line-Holds fuel (step_back s) ready (drop_last (x ∷ xs))
        (omega (arith, length-drop_last (x ∷ xs))) (back-Holds s ready xs x h))

module _ (s : Input) (ready line : List ℕ) (h : Holds s (record { ready = ready; line = line }))
    (c : ℕ) (fits : length ready + length line < 128) where
  -- The ring with the character stored at `e`.
  stored : Input
  stored = record s { buf = update s.buf (s.e % 128) c; e = (s.e + 1) % 2 ^ 32 }

  length_longer : length (line ++ (c ∷ [])) ≡ length line + 1
  length_longer = length-append line (c ∷ [])

  kept_ready : Ring (update s.buf (s.e % 128) c) s.r ready
  kept_ready =
      let a = h.at_e in
      let place : (s.r + (length ready + length line)) % 128 ≡ s.e % 128 = omega arith in
      subst (λ k. Ring (update s.buf k c) s.r ready) place
        (Ring-update s.buf s.r (length ready + length line) c ready (omega arith) fits h.readable)

  longer_line : Ring (update s.buf (s.e % 128) c) (s.r + length ready) (line ++ (c ∷ []))
  longer_line =
      let a = h.at_e in
      let place : (s.r + length ready + length line) % 128 ≡ s.e % 128 = omega arith in
      Ring-append (update s.buf (s.e % 128) c) (s.r + length ready) line (c ∷ [])
        (subst (λ k. Ring (update s.buf k c) (s.r + length ready) line) place
          (Ring-update s.buf (s.r + length ready) (length line) c line (omega arith) (omega arith)
            h.editable))
        (ap (update s.buf (s.e % 128) c) place ∙ update_self s.buf (s.e % 128) c, tt)

  next_e : stored.e ≡ (s.r + length ready + length (line ++ (c ∷ []))) % 2 ^ 32
  unfolding stored
  next_e = let a = h.at_e in let b = length_longer in omega arith

  longer-Holds : c ≢ 10 → Holds stored (record { ready = ready; line = line ++ (c ∷ []) })
  unfolding stored
  longer-Holds n = record {
    start = h.start;
    room = omega (arith, length_longer);
    at_w = h.at_w;
    at_e = next_e;
    readable = kept_ready;
    editable = longer_line;
    one_line = append-IsLine line c h.one_line n;
  }

  ready-Holds :
      Holds
        (record stored { w = stored.e })
        (record { ready = ready ++ (line ++ (c ∷ [])); line = [] })
  unfolding stored
  ready-Holds =
      let b = length-append ready (line ++ (c ∷ [])) in
      let d = next_e in
      record {
        start = h.start;
        room = omega (arith, length_longer);
        at_w = omega arith;
        at_e = omega arith;
        readable =
            Ring-append (update s.buf (s.e % 128) c) s.r ready (line ++ (c ∷ [])) kept_ready
              longer_line;
        editable = tt;
        one_line = tt;
      }

  -- The ring is full exactly if the editor is.
  same_end :
      ends_line c stored ≡ (c == 10 || c == 4 || length ready + length (line ++ (c ∷ [])) == 128)
  unfolding stored
  same_end = ap (λ b. c == 10 || c == 4 || b) last
    where
      last : (stored.e == (s.r + 128) % 2 ^ 32) ≡ (length ready + length (line ++ (c ∷ [])) == 128)
      last = elim (ℕ_discrete (length ready + length (line ++ (c ∷ []))) 128) [
        | yes q ↦
            let a = next_e in
            let t : (length ready + length (line ++ (c ∷ [])) == 128) ≡ true = ground arith in
            let same : stored.e ≡ (s.r + 128) % 2 ^ 32 = omega arith in rw t (ground arith)
        | no ne ↦
            let a = next_e in
            let b = length_longer in
            let t : (length ready + length (line ++ (c ∷ [])) == 128) ≡ false = ground arith in
            let differ : stored.e ≢ (s.r + 128) % 2 ^ 32 = λ e. ne (omega arith) in
            rw t (ground arith)
      ]

  commit-Holds : Holds (commit c stored) (keep c (record { ready = ready; line = line }))
  commit-Holds =
      elim (Bool-cases (c == 10 || c == 4 || length ready + length (line ++ (c ∷ [])) == 128)) [
        | inl t ↦ rw (same_end, t) ready-Holds
        | inr f ↦ rw (same_end, f) (longer-Holds (λ e. ground arith))
      ]

store_char-Holds :
    (c : ℕ) (s : Input) (t : Editor)
    → Holds s t
    → Holds (store_char c s) (
        if c == 0 || not (ltb (length t.ready + length t.line) 128)
        then t
        else keep (if c == 13 then 10 else c) t)
unfolding store_char stored
store_char-Holds c s t h =
    let used : (s.e + 2 ^ 32 - s.r) % 2 ^ 32 ≡ length t.ready + length t.line =
      let a = h.start in let b = h.room in let d = h.at_e in omega arith in
    rw used (elim (Bool-cases (c == 0 || not (ltb (length t.ready + length t.line) 128))) [
      | inl skip ↦ rw skip h
      | inr kept ↦
          rw kept (commit-Holds s t.ready t.line h (if c == 13 then 10 else c) (ground arith))
    ])

-- One character typed.
type_char-Holds : (c : ℕ) (s : Input) (t : Editor) → Holds s t → Holds (type_char c s) (edit c t)
unfolding type_char
type_char-Holds c s t h = elim (Bool-cases (c == 26 || c == 16)) [
  | inl a ↦ rw a h
  | inr a ↦ elim (Bool-cases (c == 21)) [
    | inl b ↦ rw (a, b) (kill_line-Holds 128 s t.ready t.line (omega (arith, h.room)) h)
    | inr b ↦ elim (Bool-cases (c == 8 || c == 127)) [
      | inl d ↦ rw (a, b, d) (erased t.line h)
      | inr d ↦ rw (a, b, d) (store_char-Holds c s t h)
    ]
  ]
]
  where
    erased :
        (line : List ℕ)
        → Holds s (record { ready = t.ready; line = line })
        → Holds
            (if s.e == s.w then s else step_back s)
            (record { ready = t.ready; line = drop_last line })
    erased [] h = rw (at_w_empty s t.ready h) h
    erased (x ∷ xs) h = rw (not_at_w s t.ready xs x h) (back-Holds s t.ready xs x h)

-- Whatever is typed, the ring holds what a line editor on lists does: characters are kept while there
-- is room, backspace erases the last one of the line and C('U') the whole line, never one that can be
-- read, and a newline, C('D') or a full ring makes the line ready to be read.
pub consoleintr-Holds :
    (cs : List ℕ) (s : Input) (t : Editor) → Holds s t → Holds (consoleintr cs s) (edits cs t)
unfolding consoleintr
consoleintr-Holds [] s t h = h
consoleintr-Holds (c ∷ cs) s t h =
    consoleintr-Holds cs (type_char c s) (edit c t) (type_char-Holds c s t h)
