-- ===== src/Console/Reading.antt =====
-- `consoleread` against the characters that are ready.
use cs461_hw.Base.{
  ℕ, zero, suc, ◌+◌, ◌%◌, ◌^◌, ◌≡◌, ◌≢◌, refl, ap, Bool, true, false, List, [], ◌∷◌, ◌==◌,
  if◌then◌else◌, length, arith, Bool-cases, inl, inr,
}
use cs461_hw.Console.{Input, ReadEnd, returned, empty, consoleread}
use cs461_hw.Console.Ring.{Ring-cong}
use cs461_hw.Console.Editing.{Holds}

-- What a run for `n` bytes takes from the ready characters: up to a newline, and up to a C('D'), which
-- stays for the next call if there are bytes before it.
abbrev pub read_ready : ℕ → Bool → List ℕ → List ℕ × List ℕ × ReadEnd
read_ready zero first cs = ([], cs, returned)
read_ready (suc n) first [] = ([], [], empty)
read_ready (suc n) first (c ∷ cs) =
    let rest = read_ready n false cs in
    if c == 4
    then ([], (if first then cs else c ∷ cs), returned)
    else if c == 10
    then (c ∷ [], cs, returned)
    else (c ∷ rest.0, rest.1, rest.2)

-- The same bytes, the same end, and the ring holds the rest.
pub record Reads (line : List ℕ) (a : List ℕ × Input × ReadEnd) (b : List ℕ × List ℕ × ReadEnd)
    : Type 0 where
  pub same_bytes : a.0 ≡ b.0
  pub same_end : a.2 ≡ b.2
  pub holds : Holds a.1 (record { ready = b.1; line = line })

-- One character taken from the ring.
taken-Holds :
    (s : Input) (c : ℕ) (cs line : List ℕ)
    → Holds s (record { ready = c ∷ cs; line = line })
    → Holds (record s { r = (s.r + 1) % 2 ^ 32 }) (record { ready = cs; line = line })
taken-Holds s c cs line h = record {
  start = omega arith;
  room = omega (arith, h.room);
  at_w = let a = h.at_w in omega arith;
  at_e = let a = h.at_e in omega arith;
  readable = Ring-cong s.buf (s.r + 1) ((s.r + 1) % 2 ^ 32) cs (omega arith) h.readable.1;
  editable =
      Ring-cong s.buf (s.r + suc (length cs)) ((s.r + 1) % 2 ^ 32 + length cs) line (omega arith)
        h.editable;
  one_line = h.one_line;
}

-- A run of `consoleread` returns what is ready, up to the end of a line or of the input, and leaves the
-- rest and the edited line; it finds nothing to read only where nothing is left.
pub consoleread-Reads :
    (n : ℕ) (first : Bool) (s : Input) (ready line : List ℕ)
    → Holds s (record { ready = ready; line = line })
    → Reads line (consoleread n first s) (read_ready n first ready)
unfolding consoleread
consoleread-Reads zero first s ready line h = record {
  same_bytes = refl;
  same_end = refl;
  holds = h;
}
consoleread-Reads (suc n) first s [] line h =
    let a = h.at_w in
    let b = h.start in
    let q : s.r ≡ s.w = omega arith in
    let t : (s.r == s.w) ≡ true = ground arith in
    rw t (record { same_bytes = refl; same_end = refl; holds = h })
consoleread-Reads (suc n) first s (c ∷ cs) line h =
    let a = h.at_w in
    let b = h.start in
    let d = h.room in
    let ne : s.r ≢ s.w = λ e. omega arith in
    let more : (s.r == s.w) ≡ false = ground arith in
    let after = taken-Holds s c cs line h in
    let rest = consoleread-Reads n false (record s { r = (s.r + 1) % 2 ^ 32 }) cs line after in
    rw (more, h.readable.0)
      (elim (Bool-cases (c == 4)) [
        | inl eof ↦ rw eof (elim (Bool-cases first) [
          | inl t ↦ rw t (record { same_bytes = refl; same_end = refl; holds = after })
          | inr f ↦ rw f (record { same_bytes = refl; same_end = refl; holds = h })
        ])
        | inr plain ↦ elim (Bool-cases (c == 10)) [
          | inl newline ↦
              rw (plain, newline) (record { same_bytes = refl; same_end = refl; holds = after })
          | inr other ↦
              rw (plain, other)
                (record {
                  same_bytes = ap (λ l. c ∷ l) rest.same_bytes;
                  same_end = rest.same_end;
                  holds = rest.holds;
                })
        ]
      ])
