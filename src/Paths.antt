-- ===== src/Paths.antt =====
-- `skipelem` of fs.c: the elements of a path. A path is the list of its characters before the NUL.
use cs461_hw.Base.{
  ℕ, ◌≤◌, ◌<◌, ◌≡◌, refl, false, Option, none, some, List, [], ◌∷◌, ◌==◌, if◌then◌else◌, length,
  take, arith, Bool-cases, inl, inr,
}

abbrev pub dirsiz : ℕ
dirsiz = 14

-- `while(*path == '/') path++`
pub skip_slashes : List ℕ → List ℕ
skip_slashes [] = []
skip_slashes (c ∷ cs) = let rest = skip_slashes cs in if c == b'/' then rest else c ∷ cs

-- The loop over the element: its characters, and the rest of the path.
pub element : List ℕ → List ℕ × List ℕ
element [] = ([], [])
element (c ∷ cs) = let rest = element cs in if c == b'/' then ([], c ∷ cs) else (c ∷ rest.0, rest.1)

pub skip_from : List ℕ → Option (List ℕ × List ℕ)
skip_from [] = none
skip_from (c ∷ cs) =
    let parts = element (c ∷ cs) in some (take dirsiz parts.0, skip_slashes parts.1)

-- The name and the rest; `none` is NULL. A longer element is cut to DIRSIZ characters.
pub skipelem : List ℕ → Option (List ℕ × List ℕ)
skipelem path = skip_from (skip_slashes path)

skip_slashes_le : (p : List ℕ) → length (skip_slashes p) ≤ length p
unfolding skip_slashes
skip_slashes_le [] = omega arith
skip_slashes_le (c ∷ cs) = elim (Bool-cases (c == b'/')) [
  | inl s ↦ rw s (omega (arith, skip_slashes_le cs))
  | inr n ↦ rw n (omega arith)
]

element_le : (p : List ℕ) → length (element p).1 ≤ length p
unfolding element
element_le [] = omega arith
element_le (c ∷ cs) = elim (Bool-cases (c == b'/')) [
  | inl s ↦ rw s (omega arith)
  | inr n ↦ rw n (omega (arith, element_le cs))
]

no_slash_first : (p : List ℕ) (c : ℕ) (cs : List ℕ) → skip_slashes p ≡ c ∷ cs → (c == b'/') ≡ false
unfolding skip_slashes
no_slash_first [] c cs e = cc
no_slash_first (d ∷ ds) c cs e = elim (Bool-cases (d == b'/')) [
  | inl s ↦ no_slash_first ds c cs (rw s at e)
  | inr n ↦
      let same_list : ◌≡◌ {A = List ℕ} (d ∷ ds) (c ∷ cs) = rw n at e in
      let same : d ≡ c = ground arith in rw same at n
]

second_eq :
    {a b c d : List ℕ} → ◌≡◌ {A = Option (List ℕ × List ℕ)} (some (a, b)) (some (c, d)) → b ≡ d
second_eq e = ground arith

skip_from-shorter :
    (p : List ℕ) {name rest : List ℕ}
    → ((c : ℕ) (cs : List ℕ) → p ≡ c ∷ cs → (c == b'/') ≡ false)
    → skip_from p ≡ some (name, rest)
    → length rest < length p
unfolding skip_from element
skip_from-shorter [] f e = absurd (ground arith)
skip_from-shorter (c ∷ cs) {name} {rest} f e =
    let tail : skip_slashes (element cs).1 ≡ rest = second_eq (rw (f c cs refl) at e) in
    rw (← tail) (omega (arith, skip_slashes_le (element cs).1, element_le cs))

-- Each element that is taken makes the path shorter, so the loop of `namex` ends.
pub skipelem-shorter :
    (p : List ℕ) {name rest : List ℕ} → skipelem p ≡ some (name, rest) → length rest < length p
unfolding skipelem
skipelem-shorter p {name} {rest} e =
    omega (
      arith,
      skip_from-shorter (skip_slashes p) (λ c cs. no_slash_first p c cs) e,
      skip_slashes_le p,
    )
