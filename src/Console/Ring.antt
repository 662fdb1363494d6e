-- ===== src/Console/Ring.antt =====
-- The characters in the ring of the console as lists.
use cs461_hw.Base.{
  ℕ, zero, suc, ◌+◌, ◌-◌, ◌%◌, ◌≡◌, ◌≢◌, ◌≤◌, ◌<◌, ◌∙◌, refl, sym, ap, subst, List, [], ◌∷◌, ◌++◌,
  length, update, update_ne, arith,
}

-- The ring holds these characters from counter `i` on.
abbrev pub Ring : (ℕ → ℕ) → ℕ → List ℕ → Type 0
Ring buf i [] = Unit
Ring buf i (x ∷ xs) = (buf (i % 128) ≡ x) × Ring buf (i + 1) xs

pub Ring-cong :
    (buf : ℕ → ℕ) (i j : ℕ) (xs : List ℕ) → i % 128 ≡ j % 128 → Ring buf i xs → Ring buf j xs
Ring-cong buf i j [] e h = tt
Ring-cong buf i j (x ∷ xs) e (h, hs) =
    (ap buf (sym e) ∙ h, Ring-cong buf (i + 1) (j + 1) xs (omega arith) hs)

-- A character stored `d` places on is behind all of a shorter list.
pub Ring-update :
    (buf : ℕ → ℕ) (i d c : ℕ) (xs : List ℕ)
    → length xs ≤ d
    → d < 128
    → Ring buf i xs
    → Ring (update buf ((i + d) % 128) c) i xs
Ring-update buf i d c [] le lt h = tt
Ring-update buf i zero c (x ∷ xs) le lt h = absurd (omega arith)
Ring-update buf i (suc d) c (x ∷ xs) le lt (h, hs) =
    let place : (i + 1 + d) % 128 ≡ (i + suc d) % 128 = omega arith in
    (
      update_ne buf ((i + suc d) % 128) (i % 128) c (λ e. omega arith) ∙ h,
      subst (λ k. Ring (update buf k c) (i + 1) xs) place
          (Ring-update buf (i + 1) d c xs (omega arith) (omega arith) hs),
    )

pub Ring-append :
    (buf : ℕ → ℕ) (i : ℕ) (xs ys : List ℕ)
    → Ring buf i xs
    → Ring buf (i + length xs) ys
    → Ring buf i (xs ++ ys)
Ring-append buf i [] ys h k = Ring-cong buf (i + 0) i ys (omega arith) k
Ring-append buf i (x ∷ xs) ys (h, hs) k = (
  h,
  Ring-append buf (i + 1) xs ys hs
      (Ring-cong buf (i + suc (length xs)) (i + 1 + length xs) ys (omega arith) k),
)

-- The list without its last character.
abbrev pub drop_last : List ℕ → List ℕ
drop_last [] = []
drop_last (x ∷ []) = []
drop_last (x ∷ y ∷ ys) = x ∷ drop_last (y ∷ ys)

pub length-drop_last : (xs : List ℕ) → length (drop_last xs) ≡ length xs - 1
length-drop_last [] = refl
length-drop_last (x ∷ []) = refl
length-drop_last (x ∷ y ∷ ys) = omega (arith, length-drop_last (y ∷ ys))

pub Ring-drop_last : (buf : ℕ → ℕ) (i : ℕ) (xs : List ℕ) → Ring buf i xs → Ring buf i (drop_last xs)
Ring-drop_last buf i [] h = tt
Ring-drop_last buf i (x ∷ []) h = tt
Ring-drop_last buf i (x ∷ y ∷ ys) (h, hs) = (h, Ring-drop_last buf (i + 1) (y ∷ ys) hs)

-- No character ends a line.
abbrev pub IsLine : List ℕ → Type 0
IsLine [] = Unit
IsLine (x ∷ xs) = (x ≢ 10) × IsLine xs

pub drop_last-IsLine : (xs : List ℕ) → IsLine xs → IsLine (drop_last xs)
drop_last-IsLine [] h = tt
drop_last-IsLine (x ∷ []) h = tt
drop_last-IsLine (x ∷ y ∷ ys) (h, hs) = (h, drop_last-IsLine (y ∷ ys) hs)

pub append-IsLine : (xs : List ℕ) (c : ℕ) → IsLine xs → c ≢ 10 → IsLine (xs ++ (c ∷ []))
append-IsLine [] c h n = (n, tt)
append-IsLine (x ∷ xs) c (h, hs) n = (h, append-IsLine xs c hs n)

-- The last character of a line in the ring.
pub last_plain :
    (buf : ℕ → ℕ) (i : ℕ) (x : ℕ) (xs : List ℕ)
    → Ring buf i (x ∷ xs)
    → IsLine (x ∷ xs)
    → buf ((i + length xs) % 128) ≢ 10
last_plain buf i x [] (h, _) (n, _) e =
    n (sym h ∙ ap buf (let q : i % 128 ≡ (i + 0) % 128 = omega arith in q) ∙ e)
last_plain buf i x (y ∷ ys) (_, hs) (_, ns) e = last_plain buf (i + 1) y ys hs ns (
    ap buf (let q : (i + 1 + length ys) % 128 ≡ (i + suc (length ys)) % 128 = omega arith in q) ∙ e)
