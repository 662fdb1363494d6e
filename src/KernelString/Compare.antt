-- ===== src/KernelString/Compare.antt =====
-- `memcmp`, `strncmp` and `strlen` against what they compare and measure.
use cs461_hw.Base.{
  ℕ, zero, suc, ◌+◌, ◌≤◌, ◌<◌, ◌≡◌, ◌≢◌, ◌⊎◌, ◌↔◌, refl, arith, inl, inr, some, pos, sub_ℕ,
  ℕ_discrete,
}
use cs461_hw.KernelString.{Memory, memcmp, strncmp, strlen_from, strlen}

-- The bytes at `p` and `q` agree at `i` and at every index before it.
abbrev pub Agree : Memory → ℕ → ℕ → ℕ → Type 0
Agree m p q n = (i : ℕ) → i < n → m (p + i) ≡ m (q + i)

Agree-suc : (m : Memory) (p q n : ℕ) → m p ≡ m q → Agree m (p + 1) (q + 1) n → Agree m p q (suc n)
Agree-suc m p q n e h zero lt = ground arith
Agree-suc m p q n e h (suc i) lt =
    let a : p + 1 + i ≡ p + suc i = omega arith in
    let b : q + 1 + i ≡ q + suc i = omega arith in ground (arith, h i, a, b)

-- `memcmp` answers 0 and the `n` bytes agree, or answers the difference of the first two bytes that
-- differ.
pub memcmp_lem :
    (p q n : ℕ) (m : Memory)
    → (memcmp p q n m ≡ pos 0) × Agree m p q n
      ⊎ ((i : ℕ) × (i < n)
          × Agree m p q i
          × (m (p + i) ≢ m (q + i))
          × (memcmp p q n m ≡ sub_ℕ (m (p + i)) (m (q + i))))
unfolding memcmp
memcmp_lem p q zero m = inl (refl, λ i lt. absurd (omega arith))
memcmp_lem p q (suc n) m = elim (ℕ_discrete (m p) (m q)) [
  | yes e ↦ elim (memcmp_lem (p + 1) (q + 1) n m) [
    | inl (r, h) ↦ inl (ground (arith, r), Agree-suc m p q n e h)
    | inr (i, lt, h, ne, r) ↦
        let a : p + 1 + i ≡ p + suc i = omega arith in
        let b : q + 1 + i ≡ q + suc i = omega arith in
        inr
          (suc i, omega arith, Agree-suc m p q i e h, ground (arith, a, b), ground (arith, a, b, r))
  ]
  | no ne ↦
      let a : p + 0 ≡ p = omega arith in
      let b : q + 0 ≡ q = omega arith in
      inr
        (0, omega arith, (λ i lt. absurd (omega arith)), ground (arith, a, b), ground (arith, a, b))
]

-- Equal as strings of at most `n` bytes: each byte up to the first NUL is the same.
abbrev pub SameString : Memory → ℕ → ℕ → ℕ → Type 0
SameString m p q zero = Unit
SameString m p q (suc n) = (m p ≡ m q) × ((m p ≡ 0) ⊎ SameString m (p + 1) (q + 1) n)

-- `strncmp` answers 0 exactly on strings that are equal in their first `n` bytes.
pub strncmp_iff : (p q n : ℕ) (m : Memory) → (strncmp p q n m ≡ pos 0) ↔ SameString m p q n
unfolding strncmp
strncmp_iff p q zero m = (λ _. tt, λ _. refl)
strncmp_iff p q (suc n) m =
    let ih = strncmp_iff (p + 1) (q + 1) n m in
    (
      λ h. (
        ground arith,
        elim (ℕ_discrete (m p) 0) [ yes e ↦ inl e | no ne ↦ inr (ih.0 (ground arith)) ],
      ),
      λ (e, r). elim r [ inl z ↦ ground arith | inr s ↦ ground (arith, ih.1 s) ],
    )

strlen_from_sound :
    (fuel s n r : ℕ) (m : Memory)
    → strlen_from fuel s n m ≡ some r
    → (n ≤ r) × (m (s + r) ≡ 0) × ((j : ℕ) → n ≤ j → j < r → m (s + j) ≢ 0)
unfolding strlen_from
strlen_from_sound zero s n r m h = cc
strlen_from_sound (suc fuel) s n r m h = elim (ℕ_discrete (m (s + n)) 0) [
  | yes e ↦
      let same : n ≡ r = ground arith in
      (omega arith, rw (← same) e, λ j lo hi. absurd (omega arith))
  | no ne ↦
      let (lo, z, before) = strlen_from_sound fuel s (n + 1) r m (ground arith) in
      (
        omega arith,
        z,
        λ j l hi. elim (ℕ_discrete n j) [
          | yes e ↦ rw (← e) ne
          | no n≢j ↦ before j (omega arith) hi
        ],
      )
]

strlen_from_complete :
    (fuel s n r : ℕ) (m : Memory)
    → n ≤ r
    → r < n + fuel
    → m (s + r) ≡ 0
    → ((j : ℕ) → n ≤ j → j < r → m (s + j) ≢ 0)
    → strlen_from fuel s n m ≡ some r
unfolding strlen_from
strlen_from_complete zero s n r m lo hi z before = absurd (omega arith)
strlen_from_complete (suc fuel) s n r m lo hi z before = elim (ℕ_discrete n r) [
  | yes e ↦ let z' : m (s + n) ≡ 0 = rw e z in ground arith
  | no ne ↦
      let nz = before n (omega arith) (omega arith) in
      ground (
        arith,
        nz,
        strlen_from_complete fuel s (n + 1) r m (omega arith) (omega arith) z
            (λ j l h. before j (omega arith) h),
      )
]

-- `strlen` returns the index of the first NUL, and fuel above that index is enough.
strlen_iff :
    (fuel s r : ℕ) (m : Memory)
    → r < fuel
    → (strlen fuel s m ≡ some r) ↔ ((m (s + r) ≡ 0) × ((j : ℕ) → j < r → m (s + j) ≢ 0))
unfolding strlen
strlen_iff fuel s r m lt = (
  λ h.
      let (lo, z, before) = strlen_from_sound fuel s 0 r m h in
      (z, λ j hi. before j (omega arith) hi),
  λ (z, before).
      strlen_from_complete fuel s 0 r m (omega arith) (omega arith) z (λ j l h. before j h),
)
