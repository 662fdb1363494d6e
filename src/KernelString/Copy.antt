-- ===== src/KernelString/Copy.antt =====
-- `strncpy` and `safestrcpy` between ranges that do not overlap.
use cs461_hw.Base.{
  ℕ, zero, suc, ◌+◌, ◌-◌, ◌≤◌, ◌<◌, ◌≡◌, ◌≢◌, ◌⊎◌, refl, Bool, true, false, not, ◌&&◌, ◌==◌,
  if◌then◌else◌, arith, inl, inr, update, dec_lt, ℕ_discrete, ap,
}
use cs461_hw.KernelString.{Memory, pad, strncpy, safestrcpy_loop, safestrcpy}
use cs461_hw.KernelString.Fill.{in_range}

-- No NUL among the `i` bytes from `t` on.
unfoldable pub no_nul : ℕ → ℕ → Memory → Bool
no_nul t zero m = true
no_nul t (suc i) m = not (m t == 0) && no_nul (t + 1) i m

-- The `n` bytes at `s` and at `t` do not overlap.
abbrev pub Apart : ℕ → ℕ → ℕ → Type 0
Apart s t n = (s + n ≤ t) ⊎ (t + n ≤ s)

no_nul-none : (t : ℕ) (m : Memory) → no_nul t 0 m ≡ true
unfolding no_nul
no_nul-none t m = refl

no_nul-step :
    (t a s : ℕ) (m : Memory)
    → s < a
    → no_nul t (a - s) m ≡ (not (m t == 0) && no_nul (t + 1) (a - (s + 1)) m)
unfolding no_nul
no_nul-step t a s m h = let e : a - s ≡ suc (a - (s + 1)) = omega arith in ap (λ k. no_nul t k m) e

no_nul-update :
    (t i s v : ℕ) (m : Memory) → (s < t) ⊎ (t + i ≤ s) → no_nul t i (update m s v) ≡ no_nul t i m
unfolding no_nul
no_nul-update t zero s v m h = refl
no_nul-update t (suc i) s v m h = ground (arith, no_nul-update (t + 1) i s v m (omega arith))

pad_lem : (s n : ℕ) (m : Memory) (a : ℕ) → pad s n m a ≡ (if in_range s n a then 0 else m a)
unfolding pad
pad_lem s zero m a = ground arith
pad_lem s (suc n) m a = ground (arith, pad_lem (s + 1) n (update m s 0) a)

-- `strncpy` writes exactly the `n` bytes from `s` on: the source up to its first NUL, then NULs.
pub strncpy_lem :
    (s t n : ℕ) (m : Memory) (a : ℕ)
    → Apart s t n
    → strncpy s t n m a
      ≡ (if in_range s n a then if no_nul t (a - s) m then m (t + (a - s)) else 0 else m a)
unfolding strncpy
strncpy_lem s t zero m a h = ground arith
strncpy_lem s t (suc n) m a h = elim (dec_lt s a) [
  | yes gt ↦
      let same : t + 1 + (a - (s + 1)) ≡ t + (a - s) = omega arith in
      ground (
        arith,
        same,
        no_nul-step t a s m gt,
        no_nul-update (t + 1) (a - (s + 1)) s (m t) m,
        strncpy_lem (s + 1) (t + 1) n (update m s (m t)) a (omega arith),
        pad_lem (s + 1) n (update m s (m t)) a,
      )
  | no le ↦
      let none_left : a - s ≡ 0 = omega arith in
      let first : no_nul t (a - s) m ≡ true = rw none_left (no_nul-none t m) in
      let start : t + (a - s) ≡ t = omega arith in
      ground (
        arith,
        first,
        start,
        strncpy_lem (s + 1) (t + 1) n (update m s (m t)) a (omega arith),
        pad_lem (s + 1) n (update m s (m t)) a,
      )
]

-- The string at `s` is the one at `t`, cut off after `k` bytes: NUL-terminated at index `k`.
pub record IsCopy (s t k : ℕ) (m m' : Memory) : Type 0 where
  pub terminated : m' (s + k) ≡ 0
  pub bytes : (j : ℕ) → j < k → m' (s + j) ≡ m (t + j)
  pub nonzero : (j : ℕ) → j < k → m (t + j) ≢ 0

safestrcpy_loop-outside :
    (s t n : ℕ) (m : Memory) (a : ℕ)
    → in_range s (n + 1) a ≡ false
    → safestrcpy_loop s t n m a ≡ m a
unfolding safestrcpy_loop
safestrcpy_loop-outside s t zero m a h = ground arith
safestrcpy_loop-outside s t (suc n) m a h =
    ground (arith, safestrcpy_loop-outside (s + 1) (t + 1) n (update m s (m t)) a)

shift_IsCopy :
    (s t k n : ℕ) (m m' : Memory)
    → Apart s t (suc n)
    → k ≤ n
    → m t ≢ 0
    → m' s ≡ m t
    → IsCopy (s + 1) (t + 1) k (update m s (m t)) m'
    → IsCopy s t (suc k) m m'
shift_IsCopy s t k n m m' h le nz first c = record {
  terminated = let e : s + 1 + k ≡ s + suc k = omega arith in ground (arith, c.terminated, e);
  bytes = λ j lt. bytes j lt;
  nonzero = λ j lt. nonzero j lt;
}
  where
    bytes : (j : ℕ) → j < suc k → m' (s + j) ≡ m (t + j)
    bytes zero lt =
        let a : s + 0 ≡ s = omega arith in
        let b : t + 0 ≡ t = omega arith in ground (arith, a, b, first)
    bytes (suc j) lt =
        let a : s + 1 + j ≡ s + suc j = omega arith in
        let b : t + 1 + j ≡ t + suc j = omega arith in ground (arith, a, b, c.bytes j (omega arith))

    nonzero : (j : ℕ) → j < suc k → m (t + j) ≢ 0
    nonzero zero lt = let b : t + 0 ≡ t = omega arith in ground (arith, b, nz)
    nonzero (suc j) lt =
        let b : t + 1 + j ≡ t + suc j = omega arith in ground (arith, b, c.nonzero j (omega arith))

safestrcpy_loop-IsCopy :
    (s t n : ℕ) (m : Memory)
    → Apart s t (suc n)
    → (k : ℕ) × (k ≤ n) × IsCopy s t k m (safestrcpy_loop s t n m) × ((k ≡ n) ⊎ (m (t + k) ≡ 0))
unfolding safestrcpy_loop
safestrcpy_loop-IsCopy s t zero m h =
    let a : s + 0 ≡ s = omega arith in
    (
      0,
      omega arith,
      record {
        terminated = ground (arith, a);
        bytes = λ j lt. absurd (omega arith);
        nonzero = λ j lt. absurd (omega arith);
      },
      inl refl,
    )
safestrcpy_loop-IsCopy s t (suc n) m h = elim (ℕ_discrete (m t) 0) [
  | yes z ↦
      let a : s + 0 ≡ s = omega arith in
      let b : t + 0 ≡ t = omega arith in
      (
        0,
        omega arith,
        record {
          terminated = ground (arith, a);
          bytes = λ j lt. absurd (omega arith);
          nonzero = λ j lt. absurd (omega arith);
        },
        inr (ground (arith, b, z)),
      )
  | no nz ↦
      let rest = safestrcpy_loop (s + 1) (t + 1) n (update m s (m t)) in
      let (k, le, c, end) =
        safestrcpy_loop-IsCopy (s + 1) (t + 1) n (update m s (m t)) (omega arith) in
      let first : rest s ≡ m t =
        ground (arith, safestrcpy_loop-outside (s + 1) (t + 1) n (update m s (m t)) s) in
      let go : (m t == 0) ≡ false = ground arith in
      let b : t + 1 + k ≡ t + suc k = omega arith in
      (
        suc k,
        omega arith,
        rw go (shift_IsCopy s t k (suc n) m rest h (omega arith) nz first c),
        elim end [ inl e ↦ inl (omega arith) | inr z ↦ inr (ground (arith, b, z)) ],
      )
]

-- `safestrcpy` into `n > 0` bytes leaves a NUL-terminated string there: the source cut off after
-- some `k < n` bytes, where `k` is `n - 1` unless the source ends before; no byte outside changes.
pub safestrcpy_lem :
    (s t n : ℕ) (m : Memory)
    → Apart s t (suc n)
    → (k : ℕ) × (k ≤ n)
      × IsCopy s t k m (safestrcpy s t (suc n) m)
      × ((k ≡ n) ⊎ (m (t + k) ≡ 0))
      × ((a : ℕ) → in_range s (suc n) a ≡ false → safestrcpy s t (suc n) m a ≡ m a)
unfolding safestrcpy
safestrcpy_lem s t n m h =
    let (k, le, c, end) = safestrcpy_loop-IsCopy s t n m h in
    (k, le, c, end, λ a out. safestrcpy_loop-outside s t n m a (ground arith))
