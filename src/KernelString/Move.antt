-- ===== src/KernelString/Move.antt =====
-- `memmove` on ranges that may overlap.
use cs461_hw.Base.{
  ℕ, zero, suc, ◌+◌, ◌-◌, ◌≤◌, ◌≡◌, ◌⊎◌, ◌&&◌, ltb, if◌then◌else◌, update, arith, dec_lt,
  Bool-cases, inl, inr,
}
use cs461_hw.KernelString.{Memory, copy_up, copy_down, memmove}
use cs461_hw.KernelString.Fill.{in_range}

copy_up_lem :
    (d s n : ℕ) (m : Memory) (a : ℕ)
    → (d ≤ s) ⊎ (s + n ≤ d)
    → copy_up d s n m a ≡ (if in_range d n a then m (s + (a - d)) else m a)
unfolding copy_up
copy_up_lem d s zero m a h = ground arith
copy_up_lem d s (suc n) m a h = elim (dec_lt d a) [
  | yes gt ↦
      let same : s + 1 + (a - (d + 1)) ≡ s + (a - d) = omega arith in
      ground (arith, copy_up_lem (d + 1) (s + 1) n (update m d (m s)) a (omega arith), same)
  | no le ↦
      let start : s + (a - d) ≡ s = omega arith in
      ground (arith, copy_up_lem (d + 1) (s + 1) n (update m d (m s)) a (omega arith), start)
]

copy_down_lem :
    (d s n : ℕ) (m : Memory) (a : ℕ)
    → s ≤ d
    → copy_down (d + n) (s + n) n m a ≡ (if in_range d n a then m (s + (a - d)) else m a)
unfolding copy_down
copy_down_lem d s zero m a h = ground arith
copy_down_lem d s (suc n) m a h =
    let d' : d + suc n - 1 ≡ d + n = omega arith in
    let s' : s + suc n - 1 ≡ s + n = omega arith in
    rw (d', s')
      (let m' = update m (d + n) (m (s + n)) in
        let last : a ≡ d + n → s + (a - d) ≡ s + n = (λ e. omega arith) in
        ground (arith, copy_down_lem d s n m' a h, last))

-- `memmove` leaves in the destination what the source held before the call, also where the two
-- overlap, and changes no other byte.
pub memmove_lem :
    (dst src n : ℕ) (m : Memory) (a : ℕ)
    → memmove dst src n m a ≡ (if in_range dst n a then m (src + (a - dst)) else m a)
unfolding memmove
memmove_lem dst src n m a = elim (Bool-cases (ltb src dst && ltb dst (src + n))) [
  | inl e ↦ rw e (copy_down_lem dst src n m a (ground arith))
  | inr e ↦ rw e (copy_up_lem dst src n m a (ground arith))
]
