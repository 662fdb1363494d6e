-- ===== src/KernelString/Fill.antt =====
-- `memset` by bytes and by words is the same filling.
use cs461_hw.Base.{
  ℕ, zero, suc, ◌+◌, ◌*◌, ◌/◌, ◌%◌, ◌<◌, ◌≡◌, Bool, ◌&&◌, ◌==◌, ltb, leb, if◌then◌else◌, update,
  arith, Bool-cases, inl, inr,
}
use cs461_hw.KernelString.{Memory, stosb, store_long, stosl, spread, memset}

-- Is `a` one of the `n` addresses from `p` on?
abbrev pub in_range : ℕ → ℕ → ℕ → Bool
in_range p n a = leb p a && ltb a (p + n)

stosb_lem :
    (dst c n : ℕ) (m : Memory) (a : ℕ)
    → stosb dst c n m a ≡ (if in_range dst n a then c % 256 else m a)
unfolding stosb
stosb_lem dst c zero m a = ground arith
stosb_lem dst c (suc n) m a = ground (arith, stosb_lem (dst + 1) c n (update m dst (c % 256)) a)

store_long-spread :
    (dst c : ℕ) (m : Memory) (a : ℕ)
    → c < 256
    → store_long dst (spread c) m a ≡ (if in_range dst 4 a then c else m a)
unfolding store_long spread
store_long-spread dst c m a h = ground arith

stosl_lem :
    (dst c n : ℕ) (m : Memory) (a : ℕ)
    → c < 256
    → stosl dst (spread c) n m a ≡ (if in_range dst (n * 4) a then c else m a)
unfolding stosl
stosl_lem dst c zero m a h = ground arith
stosl_lem dst c (suc n) m a h =
    ground (
      arith,
      stosl_lem (dst + 4) c n (store_long dst (spread c) m) a,
      store_long-spread dst c m a h,
    )

-- `memset` writes the low byte of `c` to the `n` addresses from `dst` on and to no other, whether it
-- fills by words or by bytes.
pub memset_lem :
    (dst c n : ℕ) (m : Memory) (a : ℕ)
    → memset dst c n m a ≡ (if in_range dst n a then c % 256 else m a)
unfolding memset
memset_lem dst c n m a = elim (Bool-cases (dst % 4 == 0 && n % 4 == 0)) [
  | inl e ↦
      let whole : n / 4 * 4 ≡ n = ground arith in
      rw (e, stosl_lem dst (c % 256) (n / 4) m a (omega arith), whole)
  | inr e ↦ rw e (stosb_lem dst c n m a)
]
