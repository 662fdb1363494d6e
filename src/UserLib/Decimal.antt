-- ===== src/UserLib/Decimal.antt =====
-- `atoi` reads what `print_d` writes.
use native.Mathlib.Nat.{pow-suc}
use cs461_hw.Base.{
  ℕ, zero, suc, ◌+◌, ◌-◌, ◌*◌, ◌/◌, ◌%◌, ◌^◌, ◌<◌, ◌≡◌, ◌∙◌, refl, true, List, [], ◌∷◌, ◌==◌, leb,
  ◌&&◌, get_or, pos, arith, Bool-cases, inl, inr,
}
use cs461_hw.UserLib.{digits, atoi_from, atoi, dec_loop, print_d}

digit_char : (d : ℕ) → d < 10 → get_or digits d 0 ≡ d + b'0'
digit_char zero h = refl
digit_char (suc zero) h = refl
digit_char (suc (suc zero)) h = refl
digit_char (suc (suc (suc zero))) h = refl
digit_char (suc (suc (suc (suc zero)))) h = refl
digit_char (suc (suc (suc (suc (suc zero))))) h = refl
digit_char (suc (suc (suc (suc (suc (suc zero)))))) h = refl
digit_char (suc (suc (suc (suc (suc (suc (suc zero))))))) h = refl
digit_char (suc (suc (suc (suc (suc (suc (suc (suc zero)))))))) h = refl
digit_char (suc (suc (suc (suc (suc (suc (suc (suc (suc zero))))))))) h = refl
digit_char (suc (suc (suc (suc (suc (suc (suc (suc (suc (suc n)))))))))) h = absurd (omega arith)

atoi_from-digit :
    (n d : ℕ) (cs : List ℕ)
    → d < 10
    → atoi_from n (get_or digits d 0 ∷ cs) ≡ atoi_from (n * 10 + d) cs
unfolding atoi_from
atoi_from-digit n d cs h =
    let value : d + b'0' - b'0' ≡ d = omega arith in
    let in_range : (leb b'0' (d + b'0') && leb (d + b'0') b'9') ≡ true = ground arith in
    rw (digit_char d h, in_range, value) refl

atoi_from-dec_loop :
    (fuel x : ℕ) (buf : List ℕ)
    → x < 10 ^ fuel
    → atoi_from 0 (dec_loop fuel x buf) ≡ atoi_from x buf
unfolding dec_loop
atoi_from-dec_loop zero x buf h = let e : x ≡ 0 = omega arith in rw e refl
atoi_from-dec_loop (suc fuel) x buf h = elim (Bool-cases (x / 10 == 0)) [
  | inl last ↦
      let small : x / 10 ≡ 0 = ground arith in
      let same : 0 * 10 + x % 10 ≡ x = omega arith in
      rw last (atoi_from-digit 0 (x % 10) buf (omega arith) ∙ rw same refl)
  | inr more ↦
      let same : x / 10 * 10 + x % 10 ≡ x = omega arith in
      let bound : x < 10 ^ fuel * 10 = rw pow-suc at h in
      rw more (
        atoi_from-dec_loop fuel (x / 10) (get_or digits (x % 10) 0 ∷ buf) (omega arith)
        ∙ atoi_from-digit (x / 10) (x % 10) buf (omega arith)
        ∙ rw same refl)
]

-- `atoi` reads back every number that `print_d` writes for an `int` that is not negative.
pub atoi-print_d : (n : ℕ) → n < 2 ^ 31 → atoi (print_d (pos n)) ≡ n
unfolding atoi print_d
atoi-print_d n h = atoi_from-dec_loop 16 n [] (omega arith) ∙ end n
  where
    end : (k : ℕ) → atoi_from k [] ≡ k
    end k = unfold atoi_from in refl
