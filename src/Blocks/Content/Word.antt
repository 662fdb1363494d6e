-- ===== src/Blocks/Content/Word.antt =====
-- The bytes of a word, and of a block.
use cs461_hw.Base.{
  ℕ, zero, suc, ◌+◌, ◌*◌, ◌/◌, ◌%◌, ◌≡◌, ◌≢◌, ◌<◌, ◌∙◌, refl, ap, update_self, update_ne, arith,
  ℕ_discrete,
}
use cs461_hw.Blocks.{Volume}
use cs461_hw.Blocks.Content.{byte_in, set_in, get_byte, put_byte}

byte_in-set_in_self : (k w x : ℕ) → x < 256 → byte_in (set_in w k x) k ≡ x
unfolding byte_in set_in
byte_in-set_in_self zero w x h = omega arith
byte_in-set_in_self (suc k) w x h =
    ap (λ q. byte_in q k)
      (let q : (set_in (w / 256) k x * 256 + w % 256) / 256 ≡ set_in (w / 256) k x = omega arith in
        q)
    ∙ byte_in-set_in_self k (w / 256) x h

byte_in-set_in_ne : (k j w x : ℕ) → x < 256 → k ≢ j → byte_in (set_in w k x) j ≡ byte_in w j
unfolding byte_in set_in
byte_in-set_in_ne zero zero w x h n = absurd (n refl)
byte_in-set_in_ne zero (suc j) w x h n =
    ap (λ q. byte_in q j) (let q : (w / 256 * 256 + x) / 256 ≡ w / 256 = omega arith in q)
byte_in-set_in_ne (suc k) zero w x h n = omega arith
byte_in-set_in_ne (suc k) (suc j) w x h n =
    ap (λ q. byte_in q j)
      (let q : (set_in (w / 256) k x * 256 + w % 256) / 256 ≡ set_in (w / 256) k x = omega arith in
        q)
    ∙ byte_in-set_in_ne k j (w / 256) x h (λ e. n (ap suc e))

pub word-put_byte_ne : (b c i x : ℕ) (v : Volume) → b ≢ c → (put_byte b i x v).word c ≡ v.word c
unfolding put_byte
word-put_byte_ne b c i x v n = update_ne v.word b c _ n

-- A byte that is put is the byte that is there.
pub get_byte-put_byte_self :
    (b i x : ℕ) (v : Volume) → x < 256 → get_byte (put_byte b i x v) b i ≡ x
unfolding get_byte put_byte
get_byte-put_byte_self b i x v h =
    ap (λ (r : ℕ → ℕ). byte_in (r (i / 4)) (i % 4)) (update_self v.word b _)
    ∙ ap (λ q. byte_in q (i % 4)) (update_self (v.word b) (i / 4) _)
    ∙ byte_in-set_in_self (i % 4) (v.word b (i / 4)) x h

-- All other bytes of the block stay.
pub get_byte-put_byte_ne :
    (b i j x : ℕ) (v : Volume) → x < 256 → i ≢ j → get_byte (put_byte b i x v) b j ≡ get_byte v b j
unfolding get_byte put_byte
get_byte-put_byte_ne b i j x v h n =
    ap (λ (r : ℕ → ℕ). byte_in (r (j / 4)) (j % 4)) (update_self v.word b _)
    ∙ elim (ℕ_discrete (i / 4) (j / 4)) [
      | no ne ↦ ap (λ q. byte_in q (j % 4)) (update_ne (v.word b) (i / 4) (j / 4) _ ne)
      | yes e ↦ rw (← e) (
          ap (λ q. byte_in q (j % 4)) (update_self (v.word b) (i / 4) _)
          ∙ byte_in-set_in_ne (i % 4) (j % 4) (v.word b (i / 4)) x h (λ r. n (omega arith)))
    ]
