-- ===== src/Blocks/Content/Freeing.antt =====
-- The loops of `itrunc` over block addresses.
use cs461_hw.Base.{
  ℕ, zero, suc, ◌+◌, ◌≡◌, ◌≢◌, ◌≤◌, ◌<◌, ◌∙◌, refl, sym, ap, subst, Bool, true, false, Option, none,
  some, ◌==◌, ltb, if◌then◌else◌, update, update_self, update_ne, arith, Bool-cases, inl, inr,
  ℕ_discrete,
}
use cs461_hw.Blocks.{Volume, bfree, free_from, clear_from}

-- The addresses from `i` on are marked, and no block has two of them.
pub record Marked (k i : ℕ) (addrs : ℕ → ℕ) (used : ℕ → Bool) : Type 0 where
  pub set : (j : ℕ) → i ≤ j → j < i + k → addrs j ≢ 0 → used (addrs j) ≡ true
  pub once :
      (j l : ℕ) → i ≤ j → j < i + k → i ≤ l → l < i + k → addrs j ≢ 0 → addrs j ≡ addrs l → j ≡ l

-- The blocks of these addresses are clear now, and nothing else is touched.
pub record Cleared (k i : ℕ) (addrs : ℕ → ℕ) (v v' : Volume) : Type 0 where
  pub clear : (j : ℕ) → i ≤ j → j < i + k → addrs j ≢ 0 → v'.used (addrs j) ≡ false
  pub others :
      (b : ℕ) → ((j : ℕ) → i ≤ j → j < i + k → addrs j ≢ 0 → addrs j ≢ b) → v'.used b ≡ v.used b
  pub words : v'.word ≡ v.word

abbrev pub ClearedIn : ℕ → ℕ → (ℕ → ℕ) → Volume → Option Volume → Type 0
ClearedIn k i addrs v none = ⊥
ClearedIn k i addrs v (some v') = Cleared k i addrs v v'

-- `bfree` of a marked block.
pub bfree-marked :
    (b : ℕ) (v : Volume)
    → v.used b ≡ true
    → bfree b v ≡ some (record v { used = update v.used b false })
unfolding bfree
bfree-marked b v h = rw h refl

pub free_from-ClearedIn :
    (k i : ℕ) (addrs : ℕ → ℕ) (v : Volume)
    → Marked k i addrs v.used
    → ClearedIn k i addrs v (free_from k i addrs v)
unfolding free_from
free_from-ClearedIn zero i addrs v m = record {
  clear = λ j a b nz. absurd (omega arith);
  others = λ b h. refl;
  words = refl;
}
free_from-ClearedIn (suc k) i addrs v m = elim (Bool-cases (addrs i == 0)) [
  | inl z ↦
      rw (z, free_from)
        (skipped (free_from k (i + 1) addrs v)
          (free_from-ClearedIn k (i + 1) addrs v (record {
            set = λ j a b nz. m.set j (omega arith) (omega arith) nz;
            once = λ j l a b c d nz e.
                m.once j l (omega arith) (omega arith) (omega arith) (omega arith) nz e;
          }))
          (ground arith))
  | inr full ↦
      let nz : addrs i ≢ 0 = ground arith in
      let v1 = record v { used = update v.used (addrs i) false } in
      rw (full, bfree-marked (addrs i) v (m.set i (omega arith) (omega arith) nz), free_from)
        (freed nz (free_from k (i + 1) addrs v1) (
          free_from-ClearedIn k (i + 1) addrs v1 (record {
            set = λ j a b z.
                update_ne v.used (addrs i) (addrs j) false (λ e.
                  let q : i ≡ j =
                    m.once i j (omega arith) (omega arith) (omega arith) (omega arith) nz e in
                  absurd (omega arith))
                ∙ m.set j (omega arith) (omega arith) z;
            once = λ j l a b c d z e.
                m.once j l (omega arith) (omega arith) (omega arith) (omega arith) z e;
          })))
]
  where
    skipped :
        (r : Option Volume)
        → ClearedIn k (i + 1) addrs v r
        → addrs i ≡ 0
        → ClearedIn (suc k) i addrs v r
    skipped none c z = c
    skipped (some w) c z = record {
      clear = λ j a b nz. elim (ℕ_discrete i j) [
        | yes e ↦ absurd (nz (ap addrs (sym e) ∙ z))
        | no ne ↦ c.clear j (omega arith) (omega arith) nz
      ];
      others = λ b h. c.others b (λ j x y nz. h j (omega arith) (omega arith) nz);
      words = c.words;
    }

    freed :
        addrs i ≢ 0
        → (r : Option Volume)
        → ClearedIn k (i + 1) addrs (record v { used = update v.used (addrs i) false }) r
        → ClearedIn (suc k) i addrs v r
    freed nz none c = c
    freed nz (some w) c = record {
      clear = λ j a b z. elim (ℕ_discrete i j) [
        | yes e ↦
            subst (λ l. w.used (addrs l) ≡ false) e
              (c.others (addrs i) (λ l x y z' q.
                  let s : l ≡ i =
                    m.once l i (omega arith) (omega arith) (omega arith) (omega arith) z' q in
                  absurd (omega arith))
                ∙ update_self v.used (addrs i) false)
        | no ne ↦ c.clear j (omega arith) (omega arith) z
      ];
      others = λ b h.
          c.others b (λ j x y z. h j (omega arith) (omega arith) z)
          ∙ update_ne v.used (addrs i) b false (h i (omega arith) (omega arith) nz);
      words = c.words;
    }

pub clear_from_lem :
    (k i : ℕ) (addrs : ℕ → ℕ) (j : ℕ)
    → clear_from k i addrs j ≡ (if ltb j i then addrs j else if ltb j (i + k) then 0 else addrs j)
unfolding clear_from
clear_from_lem zero i addrs j = ground arith
clear_from_lem (suc k) i addrs j = clear_from_lem k (i + 1) (update addrs i 0) j ∙ ground arith
