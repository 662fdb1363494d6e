-- ===== src/Blocks/Content/Fresh.antt =====
-- A block that is newly given to an inode.
use cs461_hw.Base.{
  ℕ, zero, suc, ◌/◌, ◌%◌, ◌≡◌, ◌≢◌, ◌<◌, ◌∙◌, refl, sym, ap, subst, true, false, ◌==◌, arith,
  Bool-cases, inl, inr, ℕ_discrete,
}
use cs461_hw.Blocks.{Volume, Inode}
use cs461_hw.Blocks.Content.{max_file, byte_in, get_byte}
use cs461_hw.Blocks.Content.Owned.{own, Owns, byte_at, Extends, byte_at-same}

-- A place without a block gets the block `b`, which was clear and is zeroed.
pub record Fresh (s b : ℕ) (ip : Inode) (v : Volume) (ip' : Inode) (v' : Volume) : Type 0 where
  pub place : s < suc max_file
  pub was_clear : v.used b ≡ false
  pub now_marked : v'.used b ≡ true
  pub keeps : (c : ℕ) → v.used c ≡ true → v'.used c ≡ true
  pub was_empty : own ip v s ≡ 0
  pub now_there : own ip' v' s ≡ b
  pub others : (t : ℕ) → t < suc max_file → s ≢ t → own ip' v' t ≡ own ip v t
  pub same_words :
      (t : ℕ) → t < max_file → own ip v t ≢ 0 → v'.word (own ip v t) ≡ v.word (own ip v t)
  pub zeroed : (i : ℕ) → v'.word b i ≡ 0
  pub size : ip'.size ≡ ip.size

Fresh-Owns :
    (s b : ℕ) (ip ip' : Inode) (v v' : Volume)
    → Owns (own ip v) v.used
    → Fresh s b ip v ip' v'
    → Owns (own ip' v') v'.used
Fresh-Owns s b ip ip' v v' o f = record {
  boot = f.keeps 0 o.boot;
  marked = λ t h ne. elim (ℕ_discrete s t) [
    | yes e ↦
        subst (λ x. v'.used x ≡ true) (sym (ap (own ip' v') (sym e) ∙ f.now_there)) f.now_marked
    | no n ↦
        let same = f.others t h n in
        subst (λ x. v'.used x ≡ true) (sym same)
          (f.keeps (own ip v t) (o.marked t h (λ z. ne (same ∙ z))))
  ];
  apart = λ t u h k ne e. elim (ℕ_discrete s t) [
    | yes st ↦ elim (ℕ_discrete s u) [
      | yes su ↦ sym st ∙ su
      | no nu ↦
          absurd
            (clash u k nu (sym (f.others u k nu) ∙ sym e ∙ ap (own ip' v') (sym st) ∙ f.now_there))
    ]
    | no nt ↦ elim (ℕ_discrete s u) [
      | yes su ↦
          absurd (clash t h nt (sym (f.others t h nt) ∙ e ∙ ap (own ip' v') (sym su) ∙ f.now_there))
      | no nu ↦
          o.apart t u h k (λ z. ne (f.others t h nt ∙ z))
            (sym (f.others t h nt) ∙ e ∙ f.others u k nu)
    ]
  ];
}
  where
    clash : (u : ℕ) → u < suc max_file → s ≢ u → own ip v u ≢ b
    clash u k n e =
        let nz : own ip v u ≢ 0 = λ z. cc (sym (ap v.used (sym e ∙ z)) ∙ f.was_clear, o.boot) in
        cc (sym (ap v.used e) ∙ o.marked u k nz, f.was_clear)

byte_in-zero : (k : ℕ) → byte_in 0 k ≡ 0
unfolding byte_in
byte_in-zero zero = refl
byte_in-zero (suc k) = byte_in-zero k

byte_at-zeroed : (b i : ℕ) (v : Volume) → ((j : ℕ) → v.word b j ≡ 0) → byte_at b v i ≡ 0
unfolding get_byte
byte_at-zeroed b i v z = elim (Bool-cases (b == 0)) [
  | inl e ↦ rw e refl
  | inr n ↦ rw n (rw (z (i / 4)) (byte_in-zero (i % 4)))
]

pub Fresh-Extends :
    (s b : ℕ) (ip ip' : Inode) (v v' : Volume)
    → Owns (own ip v) v.used
    → Fresh s b ip v ip' v'
    → Extends ip v ip' v'
Fresh-Extends s b ip ip' v v' o f = record {
  owns = Fresh-Owns s b ip ip' v v' o f;
  same_data = λ t i h. elim (ℕ_discrete s t) [
    | yes e ↦
        ap (λ c. byte_at c v' i) (ap (own ip' v') (sym e) ∙ f.now_there)
        ∙ byte_at-zeroed b i v' f.zeroed
        ∙ sym (ap (λ c. byte_at c v i) (ap (own ip v) (sym e) ∙ f.was_empty))
    | no n ↦
        ap (λ c. byte_at c v' i) (f.others t (omega arith) n)
        ∙ byte_at-same (own ip v t) i v v' (f.same_words t h)
  ];
  same_size = f.size;
  keeps_blocks = λ t h z. elim (ℕ_discrete s t) [
    | yes e ↦ ap (own ip v) (sym e) ∙ f.was_empty
    | no n ↦ sym (f.others t h n) ∙ z
  ];
}
