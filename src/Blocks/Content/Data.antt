-- ===== src/Blocks/Content/Data.antt =====
-- The bytes of a file as a function of their offset, and what a write into a block makes of it.
use cs461_hw.Base.{
  ℕ, zero, suc, ◌+◌, ◌-◌, ◌*◌, ◌/◌, ◌%◌, ◌≡◌, ◌≢◌, ◌≤◌, ◌<◌, ◌∙◌, refl, sym, ap, subst, true, false,
  ◌&&◌, List, [], ◌∷◌, ◌++◌, ◌==◌, if◌then◌else◌, update, length, arith, Bool-cases, inl, inr,
  ℕ_discrete,
}
use cs461_hw.Blocks.{ndirect, Volume, Inode}
use cs461_hw.Blocks.Content.{bsize, max_file, get_byte, put_byte, get_bytes, put_bytes}
use cs461_hw.Blocks.Content.Word.{word-put_byte_ne, get_byte-put_byte_self, get_byte-put_byte_ne}
use cs461_hw.Blocks.Content.Owned.{own, Owns, byte_at, byte_at-same, data_at, own-cong}

-- The byte at an offset; where no block is, it is 0.
abbrev pub contents : Inode → Volume → ℕ → ℕ
contents ip v off = data_at ip v (off / bsize) (off % bsize)

-- `bytes` written over `f` from `off` on.
abbrev pub overlay : ℕ → List ℕ → (ℕ → ℕ) → ℕ → ℕ
overlay off [] f = f
overlay off (x ∷ xs) f = overlay (off + 1) xs (update f off x)

-- `n` bytes of `f` from `off` on.
abbrev pub window : ℕ → ℕ → (ℕ → ℕ) → List ℕ
window zero off f = []
window (suc n) off f = f off ∷ window n (off + 1) f

abbrev pub AllBytes : List ℕ → Type 0
AllBytes [] = Unit
AllBytes (x ∷ xs) = (x < 256) × AllBytes xs

abbrev pub limit : ℕ
limit = 71680

pub overlay-cong :
    (off : ℕ) (xs : List ℕ) (f g : ℕ → ℕ) (j : ℕ)
    → f j ≡ g j
    → overlay off xs f j ≡ overlay off xs g j
overlay-cong off [] f g j h = h
overlay-cong off (x ∷ xs) f g j h =
    overlay-cong (off + 1) xs (update f off x) (update g off x) j (ground arith)

pub overlay-append :
    (off : ℕ) (xs ys : List ℕ) (f : ℕ → ℕ) (j : ℕ)
    → overlay off (xs ++ ys) f j ≡ overlay (off + length xs) ys (overlay off xs f) j
overlay-append off [] ys f j = ap (λ o. overlay o ys f j) (omega arith)
overlay-append off (x ∷ xs) ys f j =
    overlay-append (off + 1) xs ys (update f off x) j
    ∙ ap (λ o. overlay o ys (overlay (off + 1) xs (update f off x)) j) (omega arith)

pub window-cong :
    (n off : ℕ) (f g : ℕ → ℕ) (h : (j : ℕ) → off ≤ j → j < off + n → f j ≡ g j)
    → window n off f ≡ window n off g
window-cong zero off f g h = refl
window-cong (suc n) off f g h =
    let first : f off ≡ g off = h off (omega arith) (omega arith) in
    let rest = window-cong n (off + 1) f g (λ j a b. h j (omega arith) (omega arith)) in
    rw (first, rest) refl

pub window-append :
    (m n off : ℕ) (f : ℕ → ℕ) → window m off f ++ window n (off + m) f ≡ window (m + n) off f
window-append zero n off f =
    let same : off + 0 ≡ off = omega arith in
    let none : 0 + n ≡ n = omega arith in rw (same, none) refl
window-append (suc m) n off f =
    let same : off + suc m ≡ off + 1 + m = omega arith in
    let more : suc m + n ≡ suc (m + n) = omega arith in
    rw (same, more) (ap (λ l. f off ∷ l) (window-append m n (off + 1) f))

byte_at-full : (c b j : ℕ) (w : Volume) → c ≡ b → b ≢ 0 → byte_at c w j ≡ get_byte w b j
byte_at-full c b j w e nz =
    let full : (c == 0) ≡ false = ground arith in rw full (ap (λ q. get_byte w q j) e)

-- A byte that is put into the block of a place.
module _ (ip : Inode) (v : Volume) (s b i x : ℕ) (o : Owns (own ip v) v.used) (place : s < max_file)
    (here : own ip v s ≡ b) (nz : b ≢ 0) (byte : x < 256) where
  not_indirect : b ≢ ip.addrs ndirect
  not_indirect e =
      let last : s ≡ max_file =
        o.apart s max_file (omega arith) (omega arith) (λ z. nz (sym here ∙ z)) (here ∙ e) in
      absurd (omega arith)

  own-put_byte : (t : ℕ) → own ip (put_byte b i x v) t ≡ own ip v t
  own-put_byte t = own-cong ip v (put_byte b i x v) t λ _ _.
      ap (λ (r : ℕ → ℕ). r (t - ndirect)) (word-put_byte_ne b (ip.addrs ndirect) i x v not_indirect)

  put_byte-Owns : Owns (own ip (put_byte b i x v)) (put_byte b i x v).used
  unfolding put_byte
  put_byte-Owns = record {
    boot = o.boot;
    marked = λ t h ne.
        subst (λ c. v.used c ≡ true) (sym (own-put_byte t))
          (o.marked t h (λ z. ne (own-put_byte t ∙ z)));
    apart = λ t u h k ne e.
        o.apart t u h k (λ z. ne (own-put_byte t ∙ z)) (sym (own-put_byte t) ∙ e ∙ own-put_byte u);
  }

  data_at-put_byte :
      (t j : ℕ)
      → t < max_file
      → data_at ip (put_byte b i x v) t j ≡ (if s == t && i == j then x else data_at ip v t j)
  data_at-put_byte t j ht = ap (λ c. byte_at c (put_byte b i x v) j) (own-put_byte t) ∙ at_place
    where
      -- The block of another place is another block.
      other : s ≢ t → b ≢ own ip v t
      other n e = n (o.apart s t (omega arith) (omega arith) (λ z. nz (sym here ∙ z)) (here ∙ e))

      at_place :
          byte_at (own ip v t) (put_byte b i x v) j
          ≡ (if s == t && i == j then x else data_at ip v t j)
      at_place = elim (Bool-cases (s == t)) [
        | inr n ↦ rw n (
            byte_at-same (own ip v t) j v (put_byte b i x v)
              (λ _. word-put_byte_ne b (own ip v t) i x v (other (ground arith))))
        | inl e ↦
            let same : own ip v t ≡ b = ap (own ip v) (let q : t ≡ s = ground arith in q) ∙ here in
            elim (Bool-cases (i == j)) [
              | inl k ↦
                  let k' : i ≡ j = ground arith in
                  rw (e, k)
                    (byte_at-full (own ip v t) b j (put_byte b i x v) same nz
                      ∙ rw (← k') (get_byte-put_byte_self b i x v byte))
              | inr n ↦
                  rw (e, n)
                    (byte_at-full (own ip v t) b j (put_byte b i x v) same nz
                      ∙ get_byte-put_byte_ne b i j x v byte (ground arith)
                      ∙ sym (byte_at-full (own ip v t) b j v same nz))
            ]
      ]

  contents-put_byte :
      (j : ℕ)
      → i < bsize
      → j < limit
      → contents ip (put_byte b i x v) j ≡ update (contents ip v) (s * bsize + i) x j
  contents-put_byte j hi hj =
      data_at-put_byte (j / bsize) (j % bsize) (omega arith) ∙ elim (ℕ_discrete (s * bsize + i) j) [
        | yes e ↦
            let a : (s == j / bsize) ≡ true = ground arith in
            let c : (i == j % bsize) ≡ true = ground arith in
            let d : (s * bsize + i == j) ≡ true = ground arith in rw (a, c, d) refl
        | no n ↦
            let a : (s == j / bsize && i == j % bsize) ≡ false = ground arith in
            let d : (s * bsize + i == j) ≡ false = ground arith in rw (a, d) refl
      ]

-- What a place holds after bytes are put into its block.
pub record Put (ip : Inode) (v : Volume) (off : ℕ) (xs : List ℕ) (v' : Volume) : Type 0 where
  pub owns : Owns (own ip v') v'.used
  pub written : (j : ℕ) → j < limit → contents ip v' j ≡ overlay off xs (contents ip v) j
  pub same_places : (t : ℕ) → own ip v' t ≡ own ip v t

pub put_bytes-Put :
    (ip : Inode) (v : Volume) (s b i : ℕ) (xs : List ℕ)
    → Owns (own ip v) v.used
    → s < max_file
    → own ip v s ≡ b
    → b ≢ 0
    → AllBytes xs
    → i + length xs ≤ bsize
    → Put ip v (s * bsize + i) xs (put_bytes b i xs v)
unfolding put_bytes
put_bytes-Put ip v s b i [] o place here nz h le = record {
  owns = o;
  written = λ j hj. refl;
  same_places = λ t. refl;
}
put_bytes-Put ip v s b i (x ∷ xs) o place here nz (hx, hxs) le =
    let v1 = put_byte b i x v in
    let ih =
      put_bytes-Put ip v1 s b (i + 1) xs (put_byte-Owns ip v s b i x o place here nz hx) place
        (own-put_byte ip v s b i x o place here nz hx s ∙ here) nz hxs (omega arith) in
    record {
      owns = ih.owns;
      written = λ j hj.
          ih.written j hj
          ∙ ap (λ q. overlay q xs (contents ip v1) j)
              (let q : s * bsize + (i + 1) ≡ s * bsize + i + 1 = omega arith in q)
          ∙ overlay-cong (s * bsize + i + 1) xs (contents ip v1)
              (update (contents ip v) (s * bsize + i) x) j
              (contents-put_byte ip v s b i x o place here nz hx j (omega arith) hj);
      same_places = λ t. ih.same_places t ∙ own-put_byte ip v s b i x o place here nz hx t;
    }

pub get_bytes-window :
    (ip : Inode) (v : Volume) (s b i m : ℕ)
    → own ip v s ≡ b
    → b ≢ 0
    → i + m ≤ bsize
    → get_bytes m b i v ≡ window m (s * bsize + i) (contents ip v)
unfolding get_bytes
get_bytes-window ip v s b i zero here nz le = refl
get_bytes-window ip v s b i (suc m) here nz le =
    let full : (b == 0) ≡ false = ground arith in
    let place : (s * bsize + i) / bsize ≡ s = omega arith in
    let index : (s * bsize + i) % bsize ≡ i = omega arith in
    let first : contents ip v (s * bsize + i) ≡ get_byte v b i =
      ap (λ q. byte_at (own ip v q) v ((s * bsize + i) % bsize)) place
      ∙ ap (λ q. byte_at (own ip v s) v q) index
      ∙ ap (λ c. byte_at c v i) here
      ∙ rw full refl in
    let next : s * bsize + (i + 1) ≡ s * bsize + i + 1 = omega arith in
    rw first (
      ap (λ l. get_byte v b i ∷ l)
        (get_bytes-window ip v s b (i + 1) m here nz (omega arith)
          ∙ ap (λ q. window m q (contents ip v)) next))
