-- ===== src/Blocks/Content/Truncate.antt =====
-- `itrunc` frees what an inode owns.
use cs461_hw.Base.{
  ℕ, suc, ◌+◌, ◌-◌, ◌≡◌, ◌≢◌, ◌≤◌, ◌<◌, ◌∙◌, refl, sym, ap, subst, true, false, Option, none, some,
  ◌==◌, ltb, update, update_self, update_ne, arith, Bool-cases, inl, inr, ℕ_discrete, ◌⊎◌,
}
use cs461_hw.Blocks.{
  ndirect, nindirect, Volume, Inode, bfree, free_from, clear_from, free_indirect, itrunc,
}
use cs461_hw.Blocks.Content.{max_file}
use cs461_hw.Blocks.Content.Owned.{own, Owns, indirect_word}
use cs461_hw.Blocks.Content.Freeing.{
  Marked, Cleared, ClearedIn, bfree-marked, free_from-ClearedIn, clear_from_lem,
}

-- An inode without addresses owns no block.
cleared_own :
    (ip : Inode) (v : Volume) → ((j : ℕ) → j ≤ ndirect → ip.addrs j ≡ 0) → (s : ℕ) → own ip v s ≡ 0
cleared_own ip v h s =
    let z : ip.addrs 12 ≡ 0 = h 12 (omega arith) in
    elim (Bool-cases (ltb s 12)) [
      | inl low ↦ let y : ip.addrs s ≡ 0 = h s (ground arith) in ground arith
      | inr high ↦ ground arith
    ]

-- What `itrunc` leaves: no place has a block, the blocks that had one are clear, and all other blocks
-- and all bytes are as they were.
pub record Truncated (ip : Inode) (v : Volume) (ip' : Inode) (v' : Volume) : Type 0 where
  pub empty : ip'.size ≡ 0
  pub none_owned : (s : ℕ) → s < suc max_file → own ip' v' s ≡ 0
  pub freed : (s : ℕ) → s < suc max_file → own ip v s ≢ 0 → v'.used (own ip v s) ≡ false
  pub others :
      (b : ℕ)
      → ((s : ℕ) → s < suc max_file → own ip v s ≢ 0 → own ip v s ≢ b)
      → v'.used b ≡ v.used b
  pub words : v'.word ≡ v.word

abbrev pub TruncatedIn : Inode → Volume → Option (Inode × Volume) → Type 0
TruncatedIn ip v none = ⊥
TruncatedIn ip v (some (ip', v')) = Truncated ip v ip' v'

module _ (ip : Inode) (v : Volume) (o : Owns (own ip v) v.used) where
  abbrev ind : ℕ
  ind = ip.addrs ndirect

  direct : (s : ℕ) → s < ndirect → own ip v s ≡ ip.addrs s
  direct s h = ground arith

  direct-Marked : Marked ndirect 0 ip.addrs v.used
  direct-Marked = record {
    set = λ j a b nz.
        subst (λ c. v.used c ≡ true) (direct j b)
          (o.marked j (omega arith) (λ z. nz (sym (direct j b) ∙ z)));
    once = λ j l a b c d nz e.
        o.apart j l (omega arith) (omega arith) (λ z. nz (sym (direct j b) ∙ z))
          (direct j b ∙ e ∙ sym (direct l d));
  }

  -- The places without an indirect block.
  no_indirect : (s : ℕ) → ip.addrs ndirect ≡ 0 → own ip v s ≢ 0 → s < suc max_file → s < ndirect
  no_indirect s z ne h = ground arith

  -- Different places have different blocks.
  differ :
      (s t : ℕ)
      → s < suc max_file
      → t < suc max_file
      → own ip v s ≢ 0
      → s ≢ t
      → own ip v s ≢ own ip v t
  differ s t h k nz ne e = ne (o.apart s t h k nz e)

  module _ (v1 : Volume) (c1 : Cleared ndirect 0 ip.addrs v v1) where
    -- A block of a later place is not touched by the first loop.
    kept : (s : ℕ) → ndirect ≤ s → s < suc max_file → own ip v s ≢ 0 → v1.used (own ip v s) ≡ true
    kept s a h nz =
        c1.others (own ip v s) (λ j x y z e.
          differ j s (omega arith) h (λ q. z (sym (direct j y) ∙ q)) (λ q. absurd (omega arith))
            (direct j y ∙ e))
        ∙ o.marked s h nz

    indirect-Marked : ind ≢ 0 → Marked nindirect 0 (v1.word ind) v1.used
    indirect-Marked full = record {
      set = λ j a b nz.
          let at : own ip v (j + ndirect) ≡ v1.word ind j =
            indirect_word j ip v b full ∙ ap (λ (w : ℕ → ℕ → ℕ). w ind j) (sym c1.words) in
          subst (λ c. v1.used c ≡ true) at
            (kept (j + ndirect) (omega arith) (omega arith) (λ z. nz (sym at ∙ z)));
      once = λ j l a b c d nz e.
          let at : own ip v (j + ndirect) ≡ v1.word ind j =
            indirect_word j ip v b full ∙ ap (λ (w : ℕ → ℕ → ℕ). w ind j) (sym c1.words) in
          let at' : own ip v (l + ndirect) ≡ v1.word ind l =
            indirect_word l ip v d full ∙ ap (λ (w : ℕ → ℕ → ℕ). w ind l) (sym c1.words) in
          let same : j + ndirect ≡ l + ndirect =
            o.apart (j + ndirect) (l + ndirect) (omega arith) (omega arith) (λ z. nz (sym at ∙ z))
              (at ∙ e ∙ sym at') in
          omega arith;
    }

    -- The second part of `itrunc` clears the places from 12 on.
    record Later (v3 : Volume) : Type 0 where
      clear :
          (s : ℕ) → ndirect ≤ s → s < suc max_file → own ip v s ≢ 0 → v3.used (own ip v s) ≡ false
      others :
          (b : ℕ)
          → ((s : ℕ) → ndirect ≤ s → s < suc max_file → own ip v s ≢ 0 → own ip v s ≢ b)
          → v3.used b ≡ v1.used b
      words : v3.word ≡ v.word

    abbrev LaterIn : Option Volume → Type 0
    LaterIn none = ⊥
    LaterIn (some v3) = Later v3

    module _ (full : ip.addrs ndirect ≢ 0) (v2 : Volume)
        (c2 : Cleared nindirect 0 (v1.word ind) v1 v2) where
      at_word : (s : ℕ) → ndirect ≤ s → s < max_file → own ip v s ≡ v1.word ind (s - ndirect)
      at_word s a h =
          ap (own ip v) (let q : s ≡ s - ndirect + ndirect = omega arith in q)
          ∙ indirect_word (s - ndirect) ip v (omega arith) full
          ∙ ap (λ (w : ℕ → ℕ → ℕ). w ind (s - ndirect)) (sym c1.words)

      ind_used : v2.used ind ≡ true
      ind_used =
          c2.others ind (λ j x y z e.
            let at = at_word (j + ndirect) (omega arith) (omega arith) in
            let index : j + ndirect - ndirect ≡ j = omega arith in
            let here : own ip v (j + ndirect) ≡ v1.word ind j = at ∙ ap (v1.word ind) index in
            differ (j + ndirect) max_file (omega arith) (omega arith) (λ q. z (sym here ∙ q))
              (λ q. absurd (omega arith)) (here ∙ e))
          ∙ kept max_file (omega arith) (omega arith) full

      last-Later : Later (record v2 { used = update v2.used ind false })
      last-Later = record {
        clear = λ s a h nz. elim (ℕ_discrete s max_file) [
          | yes e ↦
              subst (λ t. update v2.used ind false (own ip v t) ≡ false) (sym e)
                (update_self v2.used ind false)
          | no ne ↦
              let at = at_word s a (omega arith) in
              update_ne v2.used ind (own ip v s) false
                (λ q. differ s max_file h (omega arith) nz ne (sym q))
              ∙ subst (λ c. v2.used c ≡ false) (sym at)
                  (c2.clear (s - ndirect) (omega arith) (omega arith) (λ z. nz (at ∙ z)))
        ];
        others = λ b h.
            update_ne v2.used ind b false (h max_file (omega arith) (omega arith) full)
            ∙ c2.others b (λ j x y z e.
              let at = at_word (j + ndirect) (omega arith) (omega arith) in
              let index : j + ndirect - ndirect ≡ j = omega arith in
              let here : own ip v (j + ndirect) ≡ v1.word ind j = at ∙ ap (v1.word ind) index in
              h (j + ndirect) (omega arith) (omega arith) (λ q. z (sym here ∙ q)) (here ∙ e));
        words = c2.words ∙ c1.words;
      }

    free_indirect-LaterIn : LaterIn (free_indirect ind v1)
    unfolding free_indirect
    free_indirect-LaterIn = elim (Bool-cases (ip.addrs ndirect == 0)) [
      | inl z ↦ rw z (record {
        clear = λ s a h nz. absurd (let q = no_indirect s (ground arith) nz h in omega arith);
        others = λ b h. refl;
        words = c1.words;
      })
      | inr has ↦
          let full : ip.addrs ndirect ≢ 0 = ground arith in
          rw has (
            loop full (free_from nindirect 0 (v1.word ind) v1)
              (free_from-ClearedIn nindirect 0 (v1.word ind) v1 (indirect-Marked full)))
    ]
      where
        loop :
            ip.addrs ndirect ≢ 0
            → (r : Option Volume) → ClearedIn nindirect 0 (v1.word ind) v1 r
            → LaterIn (elim r as (λ _. Option Volume) [ none ↦ none | some v' ↦ bfree ind v' ])
        loop full none c = c
        loop full (some v2) c = rw (bfree-marked ind v2 (ind_used full v2 c)) (last-Later full v2 c)

    module _ (v3 : Volume) (l : Later v3) where
      freed_all : (s : ℕ) → s < suc max_file → own ip v s ≢ 0 → v3.used (own ip v s) ≡ false
      freed_all s h nz = elim (split s) [
        | inl a ↦ l.clear s a h nz
        | inr b ↦
            l.others (own ip v s) (λ t x y z. differ t s y h z (λ q. absurd (omega arith)))
            ∙ subst (λ c. v1.used c ≡ false) (sym (direct s b))
                (c1.clear s (omega arith) (omega arith) (λ z. nz (direct s b ∙ z)))
      ]
        where
          split : (s : ℕ) → (ndirect ≤ s) ⊎ (s < ndirect)
          split s = ground arith

      others_kept :
          (b : ℕ)
          → ((s : ℕ) → s < suc max_file → own ip v s ≢ 0 → own ip v s ≢ b)
          → v3.used b ≡ v.used b
      others_kept b h =
          l.others b (λ s x y z. h s y z)
          ∙ c1.others b
              (λ j x y z q. h j (omega arith) (λ w. z (sym (direct j y) ∙ w)) (direct j y ∙ q))

      all_freed :
          Truncated ip v (record { addrs = clear_from (ndirect + 1) 0 ip.addrs; size = 0 }) v3
      all_freed = record {
        empty = refl;
        none_owned = λ s h.
            cleared_own (record { addrs = clear_from (ndirect + 1) 0 ip.addrs; size = 0 }) v3
              (λ j k. clear_from_lem (ndirect + 1) 0 ip.addrs j ∙ ground arith) s;
        freed = freed_all;
        others = others_kept;
        words = l.words;
      }

-- `itrunc` of an inode whose blocks are marked and have one place each does not panic: it clears
-- exactly the blocks that the inode owns, its indirect block too, and leaves it none.
pub itrunc-TruncatedIn :
    (ip : Inode) (v : Volume) → Owns (own ip v) v.used → TruncatedIn ip v (itrunc ip v)
unfolding itrunc
itrunc-TruncatedIn ip v o =
    first (free_from ndirect 0 ip.addrs v)
      (free_from-ClearedIn ndirect 0 ip.addrs v (direct-Marked ip v o))
  where
    second :
        (v1 : Volume) (c1 : Cleared ndirect 0 ip.addrs v v1) (r : Option Volume)
        → LaterIn ip v o v1 c1 r
        → TruncatedIn ip v (elim r as (λ _. Option (Inode × Volume)) [
          | none ↦ none
          | some v3 ↦ some (record { addrs = clear_from (ndirect + 1) 0 ip.addrs; size = 0 }, v3)
        ])
    second v1 c1 none l = l
    second v1 c1 (some v3) l = all_freed ip v o v1 c1 v3 l

    first :
        (r : Option Volume)
        → ClearedIn ndirect 0 ip.addrs v r
        → TruncatedIn ip v (elim r as (λ _. Option (Inode × Volume)) [
          | none ↦ none
          | some v1 ↦ elim (free_indirect (ip.addrs ndirect) v1) as (λ _. Option (Inode × Volume)) [
            | none ↦ none
            | some v3 ↦ some (record { addrs = clear_from (ndirect + 1) 0 ip.addrs; size = 0 }, v3)
          ]
        ])
    first none c = c
    first (some v1) c =
        second v1 c (free_indirect (ip.addrs ndirect) v1) (free_indirect-LaterIn ip v o v1 c)
