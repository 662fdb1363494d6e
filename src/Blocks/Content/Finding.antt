-- ===== src/Blocks/Content/Finding.antt =====
-- `bmap` and the blocks that an inode owns: where it finds a block and where it makes one.
use cs461_hw.Base.{
  ℕ, suc, ◌+◌, ◌-◌, ◌≡◌, ◌≢◌, ◌<◌, ◌∙◌, refl, sym, ap, subst, fun_ext, true, Option, none, some,
  ◌==◌, ltb, if◌then◌else◌, update, update_self, update_ne, arith, Bool-cases, inl, inr, ℕ_discrete,
}
use cs461_hw.Blocks.{
  ndirect, Volume, Inode, balloc, block_or_new, set_addr, set_word, bmap_indirect, bmap, nindirect,
}
use cs461_hw.Blocks.Bitmap.{Allocated, balloc-Allocated}
use cs461_hw.Blocks.Content.{max_file}
use cs461_hw.Blocks.Content.Owned.{
  own, Owns, Extends, Extends-refl, Extends-trans, indirect_word, own-cong,
}
use cs461_hw.Blocks.Content.Fresh.{Fresh, Fresh-Extends}

-- What the two ways to find or make a block give.
pub record Found (s a : ℕ) (ip : Inode) (v : Volume) (ip' : Inode) (v' : Volume) : Type 0 where
  pub extends : Extends ip v ip' v'
  pub there : own ip' v' s ≡ a
  pub not_null : a ≢ 0

-- The place in `addrs` with index `k`.
abbrev place_of : ℕ → ℕ
place_of k = if k == ndirect then max_file else k

set_addr-old :
    (k : ℕ) (ip : Inode) (v : Volume)
    → k < suc ndirect
    → ip.addrs k ≢ 0
    → Owns (own ip v) v.used
    → Found (place_of k) (ip.addrs k) ip v (record ip { addrs = update ip.addrs k (ip.addrs k) }) v
set_addr-old k ip v h nz o =
    rw same (record { extends = Extends-refl ip v o; there = there; not_null = nz })
  where
    same : update ip.addrs k (ip.addrs k) ≡ ip.addrs
    same = fun_ext λ j. ground arith

    there : own ip v (place_of k) ≡ ip.addrs k
    there = ground arith

set_addr-new :
    (k b : ℕ) (ip : Inode) (v v' : Volume)
    → k < suc ndirect
    → ip.addrs k ≡ 0
    → Owns (own ip v) v.used
    → Allocated v (some (b, v'))
    → Found (place_of k) b ip v (record ip { addrs = update ip.addrs k b }) v'
set_addr-new k b ip v v' h z o (lt, clear, marked, zero_words, same) = record {
  extends =
      Fresh-Extends (place_of k) b ip (record ip { addrs = update ip.addrs k b }) v v' o fresh;
  there = there;
  not_null = λ e. cc (sym (ap v.used e) ∙ clear, o.boot);
}
  where
    ip' : Inode
    ip' = record ip { addrs = update ip.addrs k b }

    there : own ip' v' (place_of k) ≡ b
    there = ground arith

    -- A block that is owned is not the new one.
    old_words :
        (t : ℕ) → t < suc max_file → own ip v t ≢ 0 → v'.word (own ip v t) ≡ v.word (own ip v t)
    old_words t h ne = (same (own ip v t) (λ e. cc (sym (ap v.used e) ∙ clear, o.marked t h ne))).1

    others : (t : ℕ) → t < suc max_file → place_of k ≢ t → own ip' v' t ≡ own ip v t
    others t ht n = elim (Bool-cases (ip.addrs ndirect == 0)) [
      | inl none_yet ↦ let zero_word = zero_words (t - ndirect) in ground arith
      | inr has ↦
          let row : v'.word (ip.addrs ndirect) (t - ndirect)
              ≡ v.word (ip.addrs ndirect) (t - ndirect) =
            ap (λ (r : ℕ → ℕ). r (t - ndirect)) (old_words max_file (omega arith) (ground arith)) in
          ground arith
    ]

    fresh : Fresh (place_of k) b ip v ip' v'
    fresh = record {
      place = ground arith;
      was_clear = clear;
      now_marked = marked;
      keeps = λ c u. elim (ℕ_discrete b c) [ yes e ↦ rw (← e) marked | no ne ↦ (same c ne).0 ∙ u ];
      was_empty = ground arith;
      now_there = there;
      others = others;
      same_words = λ t ht ne. old_words t (omega arith) ne;
      zeroed = zero_words;
      size = refl;
    }

-- The block that a search returns; it panics only where the place has none.
abbrev pub FoundIn : ℕ → Inode → Volume → Option (ℕ × Inode × Volume) → Type 0
FoundIn s ip v none = own ip v s ≡ 0
FoundIn s ip v (some (a, ip', v')) = Found s a ip v ip' v'

-- The first part of `bmap`, for a place in `addrs`.
set_addr-FoundIn :
    (k : ℕ) (ip : Inode) (v : Volume)
    → k < suc ndirect
    → Owns (own ip v) v.used
    → FoundIn (place_of k) ip v (set_addr k ip (block_or_new (ip.addrs k) v))
unfolding set_addr block_or_new
set_addr-FoundIn k ip v h o = elim (Bool-cases (ip.addrs k == 0)) [
  | inr has ↦ rw has (set_addr-old k ip v h (ground arith) o)
  | inl none_yet ↦ rw none_yet (allocated (ground arith) (balloc v) (balloc-Allocated v))
]
  where
    allocated :
        ip.addrs k ≡ 0
        → (r : Option (ℕ × Volume)) → Allocated v r
        → FoundIn (place_of k) ip v (set_addr k ip r)
    allocated z none al = ground arith
    allocated z (some (b, w)) al = set_addr-new k b ip v w h z o al

set_word-old :
    (i : ℕ) (ip : Inode) (v : Volume)
    → i < nindirect
    → ip.addrs ndirect ≢ 0
    → v.word (ip.addrs ndirect) i ≢ 0
    → Owns (own ip v) v.used
    → let ind = ip.addrs ndirect in
      Found
        (i + ndirect)
        (v.word ind i)
        ip
        v
        ip
        (record v { word = update v.word ind (update (v.word ind) i (v.word ind i)) })
set_word-old i ip v h nz full o =
    rw same
      (record { extends = Extends-refl ip v o; there = indirect_word i ip v h nz; not_null = full })
  where
    same_row :
        update (v.word (ip.addrs ndirect)) i (v.word (ip.addrs ndirect) i)
        ≡ v.word (ip.addrs ndirect)
    same_row = fun_ext λ j. ground arith

    same :
        update v.word
          (ip.addrs ndirect)
          (update (v.word (ip.addrs ndirect)) i (v.word (ip.addrs ndirect) i))
        ≡ v.word
    same = ap (update v.word (ip.addrs ndirect)) same_row ∙ fun_ext λ j. ground arith

set_word-new :
    (i b : ℕ) (ip : Inode) (v w : Volume)
    → i < nindirect
    → ip.addrs ndirect ≢ 0
    → v.word (ip.addrs ndirect) i ≡ 0
    → Owns (own ip v) v.used
    → Allocated v (some (b, w))
    → let ind = ip.addrs ndirect in
      Found
        (i + ndirect)
        b
        ip
        v
        ip
        (record w { word = update w.word ind (update (w.word ind) i b) })
set_word-new i b ip v w h nz z o (lt, clear, marked, zero_words, same) = record {
  extends = Fresh-Extends (i + ndirect) b ip ip v v' o fresh;
  there = now_there;
  not_null = λ e. cc (sym (ap v.used e) ∙ clear, o.boot);
}
  where
    ind : ℕ
    ind = ip.addrs ndirect

    v' : Volume
    v' = record w { word = update w.word ind (update (w.word ind) i b) }

    ind_used : v.used ind ≡ true
    ind_used = o.marked max_file (omega arith) nz

    not_new : b ≢ ind
    not_new e = cc (sym (ap v.used e) ∙ clear, ind_used)

    row : v'.word ind ≡ update (v.word ind) i b
    row = update_self w.word ind _ ∙ ap (λ (r : ℕ → ℕ). update r i b) (same ind not_new).1

    now_there : own ip v' (i + ndirect) ≡ b
    now_there =
        indirect_word i ip v' h nz ∙ ap (λ (r : ℕ → ℕ). r i) row ∙ update_self (v.word ind) i b

    others : (t : ℕ) → t < suc max_file → i + ndirect ≢ t → own ip v' t ≡ own ip v t
    others t ht n = own-cong ip v v' t λ _ more.
        ap (λ (r : ℕ → ℕ). r (t - ndirect)) row
        ∙ update_ne (v.word ind) i (t - ndirect) b (λ e. n (ground arith))

    fresh : Fresh (i + ndirect) b ip v ip v'
    fresh = record {
      place = omega arith;
      was_clear = clear;
      now_marked = marked;
      keeps = λ c u. elim (ℕ_discrete b c) [ yes e ↦ rw (← e) marked | no ne ↦ (same c ne).0 ∙ u ];
      was_empty = indirect_word i ip v h nz ∙ z;
      now_there = now_there;
      others = others;
      same_words = λ t ht ne.
          update_ne w.word ind (own ip v t) _ (λ e.
            let last : t ≡ max_file = o.apart t max_file (omega arith) (omega arith) ne (sym e) in
            absurd (omega arith))
          ∙ (same (own ip v t)
              (λ e. cc (sym (ap v.used e) ∙ clear, o.marked t (omega arith) ne))).1;
      zeroed = λ j.
          ap (λ (r : ℕ → ℕ). r j) (update_ne w.word ind b _ (λ e. not_new (sym e))) ∙ zero_words j;
      size = refl;
    }

set_word-FoundIn :
    (i : ℕ) (ip : Inode) (v : Volume)
    → i < nindirect
    → ip.addrs ndirect ≢ 0
    → Owns (own ip v) v.used
    → FoundIn
        (i + ndirect)
        ip
        v
        (set_word (ip.addrs ndirect) i ip (block_or_new (v.word (ip.addrs ndirect) i) v))
unfolding set_word block_or_new
set_word-FoundIn i ip v h nz o = elim (Bool-cases (v.word (ip.addrs ndirect) i == 0)) [
  | inr has ↦ rw has (set_word-old i ip v h nz (ground arith) o)
  | inl none_yet ↦ rw none_yet (allocated (ground arith) (balloc v) (balloc-Allocated v))
]
  where
    allocated :
        v.word (ip.addrs ndirect) i ≡ 0
        → (r : Option (ℕ × Volume)) → Allocated v r
        → FoundIn (i + ndirect) ip v (set_word (ip.addrs ndirect) i ip r)
    allocated z none al = indirect_word i ip v h nz ∙ z
    allocated z (some (b, w)) al = set_word-new i b ip v w h nz z o al

after-FoundIn :
    (s : ℕ) (ip ip' : Inode) (v v' : Volume) (r : Option (ℕ × Inode × Volume))
    → s < max_file
    → Extends ip v ip' v'
    → FoundIn s ip' v' r
    → FoundIn s ip v r
after-FoundIn s ip ip' v v' none h e f = e.keeps_blocks s (omega arith) f
after-FoundIn s ip ip' v v' (some (a, iq, w)) h e f = record {
  extends = Extends-trans e f.extends;
  there = f.there;
  not_null = f.not_null;
}

-- `bmap` finds or makes a block at its place, and all that a reader sees stays the same.
pub bmap-FoundIn :
    (bn : ℕ) (ip : Inode) (v : Volume)
    → bn < max_file
    → Owns (own ip v) v.used
    → FoundIn bn ip v (bmap bn ip v)
unfolding bmap bmap_indirect
bmap-FoundIn bn ip v lt o = elim (Bool-cases (ltb bn ndirect)) [
  | inl direct ↦
      let place : place_of bn ≡ bn = ground arith in
      rw direct (
        subst (λ s. FoundIn s ip v (set_addr bn ip (block_or_new (ip.addrs bn) v))) place
          (set_addr-FoundIn bn ip v (ground arith) o))
  | inr beyond ↦ elim (Bool-cases (ltb (bn - ndirect) nindirect)) [
    | inr out ↦ absurd (ground arith)
    | inl in_range ↦
        rw (beyond, in_range)
          (indirect (set_addr ndirect ip (block_or_new (ip.addrs ndirect) v))
            (set_addr-FoundIn ndirect ip v (omega arith) o) (ground arith) (ground arith))
  ]
]
  where
    indirect :
        (r : Option (ℕ × Inode × Volume))
        → FoundIn max_file ip v r
        → bn - ndirect < nindirect
        → bn - ndirect + ndirect ≡ bn
        → FoundIn bn ip v (bmap_indirect (bn - ndirect) r)
    indirect none f h e = ground arith
    indirect (some (ind, iq, w)) f h e =
        let there : iq.addrs ndirect ≡ ind = f.there in
        let search =
          λ (d : ℕ). set_word d (bn - ndirect) iq (block_or_new (w.word d (bn - ndirect)) w) in
        subst (λ d. FoundIn bn ip v (search d)) there
          (after-FoundIn bn ip iq v w (search (iq.addrs ndirect)) lt f.extends (
            subst (λ s. FoundIn s iq w (search (iq.addrs ndirect))) e
              (set_word-FoundIn (bn - ndirect) iq w h (λ z. f.not_null (sym there ∙ z))
                f.extends.owns)))
