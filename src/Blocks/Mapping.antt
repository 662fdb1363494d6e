-- ===== src/Blocks/Mapping.antt =====
-- How `bmap` maps the blocks of an inode.
use cs461_hw.Base.{
  ℕ, ◌-◌, ◌≡◌, ◌≢◌, ◌∙◌, refl, sym, ap, true, false, Option, none, some, ◌==◌, ltb, if◌then◌else◌,
  update, update_self, arith, Bool-cases, inl, inr, ℕ_discrete,
}
use cs461_hw.Blocks.{
  ndirect, nindirect, Volume, Inode, balloc, block_or_new, set_addr, set_word, bmap_indirect, bmap,
}
use cs461_hw.Blocks.Bitmap.{Allocated, balloc-Allocated}

-- The block that an inode has at `bn`, as a reader of its addresses sees it; 0 for none.
abbrev pub block_at : ℕ → Inode → Volume → ℕ
block_at bn ip v =
    if ltb bn ndirect
    then ip.addrs bn
    else if ip.addrs ndirect == 0
    then 0
    else v.word (ip.addrs ndirect) (bn - ndirect)

-- What a call of `bmap` for block `bn` returns and leaves, where it does not panic.
abbrev pub Mapped : ℕ → Inode → Volume → Option (ℕ × Inode × Volume) → Type 0
Mapped bn ip v none = Unit
Mapped bn ip v (some (addr, ip', v')) =
    (addr ≢ 0)
    × (block_at bn ip' v' ≡ addr)
    × (block_at bn ip v ≢ 0 → addr ≡ block_at bn ip v)
    × (ip'.size ≡ ip.size)
    × ((b : ℕ) → v.used b ≡ true → v'.used b ≡ true)

-- What `block_or_new` returns and leaves.
abbrev Given : ℕ → Volume → Option (ℕ × Volume) → Type 0
Given addr v none = Unit
Given addr v (some (a, v')) =
    (a ≢ 0) × (addr ≢ 0 → (a ≡ addr) × (v' ≡ v)) × ((b : ℕ) → v.used b ≡ true → v'.used b ≡ true)

block_or_new-Given : (addr : ℕ) (v : Volume) → v.used 0 ≡ true → Given addr v (block_or_new addr v)
unfolding block_or_new
block_or_new-Given addr v z = elim (Bool-cases (addr == 0)) [
  | inl n ↦ rw n (fresh (balloc v) (balloc-Allocated v) n)
  | inr o ↦ rw o (ground arith, λ ne. (refl, refl), λ b u. u)
]
  where
    fresh : (o : Option (ℕ × Volume)) → Allocated v o → (addr == 0) ≡ true → Given addr v o
    fresh none a n = tt
    fresh (some (b, v')) (l, c, m, w, same) n = (
      λ e. cc (sym (ap v.used e) ∙ c),
      λ ne. absurd (ground arith),
      λ d u. elim (ℕ_discrete b d) [ yes e ↦ rw (← e) m | no ne ↦ (same d ne).0 ∙ u ],
    )

-- A direct block.
set_addr-Mapped :
    (bn : ℕ) (ip : Inode) (v : Volume) (o : Option (ℕ × Volume))
    → ltb bn ndirect ≡ true
    → Given (ip.addrs bn) v o
    → Mapped bn ip v (set_addr bn ip o)
unfolding set_addr
set_addr-Mapped bn ip v none d g = tt
set_addr-Mapped bn ip v (some (a, v')) d (nz, old, keeps) =
    rw d (nz, update_self ip.addrs bn a, λ ne. (old ne).0, refl, keeps)

-- A block of the indirect block `ind`, which the inode has already.
set_word-Mapped :
    (bn : ℕ) (ip ip' : Inode) (v v' : Volume) (ind : ℕ) (o : Option (ℕ × Volume))
    → ltb bn ndirect ≡ false
    → ip'.addrs ndirect ≡ ind
    → ind ≢ 0
    → ip'.size ≡ ip.size
    → (block_at bn ip v ≢ 0 → v'.word ind (bn - ndirect) ≡ block_at bn ip v)
    → ((b : ℕ) → v.used b ≡ true → v'.used b ≡ true)
    → Given (v'.word ind (bn - ndirect)) v' o
    → Mapped bn ip v (set_word ind (bn - ndirect) ip' o)
unfolding set_word
set_word-Mapped bn ip ip' v v' ind none d e nz s old keeps g = tt
set_word-Mapped bn ip ip' v v' ind (some (a, w)) d e nz s old keeps (az, same, more) =
    (az, there, kept, s, λ b u. more b (keeps b u))
  where
    row : ℕ → ℕ
    row = update (w.word ind) (bn - ndirect) a

    has_indirect : (ind == 0) ≡ false
    has_indirect = ground arith

    there : block_at bn ip' (record w { word = update w.word ind row }) ≡ a
    there =
        rw (d, e, has_indirect)
          (ap (λ (r : ℕ → ℕ). r (bn - ndirect)) (update_self w.word ind row)
            ∙ update_self (w.word ind) (bn - ndirect) a)

    kept : block_at bn ip v ≢ 0 → a ≡ block_at bn ip v
    kept ne = (same (λ z. ne (sym (old ne) ∙ z))).0 ∙ old ne

indirect-Mapped :
    (bn : ℕ) (ip : Inode) (v : Volume) (o : Option (ℕ × Volume))
    → v.used 0 ≡ true
    → ltb bn ndirect ≡ false
    → Given (ip.addrs ndirect) v o
    → Mapped bn ip v (bmap_indirect (bn - ndirect) (set_addr ndirect ip o))
unfolding set_addr bmap_indirect
indirect-Mapped bn ip v none z d g = tt
indirect-Mapped bn ip v (some (ind, v')) z d (nz, old, keeps) =
    set_word-Mapped bn ip (record ip { addrs = update ip.addrs ndirect ind }) v v' ind
      (block_or_new (v'.word ind (bn - ndirect)) v') d (update_self ip.addrs ndirect ind) nz refl
      kept keeps (block_or_new-Given (v'.word ind (bn - ndirect)) v' (keeps 0 z))
  where
    kept : block_at bn ip v ≢ 0 → v'.word ind (bn - ndirect) ≡ block_at bn ip v
    kept ne = elim (Bool-cases (ip.addrs ndirect == 0)) [
      | inl none_yet ↦ absurd (ne (rw (d, none_yet) refl))
      | inr has ↦ let (same, still) = old (ground arith) in rw (d, has, same, still) refl
    ]

-- On a volume whose block 0 is marked, a call of `bmap` that does not panic returns a block, not 0,
-- that the inode has at `bn` afterwards; it is the one that the inode had there, if it had one. The
-- size stays, and no marked block becomes clear.
pub bmap-Mapped :
    (bn : ℕ) (ip : Inode) (v : Volume) → v.used 0 ≡ true → Mapped bn ip v (bmap bn ip v)
unfolding bmap
bmap-Mapped bn ip v z = elim (Bool-cases (ltb bn ndirect)) [
  | inl d ↦ rw d (
      set_addr-Mapped bn ip v (block_or_new (ip.addrs bn) v) d
        (block_or_new-Given (ip.addrs bn) v z))
  | inr n ↦ elim (Bool-cases (ltb (bn - ndirect) nindirect)) [
    | inl i ↦
        rw (n, i)
          (indirect-Mapped bn ip v (block_or_new (ip.addrs ndirect) v) z n
            (block_or_new-Given (ip.addrs ndirect) v z))
    | inr o ↦ rw (n, o) tt
  ]
]
