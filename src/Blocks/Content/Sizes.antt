-- ===== src/Blocks/Content/Sizes.antt =====
-- `bmap` and `readi` on any inode: the size stays, and the loop has rounds enough.
use cs461_hw.Base.{
  ℕ, zero, suc, ◌+◌, ◌-◌, ◌/◌, ◌%◌, ◌^◌, ◌≡◌, ◌≤◌, ◌||◌, refl, subst, Option, none, some, List, ltb,
  if◌then◌else◌, arith, Bool-cases, inl, inr,
}
use cs461_hw.Blocks.{
  Volume, Inode, ndirect, nindirect, block_or_new, set_addr, set_word, bmap_indirect, bmap,
}
use cs461_hw.Blocks.Content.{
  Run, ok, panic, out_of_rounds, bsize, chunk, get_bytes, join_read, read_loop, read_end, readi,
}

abbrev pub Sized : ℕ → Option (ℕ × Inode × Volume) → Type 0
Sized size none = Unit
Sized size (some (_, ip, _)) = ip.size ≡ size

set_addr-Sized : (i : ℕ) (ip : Inode) (r : Option (ℕ × Volume)) → Sized ip.size (set_addr i ip r)
unfolding set_addr
set_addr-Sized i ip none = tt
set_addr-Sized i ip (some (addr, v)) = refl

set_word-Sized :
    (ind i : ℕ) (ip : Inode) (r : Option (ℕ × Volume)) → Sized ip.size (set_word ind i ip r)
unfolding set_word
set_word-Sized ind i ip none = tt
set_word-Sized ind i ip (some (addr, v)) = refl

bmap_indirect-Sized :
    (size i : ℕ) (r : Option (ℕ × Inode × Volume)) → Sized size r → Sized size (bmap_indirect i r)
unfolding bmap_indirect
bmap_indirect-Sized size i none h = tt
bmap_indirect-Sized size i (some (ind, ip, v)) h =
    subst (λ s. Sized s (set_word ind i ip (block_or_new (v.word ind i) v))) h
      (set_word-Sized ind i ip (block_or_new (v.word ind i) v))

pub bmap-Sized : (bn : ℕ) (ip : Inode) (v : Volume) → Sized ip.size (bmap bn ip v)
unfolding bmap
bmap-Sized bn ip v = elim (Bool-cases (ltb bn ndirect)) [
  | inl direct ↦ rw direct (set_addr-Sized bn ip (block_or_new (ip.addrs bn) v))
  | inr far ↦ elim (Bool-cases (ltb (bn - ndirect) nindirect)) [
    | inl indirect ↦
        rw (far, indirect)
          (bmap_indirect-Sized ip.size (bn - ndirect)
            (set_addr ndirect ip (block_or_new (ip.addrs ndirect) v))
            (set_addr-Sized ndirect ip (block_or_new (ip.addrs ndirect) v)))
    | inr beyond ↦ rw (far, beyond) tt
  ]
]

abbrev pub SizedRead {ℓ} : {A : Type ℓ} → ℕ → Run (A × Inode × Volume) → Type 0
SizedRead size (ok (_, ip, _)) = ip.size ≡ size
SizedRead size panic = Unit
SizedRead size out_of_rounds = ⊥

join_read-SizedRead :
    (size : ℕ) (bs : List ℕ) (r : Run (List ℕ × Inode × Volume))
    → SizedRead size r
    → SizedRead size (join_read bs r)
unfolding join_read
join_read-SizedRead size bs (ok (cs, ip, v)) h = h
join_read-SizedRead size bs panic h = h
join_read-SizedRead size bs out_of_rounds h = h

read_loop-SizedRead :
    (fuel off n : ℕ) (ip : Inode) (v : Volume)
    → n ≤ fuel
    → SizedRead ip.size (read_loop fuel off n ip v)
unfolding read_loop
read_loop-SizedRead fuel off zero ip v f = refl
read_loop-SizedRead zero off (suc n) ip v f = absurd (omega arith)
read_loop-SizedRead (suc fuel) off (suc n) ip v f =
    found (bmap (off / bsize) ip v) (bmap-Sized (off / bsize) ip v)
      (λ ip' v'. read_loop-SizedRead fuel (off + m) (suc n - m) ip' v' (omega arith))
  where
    m : ℕ
    m = chunk off (suc n)

    found :
        (r : Option (ℕ × Inode × Volume))
        → Sized ip.size r
        → ((ip' : Inode) (v' : Volume)
            → SizedRead ip'.size (read_loop fuel (off + m) (suc n - m) ip' v'))
        → SizedRead ip.size (elim r as (λ _. Run (List ℕ × Inode × Volume)) [
          | none ↦ panic
          | some (b, ip', v') ↦
              join_read
                (get_bytes m b (off % bsize) v')
                (read_loop fuel (off + m) (suc n - m) ip' v')
        ])
    found none s ih = tt
    found (some (b, ip', v')) s ih =
        join_read-SizedRead ip.size (get_bytes m b (off % bsize) v')
          (read_loop fuel (off + m) (suc n - m) ip' v')
          (subst (λ k. SizedRead k (read_loop fuel (off + m) (suc n - m) ip' v')) s (ih ip' v'))

read_end-SizedRead :
    (size : ℕ) (r : Run (List ℕ × Inode × Volume)) → SizedRead size r → SizedRead size (read_end r)
unfolding read_end
read_end-SizedRead size (ok (cs, ip, v)) h = h
read_end-SizedRead size panic h = h
read_end-SizedRead size out_of_rounds h = h

pub readi-SizedRead : (off n : ℕ) (ip : Inode) (v : Volume) → SizedRead ip.size (readi off n ip v)
unfolding readi
readi-SizedRead off n ip v = elim (Bool-cases (ltb ip.size off || ltb ((off + n) % 2 ^ 32) off)) [
  | inl out ↦ rw out refl
  | inr within ↦
      let n' = if ltb ip.size ((off + n) % 2 ^ 32) then ip.size - off else n in
      rw within (
        read_end-SizedRead ip.size (read_loop n' off n' ip v)
          (read_loop-SizedRead n' off n' ip v (omega arith)))
]
