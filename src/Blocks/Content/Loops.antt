-- ===== src/Blocks/Content/Loops.antt =====
-- The loops of `readi` and `writei` against the bytes of the file.
use cs461_hw.Base.{
  ℕ, zero, suc, ◌+◌, ◌-◌, ◌*◌, ◌/◌, ◌%◌, ◌≡◌, ◌≤◌, ◌<◌, ◌∙◌, refl, sym, ap, ap₂, subst, Option,
  none, some, List, [], ◌∷◌, ◌++◌, length, take, drop, take-append-drop, length-take, length-drop,
  arith, ◌≢◌, ltb, Bool-cases, inl, inr,
}
use cs461_hw.Blocks.{Volume, Inode, bmap}
use cs461_hw.Blocks.Content.{
  max_file, bsize, get_bytes, put_bytes, Run, ok, panic, out_of_rounds, chunk, join_read, read_loop,
  write_loop,
}
use cs461_hw.Blocks.Content.Owned.{own, Owns, Extends, Extends-refl, Extends-trans}
use cs461_hw.Blocks.Content.Finding.{Found, FoundIn, bmap-FoundIn}
use cs461_hw.Blocks.Content.Data.{
  contents, overlay, window, AllBytes, limit, overlay-cong, overlay-append, window-cong,
  window-append, Put, put_bytes-Put, get_bytes-window,
}

pub Extends-contents :
    {ip ip' : Inode} {v v' : Volume} (j : ℕ)
    → Extends ip v ip' v'
    → j < limit
    → contents ip' v' j ≡ contents ip v j
Extends-contents j e h = e.same_data (j / bsize) (j % bsize) (omega arith)

AllBytes-take : (m : ℕ) (xs : List ℕ) → AllBytes xs → AllBytes (take m xs)
AllBytes-take zero xs h = tt
AllBytes-take (suc m) [] h = tt
AllBytes-take (suc m) (x ∷ xs) (h, hs) = (h, AllBytes-take m xs hs)

AllBytes-drop : (m : ℕ) (xs : List ℕ) → AllBytes xs → AllBytes (drop m xs)
AllBytes-drop zero xs h = h
AllBytes-drop (suc m) [] h = tt
AllBytes-drop (suc m) (x ∷ xs) (h, hs) = AllBytes-drop m xs hs

-- A place without a block that holds one of `n` bytes from `off` on.
pub record Hole (off n : ℕ) (ip : Inode) (v : Volume) : Type 0 where
  pub some_byte : 0 < n
  pub place : ℕ
  pub first : off / bsize ≤ place
  pub last : place * bsize < off + n
  pub empty : own ip v place ≡ 0

pub later-Hole :
    (off n m : ℕ) (ip ip' : Inode) (v v' : Volume)
    → m ≤ n
    → off + n ≤ limit
    → Extends ip v ip' v'
    → Hole (off + m) (n - m) ip' v'
    → Hole off n ip v
later-Hole off n m ip ip' v v' le l e h = record {
  some_byte = omega (arith, h.some_byte);
  place = h.place;
  first = omega (arith, h.first);
  last = omega (arith, h.last);
  empty = e.keeps_blocks h.place (omega (arith, h.last)) h.empty;
}

-- What `read_loop` returns: the bytes of the file, which stays what it was.
abbrev pub Read : ℕ → ℕ → Inode → Volume → Run (List ℕ × Inode × Volume) → Type 0
Read n off ip v (ok (bs, ip', v')) = (bs ≡ window n off (contents ip v)) × Extends ip v ip' v'
Read n off ip v panic = Hole off n ip v
Read n off ip v out_of_rounds = ⊥

-- What `write_loop` leaves: the file with the bytes written over it.
pub record Wrote (off : ℕ) (bytes : List ℕ) (ip : Inode) (v : Volume) (ip' : Inode) (v' : Volume)
    : Type 0 where
  pub owns : Owns (own ip' v') v'.used
  pub written : (j : ℕ) → j < limit → contents ip' v' j ≡ overlay off bytes (contents ip v) j
  pub same_size : ip'.size ≡ ip.size
  pub filled : (j : ℕ) → off ≤ j → j < off + length bytes → own ip' v' (j / bsize) ≢ 0
  pub keeps_blocks : (s : ℕ) → s < suc max_file → own ip' v' s ≡ 0 → own ip v s ≡ 0

abbrev pub WroteIn : ℕ → List ℕ → Inode → Volume → Run (Inode × Volume) → Type 0
WroteIn off bytes ip v (ok (ip', v')) = Wrote off bytes ip v ip' v'
WroteIn off bytes ip v panic = Hole off (length bytes) ip v
WroteIn off bytes ip v out_of_rounds = ⊥

-- The bytes of one round, and those of the later rounds.
join_read-Read :
    (off n m b : ℕ) (ip ip' : Inode) (v v' : Volume) (r : Run (List ℕ × Inode × Volume))
    → m ≤ n
    → off % bsize + m ≤ bsize
    → off + n ≤ limit
    → Found (off / bsize) b ip v ip' v'
    → Read (n - m) (off + m) ip' v' r
    → Read n off ip v (join_read (get_bytes m b (off % bsize) v') r)
unfolding join_read
join_read-Read off n m b ip ip' v v' panic le fits l fd h =
    later-Hole off n m ip ip' v v' le l fd.extends h
join_read-Read off n m b ip ip' v v' out_of_rounds le fits l fd h = h
join_read-Read off n m b ip ip' v v' (ok (cs, iq, w)) le fits l fd (e, x) = (
  ap₂ ◌++◌ here later
      ∙ window-append m (n - m) off (contents ip v)
      ∙ ap (λ k. window k off (contents ip v)) all,
  Extends-trans fd.extends x,
)
  where
    start : off / bsize * bsize + off % bsize ≡ off
    start = omega arith

    all : m + (n - m) ≡ n
    all = omega arith

    here : get_bytes m b (off % bsize) v' ≡ window m off (contents ip v)
    here =
        get_bytes-window ip' v' (off / bsize) b (off % bsize) m fd.there fd.not_null fits
        ∙ ap (λ k. window m k (contents ip' v')) start
        ∙ window-cong m off (contents ip' v') (contents ip v)
            (λ j a c. Extends-contents j fd.extends (omega arith))

    later : cs ≡ window (n - m) (off + m) (contents ip v)
    later =
        e
        ∙ window-cong (n - m) (off + m) (contents ip' v') (contents ip v)
            (λ j a c. Extends-contents j fd.extends (omega arith))

pub read_loop-Read :
    (fuel off n : ℕ) (ip : Inode) (v : Volume)
    → n ≤ fuel
    → off + n ≤ limit
    → Owns (own ip v) v.used
    → Read n off ip v (read_loop fuel off n ip v)
unfolding read_loop
read_loop-Read fuel off zero ip v f l o = (refl, Extends-refl ip v o)
read_loop-Read zero off (suc n) ip v f l o = absurd (omega arith)
read_loop-Read (suc fuel) off (suc n) ip v f l o =
    found
      (λ ip' v' o'.
        read_loop-Read fuel (off + chunk off (suc n)) (suc n - chunk off (suc n)) ip' v'
          (omega arith) (omega arith) o')
      (bmap (off / bsize) ip v) refl (bmap-FoundIn (off / bsize) ip v (omega arith) o)
  where
    m : ℕ
    m = chunk off (suc n)

    found :
        ((ip' : Inode) (v' : Volume)
          → Owns (own ip' v') v'.used
          → Read (suc n - m) (off + m) ip' v' (read_loop fuel (off + m) (suc n - m) ip' v'))
        → (r : Option (ℕ × Inode × Volume)) → bmap (off / bsize) ip v ≡ r
        → FoundIn (off / bsize) ip v r
        → Read (suc n) off ip v (read_loop (suc fuel) off (suc n) ip v)
    found ih none e fd =
        rw (e, read_loop)
          (record {
            some_byte = omega arith;
            place = off / bsize;
            first = omega arith;
            last = omega arith;
            empty = fd;
          })
    found ih (some (b, ip', v')) e fd =
        rw (e, read_loop)
          (join_read-Read off (suc n) m b ip ip' v v' (read_loop fuel (off + m) (suc n - m) ip' v')
            (omega arith) (omega arith) l fd (ih ip' v' fd.extends.owns))

after_write :
    (off m b : ℕ) (bytes : List ℕ) (ip ip' : Inode) (v v' : Volume) (r : Run (Inode × Volume))
    → m ≤ length bytes
    → off % bsize + m ≤ bsize
    → off + length bytes ≤ limit
    → Found (off / bsize) b ip v ip' v'
    → Put ip' v' off (take m bytes) (put_bytes b (off % bsize) (take m bytes) v')
    → WroteIn (off + m) (drop m bytes) ip' (put_bytes b (off % bsize) (take m bytes) v') r
    → WroteIn off bytes ip v r
after_write off m b bytes ip ip' v v' panic le fits l fd p h =
    later-Hole off (length bytes) m ip ip' v v' le l fd.extends (record {
      some_byte = omega (arith, h.some_byte, length-drop m bytes);
      place = h.place;
      first = h.first;
      last = omega (arith, h.last, length-drop m bytes);
      empty = sym (p.same_places h.place) ∙ h.empty;
    })
after_write off m b bytes ip ip' v v' out_of_rounds le fits l fd p h = h
after_write off m b bytes ip ip' v v' (ok (iq, w)) le fits l fd p h = record {
  owns = h.owns;
  written = λ j hj.
      h.written j hj
      ∙ overlay-cong (off + m) (drop m bytes)
          (contents ip' (put_bytes b (off % bsize) (take m bytes) v'))
          (overlay off (take m bytes) (contents ip v)) j
          (p.written j hj
            ∙ overlay-cong off (take m bytes) (contents ip' v') (contents ip v) j
                (Extends-contents j fd.extends hj))
      ∙ ap (λ k. overlay k (drop m bytes) (overlay off (take m bytes) (contents ip v)) j) size_taken
      ∙ sym (overlay-append off (take m bytes) (drop m bytes) (contents ip v) j)
      ∙ ap (λ l. overlay off l (contents ip v) j) (take-append-drop m bytes);
  same_size = h.same_size ∙ fd.extends.same_size;
  filled = λ j low high. elim (Bool-cases (ltb j (off + m))) [
    | inl here ↦
        let at : j / bsize ≡ off / bsize = let lt : j < off + m = ground arith in omega arith in
        λ z. fd.not_null (
          sym fd.there
          ∙ ap (own ip' v') (sym at)
          ∙ sym (p.same_places (j / bsize))
          ∙ h.keeps_blocks (j / bsize) (omega arith) z)
    | inr later ↦
        let le' : off + m ≤ j = ground arith in h.filled j le' (omega (arith, length-drop m bytes))
  ];
  keeps_blocks =
      λ s hs z. fd.extends.keeps_blocks s hs (sym (p.same_places s) ∙ h.keeps_blocks s hs z);
}
  where
    size_taken : off + m ≡ off + length (take m bytes)
    size_taken = omega (arith, length-take m bytes)

pub write_loop-WroteIn :
    (fuel off : ℕ) (bytes : List ℕ) (ip : Inode) (v : Volume)
    → length bytes ≤ fuel
    → off + length bytes ≤ limit
    → AllBytes bytes
    → Owns (own ip v) v.used
    → WroteIn off bytes ip v (write_loop fuel off bytes ip v)
unfolding write_loop
write_loop-WroteIn fuel off [] ip v f l a o = record {
  owns = o;
  written = λ j h. refl;
  same_size = refl;
  filled = λ j b c. absurd (omega arith);
  keeps_blocks = λ s h z. z;
}
write_loop-WroteIn zero off (x ∷ xs) ip v f l a o = absurd (omega arith)
write_loop-WroteIn (suc fuel) off (x ∷ xs) ip v f l a o =
    found
      (λ ip' v' o'.
        write_loop-WroteIn fuel (off + m) (drop m bytes) ip' v' (omega (arith, length-drop m bytes))
          (omega (arith, length-drop m bytes)) (AllBytes-drop m bytes a) o')
      (bmap (off / bsize) ip v) refl (bmap-FoundIn (off / bsize) ip v (omega arith) o)
  where
    bytes : List ℕ
    bytes = x ∷ xs

    m : ℕ
    m = chunk off (length (x ∷ xs))

    found :
        ((ip' : Inode) (v' : Volume)
          → Owns (own ip' v') v'.used
          → WroteIn
              (off + m)
              (drop m bytes)
              ip'
              v'
              (write_loop fuel (off + m) (drop m bytes) ip' v'))
        → (r : Option (ℕ × Inode × Volume)) → bmap (off / bsize) ip v ≡ r
        → FoundIn (off / bsize) ip v r
        → WroteIn off bytes ip v (write_loop (suc fuel) off bytes ip v)
    found ih none e fd =
        rw (e, write_loop)
          (record {
            some_byte = omega arith;
            place = off / bsize;
            first = omega arith;
            last = omega arith;
            empty = fd;
          })
    found ih (some (b, ip', v')) e fd =
        let start : off / bsize * bsize + off % bsize ≡ off = omega arith in
        let p : Put ip' v' off (take m bytes) (put_bytes b (off % bsize) (take m bytes) v') =
          subst (λ k. Put ip' v' k (take m bytes) (put_bytes b (off % bsize) (take m bytes) v'))
            start
            (put_bytes-Put ip' v' (off / bsize) b (off % bsize) (take m bytes) fd.extends.owns
              (omega arith) fd.there fd.not_null (AllBytes-take m bytes a)
              (omega (arith, length-take m bytes))) in
        rw (e, write_loop)
          (after_write off m b bytes ip ip' v v'
            (write_loop fuel (off + m) (drop m bytes) ip'
              (put_bytes b (off % bsize) (take m bytes) v'))
            (omega arith) (omega arith) (omega arith) fd p
            (ih ip' (put_bytes b (off % bsize) (take m bytes) v') p.owns))
