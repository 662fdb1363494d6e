-- ===== src/Blocks/Content/Refines.antt =====
-- `readi` and `writei` against the bytes of the file.
use cs461_hw.Base.{
  ℕ, ◌+◌, ◌-◌, ◌*◌, ◌/◌, ◌%◌, ◌^◌, ◌≡◌, ◌≢◌, ◌⊎◌, ◌≤◌, ◌<◌, ◌∙◌, refl, sym, ap, subst, Bool, true,
  false, ◌&&◌, Option, none, some, List, [], ◌∷◌, ltb, if◌then◌else◌, update, update_self, length,
  min, arith, Bool-cases, inl, inr,
}
use cs461_hw.Blocks.{Volume, Inode}
use cs461_hw.Blocks.Content.{
  bsize, max_file, Run, ok, panic, out_of_rounds, read_loop, write_loop, read_end, readi, write_end,
  writei,
}
use cs461_hw.Blocks.Content.Owned.{own, Owns, Extends}
use cs461_hw.Blocks.Content.Data.{contents, overlay, window, AllBytes, limit, window-cong}
use cs461_hw.Blocks.Content.Loops.{Hole, Read, WroteIn, read_loop-Read, write_loop-WroteIn}

-- What `readi` returns and leaves.
abbrev pub ReadResult : ℕ → ℕ → Inode → Volume → Run (Option (List ℕ) × Inode × Volume) → Type 0
ReadResult off n ip v (ok (none, ip', v')) =
    ((ip.size < off) ⊎ (2 ^ 32 ≤ off + n)) × (ip' ≡ ip) × (v' ≡ v)
ReadResult off n ip v (ok (some bs, ip', v')) =
    (off ≤ ip.size)
    × (off + n < 2 ^ 32)
    × (bs ≡ window (min n (ip.size - off)) off (contents ip v))
    × Extends ip v ip' v'
ReadResult off n ip v panic =
    (off ≤ ip.size) × (off + n < 2 ^ 32) × Hole off (min n (ip.size - off)) ip v
ReadResult off n ip v out_of_rounds = ⊥

-- What `writei` returns and leaves.
abbrev pub WriteResult :
    ℕ → List ℕ → Inode → Volume → Run (Option ℕ × Inode × Volume × Bool) → Type 0
WriteResult off bytes ip v (ok (none, ip', v', update)) =
    ((off ≤ ip.size → limit < off + length bytes)) × (ip' ≡ ip) × (v' ≡ v) × (update ≡ false)
WriteResult off bytes ip v (ok (some n, ip', v', update)) =
    (n ≡ length bytes)
    × (off ≤ ip.size)
    × (off + n ≤ limit)
    × Owns (own ip' v') v'.used
    × ((j : ℕ) → j < limit → contents ip' v' j ≡ overlay off bytes (contents ip v) j)
    × (ip'.size ≡ (if ltb ip.size (off + n) then off + n else ip.size))
    × (update ≡ ltb ip.size (off + n))
    × ((j : ℕ) → off ≤ j → j < off + n → own ip' v' (j / bsize) ≢ 0)
WriteResult off bytes ip v panic =
    (off ≤ ip.size) × (off + length bytes ≤ limit) × Hole off (length bytes) ip v
WriteResult off bytes ip v out_of_rounds = ⊥

read_end-ReadResult :
    (off n m : ℕ) (ip : Inode) (v : Volume) (r : Run (List ℕ × Inode × Volume))
    → off ≤ ip.size
    → off + n < 2 ^ 32
    → m ≡ min n (ip.size - off)
    → Read m off ip v r
    → ReadResult off n ip v (read_end r)
unfolding read_end
read_end-ReadResult off n m ip v (ok (bs, ip', v')) le w e h =
    (le, w, h.0 ∙ ap (λ k. window k off (contents ip v)) e, h.1)
read_end-ReadResult off n m ip v panic le w e h = (le, w, subst (λ k. Hole off k ip v) e h)
read_end-ReadResult off n m ip v out_of_rounds le w e h = h

-- `readi` of `n` bytes at `off`, both `uint`, from a file within the largest size that owns its blocks
-- returns the bytes of the file from the offset on, cut off at its size, and nothing that a reader sees changes. It answers -1
-- exactly if the offset is past the size or `off + n` wraps around. It always ends, and panics only if
-- one of the blocks to read is a hole.
pub readi-ReadResult :
    (off n : ℕ) (ip : Inode) (v : Volume)
    → Owns (own ip v) v.used
    → ip.size ≤ limit
    → off < 2 ^ 32
    → n < 2 ^ 32
    → ReadResult off n ip v (readi off n ip v)
unfolding readi
readi-ReadResult off n ip v o s wo wn = elim (Bool-cases (ltb ip.size off)) [
  | inl past ↦ rw past (inl (ground arith), refl, refl)
  | inr within ↦ elim (Bool-cases (ltb (off + n) 4294967296)) [
    | inr wraps ↦
        let far : 4294967296 ≤ off + n = ground arith in
        let less : (off + n) % 2 ^ 32 < off = omega arith in
        let wrap : ltb ((off + n) % 2 ^ 32) off ≡ true = ground arith in
        rw (within, wrap) (inr far, refl, refl)
    | inl w' ↦
        let w : off + n < 4294967296 = ground arith in
        let same : (off + n) % 2 ^ 32 ≡ off + n = omega arith in
        let no_wrap : ltb (off + n) off ≡ false = ground arith in
        let le : off ≤ ip.size = ground arith in
        elim (Bool-cases (ltb ip.size (off + n))) [
          | inl cut ↦
              rw (within, same, no_wrap, cut)
                (read_end-ReadResult off n (ip.size - off) ip v
                  (read_loop (ip.size - off) off (ip.size - off) ip v) le w (ground arith)
                  (read_loop-Read (ip.size - off) off (ip.size - off) ip v (omega arith)
                    (omega arith) o))
          | inr fits ↦
              rw (within, same, no_wrap, fits)
                (read_end-ReadResult off n n ip v (read_loop n off n ip v) le w (ground arith)
                  (read_loop-Read n off n ip v (omega arith) (ground arith) o))
        ]
  ]
]

write_end-WriteResult :
    (off : ℕ) (bytes : List ℕ) (ip : Inode) (v : Volume) (r : Run (Inode × Volume))
    → off ≤ ip.size
    → off + length bytes ≤ limit
    → WroteIn off bytes ip v r
    → WriteResult off bytes ip v (write_end (length bytes) (off + length bytes) r)
unfolding write_end
write_end-WriteResult off bytes ip v panic le l h = (le, l, h)
write_end-WriteResult off bytes ip v out_of_rounds le l h = h
write_end-WriteResult off bytes ip v (ok (ip', v')) le l h =
    let size = h.same_size in
    elim (Bool-cases (ltb ip.size (off + length bytes))) [
      | inl grows ↦
          let pos : (ltb 0 (length bytes) && ltb ip'.size (off + length bytes)) ≡ true =
            ground arith in
          rw pos (refl, le, l, h.owns, h.written, rw grows refl, sym grows, h.filled)
      | inr keeps ↦
          let no : (ltb 0 (length bytes) && ltb ip'.size (off + length bytes)) ≡ false =
            ground arith in
          rw (no, keeps) (refl, le, l, h.owns, h.written, size, refl, h.filled)
    ]

-- `writei` of bytes at `off`, where `off` and their number are `uint` and the inode owns its blocks, is
-- the write of the bytes over the file from the offset on, which grows the size to the end of the bytes where that is further, and
-- leaves no hole under them; it answers -1 exactly past the size or where the end is beyond the largest
-- file or wraps around, and asks for `iupdate` exactly if the size grows. It always ends, and panics only
-- if one of the blocks to write is a hole.
pub writei-WriteResult :
    (off : ℕ) (bytes : List ℕ) (ip : Inode) (v : Volume)
    → Owns (own ip v) v.used
    → AllBytes bytes
    → off < 2 ^ 32
    → length bytes < 2 ^ 32
    → WriteResult off bytes ip v (writei off bytes ip v)
unfolding writei
writei-WriteResult off bytes ip v o a wo wn = elim (Bool-cases (ltb ip.size off)) [
  | inl past ↦ rw past (λ le. absurd (ground arith), refl, refl, refl)
  | inr within ↦ elim (Bool-cases (ltb (off + length bytes) 4294967296)) [
    | inr wraps ↦
        let far : 4294967296 ≤ off + length bytes = ground arith in
        let less : (off + length bytes) % 2 ^ 32 < off = omega arith in
        let wrap : ltb ((off + length bytes) % 2 ^ 32) off ≡ true = ground arith in
        rw (within, wrap) (λ le. omega arith, refl, refl, refl)
    | inl w' ↦
        let w : off + length bytes < 4294967296 = ground arith in
        let same : (off + length bytes) % 2 ^ 32 ≡ off + length bytes = omega arith in
        let no_wrap : ltb (off + length bytes) off ≡ false = ground arith in
        elim (Bool-cases (ltb (max_file * bsize) (off + length bytes))) [
          | inl far ↦ rw (within, same, no_wrap, far) (λ le. ground arith, refl, refl, refl)
          | inr fits ↦
              rw (within, same, no_wrap, fits)
                (write_end-WriteResult off bytes ip v (write_loop (length bytes) off bytes ip v)
                  (ground arith) (ground arith)
                  (write_loop-WroteIn (length bytes) off bytes ip v (omega arith) (ground arith) a
                    o))
        ]
  ]
]

pub overlay-before :
    (off : ℕ) (xs : List ℕ) (f : ℕ → ℕ) (j : ℕ) → j < off → overlay off xs f j ≡ f j
overlay-before off [] f j h = refl
overlay-before off (x ∷ xs) f j h =
    overlay-before (off + 1) xs (update f off x) j (omega arith) ∙ ground arith

pub window-overlay :
    (off : ℕ) (xs : List ℕ) (f : ℕ → ℕ) → window (length xs) off (overlay off xs f) ≡ xs
window-overlay off [] f = refl
window-overlay off (x ∷ xs) f =
    let first : overlay (off + 1) xs (update f off x) off ≡ x =
      overlay-before (off + 1) xs (update f off x) off (omega arith) ∙ update_self f off x in
    rw first (ap (λ l. x ∷ l) (window-overlay (off + 1) xs (update f off x)))

-- There is no hole under bytes that are all in blocks.
no-Hole :
    (off n k : ℕ) (ip : Inode) (v : Volume)
    → k ≤ n
    → ((j : ℕ) → off ≤ j → j < off + n → own ip v (j / bsize) ≢ 0)
    → Hole off k ip v
    → ⊥
no-Hole off n k ip v le filled h = elim (Bool-cases (ltb (h.place * 512) off)) [
  | inl before ↦
      let lt : h.place * 512 < off = ground arith in
      let at : off / 512 ≡ h.place = omega (arith, h.first) in
      filled off (omega arith) (omega (arith, h.some_byte)) (ap (own ip v) at ∙ h.empty)
  | inr within ↦
      let ge : off ≤ h.place * 512 = ground arith in
      let at : h.place * 512 / 512 ≡ h.place = omega arith in
      filled (h.place * 512) ge (omega (arith, h.last)) (ap (own ip v) at ∙ h.empty)
]

-- In a file within the largest size that owns its blocks, what `writei` has written, `readi` of as many
-- bytes reads back at the same offset: it returns, with these bytes.
pub readi-writei :
    (off : ℕ) (bytes : List ℕ) (ip : Inode) (v : Volume) (n : ℕ) (ip1 : Inode) (v1 : Volume)
    (u : Bool)
    → Owns (own ip v) v.used
    → ip.size ≤ limit
    → AllBytes bytes
    → off < 2 ^ 32
    → length bytes < 2 ^ 32
    → writei off bytes ip v ≡ ok (some n, ip1, v1, u)
    → (ip2 : Inode) × (v2 : Volume) × (readi off n ip1 v1 ≡ ok (some bytes, ip2, v2))
readi-writei off bytes ip v n ip1 v1 u o s a wo wn e =
    let (len, le, l, o1, written, size, _, filled) =
      subst (WriteResult off bytes ip v) e (writei-WriteResult off bytes ip v o a wo wn) in
    answered len le l written size filled (readi off n ip1 v1)
      (readi-ReadResult off n ip1 v1 o1 (ground arith) wo (omega arith))
  where
    answered :
        n ≡ length bytes
        → off ≤ ip.size
        → off + n ≤ limit
        → ((j : ℕ) → j < limit → contents ip1 v1 j ≡ overlay off bytes (contents ip v) j)
        → ip1.size ≡ (if ltb ip.size (off + n) then off + n else ip.size)
        → ((j : ℕ) → off ≤ j → j < off + n → own ip1 v1 (j / bsize) ≢ 0)
        → (r : Run (Option (List ℕ) × Inode × Volume)) → ReadResult off n ip1 v1 r
        → (ip2 : Inode) × (v2 : Volume) × (r ≡ ok (some bytes, ip2, v2))
    answered len le l written size filled panic (_, _, h) =
        absurd (no-Hole off n (min n (ip1.size - off)) ip1 v1 (omega arith) filled h)
    answered len le l written size filled out_of_rounds h = absurd h
    answered len le l written size filled (ok (none, ip2, v2)) (inl past, _, _) =
        absurd (ground arith)
    answered len le l written size filled (ok (none, ip2, v2)) (inr wraps, _, _) =
        absurd (omega arith)
    answered len le l written size filled (ok (some read, ip2, v2)) (_, _, got, _) =
        let all : min n (ip1.size - off) ≡ length bytes = ground arith in
        (
          ip2,
          v2,
          ap (λ bs. ok (some bs, ip2, v2))
              (got
                ∙ ap (λ k. window k off (contents ip1 v1)) all
                ∙ window-cong (length bytes) off (contents ip1 v1)
                    (overlay off bytes (contents ip v)) (λ j b c. written j (omega arith))
                ∙ window-overlay off bytes (contents ip v)),
        )
