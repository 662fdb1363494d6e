-- ===== src/Directories/Linking.antt =====
-- `dirlink` against the names of a directory as a map from names to inode numbers.
use cs461_hw.Base.{
  ℕ, ◌+◌, ◌*◌, ◌≡◌, ◌≢◌, ◌≤◌, ◌<◌, ◌∙◌, ◌⊎◌, refl, sym, ap, subst, Bool, true, false, Option, none,
  some, List, [], ◌∷◌, ◌==◌, ltb, if◌then◌else◌, length, arith, Bool-cases, inl, inr, ℕ_discrete,
  update, update_ne,
}
use cs461_hw.Blocks.{Volume, Inode}
use cs461_hw.Blocks.Content.{Run, ok, panic, out_of_rounds, writei}
use cs461_hw.Blocks.Content.Owned.{own, Owns, Extends}
use cs461_hw.Blocks.Content.Data.{
  contents, window, limit, overlay, overlay-cong, AllBytes, window-cong,
}
use cs461_hw.Blocks.Content.Loops.{Hole, Extends-contents}
use cs461_hw.Blocks.Content.Refines.{
  WriteResult, writei-WriteResult, overlay-before, window-overlay,
}
use cs461_hw.Directories.{
  dirent_size, ◌>>=◌, scan_dir, inum_of, dirent, is_named, is_vacant, namecmp, add_name,
}
use cs461_hw.Directories.Names.{
  inum_of-dirent, dirent-AllBytes, length-dirent, is_named-dirent, namecmp_refl, vacant_unnamed,
}
use cs461_hw.Directories.Scanning.{entry, Scanned, scan_dir-Scanned}

-- The inode number that a name has among the first `n` entries: that of the first entry with the name.
abbrev pub Resolves : (ℕ → ℕ) → ℕ → List ℕ → Option ℕ → Type 0
Resolves f n name none = (k : ℕ) → k < n → is_named name (entry f k) ≡ false
Resolves f n name (some inum) =
    (k : ℕ) × (k < n)
    × (is_named name (entry f k) ≡ true)
    × (inum_of (entry f k) ≡ inum)
    × ((l : ℕ) → l < k → is_named name (entry f l) ≡ false)

-- Bytes that differ in one entry only, which was vacant or stands at the end.
record Placed (f : ℕ → ℕ) (n : ℕ) (de : List ℕ) (f' : ℕ → ℕ) (n' : ℕ) : Type 0 where
  place : ℕ
  in_reach : place ≤ n
  vacant : place < n → is_vacant (entry f place) ≡ true
  written : entry f' place ≡ de
  others : (k : ℕ) → k < n → place ≢ k → entry f' k ≡ entry f k
  count : n' ≡ (if place == n then n + 1 else n)

module _ (f : ℕ → ℕ) (n inum : ℕ) (name : List ℕ) (f' : ℕ → ℕ) (n' : ℕ)
    (p : Placed f n (dirent inum name) f' n') (small : inum < 65536) (nz : inum ≢ 0) where
  grows : p.place < n'
  grows = let c = p.count in let r = p.in_reach in ground arith

  below : (k : ℕ) → k < n' → p.place ≢ k → k < n
  below k h ne = let c = p.count in let r = p.in_reach in ground arith

  longer : n ≤ n'
  longer = let c = p.count in ground arith

  new_Resolves : Resolves f n name none → Resolves f' n' name (some inum)
  new_Resolves h = (
    p.place,
    grows,
    ap (is_named name) p.written ∙ is_named-dirent inum name name small nz ∙ namecmp_refl name,
    ap inum_of p.written ∙ inum_of-dirent inum name small,
    λ l lt.
        ap (is_named name) (p.others l (omega (arith, p.in_reach)) (λ e. omega arith))
        ∙ h l (omega (arith, p.in_reach)),
  )

  -- The new entry is not one of another name.
  other_new : (q : List ℕ) → namecmp q name ≡ false → is_named q (entry f' p.place) ≡ false
  other_new q d = ap (is_named q) p.written ∙ is_named-dirent inum q name small nz ∙ d

  other_kept :
      (q : List ℕ) (k : ℕ)
      → namecmp q name ≡ false
      → k < n
      → is_named q (entry f k) ≡ false
      → is_named q (entry f' k) ≡ false
  other_kept q k d h e = elim (ℕ_discrete p.place k) [
    | yes s ↦ subst (λ j. is_named q (entry f' j) ≡ false) s (other_new q d)
    | no ne ↦ ap (is_named q) (p.others k h ne) ∙ e
  ]

  other_Resolves :
      (q : List ℕ) (r : Option ℕ) → namecmp q name ≡ false → Resolves f n q r → Resolves f' n' q r
  other_Resolves q none d h = λ k lt. elim (ℕ_discrete p.place k) [
    | yes s ↦ subst (λ j. is_named q (entry f' j) ≡ false) s (other_new q d)
    | no ne ↦ ap (is_named q) (p.others k (below k lt ne) ne) ∙ h k (below k lt ne)
  ]
  other_Resolves q (some i) d (k, lt, named, number, first) =
      let apart : p.place ≢ k = λ e. cc (
        sym (vacant_unnamed q (entry f p.place) (p.vacant (omega arith)))
        ∙ ap (λ j. is_named q (entry f j)) e
        ∙ named) in
      let same = p.others k lt apart in
      (
        k,
        omega (arith, longer),
        ap (is_named q) same ∙ named,
        ap inum_of same ∙ number,
        λ l h. other_kept q l d (omega arith) (first l h),
      )

overlay-after :
    (off : ℕ) (xs : List ℕ) (f : ℕ → ℕ) (j : ℕ) → off + length xs ≤ j → overlay off xs f j ≡ f j
overlay-after off [] f j h = refl
overlay-after off (x ∷ xs) f j h =
    overlay-after (off + 1) xs (update f off x) j (omega arith)
    ∙ update_ne f off j x (λ e. omega arith)

-- Writing an entry over bytes.
overlay-Placed :
    (f f' : ℕ → ℕ) (n place n' : ℕ) (de : List ℕ)
    → length de ≡ 16
    → place ≤ n
    → n * 16 ≤ limit
    → place * 16 + 16 ≤ limit
    → (place < n → is_vacant (entry f place) ≡ true)
    → ((j : ℕ) → j < limit → f' j ≡ overlay (place * 16) de f j)
    → n' ≡ (if place == n then n + 1 else n)
    → Placed f n de f' n'
overlay-Placed f f' n place n' de len le l fits vacant written count = record {
  place = place;
  in_reach = le;
  vacant = vacant;
  written =
      window-cong 16 (place * 16) f' (overlay (place * 16) de f) (λ j a b. written j (omega arith))
      ∙ ap (λ m. window m (place * 16) (overlay (place * 16) de f)) (sym len)
      ∙ window-overlay (place * 16) de f;
  others =
      λ k h ne. window-cong 16 (k * 16) f' f λ j a b. written j (omega arith) ∙ outside k ne j a b;
  count = count;
}
  where
    outside :
        (k : ℕ)
        → place ≢ k
        → (j : ℕ) → k * 16 ≤ j
        → j < k * 16 + 16
        → overlay (place * 16) de f j ≡ f j
    outside k ne j a b = elim (Bool-cases (ltb j (place * 16))) [
      | inl before ↦ overlay-before (place * 16) de f j (ground arith)
      | inr beyond ↦
          let at_least : place * 16 ≤ j = ground arith in
          overlay-after (place * 16) de f j (omega (arith, ne))
    ]

grows_eq : (a b c : ℕ) → c ≡ (if ltb a b then b else a) → ltb a b ≡ ltb a c
grows_eq a b c e = ground arith

-- A directory of `n` entries without a vacant one, at the largest size of a file.
abbrev pub IsFull : ℕ → Inode → Volume → Type 0
IsFull n ip v =
    (limit < ip.size + dirent_size)
    × ((k : ℕ) → k < n → is_vacant (entry (contents ip v) k) ≡ false)

-- What `dirlink` makes of a directory of `n` entries once it has not found the name.
abbrev pub AddedIn : ℕ → List ℕ → ℕ → Inode → Volume → Run (Inode × Volume × Bool) → Type 0
AddedIn inum name n ip v (ok (ip', v', update)) =
    (n' : ℕ) × (n' * dirent_size ≡ ip'.size)
    × Owns (own ip' v') v'.used
    × (Resolves (contents ip v) n name none → Resolves (contents ip' v') n' name (some inum))
    × ((q : List ℕ) (r : Option ℕ)
        → namecmp q name ≡ false
        → Resolves (contents ip v) n q r
        → Resolves (contents ip' v') n' q r)
    × (update ≡ ltb ip.size ip'.size)
AddedIn inum name n ip v panic = Hole 0 (ip.size + dirent_size) ip v ⊎ IsFull n ip v
AddedIn inum name n ip v out_of_rounds = ⊥

module _ (inum : ℕ) (name : List ℕ) (n : ℕ) (ip : Inode) (v : Volume)
    (sz : n * dirent_size ≡ ip.size) (l : ip.size ≤ limit) (bytes : AllBytes name)
    (small : inum < 65536) (nz : inum ≢ 0) where
  counted :
      (place size : ℕ)
      → place ≤ n
      → size ≡ (if ltb (n * 16) (place * 16 + 16) then place * 16 + 16 else n * 16)
      → (if place == n then n + 1 else n) * 16 ≡ size
  counted place size le e = elim (ℕ_discrete place n) [
    | yes q ↦
        let t : (place == n) ≡ true = ground arith in
        let u : ltb (n * 16) (place * 16 + 16) ≡ true = ground arith in
        let w : size ≡ place * 16 + 16 = rw u at e in rw t (omega arith)
    | no ne ↦
        let t : (place == n) ≡ false = ground arith in
        let u : ltb (n * 16) (place * 16 + 16) ≡ false = ground arith in
        let w : size ≡ n * 16 = rw u at e in rw t (omega arith)
  ]

  -- The write of the new entry at its place.
  written_in :
      (place : ℕ) (ip1 : Inode) (v1 : Volume) (r : Run (Option ℕ × Inode × Volume × Bool))
      → place ≤ n
      → (place < n → is_vacant (entry (contents ip v) place) ≡ true)
      → (limit < place * 16 + 16 → IsFull n ip v)
      → Extends ip v ip1 v1
      → WriteResult (place * 16) (dirent inum name) ip1 v1 r
      → AddedIn inum name n ip v (
          r >>= λ (k, ip2, v2, update). elim k as (λ _. Run (Inode × Volume × Bool)) [
            | none ↦ panic
            | some m ↦ if m == dirent_size then ok (ip2, v2, update) else panic
          ])
  written_in place ip1 v1 panic le vac full e (a, b, h) =
      let len = length-dirent inum name in
      let near : h.place * 512 < place * 16 + 16 = omega (arith, h.last) in
      inl (record {
        some_byte = omega arith;
        place = h.place;
        first = omega arith;
        last = omega arith;
        empty = e.keeps_blocks h.place (omega arith) h.empty;
      })
  written_in place ip1 v1 out_of_rounds le vac full e h = h
  written_in place ip1 v1 (ok (none, ip2, v2, u)) le vac full e (past, _, _, _) =
      let len = length-dirent inum name in
      let same = e.same_size in let far = past (omega arith) in inr (full (omega arith))
  written_in place ip1 v1 (ok (some m, ip2, v2, u)) le vac full e
        (len, a, b, owns, written, size, grown, filled) =
      let sixteen : m ≡ 16 = len ∙ length-dirent inum name in
      let whole : (m == 16) ≡ true = ground arith in
      let same : ip1.size ≡ n * 16 = e.same_size ∙ sym sz in
      let size' : ip2.size ≡ (if ltb (n * 16) (place * 16 + 16) then place * 16 + 16 else n * 16) =
        rw (same, sixteen) at size in
      let placed =
        overlay-Placed (contents ip v) (contents ip2 v2) n place n' (dirent inum name)
          (length-dirent inum name) le (omega arith) (omega arith) vac bytes_now refl in
      rw whole (
        n',
        counted place (ip2.size) le size',
        owns,
        new_Resolves (contents ip v) n inum name (contents ip2 v2) n' placed small nz,
        (λ q r d h.
            other_Resolves (contents ip v) n inum name (contents ip2 v2) n' placed small nz q r d
              h),
        grown
            ∙ grows_eq ip1.size (place * 16 + m) ip2.size size
            ∙ ap (λ k. ltb k ip2.size) e.same_size,
      )
    where
      n' : ℕ
      n' = if place == n then n + 1 else n

      bytes_now :
          (j : ℕ)
          → j < limit
          → contents ip2 v2 j ≡ overlay (place * 16) (dirent inum name) (contents ip v) j
      bytes_now j h =
          written j h
          ∙ overlay-cong (place * 16) (dirent inum name) (contents ip1 v1) (contents ip v) j
              (Extends-contents j e h)

  writes :
      (place : ℕ) (ip1 : Inode) (v1 : Volume)
      → place ≤ n
      → Extends ip v ip1 v1
      → WriteResult
          (place * 16)
          (dirent inum name)
          ip1
          v1
          (writei (place * 16) (dirent inum name) ip1 v1)
  writes place ip1 v1 le e =
      let len = length-dirent inum name in
      writei-WriteResult (place * 16) (dirent inum name) ip1 v1 e.owns
        (dirent-AllBytes inum name bytes) (omega arith) (omega arith)

  added_after :
      (r : Run (Option (List ℕ) × ℕ × Inode × Volume))
      → Scanned is_vacant 0 n ip v r
      → AddedIn inum name n ip v (
          r >>= λ (_, off, ip1, v1).
          writei off (dirent inum name) ip1 v1 >>= λ (k, ip2, v2, update).
          elim k as (λ _. Run (Inode × Volume × Bool)) [
            | none ↦ panic
            | some m ↦ if m == dirent_size then ok (ip2, v2, update) else panic
          ])
  added_after panic h = inl (record {
    some_byte = omega arith;
    place = h.place;
    first = omega arith;
    last = omega (arith, h.last);
    empty = h.empty;
  })
  added_after out_of_rounds h = h
  added_after (ok (some de, off, ip1, v1)) (f, e) = rw f.offset (
      written_in f.index ip1 v1 (writei (f.index * 16) (dirent inum name) ip1 v1)
        (omega (arith, f.in_dir)) (λ _. ap is_vacant (sym f.text) ∙ f.stops)
        (λ far. absurd (omega (arith, f.in_dir))) e
        (writes f.index ip1 v1 (omega (arith, f.in_dir)) e))
  added_after (ok (none, off, ip1, v1)) (f, e) = rw f.offset (
      written_in n ip1 v1 (writei (n * 16) (dirent inum name) ip1 v1) (omega arith)
        (λ lt. absurd (omega arith)) (λ far. (omega arith, λ k lt. f.none_stops k (omega arith) lt))
        e (writes n ip1 v1 (omega arith) e))

-- In a directory without this name, the end of `dirlink` makes the name resolve to the inode, and
-- leaves what all other names resolve to; names are compared by their first 14 characters. It always
-- ends, and panics only where a block of the directory is missing, or it has neither a vacant entry nor
-- room for another.
pub add_name-AddedIn :
    (inum : ℕ) (name : List ℕ) (n : ℕ) (ip : Inode) (v : Volume)
    → Owns (own ip v) v.used
    → n * dirent_size ≡ ip.size
    → ip.size ≤ limit
    → AllBytes name
    → inum < 65536
    → inum ≢ 0
    → AddedIn inum name n ip v (add_name inum name ip v)
unfolding add_name
add_name-AddedIn inum name n ip v o sz l bytes small nz =
    added_after inum name n ip v sz l bytes small nz (scan_dir is_vacant ip.size 0 ip v)
      (scan_dir-Scanned is_vacant ip.size 0 n ip v sz (omega arith) (omega arith) (omega arith) o)
