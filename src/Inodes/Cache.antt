-- ===== src/Inodes/Cache.antt =====
-- The cache has one entry for an inode.
use cs461_hw.Base.{
  ℕ, zero, suc, ◌+◌, ◌-◌, ◌^◌, ◌≡◌, ◌≢◌, ◌≤◌, ◌<◌, ◌∙◌, ◌⊎◌, refl, sym, ap, subst, true, false,
  Option, none, some, ◌==◌, update, update_self, update_ne, arith, Bool-cases, inl, inr, ℕ_discrete,
}
use cs461_hw.Inodes.{
  ninode, Entry, Inodes, inc, is_for, Slot, cached, vacant, full, note_empty, scan_cache, iget_at,
  iget,
}

-- No two entries in use are for one inode.
pub record IsUnique (cache : ℕ → Entry) : Type 0 where
  pub one :
      (i j d n : ℕ)
      → i < ninode
      → j < ninode
      → is_for d n (cache i) ≡ true
      → is_for d n (cache j) ≡ true
      → i ≡ j

-- What the loop of `iget` finds, among the entries from `i` on and the one noted before.
abbrev Scanned : ℕ → ℕ → (dev inum : ℕ) → Option ℕ → (ℕ → Entry) → Slot → Type 0
Scanned k i dev inum empty cache (cached j) = (j < i + k) × (is_for dev inum (cache j) ≡ true)
Scanned k i dev inum empty cache (vacant j) =
    (j < i + k)
    × ((cache j).ref ≡ 0)
    × ((l : ℕ) → i ≤ l → l < i + k → is_for dev inum (cache l) ≡ false)
Scanned k i dev inum empty cache full =
    (empty ≡ none)
    × ((l : ℕ) → i ≤ l → l < i + k → (is_for dev inum (cache l) ≡ false) × ((cache l).ref ≢ 0))

-- The entry noted so far stands before `i` and is free.
abbrev Noted : ℕ → (ℕ → Entry) → Option ℕ → Type 0
Noted i cache none = Unit
Noted i cache (some j) = (j < i) × ((cache j).ref ≡ 0)

note_empty-Noted :
    (i : ℕ) (cache : ℕ → Entry) (empty : Option ℕ)
    → Noted i cache empty
    → Noted (i + 1) cache (note_empty i (cache i) empty)
note_empty-Noted i cache (some j) (h, z) = (omega arith, z)
note_empty-Noted i cache none h = elim (Bool-cases ((cache i).ref == 0)) [
  | inl z ↦ rw z (omega arith, ground arith)
  | inr n ↦ rw n tt
]

not_noted :
    (i : ℕ) (e : Entry) (empty : Option ℕ)
    → note_empty i e empty ≡ none
    → (empty ≡ none) × (e.ref ≢ 0)
not_noted i e (some j) h = absurd (cc h)
not_noted i e none h = elim (Bool-cases (e.ref == 0)) [
  | inl z ↦ absurd (let q : some i ≡ none = rw z at h in cc q)
  | inr n ↦ (refl, ground arith)
]

scan_cache-Scanned :
    (k i dev inum : ℕ) (empty : Option ℕ) (cache : ℕ → Entry)
    → Noted i cache empty
    → Scanned k i dev inum empty cache (scan_cache k i dev inum empty cache)
unfolding scan_cache
scan_cache-Scanned zero i dev inum none cache h = (refl, λ l a b. absurd (omega arith))
scan_cache-Scanned zero i dev inum (some j) cache (h, z) =
    (omega arith, z, λ l a b. absurd (omega arith))
scan_cache-Scanned (suc k) i dev inum empty cache h =
    elim (Bool-cases (is_for dev inum (cache i))) [
      | inl hit ↦ rw hit (omega arith, hit)
      | inr miss ↦ rw miss (
          later (scan_cache k (i + 1) dev inum (note_empty i (cache i) empty) cache)
            (scan_cache-Scanned k (i + 1) dev inum (note_empty i (cache i) empty) cache
              (note_empty-Noted i cache empty h))
            miss)
    ]
  where
    later :
        (r : Slot)
        → Scanned k (i + 1) dev inum (note_empty i (cache i) empty) cache r
        → is_for dev inum (cache i) ≡ false
        → Scanned (suc k) i dev inum empty cache r
    later (cached j) (a, b) miss = (omega arith, b)
    later (vacant j) (a, z, rest) miss = (
      omega arith,
      z,
      λ l x y. elim (ℕ_discrete i l) [
        | yes e ↦ rw (← e) miss
        | no n ↦ rest l (omega arith) (omega arith)
      ],
    )
    later full (e, rest) miss =
        let (none_before, in_use) = not_noted i (cache i) empty e in
        (
          none_before,
          λ l x y. elim (ℕ_discrete i l) [
            | yes e ↦ rw (← e) (miss, in_use)
            | no n ↦ rest l (omega arith) (omega arith)
          ],
        )

-- An entry that is for no inode of another entry can take a place.
pub update-IsUnique :
    (cache : ℕ → Entry) (i : ℕ) (e : Entry)
    → IsUnique cache
    → ((d n j : ℕ) → j < ninode → i ≢ j → is_for d n e ≡ true → is_for d n (cache j) ≡ false)
    → IsUnique (update cache i e)
update-IsUnique cache i e u apart = record {
  one = λ j k d n hj hk fj fk. elim (ℕ_discrete i j) [
    | yes ij ↦ elim (ℕ_discrete i k) [
      | yes ik ↦ sym ij ∙ ik
      | no nk ↦
          let here : is_for d n e ≡ true =
            subst (λ x. is_for d n x ≡ true)
              (ap (update cache i e) (sym ij) ∙ update_self cache i e) fj in
          let there : is_for d n (cache k) ≡ true =
            subst (λ x. is_for d n x ≡ true) (update_ne cache i k e nk) fk in
          absurd (cc (sym there ∙ apart d n k hk nk here))
    ]
    | no nj ↦ elim (ℕ_discrete i k) [
      | yes ik ↦
          let here : is_for d n e ≡ true =
            subst (λ x. is_for d n x ≡ true)
              (ap (update cache i e) (sym ik) ∙ update_self cache i e) fk in
          let there : is_for d n (cache j) ≡ true =
            subst (λ x. is_for d n x ≡ true) (update_ne cache i j e nj) fj in
          absurd (cc (sym there ∙ apart d n j hj nj here))
      | no nk ↦
          u.one j k d n hj hk (subst (λ x. is_for d n x ≡ true) (update_ne cache i j e nj) fj)
            (subst (λ x. is_for d n x ≡ true) (update_ne cache i k e nk) fk)
    ]
  ];
}

-- An entry that stays for its inode, or goes out of use.
pub same_inode-IsUnique :
    (cache : ℕ → Entry) (i : ℕ) (e : Entry)
    → i < ninode
    → IsUnique cache
    → ((d n : ℕ) → is_for d n e ≡ true → is_for d n (cache i) ≡ true)
    → IsUnique (update cache i e)
same_inode-IsUnique cache i e b u same = update-IsUnique cache i e u λ d n j hj ne f.
    elim (Bool-cases (is_for d n (cache j))) [
      | inr no_match ↦ no_match
      | inl clash ↦ absurd (ne (u.one i j d n b hj (same d n f) clash))
    ]

-- The entry was free, and no other is for the inode; its copy of an inode is no longer valid.
pub record Recycled (dev inum i : ℕ) (fs fs' : Inodes) : Type 0 where
  pub was_free : (fs.cache i).ref ≡ 0
  pub not_cached : (l : ℕ) → l < ninode → is_for dev inum (fs.cache l) ≡ false
  pub not_valid : (fs'.cache i).valid ≡ false

-- What a call of `iget` returns and leaves.
abbrev pub Got : (dev inum : ℕ) → Inodes → Option (ℕ × Inodes) → Type 0
Got dev inum fs none =
    (l : ℕ) → l < ninode → (is_for dev inum (fs.cache l) ≡ false) × ((fs.cache l).ref ≢ 0)
Got dev inum fs (some (i, fs')) =
    (i < ninode)
    × (is_for dev inum (fs'.cache i) ≡ true)
    × ((fs'.cache i).ref ≡ (fs.cache i).ref + 1)
    × ((is_for dev inum (fs.cache i) ≡ true) ⊎ Recycled dev inum i fs fs')
    × ((j : ℕ) → i ≢ j → fs'.cache j ≡ fs.cache j)
    × IsUnique fs'.cache
    × (fs'.dinode ≡ fs.dinode)

-- The counts are far from the largest `int`.
abbrev pub IsSmall : (ℕ → Entry) → Type 0
IsSmall cache = (j : ℕ) → j < ninode → (cache j).ref < 2 ^ 31 - 1

iget_at-Got :
    (dev inum : ℕ) (fs : Inodes) (r : Slot)
    → IsUnique fs.cache
    → IsSmall fs.cache
    → Scanned ninode 0 dev inum none fs.cache r
    → Got dev inum fs (iget_at dev inum r fs)
unfolding iget_at
iget_at-Got dev inum fs full u s (e, h) = λ l b. h l (omega arith) (omega arith)
iget_at-Got dev inum fs (cached i) u s (b, f) =
    let e = record (fs.cache i) { ref = inc (fs.cache i).ref } in
    let small = s i (omega arith) in
    (
      omega arith,
      rw (update_self fs.cache i e) (ground arith),
      ap (λ (x : Entry). x.ref) (update_self fs.cache i e) ∙ omega arith,
      inl f,
      λ j ne. update_ne fs.cache i j e ne,
      same_inode-IsUnique fs.cache i e (omega arith) u (λ d n g. ground arith),
      refl,
    )
iget_at-Got dev inum fs (vacant i) u s (b, z, none_for) =
    let e = record (fs.cache i) { dev = dev; inum = inum; ref = 1; valid = false } in
    (
      omega arith,
      rw (update_self fs.cache i e) (ground arith),
      ap (λ (x : Entry). x.ref) (update_self fs.cache i e) ∙ omega arith,
      inr (record {
        was_free = z;
        not_cached = λ l h. none_for l (omega arith) h;
        not_valid = ap (λ (x : Entry). x.valid) (update_self fs.cache i e);
      }),
      λ j ne. update_ne fs.cache i j e ne,
      update-IsUnique fs.cache i e u
          λ d n j hj ne g. let m = none_for j (omega arith) (omega arith) in ground arith,
      refl,
    )

-- With one entry for an inode and reference counts below the largest `int`, `iget` panics only if no
-- entry is for the inode and none is free. Else it returns an entry for
-- the inode with one reference more, which is the one that was there if there was one, or one that was free, and changes no
-- other entry; so the cache still has one entry for an inode.
pub iget-Got :
    (dev inum : ℕ) (fs : Inodes)
    → IsUnique fs.cache
    → IsSmall fs.cache
    → Got dev inum fs (iget dev inum fs)
unfolding iget
iget-Got dev inum fs u s =
    iget_at-Got dev inum fs (scan_cache ninode 0 dev inum none fs.cache) u s
      (scan_cache-Scanned ninode 0 dev inum none fs.cache tt)
