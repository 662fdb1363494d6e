-- ===== src/Files/Counts.antt =====
-- The reference counts of the file table.
use cs461_hw.Base.{
  ℕ, zero, suc, ◌+◌, ◌-◌, ◌≡◌, ◌≢◌, ◌≤◌, ◌<◌, refl, ap, ◌∙◌, true, false, Option, none, some, ◌==◌,
  if◌then◌else◌, update_self, update_ne, arith, Bool-cases, inl, inr, ℕ_discrete,
}
use cs461_hw.Files.{
  File, Files, nfile, find_file, filealloc, Closing, nothing, closing, fileclose, fd_none,
}

-- What a scan for a free file finds.
abbrev Found : ℕ → ℕ → Files → Option ℕ → Type 0
Found k i t none = (j : ℕ) → i ≤ j → j < i + k → (t j).ref ≢ 0
Found k i t (some j) = (i ≤ j) × (j < i + k) × ((t j).ref ≡ 0)

find_file-Found : (k i : ℕ) (t : Files) → Found k i t (find_file k i t)
unfolding find_file
find_file-Found zero i t = λ j a b. absurd (omega arith)
find_file-Found (suc k) i t = elim (Bool-cases ((t i).ref == 0)) [
  | inl e ↦ rw e (omega arith, omega arith, ground arith)
  | inr ne ↦ rw ne (later (find_file k (i + 1) t) (find_file-Found k (i + 1) t) ne)
]
  where
    later : (o : Option ℕ) → Found k (i + 1) t o → ((t i).ref == 0) ≡ false → Found (suc k) i t o
    later none f ne = λ j a b. elim (ℕ_discrete i j) [
      | yes e ↦ ground arith
      | no n ↦ f j (omega arith) (omega arith)
    ]
    later (some j) (a, b, z) ne = (omega arith, omega arith, z)

-- What a call of `filealloc` returns and leaves.
abbrev pub Allocated : Files → Option ℕ × Files → Type 0
Allocated t (none, t') = (t' ≡ t) × ((j : ℕ) → j < nfile → (t j).ref ≢ 0)
Allocated t (some i, t') =
    (i < nfile) × ((t i).ref ≡ 0) × ((t' i).ref ≡ 1) × ((j : ℕ) → i ≢ j → t' j ≡ t j)

-- `filealloc` gives out a file of the table without references, which has one then, and fails exactly
-- when every file of the table has references; no other file changes.
pub filealloc-Allocated : (t : Files) → Allocated t (filealloc t)
unfolding filealloc
filealloc-Allocated t = scanned (find_file nfile 0 t) refl (find_file-Found nfile 0 t)
  where
    scanned :
        (o : Option ℕ) → find_file nfile 0 t ≡ o → Found nfile 0 t o → Allocated t (filealloc t)
    scanned none e f = rw (e, filealloc) (refl, λ j b. f j (omega arith) (omega arith))
    scanned (some i) e (a, b, z) =
        rw (e, filealloc)
          (
            omega arith,
            z,
            ap (λ (f : File). f.ref) (update_self t i (record (t i) { ref = 1 })),
            λ j ne. update_ne t i j (record (t i) { ref = 1 }) ne,
          )

-- What a call of `fileclose` returns and leaves.
abbrev pub Closed : ℕ → Files → Option (Closing × Files) → Type 0
Closed i t none = (t i).ref ≡ 0
Closed i t (some (c, t')) =
    (t i).ref ≢ 0
    × ((t' i).ref + 1 ≡ (t i).ref)
    × (c ≡ (if (t i).ref == 1 then closing (t i) else nothing))
    × ((j : ℕ) → i ≢ j → t' j ≡ t j)

-- `fileclose` panics exactly on a file without references; else it takes one reference away, closes
-- the pipe or puts the inode exactly with the last one, and changes no other file.
pub fileclose-Closed : (i : ℕ) (t : Files) → Closed i t (fileclose i t)
unfolding fileclose
fileclose-Closed i t = elim (Bool-cases ((t i).ref == 0)) [
  | inl z ↦ rw z (ground arith)
  | inr nz ↦ elim (Bool-cases ((t i).ref - 1 == 0)) [
    | inl last ↦
        let one : ((t i).ref == 1) ≡ true = ground arith in
        rw (nz, last)
          (
            ground arith,
            ap (λ (f : File). f.ref + 1)
                  (update_self t i (record (t i) { ref = 0; kind = fd_none }))
                ∙ ground arith,
            rw one refl,
            λ j ne. update_ne t i j (record (t i) { ref = 0; kind = fd_none }) ne,
          )
    | inr more ↦
        let many : ((t i).ref == 1) ≡ false = ground arith in
        rw (nz, more)
          (
            ground arith,
            ap (λ (f : File). f.ref + 1) (update_self t i (record (t i) { ref = (t i).ref - 1 }))
                ∙ ground arith,
            rw many refl,
            λ j ne. update_ne t i j (record (t i) { ref = (t i).ref - 1 }) ne,
          )
  ]
]
