-- ===== src/Directories/Names.antt =====
-- The names and numbers in the entries of a directory.
use cs461_hw.Base.{
  ℕ, zero, suc, ◌+◌, ◌*◌, ◌/◌, ◌%◌, ◌≡◌, ◌≢◌, ◌<◌, refl, ap, true, false, List, [], ◌∷◌, ◌==◌,
  length, arith,
}
use cs461_hw.Blocks.Content.Data.{AllBytes}
use cs461_hw.Directories.{is_same, namecmp, name_field, inum_of, dirent, is_named, dirent_size}

pub length-name_field : (n : ℕ) (p : List ℕ) → length (name_field n p) ≡ n
unfolding name_field
length-name_field zero p = refl
length-name_field (suc n) [] = ap suc (length-name_field n [])
length-name_field (suc n) (c ∷ p) = ap suc (length-name_field n p)

name_field-AllBytes : (n : ℕ) (p : List ℕ) → AllBytes p → AllBytes (name_field n p)
unfolding name_field
name_field-AllBytes zero p h = tt
name_field-AllBytes (suc n) [] h = (omega arith, name_field-AllBytes n [] h)
name_field-AllBytes (suc n) (c ∷ p) (h, hs) = (h, name_field-AllBytes n p hs)

-- The NULs behind a name change no comparison.
is_same-name_field : (n : ℕ) (q p : List ℕ) → is_same n q (name_field n p) ≡ is_same n q p
unfolding is_same name_field
is_same-name_field zero q p = refl
is_same-name_field (suc n) [] [] = refl
is_same-name_field (suc n) [] (d ∷ p) = refl
is_same-name_field (suc n) (c ∷ q) [] = ground arith
is_same-name_field (suc n) (c ∷ q) (d ∷ p) = rw (is_same-name_field n q p) refl

is_same_refl : (n : ℕ) (p : List ℕ) → is_same n p p ≡ true
unfolding is_same
is_same_refl zero p = refl
is_same_refl (suc n) [] = refl
is_same_refl (suc n) (c ∷ p) = rw (is_same_refl n p) (ground arith)

pub inum_of-dirent : (inum : ℕ) (name : List ℕ) → inum < 65536 → inum_of (dirent inum name) ≡ inum
unfolding dirent
inum_of-dirent inum name h = omega arith

pub dirent-AllBytes : (inum : ℕ) (name : List ℕ) → AllBytes name → AllBytes (dirent inum name)
unfolding dirent
dirent-AllBytes inum name h = (omega arith, (omega arith, name_field-AllBytes 14 name h))

pub length-dirent : (inum : ℕ) (name : List ℕ) → length (dirent inum name) ≡ dirent_size
unfolding dirent
length-dirent inum name = ap (λ n. suc (suc n)) (length-name_field 14 name)

-- Which names the new entry answers to.
pub is_named-dirent :
    (inum : ℕ) (q name : List ℕ)
    → inum < 65536
    → inum ≢ 0
    → is_named q (dirent inum name) ≡ namecmp q name
unfolding dirent
is_named-dirent inum q name h ne =
    let full : (inum % 256 + 256 * (inum / 256 % 256) == 0) ≡ false = ground arith in
    rw full (is_same-name_field 14 q name)

pub namecmp_refl : (name : List ℕ) → namecmp name name ≡ true
namecmp_refl name = is_same_refl 14 name

pub vacant_unnamed : (q de : List ℕ) → (inum_of de == 0) ≡ true → is_named q de ≡ false
vacant_unnamed q de h = rw h refl
