-- ===== src/Blocks/Content/Owned.antt =====
-- The blocks that an inode owns: its data blocks as places 0 to 139, and its indirect block as 140.
use cs461_hw.Base.{
  ℕ, suc, ◌+◌, ◌-◌, ◌/◌, ◌%◌, ◌≡◌, ◌≢◌, ◌<◌, ◌∙◌, refl, ap, Bool, true, false, ◌==◌, ltb,
  if◌then◌else◌, arith, Bool-cases, inl, inr,
}
use cs461_hw.Blocks.{ndirect, Volume, Inode, nindirect}
use cs461_hw.Blocks.Content.{max_file, byte_in, get_byte}

abbrev pub own : Inode → Volume → ℕ → ℕ
own ip v s =
    if s == max_file
    then ip.addrs ndirect
    else if ltb s ndirect
    then ip.addrs s
    else if ip.addrs ndirect == 0
    then 0
    else v.word (ip.addrs ndirect) (s - ndirect)

-- Each owned block is marked, and has one place only.
pub record Owns (o : ℕ → ℕ) (used : ℕ → Bool) : Type 0 where
  pub boot : used 0 ≡ true
  pub marked : (s : ℕ) → s < suc max_file → o s ≢ 0 → used (o s) ≡ true
  pub apart : (s t : ℕ) → s < suc max_file → t < suc max_file → o s ≢ 0 → o s ≡ o t → s ≡ t

-- Byte `i` of the block at a place; a place without a block reads as zeros.
abbrev pub byte_at : ℕ → Volume → ℕ → ℕ
byte_at b v i = if b == 0 then 0 else get_byte v b i

abbrev pub data_at : Inode → Volume → ℕ → ℕ → ℕ
data_at ip v s i = byte_at (own ip v s) v i

-- Places may have got blocks, and nothing else is to be seen.
pub record Extends (ip : Inode) (v : Volume) (ip' : Inode) (v' : Volume) : Type 0 where
  pub owns : Owns (own ip' v') v'.used
  pub same_data : (s i : ℕ) → s < max_file → data_at ip' v' s i ≡ data_at ip v s i
  pub same_size : ip'.size ≡ ip.size
  pub keeps_blocks : (s : ℕ) → s < suc max_file → own ip' v' s ≡ 0 → own ip v s ≡ 0

pub Extends-refl : (ip : Inode) (v : Volume) → Owns (own ip v) v.used → Extends ip v ip v
Extends-refl ip v o = record {
  owns = o;
  same_data = λ s i h. refl;
  same_size = refl;
  keeps_blocks = λ s h z. z;
}

pub Extends-trans :
    {ip ip' ip'' : Inode} {v v' v'' : Volume}
    → Extends ip v ip' v'
    → Extends ip' v' ip'' v''
    → Extends ip v ip'' v''
Extends-trans a b = record {
  owns = b.owns;
  same_data = λ s i h. b.same_data s i h ∙ a.same_data s i h;
  same_size = b.same_size ∙ a.same_size;
  keeps_blocks = λ s h z. a.keeps_blocks s h (b.keeps_blocks s h z);
}

pub byte_at-same :
    (c i : ℕ) (v v' : Volume) → (c ≢ 0 → v'.word c ≡ v.word c) → byte_at c v' i ≡ byte_at c v i
unfolding get_byte
byte_at-same c i v v' same = elim (Bool-cases (c == 0)) [
  | inl e ↦ rw e refl
  | inr n ↦ rw n (ap (λ (r : ℕ → ℕ). byte_in (r (i / 4)) (i % 4)) (same (ground arith)))
]

-- The words of the indirect block are the places from 12 to 139.
pub indirect_word :
    (i : ℕ) (ip : Inode) (v : Volume)
    → i < nindirect
    → ip.addrs ndirect ≢ 0
    → own ip v (i + ndirect) ≡ v.word (ip.addrs ndirect) i
indirect_word i ip v h nz = let index : i + 12 - 12 ≡ i = omega arith in ground arith

-- The places depend on the words of the indirect block only.
pub own-cong :
    (ip : Inode) (v v' : Volume) (t : ℕ)
    → (ip.addrs ndirect ≢ 0
        → ltb t ndirect ≡ false
        → v'.word (ip.addrs ndirect) (t - ndirect) ≡ v.word (ip.addrs ndirect) (t - ndirect))
    → own ip v' t ≡ own ip v t
own-cong ip v v' t same = elim (Bool-cases (t == max_file)) [
  | inl last ↦ rw last refl
  | inr inner ↦ elim (Bool-cases (ltb t ndirect)) [
    | inl direct ↦ rw (inner, direct) refl
    | inr more ↦ elim (Bool-cases (ip.addrs ndirect == 0)) [
      | inl z ↦ rw (inner, more, z) refl
      | inr nz ↦ rw (inner, more, nz) (same (ground arith) more)
    ]
  ]
]
