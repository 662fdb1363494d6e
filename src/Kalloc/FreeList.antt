-- ===== src/Kalloc/FreeList.antt =====
-- The linked list of free pages as a list of addresses.
use cs461_hw.Base.{
  ℕ, ◌≡◌, refl, ◌≢◌, inl, inr, List, [], ◌∷◌, some, update, update_self, update_ne, arith,
  Bool-cases, ◌==◌,
}
use cs461_hw.Kalloc.{Kmem, junk, push_page, kfree, kalloc}

-- The list that starts at `p` and follows `next` to NULL.
abbrev pub Chain : (ℕ → ℕ) → ℕ → List ℕ → Type 0
Chain next p [] = p ≡ 0
Chain next p (x ∷ xs) = (p ≡ x) × (x ≢ 0) × Chain next (next x) xs

abbrev pub IsAbsent : ℕ → List ℕ → Type 0
IsAbsent v [] = Unit
IsAbsent v (x ∷ xs) = (v ≢ x) × IsAbsent v xs

abbrev pub Distinct : List ℕ → Type 0
Distinct [] = Unit
Distinct (x ∷ xs) = IsAbsent x xs × Distinct xs

-- The free list of `k` is `xs`, no page is on it twice.
pub record Free (k : Kmem) (xs : List ℕ) : Type 0 where
  pub chain : Chain k.next k.freelist xs
  pub distinct : Distinct xs

pub Chain-update :
    (next : ℕ → ℕ) (v w p : ℕ) (xs : List ℕ)
    → IsAbsent v xs
    → Chain next p xs
    → Chain (update next v w) p xs
Chain-update next v w p [] a c = c
Chain-update next v w p (x ∷ xs) a (e, nz, c) =
    (e, nz, rw (update_ne next v x w (a.0)) (Chain-update next v w (next x) xs a.1 c))

pub push_page-Free :
    (k : Kmem) (v : ℕ) (xs : List ℕ)
    → Free k xs
    → v ≢ 0
    → IsAbsent v xs
    → Free (push_page v k) (v ∷ xs)
unfolding push_page
push_page-Free k v xs f nz a = record {
  chain = (
    refl,
    nz,
    rw (update_self (update k.next v junk) v k.freelist) (
        Chain-update _ v k.freelist k.freelist xs a
          (Chain-update k.next v junk k.freelist xs a f.chain)),
  );
  distinct = (a, f.distinct);
}

-- A page that passes the tests of `kfree`, is not NULL and is not free already goes to the front of
-- the free list, and the other free pages stay, in order.
pub kfree-Free :
    (k : Kmem) (v : ℕ) (xs : List ℕ) {k' : Kmem}
    → Free k xs
    → v ≢ 0
    → IsAbsent v xs
    → kfree v k ≡ some k'
    → Free k' (v ∷ xs)
unfolding kfree
kfree-Free k v xs {k'} f nz a e =
    let after : push_page v k ≡ k' = ground arith in rw (← after) (push_page-Free k v xs f nz a)

-- What a call of `kalloc` returns and leaves, on a free list with these pages.
abbrev pub Allocated : Kmem → List ℕ → ℕ → Kmem → Type 0
Allocated k [] p k' = (p ≡ 0) × (k' ≡ k)
Allocated k (x ∷ xs) p k' = (p ≡ x) × (p ≢ 0) × Free k' xs × IsAbsent p xs

-- `kalloc` answers NULL exactly on an empty free list and changes nothing then; otherwise it returns
-- the first free page, which is free no longer, and the other pages stay free.
pub kalloc-Allocated :
    (k : Kmem) (xs : List ℕ) → Free k xs → Allocated k xs (kalloc k).0 (kalloc k).1
unfolding kalloc
kalloc-Allocated k [] f = ground (arith, f.chain)
kalloc-Allocated k (x ∷ xs) f = elim (Bool-cases (k.freelist == 0)) [
  | inl e ↦ absurd (f.chain.1 (ground (arith, f.chain.0)))
  | inr e ↦
      let h = f.chain.0 in
      rw e (
        h,
        ground (arith, h, f.chain.1),
        record { chain = rw h f.chain.2; distinct = f.distinct.1 },
        rw h f.distinct.0,
      )
]
