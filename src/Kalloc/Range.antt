-- ===== src/Kalloc/Range.antt =====
-- `freerange` frees exactly the whole pages of its range.
use cs461_hw.Base.{
  ℕ, zero, suc, ◌+◌, ◌-◌, ◌*◌, ◌/◌, ◌%◌, ◌<◌, ◌≤◌, ◌≡◌, refl, true, false, List, [], ◌∷◌, some,
  arith, leb, ltb, not, ◌||◌, ◌==◌,
}
use cs461_hw.Kalloc.{
  Kmem, page_size, kern_base, phys_top, v2p, is_bad, push_page, kfree, free_pages, freerange,
  page_round_up,
}
use cs461_hw.Kalloc.FreeList.{Free, IsAbsent, push_page-Free}

-- `k` pages from `p` on, in front of the pages `xs`: the last page of the range comes first.
abbrev pub pages : ℕ → ℕ → List ℕ → List ℕ
pages zero p xs = xs
pages (suc k) p xs = pages k (p + page_size) (p ∷ xs)

-- Addresses that `kfree` accepts.
pub record IsUsable (k : Kmem) (p vend : ℕ) : Type 0 where
  pub aligned : p % page_size ≡ 0
  pub above : k.kernel_end ≤ p
  pub mapped : kern_base ≤ p
  pub below : vend ≤ kern_base + phys_top

kfree-some :
    (k : Kmem) (p vend : ℕ)
    → IsUsable k p vend
    → p + page_size ≤ vend
    → kfree p k ≡ some (push_page p k)
unfolding kfree is_bad
kfree-some k p vend u h = rw good
  where
    good : (not (p % page_size == 0) || ltb p k.kernel_end || leb phys_top (v2p p)) ≡ false
    good = ground arith

abbrev pub Below : ℕ → List ℕ → Type 0
Below p [] = Unit
Below p (x ∷ xs) = (x < p) × Below p xs

Below-IsAbsent : (p : ℕ) (xs : List ℕ) → Below p xs → IsAbsent p xs
Below-IsAbsent p [] b = tt
Below-IsAbsent p (x ∷ xs) b = (λ e. omega (arith, b.0), Below-IsAbsent p xs b.1)

Below-le : (p q : ℕ) (xs : List ℕ) → p ≤ q → Below p xs → Below q xs
Below-le p q [] h b = tt
Below-le p q (x ∷ xs) h b = (omega (arith, b.0), Below-le p q xs h b.1)

push_page-end : (p : ℕ) (k : Kmem) → (push_page p k).kernel_end ≡ k.kernel_end
unfolding push_page
push_page-end p k = refl

free_pages-Free :
    (fuel n p vend : ℕ) (k : Kmem) (xs : List ℕ)
    → n < fuel
    → IsUsable k p vend
    → p + n * page_size ≤ vend
    → vend < p + n * page_size + page_size
    → Free k xs
    → Below p xs
    → (k' : Kmem) × (free_pages fuel p vend k ≡ some k') × Free k' (pages n p xs)
unfolding free_pages
free_pages-Free zero n p vend k xs lt u lo hi f b = absurd (omega arith)
free_pages-Free (suc fuel) zero p vend k xs lt u lo hi f b =
    let stop : leb (p + page_size) vend ≡ false = ground arith in (k, rw stop refl, f)
free_pages-Free (suc fuel) (suc n) p vend k xs lt u lo hi f b =
    let go : leb (p + page_size) vend ≡ true = ground arith in
    let freed = kfree-some k p vend u (omega arith) in
    let (k', e, f') =
      free_pages-Free fuel n (p + page_size) vend (push_page p k) (p ∷ xs) (omega arith)
        (record {
          aligned = omega (arith, u.aligned);
          above = omega (arith, push_page-end p k, u.above);
          mapped = omega (arith, u.mapped);
          below = u.below;
        })
        (omega arith) (omega arith)
        (push_page-Free k p xs f (ground (arith, u.mapped)) (Below-IsAbsent p xs b))
        (omega arith, Below-le p (p + page_size) xs (omega arith) b) in
    (k', rw (go, freed) e, f')

-- `freerange` on a range of usable addresses does not panic. It frees exactly the whole pages between
-- the first page boundary from `vstart` on and `vend`: as many as fit, each once, before the pages that
-- were free already (all below the range).
pub freerange-Free :
    (vstart vend : ℕ) (k : Kmem) (xs : List ℕ)
    → IsUsable k (page_round_up vstart) vend
    → page_round_up vstart ≤ vend
    → Free k xs
    → Below (page_round_up vstart) xs
    → (k' : Kmem) × (freerange vstart vend k ≡ some k')
      × Free k' (pages ((vend - page_round_up vstart) / page_size) (page_round_up vstart) xs)
unfolding freerange
freerange-Free vstart vend k xs u h f b =
    free_pages-Free (vend / page_size + 1) ((vend - page_round_up vstart) / page_size)
      (page_round_up vstart) vend k xs (omega arith) u (omega arith) (omega arith) f b
