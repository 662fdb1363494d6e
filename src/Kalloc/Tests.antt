-- ===== src/Kalloc/Tests.antt =====
-- The page allocator on three pages.
use cs461_hw.Base.{ℕ, ◌+◌, ◌-◌, ◌/◌, ◌≡◌, refl, [], ◌∷◌, some, arith, false}
use cs461_hw.Kalloc.{Kmem, page_size, is_bad, push_page, kfree, page_round_up, freerange}
use cs461_hw.Kalloc.FreeList.{Free, kfree-Free}
use cs461_hw.Kalloc.Range.{pages, freerange-Free}

abbrev base : ℕ
base = 0xFFFF800000200000

abbrev nothing_free : Kmem
nothing_free = record {
  freelist = 0;
  next = λ _. 0;
  use_lock = false;
  kernel_end = 0xFFFF800000100123;
}

nothing_free-Free : Free nothing_free []
nothing_free-Free = record { chain = refl; distinct = tt }

base-Free : Free (push_page base nothing_free) (base ∷ [])
unfolding kfree is_bad
base-Free = kfree-Free nothing_free base [] nothing_free-Free (omega arith) tt refl

-- From one byte after a page boundary: the two pages that are whole.
freerange-Free_example :
    (k' : Kmem) × (freerange (base + 1) (base + 0x3fff) nothing_free ≡ some k')
    × Free k' (
        pages
          ((base + 0x3fff - page_round_up (base + 1)) / page_size)
          (page_round_up (base + 1))
          [])
unfolding page_round_up
freerange-Free_example =
    freerange-Free (base + 1) (base + 0x3fff) nothing_free []
      (record {
        aligned = omega arith;
        above = omega arith;
        mapped = omega arith;
        below = omega arith;
      })
      (omega arith) nothing_free-Free tt

two_pages : pages 2 0x1000 [] ≡ 0x2000 ∷ 0x1000 ∷ []
two_pages = refl
