-- ===== src/Kalloc.antt =====
-- kalloc.c: physical pages on a linked free list, the links in the pages' own first words.
-- One CPU's run: the lock around the list is Spinlock's. Addresses are below 2^64, 0 is NULL.
use cs461_hw.Base.{
  ℕ, zero, suc, ◌+◌, ◌-◌, ◌*◌, ◌/◌, ◌%◌, ◌^◌, Bool, true, false, ◌||◌, Option, none, some, ◌==◌,
  ltb, leb, if◌then◌else◌, update, not,
}
pub mod FreeList
pub mod Range
mod Tests

abbrev pub page_size : ℕ
page_size = 4096

abbrev pub kern_base : ℕ
kern_base = 0xFFFF800000000000

abbrev pub phys_top : ℕ
phys_top = 0xE000000

-- `V2P`, on 64-bit addresses.
abbrev pub v2p : ℕ → ℕ
v2p v = (v + 2 ^ 64 - kern_base) % 2 ^ 64

-- `kmem`, the first word of each page, and the address `end` that the linker sets.
pub record Kmem : Type 0 where
  pub freelist : ℕ
  pub next : ℕ → ℕ
  pub use_lock : Bool
  pub kernel_end : ℕ

-- The test of `kfree` for its panic.
pub is_bad : Kmem → ℕ → Bool
is_bad k v = not (v % page_size == 0) || ltb v k.kernel_end || leb phys_top (v2p v)

-- The word that `memset(v, 1, PGSIZE)` leaves.
abbrev pub junk : ℕ
junk = 0x0101010101010101

-- The page at `v` filled with junk and linked in front of the free list.
pub push_page : ℕ → Kmem → Kmem
push_page v k =
    let filled = update k.next v junk in
    record k { next = update filled v k.freelist; freelist = v }

-- `none` is the panic.
pub kfree : ℕ → Kmem → Option Kmem
kfree v k = if is_bad k v then none else some (push_page v k)

pub kalloc : Kmem → ℕ × Kmem
kalloc k = let r = k.freelist in if r == 0 then (r, k) else (r, record k { freelist = k.next r })

-- `PGROUNDUP`
pub page_round_up : ℕ → ℕ
page_round_up a = (a + page_size - 1) % 2 ^ 64 / page_size * page_size

-- The loop of `freerange`, for at most `fuel` pages.
pub free_pages : ℕ → ℕ → ℕ → Kmem → Option Kmem
free_pages zero p vend k = some k
free_pages (suc fuel) p vend k =
    let rest = (λ (k' : Kmem). free_pages fuel (p + page_size) vend k') in
    if leb (p + page_size) vend
    then elim (kfree p k) [ none ↦ none | some k' ↦ rest k' ]
    else some k

-- Each round moves `p` a page on, so that `vend / PGSIZE + 1` rounds are enough.
pub freerange : ℕ → ℕ → Kmem → Option Kmem
freerange vstart vend k = free_pages (vend / page_size + 1) (page_round_up vstart) vend k

pub kinit1 : ℕ → ℕ → Kmem → Option Kmem
kinit1 vstart vend k = freerange vstart vend (record k { use_lock = false })

pub kinit2 : ℕ → ℕ → Kmem → Option Kmem
kinit2 vstart vend k = elim (freerange vstart vend k) [
  | none ↦ none
  | some k' ↦ some (record k' { use_lock = true })
]
