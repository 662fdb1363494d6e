-- ===== src/Log/Space.antt =====
-- The reservations of `begin_op` and the room in the log: operations that write at most
-- MAXOPBLOCKS blocks each, in any interleaving.
use cs461_hw.Base.{
  ℕ, zero, suc, ◌+◌, ◌-◌, ◌*◌, ◌≤◌, ◌<◌, ◌≡◌, refl, ◌≢◌, ◌⊎◌, inr, arith, List, [], ◌∷◌, false,
  true, get_elem?, set, length, some, ◌%◌, ◌^◌,
}
use cs461_hw.Log.{
  Block, Machine, log_size, max_op_blocks, begin_op, end_op, end_op_enter, log_write, slot_from,
  exceeds, below_one, absorb,
}
use cs461_hw.Log.Disk.{Home}
use cs461_hw.Log.Crash.{IsReady, commit-n, commit-SameOps}

-- The list of logged blocks after `log_write` of `b`.
slot_cases :
    (k i : ℕ) (block : ℕ → ℕ) (b : ℕ)
    → ((slot_from k i block b < i + k) × (block (slot_from k i block b) ≡ b))
      ⊎ (slot_from k i block b ≡ i + k)
unfolding slot_from
slot_cases zero i block b = inr (omega arith)
slot_cases (suc k) i block b = ground (arith, slot_cases k (i + 1) block b)

pub log_write-some :
    (b : ℕ) (d : Block) (m : Machine) {m' : Machine}
    → log_write b d m ≡ some m'
    → (m.n < log_size) × (m.n + 1 < m.size) × (0 < m.outstanding) × (m' ≡ absorb b d m)
unfolding log_write below_one
log_write-some b d m e = ground arith

absorb-IsReady :
    (b : ℕ) (d : Block) (m : Machine)
    → m.n + 1 < m.size
    → IsReady m
    → Home m.start m.size b
    → IsReady (absorb b d m)
unfolding absorb
absorb-IsReady b d m room r h = record {
  fits = ground arith;
  homes = λ i lt. ground (arith, slot_cases m.n 0 m.block b, r.homes i, h);
  agree = λ c hc ne.
      let old_ne : ((i : ℕ) → i < m.n → m.block i ≢ c) =
        λ i lt. ground (arith, slot_cases m.n 0 m.block b, ne i) in
      ground
        (arith, slot_cases m.n 0 m.block b, ne (slot_from m.n 0 m.block b), r.agree c hc old_ne);
  empty = r.empty;
}

-- `log_write` of a home block keeps a transaction ready for its commit.
pub log_write-IsReady :
    (b : ℕ) (d : Block) (m : Machine) {m' : Machine}
    → IsReady m
    → Home m.start m.size b
    → log_write b d m ≡ some m'
    → IsReady m'
log_write-IsReady b d m r h e =
    let (_, room, _, eq) = log_write-some b d m e in rw eq (absorb-IsReady b d m room r h)

sum : List ℕ → ℕ
sum [] = 0
sum (x ∷ xs) = x + sum xs

abbrev pub remove : List ℕ → ℕ → List ℕ
remove [] i = []
remove (x ∷ xs) zero = xs
remove (x ∷ xs) (suc i) = x ∷ remove xs i

abbrev Small : List ℕ → Type 0
Small [] = Unit
Small (x ∷ xs) = (x ≤ max_op_blocks) × Small xs

-- The log, and for each operation under way the number of blocks that it may still write.
pub record System : Type 0 where
  pub log : Machine
  pub left : List ℕ

pub data Step (s : System) : System → Type 0 where
  begin :
      {m : Machine}
      → begin_op s.log ≡ some m
      → Step s (record { log = m; left = max_op_blocks ∷ s.left })
  write :
      (i r b : ℕ) (d : Block) {m : Machine}
      → get_elem? s.left i ≡ some (suc r)
      → log_write b d s.log ≡ some m
      → Step s (record { log = m; left = set s.left i r })
  finish :
      (i r : ℕ) {m : Machine}
      → get_elem? s.left i ≡ some r
      → end_op s.log ≡ some m
      → Step s (record { log = m; left = remove s.left i })

pub record IsIdle (m : Machine) : Type 0 where
  pub none_logged : m.n ≡ 0
  pub none_active : m.outstanding ≡ 0
  pub not_committing : m.committing ≡ false

pub data Reach (m : Machine) : System → Type 0 where
  here : Reach m (record { log = m; left = [] })
  next : {s t : System} → Reach m s → Step s t → Reach m t

record HasRoom (s : System) : Type 0 where
  room : s.log.n + sum s.left ≤ log_size
  active : s.log.outstanding ≡ length s.left
  small : Small s.left
  few : length s.left ≤ 3
  not_committing : s.log.committing ≡ false

sum-le : (xs : List ℕ) → Small xs → sum xs ≤ length xs * 10
unfolding sum
sum-le [] h = omega arith
sum-le (x ∷ xs) h = omega (arith, sum-le xs h.1)

sum-set : (xs : List ℕ) (i r : ℕ) → get_elem? xs i ≡ some (suc r) → sum (set xs i r) + 1 ≡ sum xs
unfolding sum
sum-set [] i r e = ground arith
sum-set (x ∷ xs) zero r e = ground arith
sum-set (x ∷ xs) (suc i) r e = omega (arith, sum-set xs i r e)

length-set_lem : (xs : List ℕ) (i r : ℕ) → length (set xs i r) ≡ length xs
length-set_lem [] i r = refl
length-set_lem (x ∷ xs) zero r = refl
length-set_lem (x ∷ xs) (suc i) r = omega (arith, length-set_lem xs i r)

Small-set : (xs : List ℕ) (i r : ℕ) → Small xs → get_elem? xs i ≡ some (suc r) → Small (set xs i r)
Small-set [] i r h e = tt
Small-set (x ∷ xs) zero r h e = (ground arith, h.1)
Small-set (x ∷ xs) (suc i) r h e = (h.0, Small-set xs i r h.1 e)

sum-remove : (xs : List ℕ) (i r : ℕ) → get_elem? xs i ≡ some r → sum (remove xs i) + r ≡ sum xs
unfolding sum
sum-remove [] i r e = ground arith
sum-remove (x ∷ xs) zero r e = ground arith
sum-remove (x ∷ xs) (suc i) r e = omega (arith, sum-remove xs i r e)

length-remove :
    (xs : List ℕ) (i r : ℕ) → get_elem? xs i ≡ some r → length (remove xs i) + 1 ≡ length xs
length-remove [] i r e = ground arith
length-remove (x ∷ xs) zero r e = omega arith
length-remove (x ∷ xs) (suc i) r e = omega (arith, length-remove xs i r e)

Small-remove : (xs : List ℕ) (i : ℕ) → Small xs → Small (remove xs i)
Small-remove [] i h = tt
Small-remove (x ∷ xs) zero h = h.1
Small-remove (x ∷ xs) (suc i) h = (h.0, Small-remove xs i h.1)

absorb-counts :
    (b : ℕ) (d : Block) (m : Machine)
    → ((absorb b d m).n ≤ m.n + 1)
      × ((absorb b d m).outstanding ≡ m.outstanding)
      × ((absorb b d m).committing ≡ m.committing)
unfolding absorb
absorb-counts b d m = ground arith

log_write-counts :
    (b : ℕ) (d : Block) (m : Machine) {m' : Machine}
    → log_write b d m ≡ some m'
    → (m'.n ≤ m.n + 1) × (m'.outstanding ≡ m.outstanding) × (m'.committing ≡ m.committing)
log_write-counts b d m e = rw ((log_write-some b d m e).3) (absorb-counts b d m)

end_op-counts :
    (m : Machine) {m' : Machine}
    → 0 < m.outstanding
    → m.outstanding < 2 ^ 32
    → end_op m ≡ some m'
    → (m'.n ≤ m.n) × (m'.outstanding + 1 ≡ m.outstanding) × (m'.committing ≡ false)
unfolding end_op end_op_enter
end_op-counts m lo hi e =
    let m1 = record m { outstanding = (m.outstanding + 2 ^ 32 - 1) % 2 ^ 32; committing = true } in
    ground (arith, commit-n m1, commit-SameOps m1)

Step-HasRoom : {s t : System} → Step s t → HasRoom s → HasRoom t
unfolding begin_op exceeds sum
Step-HasRoom {s} (begin e) h = ground (arith, sum-le s.left h.small)
Step-HasRoom {s} (write i r b d e w) h = ground (
  arith,
  log_write-counts b d s.log w,
  sum-set s.left i r e,
  length-set_lem s.left i r,
  Small-set s.left i r h.small e,
)
Step-HasRoom {s} (finish i r e w) h =
    let gone = length-remove s.left i r e in
    let counts = end_op-counts s.log (omega arith) (omega arith) w in
    record {
      room = omega (arith, sum-remove s.left i r e);
      active = omega arith;
      small = Small-remove s.left i h.small;
      few = omega arith;
      not_committing = counts.2;
    }

Reach-HasRoom : {m : Machine} {s : System} → IsIdle m → Reach m s → HasRoom s
unfolding sum
Reach-HasRoom idle here = record {
  room = omega (arith, idle.none_logged);
  active = idle.none_active;
  small = tt;
  few = omega arith;
  not_committing = idle.not_committing;
}
Reach-HasRoom idle (next r st) = Step-HasRoom st (Reach-HasRoom idle r)

-- In every state that any interleaving of operations reaches from an idle log, an operation that
-- has written fewer than MAXOPBLOCKS blocks may call `log_write` for one more: with a log of more
-- than LOGSIZE blocks the call does not panic.
pub log_write_no_panic :
    {m : Machine} {s : System} (i r b : ℕ) (d : Block)
    → IsIdle m
    → Reach m s
    → log_size < s.log.size
    → get_elem? s.left i ≡ some (suc r)
    → (m' : Machine) × (log_write b d s.log ≡ some m')
unfolding log_write below_one
log_write_no_panic {s} i r b d idle reach big e =
    let h = Reach-HasRoom idle reach in
    let p = sum-set s.left i r e in
    let q = length-remove s.left i (suc r) e in (absorb b d s.log, ground arith)
