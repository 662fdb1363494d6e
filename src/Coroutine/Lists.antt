-- ===== src/Coroutine/Lists.antt =====
-- The list of live coroutines, and what the operations make of it.
use cs461_hw.Base.{
  ℕ, zero, suc, ◌<◌, ◌≡◌, ◌≢◌, refl, true, false, Option, none, some, List, [], ◌∷◌, ◌==◌,
  if◌then◌else◌, update, update_ne, length, arith, Bool-cases, inl, inr,
}
use cs461_hw.Coroutine.{
  Co, World, of_co, Transfer, prepare, find_last, after_loop, co_new, co_yield,
}

-- The list that starts at `p`.
abbrev pub Chain : (ℕ → Co) → ℕ → List ℕ → Type 0
Chain heap p [] = p ≡ 0
Chain heap p (x ∷ xs) = (p ≡ x) × (x ≢ 0) × Chain heap (heap x).next xs

abbrev pub IsAbsent : ℕ → List ℕ → Type 0
IsAbsent a [] = Unit
IsAbsent a (x ∷ xs) = (a ≢ x) × IsAbsent a xs

Chain-update :
    (heap : ℕ → Co) (a p : ℕ) (c : Co) (xs : List ℕ)
    → IsAbsent a xs
    → Chain heap p xs
    → Chain (update heap a c) p xs
Chain-update heap a p c [] n h = h
Chain-update heap a p c (x ∷ xs) n (e, nz, h) =
    (e, nz, rw (update_ne heap a x c n.0) (Chain-update heap a (heap x).next c xs n.1 h))

-- The loop of `co_new` comes to the end of the list.
find_last-Chain :
    (fuel : ℕ) (heap : ℕ → Co) (p x : ℕ) (xs : List ℕ)
    → length xs < fuel
    → Chain heap p (x ∷ xs)
    → (y : ℕ) × (find_last fuel heap p ≡ some y)
unfolding find_last
find_last-Chain zero heap p x xs f h = absurd (omega arith)
find_last-Chain (suc fuel) heap p x [] f (e, nz, z) =
    let last : ((heap p).next == 0) ≡ true = rw (e, z) refl in (p, rw last refl)
find_last-Chain (suc fuel) heap p x (y ∷ ys) f (e, nz, h) =
    let more : ((heap p).next == 0) ≡ false = rw (e, h.0) (let k = h.1 in ground arith) in
    let (z, q) = find_last-Chain fuel heap (heap x).next y ys (omega arith) h in (z, rw (more, e) q)

prepare-Chain :
    (co stack func exit_addr : ℕ) (w : World) (xs : List ℕ)
    → IsAbsent co xs
    → Chain w.heap w.co_list xs
    → let w' = prepare co stack func exit_addr w in Chain w'.heap w'.co_list xs
unfolding prepare
prepare-Chain co stack func exit_addr w xs n h = Chain-update w.heap co w.co_list _ xs n h

-- A coroutine that is created while another is on the list is not added to it: `co_new` comes to the end
-- of the list and returns the address as if all were well, and the list stays what it was.
pub co_new-Chain :
    (fuel co stack func exit_addr : ℕ) (w : World) (x : ℕ) (xs : List ℕ)
    → length xs < fuel
    → co ≢ 0
    → stack ≢ 0
    → IsAbsent co (x ∷ xs)
    → Chain w.heap w.co_list (x ∷ xs)
    → (w' : World) × (co_new fuel co stack func exit_addr w ≡ some (co, w'))
      × Chain w'.heap w'.co_list (x ∷ xs)
unfolding co_new after_loop
co_new-Chain fuel co stack func exit_addr w x xs f c s n h =
    let w' = prepare co stack func exit_addr w in
    let kept = prepare-Chain co stack func exit_addr w (x ∷ xs) n h in
    let (y, q) = find_last-Chain fuel w'.heap w'.co_list x xs f kept in
    let a : (co == 0) ≡ false = ground arith in
    let b : (stack == 0) ≡ false = ground arith in
    let d : (w'.co_list == 0) ≡ false = let k = kept.0 in let l = kept.1 in ground arith in
    (w', rw (a, b, d, q) refl, kept)

-- What a call of `co_yield` leaves and where it transfers to.
abbrev YieldResult : World → Option (World × Transfer) → Type 0
YieldResult w none = w.co_current ≡ 0
YieldResult w (some (w', t)) =
    (w.co_current ≢ 0)
    × (w'.co_current ≡ (w.heap w.co_current).next)
    × (w'.co_list ≡ w.co_list)
    × (t.save ≡ of_co w.co_current)
    × (t.load ≡ (if w'.co_current == 0 then w.host_context else (w.heap w'.co_current).context))

-- `co_yield` faults exactly outside a coroutine; else it saves the current coroutine and goes to the
-- next one on the list, from the last one to the host, and keeps the list.
co_yield-Result : (w : World) → YieldResult w (co_yield w)
unfolding co_yield
co_yield-Result w = elim (Bool-cases (w.co_current == 0)) [
  | inl z ↦ rw z (ground arith)
  | inr nz ↦ elim (Bool-cases ((w.heap w.co_current).next == 0)) [
    | inl last ↦ rw (nz, last) (ground arith, ground arith, refl, refl, refl)
    | inr more ↦ rw (nz, more) (ground arith, refl, refl, refl, rw more refl)
  ]
]
