-- ===== src/Coroutine/Tests.antt =====
-- A list of two coroutines, at 100 and 200.
use cs461_hw.Base.{◌≡◌, refl, some, [], ◌∷◌, ◌==◌, if◌then◌else◌, arith}
use cs461_hw.Coroutine.{World, co_new}
use cs461_hw.Coroutine.Lists.{Chain, co_new-Chain}

abbrev two : World
two = record {
  heap = λ a.
      if a == 100
      then record { context = 11; next = 200; stack = 1 }
      else if a == 200
      then record { context = 22; next = 0; stack = 2 }
      else record { context = 0; next = 0; stack = 0 };
  word = λ _. 0;
  co_list = 100;
  co_current = 100;
  host_context = 9;
}

two-Chain : Chain two.heap two.co_list (100 ∷ 200 ∷ [])
two-Chain = (refl, omega arith, (refl, omega arith, refl))

co_new-Chain_example :
    (w' : World) × (co_new 9 300 5000 7 8 two ≡ some (300, w'))
    × Chain w'.heap w'.co_list (100 ∷ 200 ∷ [])
co_new-Chain_example =
    co_new-Chain 9 300 5000 7 8 two 100 (200 ∷ []) (omega arith) (omega arith) (omega arith)
      (omega arith, (omega arith, tt)) two-Chain
