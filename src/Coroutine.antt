-- ===== src/Coroutine.antt =====
-- coroutine.c: user-level coroutines on a linked list. A coroutine is the address of its struct,
-- 0 is NULL. A call runs until it returns or calls `swtch`, which is the transfer that it hands back:
-- where the running context is saved, and the context that is loaded.
use cs461_hw.Base.{
  ℕ, zero, suc, ◌+◌, Bool, true, false, Option, none, some, ◌==◌, if◌then◌else◌, update,
}
pub mod Lists
mod Tests

-- `struct coroutine`
pub record Co : Type 0 where
  pub context : ℕ
  pub next : ℕ
  pub stack : ℕ

-- The structs, the words of memory (for the new stacks), and the three global variables.
pub record World : Type 0 where
  pub heap : ℕ → Co
  pub word : ℕ → ℕ
  pub co_list : ℕ
  pub co_current : ℕ
  pub host_context : ℕ

-- Where `swtch` saves the context: `&host_context`, or the field of a coroutine.
pub data Slot : Type 0 where
  host : Slot
  of_co : ℕ → Slot

pub record Transfer : Type 0 where
  pub save : Slot
  pub load : ℕ

-- The struct and the first stack words that `co_new` prepares; `next` is as `malloc` left it.
pub prepare : (co stack func exit_addr : ℕ) → World → World
prepare co stack func exit_addr w =
    let ptr = stack + 1000 in
    record w {
      heap = update w.heap co (record (w.heap co) { context = ptr; stack = stack });
      word = update (update w.word (ptr + 48) func) (ptr + 56) exit_addr;
    }

-- The loop of `co_new` over the list, from `head` on: where `head` ends, or `none` if that takes more
-- than `fuel` rounds.
pub find_last : ℕ → (ℕ → Co) → ℕ → Option ℕ
find_last zero heap head = none
find_last (suc fuel) heap head =
    let rest = find_last fuel heap (heap head).next in
    if (heap head).next == 0 then some head else rest

-- What `co_new` returns after its loop: `head = co1` is to the local variable.
pub after_loop : ℕ → World → Option ℕ → Option (ℕ × World)
after_loop co w none = none
after_loop co w (some head) = some (co, w)

-- `co_new`, with what its two calls of `malloc` return and the address of `co_exit`; `none` is that the
-- rounds of its loop are used up.
pub co_new : (fuel co stack func exit_addr : ℕ) → World → Option (ℕ × World)
co_new fuel co stack func exit_addr w =
    let w' = prepare co stack func exit_addr w in
    if co == 0
    then some (0, w)
    else if stack == 0
    then some (0, w)
    else if w'.co_list == 0
    then some (co, record w' { co_list = co })
    else after_loop co w' (find_last fuel w'.heap w'.co_list)

-- `co_run`: the result of the call (after the transfer, if there is one).
pub co_run : World → Bool × World × Option Transfer
co_run w = if w.co_list == 0 then (false, w, none) else (
  true,
  record w { co_current = w.co_list },
  some (record { save = host; load = (w.heap w.co_list).context }),
)

-- `co_yield`: `none` is the fault of reading through NULL.
pub co_yield : World → Option (World × Transfer)
co_yield w =
    let tmp = w.co_current in
    let next = (w.heap tmp).next in
    if tmp == 0
    then none
    else if next == 0
    then some (record w { co_current = 0 }, record { save = of_co tmp; load = w.host_context })
    else some
        (record w { co_current = next }, record { save = of_co tmp; load = (w.heap next).context })

-- The body of the `if` in the loop of `co_exit`, up to `swtch`; `prev` is 0 or a struct.
pub unlink : ℕ → ℕ → World → World × Option Transfer
unlink prev tmp w =
    let next = (w.heap tmp).next in
    if next == 0
    then (
      record w { co_list = 0 },
      some (record { save = of_co w.co_current; load = w.host_context }),
    )
    else (
      record w {
        heap =
            if prev == 0 then w.heap else update w.heap prev (record (w.heap prev) { next = next });
        co_list = next;
      },
      some (record { save = of_co w.co_current; load = (w.heap tmp).context }),
    )

-- The loop of `co_exit`, for at most `fuel` rounds.
pub exit_loop : ℕ → ℕ → ℕ → World → World × Option Transfer
exit_loop zero prev tmp w = (w, none)
exit_loop (suc fuel) prev tmp w =
    let rest = exit_loop fuel tmp (w.heap tmp).next w in
    if tmp == 0 then (w, none) else if tmp == w.co_current then unlink prev tmp w else rest

-- `co_exit`; `prev` is what the variable holds that the code leaves uninitialised.
pub co_exit : ℕ → ℕ → World → World × Option Transfer
co_exit fuel prev w = if w.co_current == 0 then (w, none) else exit_loop fuel prev w.co_list w

-- The loop of `co_run_all`, for at most `fuel` rounds; `resume` is what a transfer of `co_run` does to
-- the world until the host is loaded again.
pub run_loop : ℕ → (World → World) → ℕ → World → World
run_loop zero resume tmp w = w
run_loop (suc fuel) resume tmp w =
    let ran = co_run w in
    let w' = if ran.0 then resume ran.1 else ran.1 in
    let rest = run_loop fuel resume (w'.heap tmp).next w' in if tmp == 0 then w else rest

pub co_run_all : ℕ → (World → World) → World → Bool × World
co_run_all fuel resume w =
    if w.co_list == 0 then (false, w) else (true, run_loop fuel resume w.co_list w)
