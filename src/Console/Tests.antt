-- ===== src/Console/Tests.antt =====
-- Typing on an empty console.
use cs461_hw.Base.{ℕ, ◌≡◌, refl, true, List, [], ◌∷◌, arith}
use cs461_hw.Console.{Input, consoleintr, consoleread}
use cs461_hw.Console.Editing.{Editor, edits, Holds, consoleintr-Holds}
use cs461_hw.Console.Reading.{Reads, read_ready, consoleread-Reads}

abbrev start : Input
start = record { buf = λ _. 0; r = 4294967295; w = 4294967295; e = 4294967295 }

abbrev nothing : Editor
nothing = record { ready = []; line = [] }

start-Holds : Holds start nothing
start-Holds = record {
  start = omega arith;
  room = omega arith;
  at_w = refl;
  at_e = refl;
  readable = tt;
  editable = tt;
  one_line = tt;
}

-- "ab", backspace, "c", newline: the counters wrap on the way.
abbrev typed : List ℕ
typed = b'a' ∷ b'b' ∷ 8 ∷ b'c' ∷ 13 ∷ []

edited : edits typed nothing ≡ record { ready = b'a' ∷ b'c' ∷ 10 ∷ []; line = [] }
edited = refl

consoleintr-Holds_example : Holds (consoleintr typed start) (edits typed nothing)
consoleintr-Holds_example = consoleintr-Holds typed start nothing start-Holds

consoleread-Reads_example :
    Reads []
      (consoleread 2 true (consoleintr typed start))
      (read_ready 2 true (b'a' ∷ b'c' ∷ 10 ∷ []))
consoleread-Reads_example =
    consoleread-Reads 2 true (consoleintr typed start) (b'a' ∷ b'c' ∷ 10 ∷ []) []
      (consoleintr-Holds typed start nothing start-Holds)
