-- ===== src/Files/Tests.antt =====
-- A disk that takes every write.
use cs461_hw.Base.{ℕ, Option, some, List, [], ◌∷◌, ◌++◌, length}
use cs461_hw.Files.{filewrite}
use cs461_hw.Files.Chunks.{Outcome, filewrite-Outcome}

abbrev keep_all : ℕ → List ℕ → List ℕ → Option ℕ × List ℕ
keep_all off bytes s = (some (length bytes), s ++ bytes)

filewrite-Outcome_example :
    Outcome keep_all 10 [] (1 ∷ 2 ∷ []) (filewrite keep_all 10 (1 ∷ 2 ∷ []) [])
filewrite-Outcome_example = filewrite-Outcome keep_all 10 (1 ∷ 2 ∷ []) []
