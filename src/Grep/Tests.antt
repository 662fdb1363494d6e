-- ===== src/Grep/Tests.antt =====
-- The matcher on concrete texts, and the theorems about it applied to them.
use cs461_hw.Base.{ℕ, ◌≡◌, refl, ◌↔◌, true, false, List, [], ◌∷◌}
use cs461_hw.Grep.{matchstar, at_end, one, matchhere, anywhere, matches}
use cs461_hw.Grep.Matching.{Here, Meaning, matchhere_iff, matches_iff}

-- "^ab*c$"
abbrev anchored : List ℕ
anchored = b'^' ∷ b'a' ∷ b'b' ∷ b'*' ∷ b'c' ∷ b'$' ∷ []

abbrev abbc : List ℕ
abbc = b'a' ∷ b'b' ∷ b'b' ∷ b'c' ∷ []

anchored-abbc : matches anchored abbc ≡ true
unfolding matches anywhere matchhere one at_end matchstar
anchored-abbc = refl

anchored_later : matches anchored (b'x' ∷ abbc) ≡ false
unfolding matches anywhere matchhere one at_end matchstar
anchored_later = refl

matchhere_iff_example :
    (matchhere (b'b' ∷ b'*' ∷ b'c' ∷ []) abbc ≡ true) ↔ Here (b'b' ∷ b'*' ∷ b'c' ∷ []) abbc
matchhere_iff_example = matchhere_iff (b'b' ∷ b'*' ∷ b'c' ∷ []) abbc

matches_iff_example : (matches anchored abbc ≡ true) ↔ Meaning anchored abbc
matches_iff_example = matches_iff anchored abbc
