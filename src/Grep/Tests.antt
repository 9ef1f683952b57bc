-- ===== src/Grep/Tests.antt =====
-- Regular expressions at concrete texts.
use os_advanced_course.Base.{ℕ, ◌≡◌, ◌↔◌, refl, true, false, List, [], ◌∷◌}
use os_advanced_course.Grep.{match}
use os_advanced_course.Grep.Meaning.{Describes, match_iff}

-- The expression b.*d$ and the text abccd.
abbrev pattern_bd : List ℕ
pattern_bd = b'b' ∷ b'.' ∷ b'*' ∷ b'd' ∷ b'$' ∷ []

abbrev text_abccd : List ℕ
text_abccd = b'a' ∷ b'b' ∷ b'c' ∷ b'c' ∷ b'd' ∷ []

matches : match pattern_bd text_abccd ≡ true
unfolding match
matches = refl

no_match : match (b'^' ∷ pattern_bd) text_abccd ≡ false
unfolding match
no_match = refl

match_iff_example : (match pattern_bd text_abccd ≡ true) ↔ Describes pattern_bd text_abccd
match_iff_example = match_iff pattern_bd text_abccd
