-- ===== src/StringLib/Tests.antt =====
-- The string functions at concrete memories.
use os_advanced_course.Base.{◌≡◌, refl, [], ◌∷◌, ◌==◌, if◌then◌else◌}
use os_advanced_course.StringLib.{Bytes, memmove}
use os_advanced_course.StringLib.Move.{memmove_lem}
use os_advanced_course.StringLib.Compare.{text}

-- "abc" at 10, and 1 elsewhere.
abbrev abc : Bytes
abc a =
    if a == 10
    then b'a'
    else if a == 11
    then b'b'
    else if a == 12
    then b'c'
    else if a == 13
    then 0
    else 1

overlap_down : text 5 11 (memmove 11 10 3 abc) ≡ b'a' ∷ b'b' ∷ b'c' ∷ 1 ∷ 1 ∷ []
unfolding memmove
overlap_down = refl

memmove_lem_example : memmove 11 10 3 abc 13 ≡ b'c'
memmove_lem_example = memmove_lem 11 10 3 abc 13
