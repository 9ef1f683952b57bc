-- ===== src/Grep.antt =====
-- The regular expressions of the user program grep, xv6-os/user/grep.c: match, matchhere,
-- matchstar. A string of C is the list of the characters before its null.
pub mod Meaning
mod Tests
use os_advanced_course.Base.{ℕ, Bool, true, false, ◌&&◌, ◌||◌, ◌==◌, if◌then◌else◌, List, [], ◌∷◌}

-- The characters * $ ^ and the dot.
abbrev pub star_char : ℕ
star_char = b'*'

abbrev pub dollar : ℕ
dollar = b'$'

abbrev pub caret : ℕ
caret = b'^'

abbrev pub dot : ℕ
dot = b'.'

-- matchstar() of the character `c`, where `here` is matchhere() of the rest of the expression.
pub matchstar : ℕ → (List ℕ → Bool) → List ℕ → Bool
matchstar c here [] = here []
matchstar c here (t ∷ text) =
    let rest = matchstar c here text in
    if here (t ∷ text) then true else if (t == c) || (c == dot) then rest else false

abbrev pub is_empty : List ℕ → Bool
is_empty [] = true
is_empty (t ∷ text) = false

-- matchhere() of an expression that does not go on with a star, where `here` is that of its rest.
abbrev matchone : ℕ → (List ℕ → Bool) → List ℕ → Bool
matchone r here [] = false
matchone r here (t ∷ text) = let rest = here text in if (r == dot) || (r == t) then rest else false

pub matchhere : List ℕ → List ℕ → Bool
unfolding matchstar
matchhere [] text = true
matchhere (r ∷ []) text = if r == dollar then is_empty text else matchone r (λ t. true) text
matchhere (r ∷ s ∷ re) text =
    let star = matchstar r (matchhere re) text in
    let one = matchone r (matchhere (s ∷ re)) text in if s == star_char then star else one

-- The loop of match() over the places in the text.
pub match_anywhere : List ℕ → List ℕ → Bool
unfolding matchhere
match_anywhere re [] = matchhere re []
match_anywhere re (t ∷ text) =
    let rest = match_anywhere re text in if matchhere re (t ∷ text) then true else rest

pub match : List ℕ → List ℕ → Bool
unfolding match_anywhere
match [] text = match_anywhere [] text
match (r ∷ re) text = if r == caret then matchhere re text else match_anywhere (r ∷ re) text
