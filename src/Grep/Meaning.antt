-- ===== src/Grep/Meaning.antt =====
-- What a regular expression means, and that match() decides it.
use os_advanced_course.Base.{
  ◌↔◌, ℕ, ◌≡◌, refl, ap, sym, Bool, Bool-cases, inl, inr, true, ◌&&◌, ◌||◌, ◌==◌, if◌then◌else◌,
  List, [], ◌∷◌, ◌++◌, arith,
}
use mathlib.Core.Path.{subst}
use os_advanced_course.Grep.{
  star_char, dollar, caret, dot, matchstar, matchone, is_empty, matchhere, match_anywhere, match,
}

-- The parts of an expression: a character, any number of one, and the end of the text. The
-- character may be a dot.
pub data Item : Type 0 where
  one : ℕ → Item
  star : ℕ → Item
  end_of_text : Item

abbrev pub parse : List ℕ → List Item
parse [] = []
parse (r ∷ []) = if r == dollar then end_of_text ∷ [] else one r ∷ []
parse (r ∷ s ∷ re) = if s == star_char then star r ∷ parse re else one r ∷ parse (s ∷ re)

abbrev pub accepts : ℕ → ℕ → Bool
accepts c t = (c == dot) || (c == t)

abbrev pub all_accepted : ℕ → List ℕ → Bool
all_accepted c [] = true
all_accepted c (t ∷ u) = accepts c t && all_accepted c u

-- The text begins with what the expression describes.
abbrev pub Begins : List Item → List ℕ → Type 0
Begins [] text = Unit
Begins (one c ∷ items) text =
    (t : ℕ) × (u : List ℕ) × (text ≡ t ∷ u) × (accepts c t ≡ true) × Begins items u
Begins (star c ∷ items) text =
    (u w : List ℕ) × (text ≡ u ++ w) × (all_accepted c u ≡ true) × Begins items w
Begins (end_of_text ∷ items) text = (text ≡ []) × Begins items []

abbrev Starred : ℕ → (List ℕ → Type 0) → List ℕ → Type 0
Starred c P text = (u w : List ℕ) × (text ≡ u ++ w) × (all_accepted c u ≡ true) × P w

matchstar-Starred :
    (c : ℕ) (here : List ℕ → Bool) (P : List ℕ → Type 0)
    → ((t : List ℕ) → here t ≡ true → P t)
    → (text : List ℕ) → matchstar c here text ≡ true
    → Starred c P text
unfolding matchstar
matchstar-Starred c here P h [] m = ([], [], refl, refl, h [] m)
matchstar-Starred c here P h (t ∷ text) m = elim (Bool-cases (here (t ∷ text))) [
  | inl now ↦ ([], t ∷ text, refl, refl, h (t ∷ text) now)
  | inr later ↦
      let rest = matchstar-Starred c here P h text (ground (arith, later, m)) in
      (t ∷ rest.0, rest.1, ap (λ x. t ∷ x) rest.2, ground (arith, later, m, rest.3), rest.4)
]

Starred-matchstar :
    (c : ℕ) (here : List ℕ → Bool) (P : List ℕ → Type 0)
    → ((t : List ℕ) → P t → here t ≡ true)
    → (text u w : List ℕ) → text ≡ u ++ w
    → all_accepted c u ≡ true
    → P w
    → matchstar c here text ≡ true
unfolding matchstar
Starred-matchstar c here P h [] [] w e a p = h [] (subst P (sym e) p)
Starred-matchstar c here P h [] (x ∷ u) w e a p = absurd (ground (arith, e))
Starred-matchstar c here P h (t ∷ text) [] w e a p = rw (h (t ∷ text) (subst P (sym e) p)) refl
Starred-matchstar c here P h (t ∷ text) (x ∷ u) w e a p =
    ground
      (arith, e, a, Starred-matchstar c here P h text u w (ground (arith, e)) (ground (arith, a)) p)

matchone→One :
    (r : ℕ) (here : List ℕ → Bool) (text : List ℕ)
    → matchone r here text ≡ true
    → (t : ℕ) × (u : List ℕ) × (text ≡ t ∷ u) × (accepts r t ≡ true) × (here u ≡ true)
matchone→One r here [] m = absurd (ground (arith, m))
matchone→One r here (t ∷ text) m = (t, text, refl, ground (arith, m), ground (arith, m))

One→matchone :
    (r : ℕ) (here : List ℕ → Bool) (text : List ℕ) (t : ℕ) (u : List ℕ)
    → text ≡ t ∷ u
    → accepts r t ≡ true
    → here u ≡ true
    → matchone r here text ≡ true
One→matchone r here text t u e a m = rw e (ground (arith, a, m))

is_empty-nil : (text : List ℕ) → is_empty text ≡ true → text ≡ []
is_empty-nil [] h = refl
is_empty-nil (t ∷ text) h = absurd (ground (arith, h))

matchhere→Begins : (re text : List ℕ) → matchhere re text ≡ true → Begins (parse re) text
unfolding matchhere
matchhere→Begins [] text m = tt
matchhere→Begins (r ∷ []) text m = elim (Bool-cases (r == dollar)) [
  | inl at_end ↦ rw at_end (is_empty-nil text (rw at_end at m), tt)
  | inr char ↦
      let w = matchone→One r (λ t. true) text (rw char at m) in rw char (w.0, w.1, w.2, w.3, tt)
]
matchhere→Begins (r ∷ s ∷ re) text m = elim (Bool-cases (s == star_char)) [
  | inl many ↦ rw many (
      matchstar-Starred r (matchhere re) (Begins (parse re)) (matchhere→Begins re) text
        (rw many at m))
  | inr single ↦
      let w = matchone→One r (matchhere (s ∷ re)) text (rw single at m) in
      rw single (w.0, w.1, w.2, w.3, matchhere→Begins (s ∷ re) w.1 w.4)
]

Begins→matchhere : (re text : List ℕ) → Begins (parse re) text → matchhere re text ≡ true
unfolding matchhere
Begins→matchhere [] text b = refl
Begins→matchhere (r ∷ []) text b = elim (Bool-cases (r == dollar)) [
  | inl at_end ↦ rw (at_end, (rw at_end at b).0) refl
  | inr char ↦
      let w = rw char at b in rw char (One→matchone r (λ t. true) text w.0 w.1 w.2 w.3 refl)
]
Begins→matchhere (r ∷ s ∷ re) text b = elim (Bool-cases (s == star_char)) [
  | inl many ↦
      let w = rw many at b in
      rw many (
        Starred-matchstar r (matchhere re) (Begins (parse re)) (Begins→matchhere re) text w.0 w.1
          w.2 w.3 w.4)
  | inr single ↦
      let w = rw single at b in
      rw single (
        One→matchone r (matchhere (s ∷ re)) text w.0 w.1 w.2 w.3
          (Begins→matchhere (s ∷ re) w.1 w.4))
]

-- Somewhere in the text there is what the expression describes, or, after a caret, at its beginning.
abbrev pub Occurs : List Item → List ℕ → Type 0
Occurs items text = (u w : List ℕ) × (text ≡ u ++ w) × Begins items w

abbrev pub Describes : List ℕ → List ℕ → Type 0
Describes [] text = Occurs [] text
Describes (r ∷ re) text =
    if r == caret then Begins (parse re) text else Occurs (parse (r ∷ re)) text

anywhere→Occurs : (re text : List ℕ) → match_anywhere re text ≡ true → Occurs (parse re) text
unfolding match_anywhere
anywhere→Occurs re [] m = ([], [], refl, matchhere→Begins re [] m)
anywhere→Occurs re (t ∷ text) m = elim (Bool-cases (matchhere re (t ∷ text))) [
  | inl now ↦ ([], t ∷ text, refl, matchhere→Begins re (t ∷ text) now)
  | inr later ↦
      let w = anywhere→Occurs re text (rw later at m) in (t ∷ w.0, w.1, ap (λ x. t ∷ x) w.2, w.3)
]

Occurs→anywhere :
    (re text u w : List ℕ) → text ≡ u ++ w → Begins (parse re) w → match_anywhere re text ≡ true
unfolding match_anywhere
Occurs→anywhere re [] [] w e b = Begins→matchhere re [] (subst (Begins (parse re)) (sym e) b)
Occurs→anywhere re [] (x ∷ u) w e b = absurd (ground (arith, e))
Occurs→anywhere re (t ∷ text) [] w e b =
    rw (Begins→matchhere re (t ∷ text) (subst (Begins (parse re)) (sym e) b)) refl
Occurs→anywhere re (t ∷ text) (x ∷ u) w e b =
    ground (arith, Occurs→anywhere re text u w (ground (arith, e)) b)

-- match() of an expression and a text tells whether the text has, somewhere or after a caret at
-- its beginning, what the expression describes: its characters in their order, a dot for any, a
-- star after one for any number of it, and a dollar at the end of the expression for the end of
-- the text.
pub match_iff : (re text : List ℕ) → (match re text ≡ true) ↔ Describes re text
unfolding match
match_iff [] text = (anywhere→Occurs [] text, λ d. Occurs→anywhere [] text d.0 d.1 d.2 d.3)
match_iff (r ∷ re) text = elim (Bool-cases (r == caret)) [
  | inl first ↦ rw first (matchhere→Begins re text, Begins→matchhere re text)
  | inr free ↦
      rw free (anywhere→Occurs (r ∷ re) text, λ d. Occurs→anywhere (r ∷ re) text d.0 d.1 d.2 d.3)
]
