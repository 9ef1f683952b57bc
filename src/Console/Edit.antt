-- ===== src/Console/Edit.antt =====
-- The input interrupt as an editor of a line.
use mathlib.Core.Path.{subst}
use os_advanced_course.Base.{
  ℕ, suc, ◌+◌, ◌-◌, ◌%◌, ◌^◌, ◌≤◌, ◌<◌, ◌≡◌, ◌≢◌, refl, sym, ap, arith, List, [], ◌∷◌, ◌++◌, ◌==◌,
  length, false, not, ◌&&◌, ◌||◌, if◌then◌else◌, All, ltb, Bool,
}
use os_advanced_course.Console.{Console, input_buf_size, index_before, ctrl, newline}
use os_advanced_course.Console.Window.{window, window-last}

-- How far the second index is ahead of the first.
abbrev pub ahead : ℕ → ℕ → ℕ
ahead x y = (y + 2 ^ 32 - x) % 2 ^ 32

-- The characters that consoleread() can have, and those that are still edited.
abbrev pub ready : Console → List ℕ
ready s = window (ahead s.r s.w) s.r s.buf

abbrev pub line : Console → List ℕ
line s = window (ahead s.w s.e) s.w s.buf

pub record IsConsole (s : Console) : Type 0 where
  pub r : s.r < 2 ^ 32
  pub w : s.w < 2 ^ 32
  pub e : s.e < 2 ^ 32
  pub room : ahead s.r s.w + ahead s.w s.e ≤ input_buf_size
  pub open_line : All (λ c. c ≢ newline) (line s)

abbrev pub drop_last : List ℕ → List ℕ
drop_last [] = []
drop_last (x ∷ []) = []
drop_last (x ∷ y ∷ xs) = x ∷ drop_last (y ∷ xs)

-- Whether a character ends the line, of which there are `n` characters with it and those that are
-- ready.
abbrev pub ends_line : ℕ → ℕ → Bool
ends_line d n = (d == newline) || ((d == ctrl b'D') || (n == input_buf_size))

abbrev pub typed : ℕ → List ℕ → List ℕ → List ℕ × List ℕ
typed d rs ls =
    if ends_line d (length rs + length ls + 1)
    then (rs ++ (ls ++ d ∷ []), [])
    else (rs, ls ++ d ∷ [])

-- What a key does to the ready characters and the line.
abbrev pub edit : ℕ → List ℕ → List ℕ → List ℕ × List ℕ
edit c rs ls =
    if c == ctrl b'P'
    then (rs, ls)
    else if c == ctrl b'U'
    then (rs, [])
    else if (c == ctrl b'H') || (c == 127)
    then (rs, drop_last ls)
    else if not (c == 0) && ltb (length rs + length ls) input_buf_size
    then typed (if c == 13 then newline else c) rs ls
    else (rs, ls)

drop_last-snoc : (xs : List ℕ) (x : ℕ) → drop_last (xs ++ x ∷ []) ≡ xs
drop_last-snoc [] x = refl
drop_last-snoc (y ∷ []) x = refl
drop_last-snoc (y ∷ z ∷ xs) x = ap (λ ys. y ∷ ys) (drop_last-snoc (z ∷ xs) x)

pub All-snoc : (P : ℕ → Type 0) (xs : List ℕ) (x : ℕ) → All P (xs ++ x ∷ []) → All P xs × P x
All-snoc P [] x h = (tt, h.0)
All-snoc P (y ∷ xs) x h = let rest = All-snoc P xs x h.1 in ((h.0, rest.0), rest.1)

pub snoc-All : (P : ℕ → Type 0) (xs : List ℕ) (x : ℕ) → All P xs → P x → All P (xs ++ x ∷ [])
snoc-All P [] x h p = (p, tt)
snoc-All P (y ∷ xs) x h p = (h.0, snoc-All P xs x h.1 p)

-- A line that is not empty, by its last character.
pub line-index_before :
    (s : Console)
    → IsConsole s
    → (s.e == s.w) ≡ false
    → line s
      ≡ window (ahead s.w (index_before s.e)) s.w s.buf
        ++ s.buf (index_before s.e % input_buf_size) ∷ []
line-index_before s h ne = rw more (
    window-last (ahead s.w (index_before s.e)) s.w (index_before s.e) s.buf h.w
      (omega (arith, h.w, h.e)))
  where
    more : ahead s.w s.e ≡ suc (ahead s.w (index_before s.e))
    more = ground (arith, h.w, h.e, ne)

-- What a step of the editor gives.
pub record Edited (s t : Console) (rs ls : List ℕ) : Type 0 where
  pub valid : IsConsole t
  pub ready_is : ready t ≡ rs
  pub line_is : line t ≡ ls
  pub core : t.core ≡ s.core

abbrev pub erased : Console → List ℕ → Console
erased s l = record s { e = index_before s.e; sent = l }

pub erased-Edited :
    (s : Console) (l : List ℕ)
    → IsConsole s
    → (s.e == s.w) ≡ false
    → Edited s (erased s l) (ready s) (drop_last (line s))
erased-Edited s l h ne = record {
  valid = record {
    r = h.r;
    w = h.w;
    e = omega arith;
    room = ground (arith, h.w, h.e, ne, h.room);
    open_line =
        (All-snoc (λ c. c ≢ newline) (window (ahead s.w (index_before s.e)) s.w s.buf)
          (s.buf (index_before s.e % input_buf_size))
          (subst (λ l. All (λ c. c ≢ newline) l) (line-index_before s h ne) h.open_line)).0;
  };
  ready_is = refl;
  line_is = sym (rw (line-index_before s h ne) (drop_last-snoc _ _));
  core = refl;
}
