-- ===== src/Console/Read.antt =====
-- consoleread() on the characters that are ready.
use mathlib.Core.Path.{subst}
use mathlib.Core.List.{append_assoc, append-nil}
use os_advanced_course.Base.{
  ℕ, zero, suc, ◌+◌, ◌-◌, ◌%◌, ◌^◌, ◌<◌, ◌≡◌, refl, sym, ◌∙◌, arith, List, [], ◌∷◌, ◌++◌, ◌==◌,
  length, true, false, not, if◌then◌else◌, Bool-cases, inl, inr, ltb, Bool, ℤ, pos, negsuc, Run, ok,
  panic, blocked, out_of_fuel,
}
use os_advanced_course.Spinlock.{Core}
use os_advanced_course.Spinlock.Nesting.{
  IsIdle, held, cycled, acquire-held, release-cycled, cycled-IsIdle,
}
use os_advanced_course.Console.{
  Console, Reader, input_buf_size, index_before, ctrl, newline, undo_read, end_read,
  consoleread_loop, consoleread,
}
use os_advanced_course.Console.Window.{window}
use os_advanced_course.Console.Edit.{ahead, ready, line, IsConsole}

-- The characters given to a reader, those that are left, and whether it waits for more.
pub record Given : Type 0 where
  pub bytes : List ℕ
  pub left : List ℕ
  pub waits : Bool

module _ (writable : ℕ → Bool) (target : ℕ) where
  -- What a reader that wants `n` characters more is given: those up to the end of the line, or up
  -- to an end of file, which stays for the next reader if there are characters before it.
  unfoldable pub give : ℕ → List ℕ → Given
  give zero rs = record { bytes = []; left = rs; waits = false }
  give (suc n) [] = record { bytes = []; left = []; waits = true }
  give (suc n) (c ∷ rs) =
      let rest = give n rs in
      if c == ctrl b'D'
      then record { bytes = []; left = if ltb (suc n) target then c ∷ rs else rs; waits = false }
      else if not (writable (target - suc n))
      then record { bytes = []; left = rs; waits = false }
      else if c == newline
      then record { bytes = c ∷ []; left = rs; waits = false }
      else record { bytes = c ∷ rest.bytes; left = rest.left; waits = rest.waits }

-- From `s` to `t` the bytes of `g` have been given, and the line that is edited is as it was.
pub record Gave (s t : Reader) (g : Given) : Type 0 where
  pub out : t.out ≡ s.out ++ g.bytes
  pub left : ready t.cons ≡ g.left
  pub editing : line t.cons ≡ line s.cons
  pub counted : t.n + length g.bytes ≡ s.n
  pub valid : IsConsole t.cons
  pub idle : IsIdle t.cons.core
  pub same : (t.target ≡ s.target) × (t.killed ≡ s.killed)

-- How consoleread() may end.
pub Ends : Reader → Given → Run Reader ℤ → Type 0
Ends s g (ok r t) =
    Gave s t g
    × (r ≡ (if g.waits then negsuc 0 else pos (t.target - t.n)))
    × ((g.waits ≡ true) → s.killed ≡ true)
Ends s g (blocked t) = Gave s t g × (g.waits ≡ true) × (s.killed ≡ false)
Ends s g panic = ⊥
Ends s g out_of_fuel = ⊥

-- The call while it holds the lock, `c` being the CPU and the lock before.
abbrev locked : Reader → Core → Reader
locked s c = record s { cons = record (s.cons) { core = held c } }

-- The reader once it has taken the next character.
abbrev next : Reader → Reader
next s = record s { cons = record (s.cons) { r = (s.cons.r + 1) % 2 ^ 32 } }

next_ready :
    (s : Console)
    → IsConsole s
    → (s.r == s.w) ≡ false
    → ready s ≡ s.buf (s.r % input_buf_size) ∷ ready (record s { r = (s.r + 1) % 2 ^ 32 })
unfolding window
next_ready s h ne = rw more refl
  where
    more : ahead s.r s.w ≡ suc (ahead ((s.r + 1) % 2 ^ 32) s.w)
    more = ground (arith, h.r, h.w, ne)

next-IsConsole :
    (s : Console)
    → IsConsole s
    → (s.r == s.w) ≡ false
    → IsConsole (record s { r = (s.r + 1) % 2 ^ 32 })
next-IsConsole s h ne = record {
  r = omega arith;
  w = h.w;
  e = h.e;
  room = ground (arith, h.r, h.w, h.e, ne, h.room);
  open_line = h.open_line;
}

none_ready : (s : Console) → IsConsole s → (s.r == s.w) ≡ true → ready s ≡ []
unfolding window
none_ready s h e = rw none refl
  where
    none : ahead s.r s.w ≡ 0
    none = ground (arith, h.r, e)

abbrev freed : Reader → Core → Reader
freed s c = record s { cons = record (s.cons) { core = cycled c } }

stop-Ends :
    (s u : Reader) (c : Core) (bytes left : List ℕ)
    → IsIdle c
    → Gave s (freed u c) (record { bytes = bytes; left = left; waits = false })
    → Ends s (record { bytes = bytes; left = left; waits = false }) (end_read (locked u c))
unfolding Ends end_read
stop-Ends s u c bytes left idle gave =
    rw (release-cycled idle) (gave, refl, λ y. absurd (ground (arith, y)))

undo_read-r : (r : ℕ) → r < 2 ^ 32 → index_before ((r + 1) % 2 ^ 32) ≡ r
undo_read-r r l = omega (arith, l)

-- The reader that gives nothing more, with the characters `rs` left.
nothing-Gave :
    (s u : Reader) (c : Core) (rs : List ℕ) (w : Bool)
    → IsIdle c
    → IsConsole u.cons
    → ready u.cons ≡ rs
    → line u.cons ≡ line s.cons
    → (u.out ≡ s.out) × (u.n ≡ s.n) × (u.target ≡ s.target) × (u.killed ≡ s.killed)
    → Gave s (freed u c) (record { bytes = []; left = rs; waits = w })
nothing-Gave s u c rs w idle h left editing (out, n, target, killed) = record {
  out = out ∙ sym (append-nil s.out);
  left = left;
  editing = editing;
  counted = omega (arith, n);
  valid = record { r = h.r; w = h.w; e = h.e; room = h.room; open_line = h.open_line };
  idle = cycled-IsIdle idle;
  same = (target, killed);
}

one-Gave :
    (s t : Reader) (b k : ℕ) (g : Given)
    → Gave (record s { out = s.out ++ b ∷ []; n = k }) t g
    → s.n ≡ suc k
    → Gave s t (record g { bytes = b ∷ g.bytes })
one-Gave s t b k g x e = record {
  out = x.out ∙ append_assoc s.out (b ∷ []) g.bytes;
  left = x.left;
  editing = x.editing;
  counted = omega (arith, x.counted, e);
  valid = x.valid;
  idle = x.idle;
  same = x.same;
}

one-Ends :
    (s : Reader) (b k r : ℕ) (g : Given) (x : Run Reader ℤ)
    → Ends (record s { cons = record (s.cons) { r = r }; out = s.out ++ b ∷ []; n = k }) g x
    → s.n ≡ suc k
    → Ends s (record g { bytes = b ∷ g.bytes }) x
unfolding Ends
one-Ends s b k r g (ok v t) h l = (
  one-Gave s t b k g
      (record {
        out = h.0.out;
        left = h.0.left;
        editing = h.0.editing;
        counted = h.0.counted;
        valid = h.0.valid;
        idle = h.0.idle;
        same = h.0.same;
      })
      l,
  h.1,
  h.2,
)
one-Ends s b k r g (blocked t) h l = (
  one-Gave s t b k g
      (record {
        out = h.0.out;
        left = h.0.left;
        editing = h.0.editing;
        counted = h.0.counted;
        valid = h.0.valid;
        idle = h.0.idle;
        same = h.0.same;
      })
      l,
  h.1,
  h.2,
)
one-Ends s b k r g panic h l = h
one-Ends s b k r g out_of_fuel h l = h

module _ (writable : ℕ → Bool) where
  consoleread_loop-Ends :
      (k : ℕ) (s : Reader) (c : Core)
      → IsIdle c
      → IsConsole s.cons
      → s.n ≡ k
      → Ends s (give writable s.target k (ready s.cons)) (consoleread_loop writable k (locked s c))
  unfolding consoleread_loop give Ends
  consoleread_loop-Ends zero s c idle h e =
      stop-Ends s s c [] (ready s.cons) idle
        (nothing-Gave s s c _ false idle h refl refl (refl, refl, refl, refl))
  consoleread_loop-Ends (suc k) s c idle h e = elim (Bool-cases (s.cons.r == s.cons.w)) [
    | inl empty ↦ elim (Bool-cases s.killed) [
      | inl dead ↦
          rw (empty, none_ready s.cons h empty, dead, release-cycled idle)
            (
              nothing-Gave (record s { killed = true }) (record s { killed = true }) c [] true idle
                  h (none_ready s.cons h empty) refl (refl, refl, refl, refl),
              refl,
              λ y. refl,
            )
      | inr alive ↦
          rw (empty, none_ready s.cons h empty, alive, release-cycled idle)
            (
              nothing-Gave (record s { killed = false }) (record s { killed = false }) c [] true
                  idle h (none_ready s.cons h empty) refl (refl, refl, refl, refl),
              refl,
              refl,
            )
    ]
    | inr some ↦
        let b : ℕ = s.cons.buf (s.cons.r % input_buf_size) in
        let u : Reader = next s in
        let taken : Reader = record u { n = k; out = s.out ++ b ∷ [] } in
        let back : IsConsole (undo_read u).cons × (ready (undo_read u).cons ≡ b ∷ ready u.cons) =
          subst
            (λ x.
              IsConsole (record (s.cons) { r = x })
              × (ready (record (s.cons) { r = x }) ≡ b ∷ ready u.cons))
            (sym (undo_read-r s.cons.r h.r)) (h, next_ready s.cons h some) in
        let v : IsConsole u.cons = next-IsConsole s.cons h some in
        rw (some, next_ready s.cons h some, sym e)
          (elim (Bool-cases (b == ctrl b'D')) [
            | inl d ↦ elim (Bool-cases (ltb s.n s.target)) [
              | inl part ↦
                  rw (d, part)
                    (stop-Ends s (undo_read u) c [] _ idle (
                      nothing-Gave s (undo_read u) c _ false idle back.0 back.1 refl
                        (refl, refl, refl, refl)))
              | inr first ↦
                  rw (d, first)
                    (stop-Ends s u c [] _ idle
                      (nothing-Gave s u c _ false idle v refl refl (refl, refl, refl, refl)))
            ]
            | inr d ↦ elim (Bool-cases (writable (s.target - s.n))) [
              | inr bad ↦
                  rw (d, bad)
                    (stop-Ends s u c [] _ idle
                      (nothing-Gave s u c _ false idle v refl refl (refl, refl, refl, refl)))
              | inl good ↦ elim (Bool-cases (b == newline)) [
                | inl end ↦
                    rw (d, good, end)
                      (stop-Ends s taken c (b ∷ []) _ idle (
                        one-Gave s (freed taken c) b k _
                          (nothing-Gave (record s { out = s.out ++ b ∷ []; n = k }) taken c _ false
                            idle v refl refl (refl, refl, refl, refl))
                          e))
                | inr more ↦
                    rw (d, good, more)
                      (one-Ends s b k _ _ _ (consoleread_loop-Ends k taken c idle v refl) e)
              ]
            ]
          ])
  ]

  -- On a console whose lock is free and whose indices are valid: consoleread() of the characters
  -- that are ready gives the reader those of a line and no more, with its newline, or those
  -- before an end of file, as many as are wanted and can be copied. A character whose copy fails,
  -- and an end of file before which nothing was given, are taken and not given; what comes after
  -- stays ready, the line that is edited stays as it is, and the result counts what has been
  -- given. It sleeps only where all that was ready has been given and is not enough, and a
  -- process that is killed gets -1 there.
  pub consoleread-Ends :
      (s : Reader)
      → IsIdle s.cons.core
      → IsConsole s.cons
      → Ends s (give writable s.target s.n (ready s.cons)) (consoleread writable s)
  unfolding consoleread
  consoleread-Ends s idle h =
      rw (acquire-held idle) (consoleread_loop-Ends s.n s s.cons.core idle h refl)
