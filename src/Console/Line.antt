-- ===== src/Console/Line.antt =====
-- consoleintr() is the editor.
use mathlib.Core.Path.{subst}
use os_advanced_course.Base.{
  pure, ℕ, zero, suc, ◌+◌, ◌%◌, ◌^◌, ◌<◌, ◌≡◌, ◌≢◌, refl, sym, ◌∙◌, arith, List, [], ◌∷◌, ◌++◌,
  ◌==◌, update, length, true, false, not, ◌&&◌, ◌||◌, if◌then◌else◌, ne→==, ==_refl, All,
  Bool-cases, inl, inr, ltb, Returns, Returns_mono, Returns_bind,
}
use os_advanced_course.Spinlock.Nesting.{IsIdle, held, acquire-held, release-cycled, cycled-IsIdle}
use os_advanced_course.Console.{
  Console, input_buf_size, index_before, ctrl, newline, kill_line, store_key, key, consoleintr,
  erase,
}
use os_advanced_course.Console.Window.{
  window, length-window, window-join, window-last, window_after,
}
use os_advanced_course.Console.Edit.{
  ahead, ready, line, IsConsole, drop_last, ends_line, typed, edit, Edited, erased, erased-Edited,
  line-index_before, All-snoc, snoc-All,
}

no_line : (s : Console) → IsConsole s → (s.e == s.w) ≡ true → line s ≡ []
unfolding window
no_line s h e = rw none refl
  where
    none : ahead s.w s.e ≡ 0
    none = ground (arith, h.w, e)

last_open :
    (s : Console)
    → IsConsole s
    → (s.e == s.w) ≡ false
    → (s.buf (index_before s.e % input_buf_size) == newline) ≡ false
last_open s h ne = ne→== _ newline (
    (All-snoc (λ c. c ≢ newline) (window (ahead s.w (index_before s.e)) s.w s.buf)
      (s.buf (index_before s.e % input_buf_size))
      (subst (λ l. All (λ c. c ≢ newline) l) (line-index_before s h ne) h.open_line)).1)

Edited-same : (s : Console) → IsConsole s → Edited s s (ready s) (line s)
Edited-same s h = record { valid = h; ready_is = refl; line_is = refl; core = refl }

kill_line-Edited :
    (k : ℕ) (s : Console)
    → IsConsole s
    → ahead s.w s.e < k
    → Returns (kill_line k s) (λ _ t. Edited s t (ready s) [])
unfolding kill_line
kill_line-Edited zero s h l = absurd (omega (arith, l))
kill_line-Edited (suc k) s h l = elim (Bool-cases (s.e == s.w)) [
  | inl e ↦ rw e (record { valid = h; ready_is = refl; line_is = no_line s h e; core = refl })
  | inr ne ↦
      rw (ne, last_open s h ne)
        (let t : Console = erased s (8 ∷ 32 ∷ 8 ∷ s.sent) in
          let step : Edited s t (ready s) (drop_last (line s)) = erased-Edited s _ h ne in
          Returns_mono _ (kill_line k t)
            (kill_line-Edited k t step.valid (ground (arith, h.w, h.e, ne, l)))
            (λ _ u x. record {
              valid = x.valid;
              ready_is = x.ready_is;
              line_is = x.line_is;
              core = x.core;
            }))
]

-- The state once a character is in the buffer.
abbrev stored : ℕ → Console → List ℕ → Console
stored c s l = record s {
  buf = update s.buf (s.e % input_buf_size) c;
  e = (s.e + 1) % 2 ^ 32;
  sent = l;
}

module _ (c : ℕ) (s : Console) (l : List ℕ) (h : IsConsole s)
    (room : ahead s.r s.w + ahead s.w s.e < input_buf_size) where
  ready-stored : ready (stored c s l) ≡ ready s
  ready-stored =
      window_after (ahead s.r s.w) s.r s.e (ahead s.w s.e) c s.buf h.r
        (omega (arith, h.r, h.w, h.e)) room

  line-stored : line (stored c s l) ≡ line s ++ c ∷ []
  line-stored = rw more (
      window-last (ahead s.w s.e) s.w s.e (stored c s l).buf h.w (omega (arith, h.w, h.e))
      ∙ rw
          (
            ==_refl (s.e % input_buf_size),
            window_after (ahead s.w s.e) s.w s.e 0 c s.buf h.w (omega (arith, h.w, h.e))
                (omega (arith, room)),
          )
          refl)
    where
      more : ahead s.w ((s.e + 1) % 2 ^ 32) ≡ suc (ahead s.w s.e)
      more = omega (arith, h.w, h.e, room)

  counted : ahead s.r ((s.e + 1) % 2 ^ 32) ≡ length (ready s) + length (line s) + 1
  counted =
      rw (length-window (ahead s.r s.w) s.r s.buf, length-window (ahead s.w s.e) s.w s.buf)
        (omega (arith, h.r, h.w, h.e, room))

  stays_open : (c == newline) ≡ false → Edited s (stored c s l) (ready s) (line s ++ c ∷ [])
  stays_open n = record {
    valid = record {
      r = h.r;
      w = h.w;
      e = omega arith;
      room = omega (arith, h.r, h.w, h.e, room);
      open_line =
          subst (λ xs. All (λ x. x ≢ newline) xs) (sym line-stored)
            (snoc-All _ (line s) c h.open_line (λ e. absurd (ground (arith, n, e))));
    };
    ready_is = ready-stored;
    line_is = line-stored;
    core = refl;
  }

  closed : Console
  closed = record (stored c s l) { w = (s.e + 1) % 2 ^ 32 }

  closes : Edited s closed (ready s ++ (line s ++ c ∷ [])) []
  unfolding window closed
  closes = record {
    valid = record {
      r = h.r;
      w = omega arith;
      e = omega arith;
      room = omega (arith, h.r, h.w, h.e, room);
      open_line = rw none tt;
    };
    ready_is = rw both (
        window-join (ahead s.r s.w) (ahead s.w ((s.e + 1) % 2 ^ 32)) s.r s.w (stored c s l).buf h.r
          (omega (arith, h.r, h.w))
        ∙ rw (ready-stored, line-stored) refl);
    line_is = rw none refl;
    core = refl;
  }
    where
      none : ahead ((s.e + 1) % 2 ^ 32) ((s.e + 1) % 2 ^ 32) ≡ 0
      none = omega arith

      both : ahead s.r ((s.e + 1) % 2 ^ 32) ≡ ahead s.r s.w + ahead s.w ((s.e + 1) % 2 ^ 32)
      both = omega (arith, h.r, h.w, h.e, room)

store_key-Edited :
    (c : ℕ) (s : Console)
    → IsConsole s
    → ahead s.r s.w + ahead s.w s.e < input_buf_size
    → Returns
        (store_key c s)
        (λ _ t. Edited s t (typed c (ready s) (line s)).0 (typed c (ready s) (line s)).1)
unfolding store_key closed
store_key-Edited c s h room =
    rw (sym (counted c s [] h room))
      (elim (Bool-cases (ends_line c (ahead s.r ((s.e + 1) % 2 ^ 32)))) [
        | inl ends ↦ rw ends (closes c s _ h room)
        | inr goes ↦ rw goes (stays_open c s _ h room (ground (arith, goes)))
      ])

lengths : (s : Console) → length (ready s) + length (line s) ≡ ahead s.r s.w + ahead s.w s.e
lengths s =
    rw (length-window (ahead s.r s.w) s.r s.buf, length-window (ahead s.w s.e) s.w s.buf) refl

filled : (s : Console) → IsConsole s → ahead s.r s.e ≡ length (ready s) + length (line s)
filled s h = rw (lengths s) (omega (arith, h.r, h.w, h.e, h.room))

erase-Edited :
    (s : Console)
    → IsConsole s
    → Returns
        ((if s.e == s.w then pure tt else erase) s)
        (λ _ t. Edited s t (ready s) (drop_last (line s)))
erase-Edited s h = elim (Bool-cases (s.e == s.w)) [
  | inl e ↦ rw e (record {
    valid = h;
    ready_is = refl;
    line_is = no_line s h e ∙ rw (no_line s h e) refl;
    core = refl;
  })
  | inr ne ↦ rw ne (erased-Edited s _ h ne)
]

key-Edited :
    (c : ℕ) (s : Console)
    → IsConsole s
    → Returns
        (key c s)
        (λ _ t. Edited s t (edit c (ready s) (line s)).0 (edit c (ready s) (line s)).1)
unfolding key
key-Edited c s h = elim (Bool-cases (c == ctrl b'P')) [
  | inl p ↦ rw p (Edited-same s h)
  | inr p ↦ elim (Bool-cases (c == ctrl b'U')) [
    | inl u ↦ rw (p, u) (kill_line-Edited (input_buf_size + 1) s h (omega (arith, h.room)))
    | inr u ↦ elim (Bool-cases ((c == ctrl b'H') || (c == 127))) [
      | inl b ↦ rw (p, u, b) (erase-Edited s h)
      | inr b ↦
          elim (Bool-cases
            (not (c == 0) && ltb (length (ready s) + length (line s)) input_buf_size)) [
              | inl y ↦
                  rw (p, u, b, filled s h, y)
                    (store_key-Edited (if c == 13 then newline else c) s h
                      (ground (arith, y, lengths s)))
              | inr n ↦ rw (p, u, b, filled s h, n) (Edited-same s h)
            ]
    ]
  ]
]

-- On a console whose lock is free: consoleintr() of a key returns with the lock free and the
-- indices valid, and it does to the characters that consoleread() can have, and to those of the
-- line that is still edited, what an editor does: a deletion drops the last one, a kill drops the
-- line, a key of which there is room is added, carriage return as newline, and a newline, an end
-- of file or a full buffer hands the line to consoleread(). The indices may wrap around.
pub consoleintr-Edited :
    (c : ℕ) (s : Console)
    → IsIdle s.core
    → IsConsole s
    → Returns (consoleintr c s) (λ _ t.
      IsIdle t.core
      × IsConsole t
      × (ready t ≡ (edit c (ready s) (line s)).0)
      × (line t ≡ (edit c (ready s) (line s)).1))
unfolding consoleintr
consoleintr-Edited c s idle h = rw (acquire-held idle) (
    let s' : Console = record s { core = held s.core } in
    Returns_bind _ (key c s') _
      (key-Edited c s'
        (record { r = h.r; w = h.w; e = h.e; room = h.room; open_line = h.open_line }))
      (λ _ t x.
        rw (x.core, release-cycled idle)
          (
            cycled-IsIdle idle,
            record {
              r = x.valid.r;
              w = x.valid.w;
              e = x.valid.e;
              room = x.valid.room;
              open_line = x.valid.open_line;
            },
            x.ready_is,
            x.line_is,
          )))
