-- ===== src/Proc/Wakeup.antt =====
-- What wakeup() does to the process table.
use os_advanced_course.Base.{
  ==_refl, ℕ, zero, suc, ◌≡◌, ◌+◌, refl, ap, ◌∙◌, sym, Bool, not, ◌&&◌, ◌==◌, ltb, leb,
  if◌then◌else◌, Bool-cases, inl, inr, arith, Returns, Returns_bind, Returns_mono, Option,
}
use os_advanced_course.Proc.{
  Proc, Table, runnable, set_state, is_proc, is_sleeping, nproc, wakeup_loop, wakeup, wakeup_round,
}
use os_advanced_course.Proc.Locks.{
  settle, IsCalm, settle-IsNested, settle-settle, taken, acquire-taken, release-freed,
  myproc-settle,
}

-- From `s` to `t` each process `j` has become `f j` of itself, and nothing else has happened, but for
-- the CPU's memory of its interrupt state.
pub record Maps (f : ℕ → Proc → Proc) (s t : Table) : Type 0 where
  pub rest : t ≡ record s { cpu = settle s.cpu; procs = t.procs }
  pub procs : (j : ℕ) → t.procs j ≡ f j (s.procs j)

abbrev is_target : ℕ → Option ℕ → ℕ → Proc → Bool
is_target chan current j p = not (is_proc current j) && (is_sleeping p.state && (p.chan == chan))

-- A process as wakeup() leaves it.
abbrev pub woken : ℕ → Option ℕ → ℕ → Proc → Proc
woken chan current j p = if is_target chan current j p then record p { state = runnable } else p

pub settled : (s : Table) → IsCalm s → IsCalm (record s { cpu = settle s.cpu })
settled s c = record { nested = settle-IsNested c.nested; free = c.free }

pub mapped :
    (f : ℕ → Proc → Proc) (s : Table) (procs : ℕ → Proc)
    → ((j : ℕ) → procs j ≡ f j (s.procs j))
    → Maps f s (record s { cpu = settle (settle s.cpu); procs = procs })
mapped f s procs h = record {
  rest = ap (λ c. record s { cpu = c; procs = procs }) (settle-settle s.cpu);
  procs = h;
}

wakeup_round-Maps :
    (chan i : ℕ) (s : Table)
    → IsCalm s
    → Returns
        (wakeup_round chan i s)
        (λ _ t. Maps (λ j p. if i == j then woken chan s.current j p else p) s t)
unfolding wakeup_round
wakeup_round-Maps chan i s c = elim (Bool-cases (is_proc s.current i)) [
  | inl own ↦
      rw (myproc-settle s c.nested, own) (record { rest = refl; procs = λ j. ground (arith, own) })
  | inr other ↦ elim (Bool-cases (is_sleeping (s.procs i).state && ((s.procs i).chan == chan))) [
    | inl hit ↦
        rw
          (
            myproc-settle s c.nested,
            other,
            acquire-taken i _ (settled s c),
            ==_refl i,
            hit,
            release-freed {c = settle s.cpu} i
                (set_state i runnable (taken i (record s { cpu = settle s.cpu })))
                (record { nested = settle-IsNested c.nested; cpu = refl; lock = ground arith }),
          )
          (mapped _ s _ (λ j. ground (arith, c.free j, other, hit)))
    | inr miss ↦
        rw
          (
            myproc-settle s c.nested,
            other,
            acquire-taken i _ (settled s c),
            ==_refl i,
            miss,
            release-freed {c = settle s.cpu} i (taken i (record s { cpu = settle s.cpu }))
                (record { nested = settle-IsNested c.nested; cpu = refl; lock = ground arith }),
          )
          (mapped _ s _ (λ j. ground (arith, c.free j, other, miss)))
  ]
]

pub Maps-mono :
    {f : ℕ → Proc → Proc} (g : ℕ → Proc → Proc) {s t : Table}
    → ((j : ℕ) (p : Proc) → f j p ≡ g j p)
    → Maps f s t
    → Maps g s t
Maps-mono g {s} e m = record { rest = m.rest; procs = λ j. m.procs j ∙ e j (s.procs j) }

pub Maps-IsCalm :
    {f : ℕ → Proc → Proc} {s t : Table}
    → Maps f s t
    → ((j : ℕ) (p : Proc) → (f j p).lock ≡ p.lock)
    → IsCalm s
    → IsCalm t
Maps-IsCalm m keep c = record {
  nested = rw (ap (λ x. x.cpu) m.rest) (settle-IsNested c.nested);
  free = λ j. rw (m.procs j, keep j _) (c.free j);
}

abbrev put_procs : (ℕ → Proc) → Table → Table
put_procs procs x = record x { cpu = settle x.cpu; procs = procs }

pub Maps-Maps :
    (f g h : ℕ → Proc → Proc) {s u t : Table}
    → ((j : ℕ) (p : Proc) → g j (f j p) ≡ h j p)
    → Maps f s u
    → Maps g u t
    → Maps h s t
Maps-Maps f g h {s} {u} {t} e m n = record {
  rest =
      n.rest
      ∙ ap (put_procs t.procs) m.rest
      ∙ ap (λ c. record s { cpu = c; procs = t.procs }) (settle-settle s.cpu);
  procs = λ j. n.procs j ∙ ap (g j) (m.procs j) ∙ e j (s.procs j);
}

abbrev in_range : ℕ → ℕ → ℕ → Bool
in_range i k j = leb i j && ltb j (i + k)

pub current_lem : {f : ℕ → Proc → Proc} {s t : Table} → Maps f s t → t.current ≡ s.current
current_lem m = ap (λ x. x.current) m.rest

-- What the loop does over the `k` processes from `i` on.
abbrev Woke : ℕ → ℕ → ℕ → Table → Type 0
Woke chan k i s =
    Returns (wakeup_loop chan k i s)
      (λ _ t. Maps (λ j p. if in_range i k j then woken chan s.current j p else p) s t)

wakeup_loop-suc :
    (chan k i : ℕ) (s : Table)
    → IsCalm s
    → ((u : Table) → IsCalm u → u.cpu ≡ settle u.cpu → Woke chan k (i + 1) u)
    → Woke chan (suc k) i s
unfolding wakeup_loop
wakeup_loop-suc chan k i s c rest =
    Returns_bind _ (wakeup_round chan i s) _ (wakeup_round-Maps chan i s c) (λ _ u m.
      Returns_mono _ (wakeup_loop chan k (i + 1) u)
        (rest u (Maps-IsCalm m (λ j p. ground arith) c)
          (rw (ap (λ x. x.cpu) m.rest) (sym (settle-settle s.cpu))))
        (λ _ t n. Maps-Maps _ _ _ (λ j p. rw (current_lem m) (ground arith)) m n))

wakeup_loop-Maps : (chan k i : ℕ) (s : Table) → IsCalm s → s.cpu ≡ settle s.cpu → Woke chan k i s
unfolding wakeup_loop
wakeup_loop-Maps chan zero i s c e = record {
  rest = ap (λ x. record s { cpu = x }) e;
  procs = λ j. ground arith;
}
wakeup_loop-Maps chan (suc k) i s c e =
    wakeup_loop-suc chan k i s c (wakeup_loop-Maps chan k (i + 1))

all_procs : (chan : ℕ) (s : Table) → IsCalm s → Woke chan nproc 0 s
all_procs chan s c = wakeup_loop-suc chan 63 0 s c (wakeup_loop-Maps chan 63 1)

-- On a process table with no process's lock held, wakeup() makes runnable exactly the processes,
-- other than the caller, that sleep on the channel; it changes no other process and nothing else
-- of the table, and leaves the locks free.
pub wakeup-Maps :
    (chan : ℕ) (s : Table)
    → IsCalm s
    → Returns
        (wakeup chan s)
        (λ _ t. Maps (λ j p. if ltb j nproc then woken chan s.current j p else p) s t × IsCalm t)
unfolding wakeup
wakeup-Maps chan s c =
    Returns_mono _ (wakeup_loop chan nproc 0 s) (all_procs chan s c)
      (λ _ t m. (Maps-mono _ (λ j p. ground arith) m, Maps-IsCalm m (λ j p. ground arith) c))
