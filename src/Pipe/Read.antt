-- ===== src/Pipe/Read.antt =====
-- What a call of piperead() does to the bytes in the pipe.
use mathlib.Core.List.{append-nil, append_assoc}
use os_advanced_course.Base.{
  ℕ, zero, suc, ◌+◌, ◌≤◌, ◌≡◌, refl, ap, sym, ◌∙◌, ◌⊎◌, inl, inr, Bool, true, false, List, [], ◌∷◌,
  ◌++◌, ◌==◌, ℤ, pos, negsuc, if◌then◌else◌, arith, Bool-cases, Run, ok, panic, blocked,
  out_of_fuel, ◌&&◌,
}
use os_advanced_course.Spinlock.{Core}
use os_advanced_course.Spinlock.Nesting.{
  IsIdle, cycled, acquire-held, release-cycled, cycled-IsIdle,
}
use os_advanced_course.Pipe.{Call, drop, first, finish, abort, piperead_loop, piperead}
use os_advanced_course.Pipe.Queue.{contents, IsPipe, contents-drop, empty-contents, contents-core}
use os_advanced_course.Pipe.Write.{locked, free}

module _ (writable : ℕ → Bool) (address : ℕ) where
  -- copyout() has stored `bs` at the indices from `i` to `j`.
  pub Stored : ℕ → ℕ → List ℕ → Type 0
  Stored i j [] = i ≡ j
  Stored i j (b ∷ bs) = (writable (address + i) ≡ true) × Stored (i + 1) j bs

  -- From `s` to `t` the bytes `got` have come out of the pipe and into the user's memory, and
  -- then the bytes `lost` have come out.
  pub record Taken (s : Call) (t : Call) (lost : List ℕ) : Type 0 where
    pub got : List ℕ
    pub stored : Stored s.i t.i got
    pub out : t.out ≡ s.out ++ got
    pub rest : contents s.pipe ≡ got ++ (lost ++ contents t.pipe)
    pub idle : IsIdle t.pipe.core
    pub valid : IsPipe t.pipe

  pub Read : ℕ → Call → Run Call ℤ → Type 0
  Read n s (ok r t) =
      (r ≡ pos t.i)
      × (t.i ≤ n)
      × ((Taken s t [] × ((t.i ≡ n) ⊎ (contents t.pipe ≡ [])))
          ⊎ ((b : ℕ) × Taken s t (b ∷ []) × (writable (address + t.i) ≡ false)))
  Read n s panic = ⊥
  Read n s (blocked t) = ⊥
  Read n s out_of_fuel = ⊥

  abbrev read : Call → Call
  read s = record s { pipe = drop s.pipe; i = s.i + 1; out = s.out ++ first s.pipe ∷ [] }

  unread : (s : Call) (c : Core) → IsIdle c → IsPipe s.pipe → Taken s (free s c) []
  unfolding Stored
  unread s c h v = record {
    got = [];
    stored = refl;
    out = sym (append-nil s.out);
    rest = sym (contents-core s.pipe (cycled c));
    idle = cycled-IsIdle h;
    valid = record { nread = v.nread; nwrite = v.nwrite; count = v.count };
  }

  spill :
      (s : Call) (c : Core)
      → IsIdle c
      → IsPipe (drop s.pipe)
      → contents s.pipe ≡ first s.pipe ∷ contents (drop s.pipe)
      → Taken s (free (record s { pipe = drop s.pipe }) c) (first s.pipe ∷ [])
  unfolding Stored
  spill s c h v e = record {
    got = [];
    stored = refl;
    out = sym (append-nil s.out);
    rest = e ∙ ap (λ x. first s.pipe ∷ x) (sym (contents-core (drop s.pipe) (cycled c)));
    idle = cycled-IsIdle h;
    valid = record { nread = v.nread; nwrite = v.nwrite; count = v.count };
  }

  Taken-step :
      (s t : Call) (lost : List ℕ)
      → writable (address + s.i) ≡ true
      → contents s.pipe ≡ first s.pipe ∷ contents (drop s.pipe)
      → Taken (read s) t lost
      → Taken s t lost
  unfolding Stored
  Taken-step s t lost w e r = record {
    idle = r.idle;
    valid = r.valid;
    got = first s.pipe ∷ r.got;
    stored = (w, r.stored);
    out = r.out ∙ append_assoc s.out (first s.pipe ∷ []) r.got;
    rest = e ∙ ap (λ x. first s.pipe ∷ x) r.rest;
  }

  Read-step :
      (n : ℕ) (s : Call) (r : Run Call ℤ)
      → writable (address + s.i) ≡ true
      → contents s.pipe ≡ first s.pipe ∷ contents (drop s.pipe)
      → Read n (read s) r
      → Read n s r
  unfolding Read
  Read-step n s (ok r t) w e (x, l, inl (a, b)) = (x, l, inl (Taken-step s t [] w e a, b))
  Read-step n s (ok r t) w e (x, l, inr (b, a, f)) =
      (x, l, inr (b, Taken-step s t (b ∷ []) w e a, f))
  Read-step n s panic w e r = r
  Read-step n s (blocked t) w e r = r
  Read-step n s out_of_fuel w e r = r

  piperead_loop-Read :
      (k n : ℕ) (s : Call) (c : Core)
      → IsIdle c
      → IsPipe s.pipe
      → s.i + k ≡ n
      → Read n s (piperead_loop writable address k (locked s c))
  unfolding piperead_loop finish drop Read
  piperead_loop-Read zero n s c h v e =
      rw (release-cycled h) (refl, omega arith, inl (unread s c h v, inl (omega arith)))
  piperead_loop-Read (suc k) n s c h v e = elim (Bool-cases (s.pipe.nread == s.pipe.nwrite)) [
    | inl empty ↦
        rw (empty, release-cycled h)
          (
            refl,
            omega arith,
            inl (
              unread s c h v,
              inr (contents-core s.pipe (cycled c) ∙ empty-contents s.pipe empty v),
            ),
          )
    | inr more ↦
        let next = contents-drop s.pipe v more in
        elim (Bool-cases (writable (address + s.i))) [
          | inl w ↦
              rw (more, w)
                (Read-step n s _ w next.0
                  (piperead_loop-Read k n (read s) c h next.1 (omega arith)))
          | inr f ↦
              rw (more, f, release-cycled h)
                (refl, omega arith, inr (first s.pipe, spill s c h next.1 next.0, f))
        ]
  ]

  -- piperead() on a valid pipe with its lock free, called with `i` as 0: on an empty pipe that
  -- may still be written to, it returns -1 when the process is killed and sleeps otherwise, with
  -- nothing taken. In every other case it returns the number of bytes stored; they are the oldest
  -- ones of the pipe in their order, and it stops at `n` bytes, at the end of the pipe, or where
  -- copyout() fails, and then the byte that was to be stored is lost.
  pub piperead_cases :
      (n : ℕ) (s : Call)
      → IsIdle s.pipe.core
      → IsPipe s.pipe
      → s.i ≡ 0
      → (((s.pipe.nread == s.pipe.nwrite) && s.pipe.writeopen) ≡ true
          → piperead writable address n s ≡ (
              if s.killed
              then ok (negsuc 0) (free s s.pipe.core)
              else blocked (free s s.pipe.core)))
        × (((s.pipe.nread == s.pipe.nwrite) && s.pipe.writeopen) ≡ false
            → Read n s (piperead writable address n s))
  unfolding piperead abort
  piperead_cases n s h v z = (
    λ waits.
        rw (acquire-held h, waits)
          (elim (Bool-cases s.killed) [
            | inl d ↦ rw (d, release-cycled h)
            | inr d ↦ rw (d, release-cycled h)
          ]),
    λ on. rw (acquire-held h, on) (piperead_loop-Read n n s s.pipe.core h v (omega arith)),
  )
