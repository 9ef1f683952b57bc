-- ===== src/Pipe/Write.antt =====
-- What a call of pipewrite() does to the bytes in the pipe.
use mathlib.Core.List.{append-nil, append_assoc}
use os_advanced_course.Base.{
  ℕ, zero, suc, ◌+◌, ◌-◌, ◌≤◌, ◌<◌, ◌≡◌, refl, ap, sym, ◌∙◌, ◌⊎◌, inl, inr, true, not, ◌||◌, List,
  [], ◌∷◌, ◌++◌, Option, none, some, ℤ, pos, negsuc, arith, Bool-cases, Run, ok, panic, blocked,
  out_of_fuel, Bool, false,
}
use os_advanced_course.Spinlock.{Core}
use os_advanced_course.Spinlock.Nesting.{
  IsIdle, held, cycled, acquire-held, release-cycled, cycled-IsIdle,
}
use os_advanced_course.Pipe.{Call, pipesize, is_full, put, finish, abort, pipewrite_loop, pipewrite}
use os_advanced_course.Pipe.Queue.{
  contents, count, IsPipe, contents-put, full-count, room-count, contents-core,
}

Option-cases : (o : Option ℕ) → (o ≡ none) ⊎ ((x : ℕ) × (o ≡ some x))
Option-cases none = inl refl
Option-cases (some x) = inr (x, refl)

-- The call while it holds the lock, `c` being the CPU and the lock before.
abbrev pub locked : Call → Core → Call
locked s c = record s { pipe = record (s.pipe) { core = held c } }

abbrev pub free : Call → Core → Call
free s c = record s { pipe = record (s.pipe) { core = cycled c } }

-- pipewrite() gives up: the read end is closed, or the process is killed.
abbrev pub gone : Call → Bool
gone s = not s.pipe.readopen || s.killed

module _ (copyin : ℕ → Option ℕ) (address : ℕ) where
  -- `bs` are the user's bytes from index `i` to index `j`.
  pub Sent : ℕ → ℕ → List ℕ → Type 0
  Sent i j [] = i ≡ j
  Sent i j (b ∷ bs) = (copyin (address + i) ≡ some b) × Sent (i + 1) j bs

  -- From `s` to `t` the user's bytes between their indices have been added to the pipe, and nothing
  -- else has happened to it; its lock is free.
  pub record Written (n : ℕ) (s : Call) (t : Call) : Type 0 where
    pub sent : List ℕ
    pub from_user : Sent s.i t.i sent
    pub added : contents t.pipe ≡ contents s.pipe ++ sent
    pub within : t.i ≤ n
    pub idle : IsIdle t.pipe.core
    pub valid : IsPipe t.pipe

  -- How pipewrite() ends. With a byte to write and the reader gone, or the process killed: by -1 and
  -- with nothing written. Else: all bytes are written, or the user's memory cannot be read at the
  -- next one, and the result is their number; or it sleeps on a full pipe.
  pub Write : ℕ → Call → Run Call ℤ → Type 0
  Write n s (ok r t) =
      Written n s t
      × (((r ≡ pos t.i)
            × ((t.i ≡ n) ⊎ (copyin (address + t.i) ≡ none))
            × ((s.i ≡ n) ⊎ (gone s ≡ false)))
          ⊎ ((r ≡ negsuc 0) × (s.i < n) × (t.i ≡ s.i) × (gone s ≡ true)))
  Write n s panic = ⊥
  Write n s (blocked t) = Written n s t × (count t.pipe ≡ pipesize) × (t.i < n) × (gone s ≡ false)
  Write n s out_of_fuel = ⊥

  stays :
      (n : ℕ) (s : Call) (c : Core) → IsIdle c → IsPipe s.pipe → s.i ≤ n → Written n s (free s c)
  unfolding Sent
  stays n s c h v l = record {
    sent = [];
    from_user = refl;
    added = contents-core s.pipe (cycled c) ∙ sym (append-nil (contents s.pipe));
    within = l;
    idle = cycled-IsIdle h;
    valid = record { nread = v.nread; nwrite = v.nwrite; count = v.count };
  }

  -- One byte more at the front.
  abbrev wrote : ℕ → Call → Call
  wrote ch s = record s { pipe = put ch s.pipe; i = s.i + 1 }

  Written-step :
      (n ch : ℕ) (s t : Call)
      → copyin (address + s.i) ≡ some ch
      → contents (put ch s.pipe) ≡ contents s.pipe ++ ch ∷ []
      → Written n (wrote ch s) t
      → Written n s t
  unfolding Sent
  Written-step n ch s t e p w = record {
    within = w.within;
    idle = w.idle;
    valid = w.valid;
    sent = ch ∷ w.sent;
    from_user = (e, w.from_user);
    added = w.added ∙ ap (λ x. x ++ w.sent) p ∙ append_assoc (contents s.pipe) (ch ∷ []) w.sent;
  }

  Write-step :
      (n ch : ℕ) (s : Call) (r : Run Call ℤ)
      → gone s ≡ false
      → copyin (address + s.i) ≡ some ch
      → contents (put ch s.pipe) ≡ contents s.pipe ++ ch ∷ []
      → Write n (wrote ch s) r
      → Write n s r
  unfolding Write put
  Write-step n ch s (ok r t) on e p (w, inl (x, end, _)) =
      (Written-step n ch s t e p w, inl (x, end, inr on))
  Write-step n ch s (ok r t) on e p (w, inr (x, l, same, quit)) = absurd (ground (arith, on, quit))
  Write-step n ch s panic on e p w = w
  Write-step n ch s (blocked t) on e p w = (Written-step n ch s t e p w.0, w.1, w.2, on)
  Write-step n ch s out_of_fuel on e p w = w

  pipewrite_loop-Write :
      (k n : ℕ) (s : Call) (c : Core)
      → IsIdle c
      → IsPipe s.pipe
      → s.i + k ≡ n
      → Write n s (pipewrite_loop copyin address k (locked s c))
  unfolding pipewrite_loop finish abort put Write
  pipewrite_loop-Write zero n s c h v e =
      rw (release-cycled h)
        (stays n s c h v (omega arith), inl (refl, inl (omega arith), inl (omega arith)))
  pipewrite_loop-Write (suc k) n s c h v e = elim (Bool-cases (not s.pipe.readopen || s.killed)) [
    | inl quit ↦
        rw (quit, release-cycled h)
          (stays n s c h v (omega arith), inr (refl, omega arith, refl, quit))
    | inr on ↦ elim (Bool-cases (is_full s.pipe)) [
      | inl full ↦
          rw (on, full, release-cycled h)
            (stays n s c h v (omega arith), full-count s.pipe v full, omega arith, on)
      | inr room ↦ elim (Option-cases (copyin (address + s.i))) [
        | inl fault ↦
            rw (on, room, fault, release-cycled h)
              (stays n s c h v (omega arith), inl (refl, inr fault, inr on))
        | inr got ↦
            rw (on, room, got.1)
              (let next = contents-put s.pipe got.0 v (room-count s.pipe v room) in
                Write-step n got.0 s _ on got.1 next.0
                  (pipewrite_loop-Write k n (wrote got.0 s) c h next.1 (omega arith)))
      ]
    ]
  ]

  -- On a valid pipe with its lock free, and from an index within the bytes to write: with a byte
  -- left to write and the read end closed, or the process killed, pipewrite() returns -1 and adds
  -- nothing; else it adds the user's bytes in their order, and nothing else, and then returns their
  -- number, with all of them written or where the user's memory cannot be read, or sleeps on a full
  -- pipe. The lock is free again.
  pub pipewrite-Write :
      (n : ℕ) (s : Call)
      → IsIdle s.pipe.core
      → IsPipe s.pipe
      → s.i ≤ n
      → Write n s (pipewrite copyin address n s)
  unfolding pipewrite
  pipewrite-Write n s h v l =
      rw (acquire-held h) (pipewrite_loop-Write (n - s.i) n s s.pipe.core h v (omega arith))
