-- ===== src/Pipe.antt =====
-- pipewrite() and piperead() of xv6-os/kernel/pipe.c. A call that sleeps has released the lock; its
-- state tells how far it has come, and a call that is woken goes on from there. The wakeup() calls
-- change no field of the pipe.
pub mod Queue
pub mod Write
pub mod Read
mod Tests
use os_advanced_course.Base.{
  ℕ, zero, suc, ◌+◌, ◌-◌, ◌%◌, ◌^◌, Bool, true, false, not, ◌&&◌, ◌||◌, Option, none, some, List,
  [], ◌∷◌, ◌++◌, ◌==◌, if◌then◌else◌, update, ℤ, pos, negsuc, Run, ok, blocked, Cmd, gets, modify,
  pure, ◌>>=◌, ◌>>◌, zoom,
}
use os_advanced_course.Spinlock.{Core, acquire, release}

abbrev pub pipesize : ℕ
pipesize = 512

-- `struct pipe`, with the CPU that runs the code beside the lock; `bytes` is its array `data`.
pub record Pipe : Type 0 where
  pub core : Core
  pub bytes : ℕ → ℕ
  pub nread : ℕ
  pub nwrite : ℕ
  pub readopen : Bool
  pub writeopen : Bool

-- A call in progress: the pipe, whether the calling process is killed, the variable `i`, and the
-- bytes that copyout() has stored so far, the first one first.
pub record Call : Type 0 where
  pub pipe : Pipe
  pub killed : Bool
  pub i : ℕ
  pub out : List ℕ

abbrev on_core : {A : Type 0} → Cmd Core A → Cmd Call A
on_core = zoom (λ s. s.pipe.core) (λ s c. record s { pipe = record (s.pipe) { core = c } })

-- Whether the buffer is full, as pipewrite() tests it.
abbrev pub is_full : Pipe → Bool
is_full p = p.nwrite == (p.nread + pipesize) % 2 ^ 32

-- pi->data[pi->nwrite++ % PIPESIZE] = ch
pub put : ℕ → Pipe → Pipe
put ch p = record p {
  bytes = update p.bytes (p.nwrite % pipesize) ch;
  nwrite = (p.nwrite + 1) % 2 ^ 32;
}

-- pi->nread++, and the byte at it.
pub drop : Pipe → Pipe
drop p = record p { nread = (p.nread + 1) % 2 ^ 32 }

pub first : Pipe → ℕ
first p = p.bytes (p.nread % pipesize)

-- The end of pipewrite() after the loop.
finish : Cmd Call ℤ
finish = do on_core release; gets (λ s. pos s.i)

abort : Cmd Call ℤ
abort = do on_core release; pure (negsuc 0)

-- `copyin` gives the byte at a user address, or `none` where copyin() fails.
module _ (copyin : ℕ → Option ℕ) (address : ℕ) where
  -- The loop of pipewrite() with `k` bytes left to write.
  unfoldable pub pipewrite_loop : ℕ → Cmd Call ℤ
  unfolding finish abort put
  pipewrite_loop zero s = finish s
  pipewrite_loop (suc k) s =
      let sent : ℕ → Run Call ℤ =
        (λ ch. pipewrite_loop k (record s { pipe = put ch s.pipe; i = s.i + 1 })) in
      if not s.pipe.readopen || s.killed
      then abort s
      else if is_full s.pipe
      then (on_core release >> blocked) s
      else elim (copyin (address + s.i)) [ none ↦ finish s | some ch ↦ sent ch ]

  -- pipewrite() of `n` bytes, from the start, where `i` is 0, or from a sleep.
  pub pipewrite : ℕ → Cmd Call ℤ
  pipewrite n = do on_core acquire; i ← gets (λ s. s.i); pipewrite_loop (n - i)

-- `writable` tells of a user address whether copyout() succeeds there.
module _ (writable : ℕ → Bool) (address : ℕ) where
  -- The loop of piperead() with `k` bytes left to read.
  unfoldable pub piperead_loop : ℕ → Cmd Call ℤ
  unfolding finish drop first
  piperead_loop zero s = finish s
  piperead_loop (suc k) s =
      let p = drop s.pipe in
      let rest =
        piperead_loop k (record s { pipe = p; i = s.i + 1; out = s.out ++ first s.pipe ∷ [] }) in
      if s.pipe.nread == s.pipe.nwrite
      then finish s
      else if writable (address + s.i)
      then rest
      else finish (record s { pipe = p })

  -- piperead() of `n` bytes, from the start or from its sleep; `i` is 0 at both.
  pub piperead : ℕ → Cmd Call ℤ
  piperead n = do
    on_core acquire
    waits ← gets (λ s. (s.pipe.nread == s.pipe.nwrite) && s.pipe.writeopen)
    dead ← gets (λ s. s.killed)
    if waits then (if dead then abort else (on_core release >> blocked)) else piperead_loop n
