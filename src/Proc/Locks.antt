-- ===== src/Proc/Locks.antt =====
-- Taking and freeing the lock of one process.
use os_advanced_course.Base.{
  ◌%◌, ◌^◌, ℕ, ◌≡◌, refl, true, ◌==◌, if◌then◌else◌, arith, ok, some, ◌+◌,
}
use os_advanced_course.Spinlock.{Cpu, Spinlock, initlock, acquire, release}
use os_advanced_course.Spinlock.Nesting.{
  IsNested, IsIdle, held, acquire-held, release-cycled, cycled-IsIdle,
}
use os_advanced_course.Proc.{allocpid, Table, on_proc, set_proc, myproc}

-- The CPU after a lock has been taken and freed.
abbrev pub settle : Cpu → Cpu
settle c = record c { intena = if c.noff == 0 then c.intr else c.intena }

-- No process's lock is held.
pub record IsCalm (s : Table) : Type 0 where
  pub nested : IsNested s.cpu
  pub free : (j : ℕ) → (s.procs j).lock ≡ initlock

core-IsIdle :
    {c : Cpu} {l : Spinlock} → IsNested c → l ≡ initlock → IsIdle (record { cpu = c; lock = l })
core-IsIdle n f = record { nested = n; unlocked = f }

pub settle-IsNested : {c : Cpu} → IsNested c → IsNested (settle c)
settle-IsNested n = (cycled-IsIdle (core-IsIdle n refl)).nested

pub settle-settle : (c : Cpu) → settle (settle c) ≡ settle c
settle-settle c = ground arith

-- The table while this CPU has the lock of process `i`.
abbrev pub taken : ℕ → Table → Table
taken i s =
    set_proc i (record (s.procs i) { lock = record { locked = true; cpu = some s.cpu.id } })
      (record s { cpu = (held (record { cpu = s.cpu; lock = initlock })).cpu })

pub acquire-taken : (i : ℕ) (s : Table) → IsCalm s → on_proc i acquire s ≡ ok tt (taken i s)
acquire-taken i s c = rw (acquire-held (core-IsIdle c.nested (c.free i)))

-- This CPU, with the interrupt state `c` before, has the lock of process `i`.
pub record IsTaken (c : Cpu) (i : ℕ) (t : Table) : Type 0 where
  pub nested : IsNested c
  pub cpu : t.cpu ≡ (held (record { cpu = c; lock = initlock })).cpu
  pub lock : (t.procs i).lock ≡ record { locked = true; cpu = some c.id }

-- The table when that lock has been freed.
abbrev pub freed : Cpu → ℕ → Table → Table
freed c i t = set_proc i (record (t.procs i) { lock = initlock }) (record t { cpu = settle c })

pub release-freed :
    {c : Cpu} (i : ℕ) (t : Table) → IsTaken c i t → on_proc i release t ≡ ok tt (freed c i t)
release-freed {c} i t h =
    rw (h.cpu, h.lock, release-cycled (core-IsIdle {l = initlock} h.nested refl))

pub taken_self : (i : ℕ) (s : Table) → IsCalm s → IsTaken s.cpu i (taken i s)
taken_self i s c = record { nested = c.nested; cpu = refl; lock = ground arith }

pub myproc-settle :
    (s : Table) → IsNested s.cpu → myproc s ≡ ok s.current (record s { cpu = settle s.cpu })
unfolding myproc
myproc-settle s n = ground (arith, n.off)

-- allocpid() with its lock free hands out the counter and steps it.
pub allocpid_lem :
    (t : Table)
    → IsNested t.cpu
    → t.pid_lock ≡ initlock
    → allocpid t
      ≡ ok t.nextpid
          (record t { cpu = settle t.cpu; pid_lock = initlock; nextpid = (t.nextpid + 1) % 2 ^ 32 })
unfolding allocpid
allocpid_lem t n f = rw (acquire-held (idle), release-cycled (idle))
  where
    idle : IsIdle (record { cpu = t.cpu; lock = t.pid_lock })
    idle = record { nested = n; unlocked = f }
