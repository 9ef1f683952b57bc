-- ===== src/Sleeplock.antt =====
-- The sleep locks of xv6-os/kernel/sleeplock.c. `self` is myproc()->pid. A process that sleeps has
-- released the spin lock, and tries again when it is woken. The wakeup() calls change no field of
-- the lock, and its name has no effect.
pub mod Exclusion
mod Tests
use os_advanced_course.Base.{
  ℕ, Bool, true, false, ◌&&◌, ◌==◌, if◌then◌else◌, Run, ok, blocked, Cmd, gets, modify, pure, ◌>>=◌,
  ◌>>◌, zoom,
}
use os_advanced_course.Spinlock.{Core, Cpu, initlock, acquire, release}

-- `struct sleeplock`, with the CPU that runs the code beside its spin lock `lk`.
pub record Sleeplock : Type 0 where
  pub core : Core
  pub locked : Bool
  pub pid : ℕ

abbrev on_core : {A : Type 0} → Cmd Core A → Cmd Sleeplock A
on_core = zoom (λ s. s.core) (λ s c. record s { core = c })

pub initsleeplock : Cpu → Sleeplock
initsleeplock c = record { core = record { cpu = c; lock = initlock }; locked = false; pid = 0 }

pub acquiresleep : ℕ → Cmd Sleeplock (Unit {0})
acquiresleep self = do
  on_core acquire
  taken ← gets (λ s. s.locked)
  if taken
      then (on_core release >> blocked)
      else do modify (λ s. record s { locked = true; pid = self }); on_core release

pub releasesleep : Cmd Sleeplock (Unit {0})
releasesleep = do
  on_core acquire
  modify (λ s. record s { locked = false; pid = 0 })
  on_core release

pub holdingsleep : ℕ → Cmd Sleeplock Bool
holdingsleep self = do
  on_core acquire
  r ← gets (λ s. s.locked && (s.pid == self))
  on_core release
  pure r
