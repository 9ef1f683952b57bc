-- ===== src/Spinlock.antt =====
-- The spin locks of xv6-os/kernel/spinlock.c and `struct cpu`, as one CPU sees them.
-- The atomic swap of acquire() is one step: a lock that is held elsewhere makes the CPU spin
-- (`blocked`). The fences and the lock's name have no effect on this state.
pub mod Exclusion
pub mod Nesting
mod Tests
use os_advanced_course.Base.{
  ℕ, ◌+◌, ◌-◌, ◌<◌, ◌≡◌, refl, Bool, true, false, not, ◌&&◌, Option, none, some, arith, ltb, ◌==◌,
  if◌then◌else◌, Run, ok, panic, blocked, Cmd, gets, modify, panicking, pure, ◌>>=◌, ◌>>◌, zoom,
}

-- The fields of `struct cpu` that the locks use, its index in `cpus`, and the interrupt bit of
-- sstatus (`intr_get`, `intr_on`, `intr_off`).
pub record Cpu : Type 0 where
  pub id : ℕ
  pub noff : ℕ
  pub intena : Bool
  pub intr : Bool

-- `struct spinlock`; `cpu` is `none` for the null pointer.
pub record Spinlock : Type 0 where
  pub locked : Bool
  pub cpu : Option ℕ

-- A CPU and a lock.
pub record Core : Type 0 where
  pub cpu : Cpu
  pub lock : Spinlock

abbrev pub initlock : Spinlock
initlock = record { locked = false; cpu = none }

abbrev pub push_off : Cmd Cpu (Unit {0})
push_off c = ok tt (record c {
  noff = c.noff + 1;
  intena = if c.noff == 0 then c.intr else c.intena;
  intr = false;
})

abbrev pub pop_off : Cmd Cpu (Unit {0})
pop_off c =
    if c.intr
    then panic
    else if ltb c.noff 1
    then panic
    else ok tt (record c {
      noff = c.noff - 1;
      intr = if (c.noff - 1 == 0) && c.intena then true else c.intr;
    })

abbrev is_cpu : Option ℕ → ℕ → Bool
is_cpu none i = false
is_cpu (some j) i = j == i

-- holding(): this CPU has the lock.
unfoldable pub holding : Core → Bool
holding s = s.lock.locked && is_cpu s.lock.cpu s.cpu.id

abbrev on_cpu : {A : Type 0} → Cmd Cpu A → Cmd Core A
on_cpu = zoom (λ s. s.cpu) (λ s c. record s { cpu = c })

unfoldable pub acquire : Cmd Core (Unit {0})
unfolding holding
acquire = do
  on_cpu push_off
  held ← gets holding
  if held then panicking else pure tt
  taken ← gets (λ s. s.lock.locked)
  if taken then blocked else pure tt
  modify (λ s. record s { lock = record { locked = true; cpu = some s.cpu.id } })

unfoldable pub release : Cmd Core (Unit {0})
unfolding holding
release = do
  held ← gets holding
  if not held then panicking else pure tt
  modify (λ s. record s { lock = initlock })
  on_cpu pop_off
