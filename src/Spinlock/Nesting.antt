-- ===== src/Spinlock/Nesting.antt =====
-- What spinlock.c promises of its locks and of the interrupt state.
use os_advanced_course.Base.{
  ℕ, zero, suc, ◌+◌, ◌<◌, ◌≡◌, refl, true, false, some, arith, ◌==◌, if◌then◌else◌, ok, ◌&&◌, ◌-◌,
  panic, blocked, Cmd, pure, ◌>>◌, Returns,
}
use os_advanced_course.Spinlock.{Cpu, Core, initlock, push_off, pop_off, holding, acquire, release}

-- Interrupts are off while a push_off() is pending.
pub record IsNested (c : Cpu) : Type 0 where
  pub off : 0 < c.noff → c.intr ≡ false

-- A command, `n` times over.
pub times : {S : Type 0} → ℕ → Cmd S (Unit {0}) → Cmd S (Unit {0})
times zero m = pure tt
times (suc n) m = m >> times n m

-- The lock is free, and the CPU's interrupt state is in order.
pub record IsIdle (s : Core) : Type 0 where
  pub nested : IsNested s.cpu
  pub unlocked : s.lock ≡ initlock

-- The state in which acquire() returns on a free lock, and that in which the release() after it
-- does.
abbrev pub held : Core → Core
held s = record {
  cpu = record (s.cpu) {
    noff = s.cpu.noff + 1;
    intena = if s.cpu.noff == 0 then s.cpu.intr else s.cpu.intena;
    intr = false;
  };
  lock = record { locked = true; cpu = some s.cpu.id };
}

abbrev pub cycled : Core → Core
cycled s = record {
  cpu = record (s.cpu) { intena = if s.cpu.noff == 0 then s.cpu.intr else s.cpu.intena };
  lock = initlock;
}

pub acquire-held : {s : Core} → IsIdle s → acquire s ≡ ok tt (held s)
unfolding acquire
acquire-held i = ground arith

pub release-cycled : {s : Core} → IsIdle s → release (held s) ≡ ok tt (cycled s)
unfolding release
release-cycled i = ground arith

pub cycled-IsIdle : {s : Core} → IsIdle s → IsIdle (cycled s)
cycled-IsIdle i = ground arith

-- The outcome of acquire() in each case: panic when this CPU has the lock, a spin with interrupts
-- off when another has it, and otherwise the lock, held by this CPU, with interrupts off.
pub acquire_cases :
    (s : Core)
    → (holding s ≡ true → acquire s ≡ panic)
      × (holding s ≡ false
          → s.lock.locked ≡ true
          → acquire s ≡ blocked (record s { cpu = (held s).cpu }))
      × (s.lock.locked ≡ false → (acquire s ≡ ok tt (held s)) × (holding (held s) ≡ true))
unfolding acquire holding
acquire_cases s = (λ h. ground arith, λ h l. ground arith, λ h. ground arith)

times-push_off :
    (n : ℕ) {c : Cpu}
    → c.intr ≡ false
    → 0 < c.noff
    → times n push_off c ≡ ok tt (record c { noff = c.noff + n })
unfolding times
times-push_off zero o p = ground arith
times-push_off (suc n) {c} o p =
    ground (arith, times-push_off n {c = record c { noff = c.noff + 1 }} o (omega arith))

times-pop_off :
    (n : ℕ) {c : Cpu}
    → c.intr ≡ false
    → n < c.noff
    → times (suc n) pop_off c
      ≡ ok tt (record c { noff = c.noff - suc n; intr = (c.noff - suc n == 0) && c.intena })
unfolding times
times-pop_off zero o p = ground arith
times-pop_off (suc n) {c} o p =
    ground (arith, times-pop_off n {c = record c { noff = c.noff - 1 }} o (omega arith))

-- On a CPU whose interrupts are off if a push_off() is pending: it takes n pop_off()s to undo n
-- push_off()s, n at least 1: none of them panics, the nesting depth is back, and interrupts are
-- on again exactly when they were on before, whether the sequence is nested in another or not.
pub push_off-pop_off :
    (n : ℕ) {c : Cpu}
    → IsNested c
    → Returns
        ((times (suc n) push_off >> times (suc n) pop_off) c)
        (λ _ d. (d.noff ≡ c.noff) × (d.intr ≡ c.intr))
unfolding times
push_off-pop_off n {c} i = ground (
  arith,
  i.off,
  times-push_off n {c = (held s).cpu} refl (omega arith),
  times-pop_off n {c = record (held s).cpu { noff = c.noff + 1 + n }} refl (omega arith),
)
  where
    s : Core
    s = record { cpu = c; lock = initlock }

-- A CPU that holds nothing, with interrupts on, and a free lock.
abbrev pub idle_cpu : Cpu
idle_cpu = record { id = 0; noff = 0; intena = false; intr = true }

abbrev pub idle_core : Core
idle_core = record { cpu = idle_cpu; lock = initlock }

pub idle_cpu-IsNested : IsNested idle_cpu
idle_cpu-IsNested = record { off = λ h. absurd (omega arith) }

pub idle_core-IsIdle : IsIdle idle_core
idle_core-IsIdle = record { nested = idle_cpu-IsNested; unlocked = refl }
