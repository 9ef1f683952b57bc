-- ===== src/Proc/Switch.antt =====
-- Leaving the CPU and getting it back: sched(), sleep(), yield() and the scheduler.
use os_advanced_course.Base.{
  ℕ, ◌≡◌, refl, ◌∙◌, Bool, true, false, not, ◌&&◌, ◌==◌, if◌then◌else◌, arith, ok, panic, Cmd, pure,
  ◌>>=◌, ◌>>◌, Returns, some, none,
}
use os_advanced_course.Spinlock.{Cpu, initlock, release, holding}
use os_advanced_course.Spinlock.Nesting.{IsIdle, acquire-held}
use os_advanced_course.Proc.{
  Table, running, sleeping, on_lk, set_proc, set_state, is_runnable, is_running, sched, sleep,
  scheduler, scheduler_back, sleep_back, acquire,
}
use os_advanced_course.Proc.Locks.{
  taken_self, IsCalm, taken, acquire-taken, IsTaken, freed, release-freed, settle,
}

-- What sched() asks of its caller: to hold the process's lock and no other, to have changed the
-- process's state, and to have interrupts off.
abbrev pub may_sched : ℕ → Table → Bool
may_sched i s =
    holding (record { cpu = s.cpu; lock = (s.procs i).lock })
    && ((s.cpu.noff == 1) && (not (is_running (s.procs i).state) && not s.cpu.intr))

-- sched() panics when any of its four conditions fails. Otherwise it goes on to switch, with
-- nothing changed, and keeps `intena`.
pub sched_cases :
    (i : ℕ) (s : Table) → sched i s ≡ (if may_sched i s then ok s.cpu.intena s else panic)
unfolding sched
sched_cases i s = ground arith

-- A round of the scheduler, with no process's lock held: a runnable process is marked as running
-- on this CPU, which then holds its lock; any other is left alone, with its lock free.
pub scheduler_cases :
    (i : ℕ) (s : Table)
    → IsCalm s
    → (is_runnable (s.procs i).state ≡ true
        → scheduler i s ≡ ok true (record (set_state i running (taken i s)) { current = some i }))
      × (is_runnable (s.procs i).state ≡ false
          → scheduler i s ≡ ok false (freed s.cpu i (taken i s)))
unfolding scheduler
scheduler_cases i s c = (
  λ h. rw (acquire-taken i s c, look h),
  λ h. rw (acquire-taken i s c, look h, release-freed i (taken i s) (taken_self i s c)),
)
  where
    look :
        {b : Bool} → is_runnable (s.procs i).state ≡ b → is_runnable ((taken i s).procs i).state ≡ b
    look h = ground arith

-- This CPU runs process `i`, which holds the lock `lk` and no other.
pub record IsRunning (i : ℕ) (s : Table) : Type 0 where
  pub state : (s.procs i).state ≡ running
  pub lk : s.lk ≡ record { locked = true; cpu = some s.cpu.id }
  pub noff : s.cpu.noff ≡ 1
  pub intr : s.cpu.intr ≡ false
  pub free : (j : ℕ) → (s.procs j).lock ≡ initlock

running-IsCalm : (i : ℕ) (s : Table) → IsRunning i s → IsCalm s
running-IsCalm i s r = record { nested = record { off = λ h. r.intr }; free = r.free }

-- The table on the way: `lk` freed, then the process marked.
abbrev one_held : Cpu → Cpu
one_held c = record c { noff = 1; intr = false }

abbrev lk_freed : ℕ → Table → Table
lk_freed i s = record (taken i s) { cpu = one_held s.cpu; lk = initlock }

abbrev dozing : ℕ → ℕ → Table → Table
dozing i chan s =
    set_proc i (record ((taken i s).procs i) { chan = chan; state = sleeping }) (lk_freed i s)

release_lk : (i : ℕ) (s : Table) → IsRunning i s → on_lk release (taken i s) ≡ ok tt (lk_freed i s)
unfolding release holding
release_lk i s r = ground (arith, r.noff, r.lk, r.intr)

sched-dozing :
    (i chan : ℕ) (s : Table) → sched i (dozing i chan s) ≡ ok s.cpu.intena (dozing i chan s)
unfolding holding
sched-dozing i chan s = sched_cases i (dozing i chan s) ∙ rw (yes_may) refl
  where
    yes_may : may_sched i (dozing i chan s) ≡ true
    yes_may = ground arith

-- The CPU when no lock is held any more.
abbrev pub let_go : Cpu → Cpu
let_go c = record c { noff = 0; intr = c.intena }

dozing-IsTaken :
    (i chan : ℕ) (s : Table)
    → IsTaken (let_go s.cpu) i (record (dozing i chan s) { current = none })
dozing-IsTaken i chan s = record {
  nested = record { off = λ h. absurd (omega arith) };
  cpu = refl;
  lock = ground arith;
}

-- sleep() up to the switch, and the scheduler after it.
abbrev pub go_to_sleep : ℕ → ℕ → Cmd Table Bool
go_to_sleep i chan = do b ← sleep (on_lk release) i chan; scheduler_back i; pure b

pub go_to_sleep_lem :
    (i chan : ℕ) (s : Table)
    → IsRunning i s
    → Returns (go_to_sleep i chan s) (λ b t.
      (b ≡ s.cpu.intena)
      × (t.lk ≡ initlock)
      × (t.current ≡ none)
      × (t.cpu.noff ≡ 0)
      × ((j : ℕ)
          → t.procs j
            ≡ (if i == j then record (s.procs j) { chan = chan; state = sleeping } else s.procs j)))
unfolding sleep scheduler_back
go_to_sleep_lem i chan s r =
    rw
      (
        acquire-taken i s (running-IsCalm i s r),
        release_lk i s r,
        sched-dozing i chan s,
        release-freed i (record (dozing i chan s) { current = none }) (dozing-IsTaken i chan s),
      )
      (refl, refl, refl, refl, λ j. ground (arith, r.free j))

-- A round of the scheduler that picks process `i`, which had gone to sleep, and the end of its
-- sleep().
abbrev pub resume : ℕ → Bool → Cmd Table (Unit {0})
resume i intena = do scheduler i; sleep_back (on_lk acquire) i intena

-- The table before sleep() frees the process's lock, and the CPU that the release() goes back to.
abbrev waking : ℕ → Bool → Table → Table
waking i b s =
    let t = record (set_state i running (taken i s)) { current = some i } in
    set_proc i (record (t.procs i) { chan = 0 }) (record t { cpu = record (t.cpu) { intena = b } })

abbrev awake : Bool → Cpu → Cpu
awake b c = record c { noff = 0; intr = b; intena = b }

waking-IsTaken :
    (i : ℕ) (b : Bool) (s : Table) → s.cpu.noff ≡ 0 → IsTaken (awake b s.cpu) i (waking i b s)
waking-IsTaken i b s z = record {
  nested = record { off = λ h. absurd (omega arith) };
  cpu = ground arith;
  lock = ground arith;
}

relock :
    (b : Bool) (s : Table)
    → s.lk ≡ initlock
    → IsIdle (record { cpu = settle (awake b s.cpu); lock = s.lk })
relock b s f = record { nested = record { off = λ h. absurd (omega arith) }; unlocked = f }

-- With no lock held, the round resumes a runnable process: it runs again, no longer on a channel,
-- and has the lock `lk` back.
pub resume_lem :
    (i : ℕ) (b : Bool) (s : Table)
    → IsCalm s
    → s.cpu.noff ≡ 0
    → s.lk ≡ initlock
    → is_runnable (s.procs i).state ≡ true
    → Returns (resume i b s) (λ _ t.
      IsRunning i t
      × (t.current ≡ some i)
      × (t.cpu.intena ≡ b)
      × ((j : ℕ)
          → t.procs j
            ≡ (if i == j then record (s.procs j) { chan = 0; state = running } else s.procs j)))
unfolding sleep_back
resume_lem i b s c z f h =
    rw
      (
        (scheduler_cases i s c).0 h,
        release-freed i (waking i b s) (waking-IsTaken i b s z),
        acquire-held (relock b s f),
      )
      (
        record {
          state = ground arith;
          lk = refl;
          noff = refl;
          intr = refl;
          free = λ j. ground (arith, c.free j);
        },
        refl,
        refl,
        λ j. ground (arith, c.free j),
      )
