-- ===== src/Proc/Tests.antt =====
-- The process table at concrete states.
use os_advanced_course.Base.{
  ℕ, ◌≡◌, refl, true, false, ◌==◌, ok, some, none, ltb, if◌then◌else◌, update, Returns, arith,
  panic,
}
use os_advanced_course.Spinlock.{initlock}
use os_advanced_course.Spinlock.Nesting.{idle_cpu}
use os_advanced_course.Proc.{
  Proc, Table, unused, sleeping, runnable, running, nproc, is_runnable, kill, sched, scheduler,
  wakeup, set_state,
}
use os_advanced_course.Proc.Locks.{IsCalm, taken, freed}
use os_advanced_course.Proc.Wakeup.{Maps, woken, wakeup-Maps}
use os_advanced_course.Proc.Kill.{Killed, kill-Killed}
use os_advanced_course.Proc.Switch.{IsRunning, may_sched, sched_cases, scheduler_cases}
use os_advanced_course.Proc.Trip.{trip, sleep_trip}

abbrev blank : Proc
blank = record {
  lock = initlock;
  state = unused;
  chan = 0;
  killed = false;
  xstate = 0;
  pid = 0;
  parent = none;
  sz = 0;
  pagetable = 0;
  trapframe = 0;
  ofile = λ fd. 0;
  cwd = 0;
}

-- Processes 1 and 2 sleep on channels 8 and 9, and 3 can run.
abbrev table0 : Table
table0 = record {
  cpu = record idle_cpu { intena = true };
  current = none;
  procs =
      update
        (update (update (λ j. blank) 1 (record blank { state = sleeping; chan = 8; pid = 3 })) 2
          (record blank { state = sleeping; chan = 9; pid = 4 }))
        3 (record blank { state = runnable; pid = 5 });
  lk = initlock;
  wait_lock = initlock;
  pid_lock = initlock;
  nextpid = 6;
  initproc = 0;
}

table0-IsCalm : IsCalm table0
table0-IsCalm = record {
  nested = record { off = λ h. absurd (omega arith) };
  free = λ j. ground arith;
}

wakeup-Maps_example :
    Returns
      (wakeup 8 table0)
      (λ _ t. Maps (λ j p. if ltb j nproc then woken 8 none j p else p) table0 t × IsCalm t)
wakeup-Maps_example = wakeup-Maps 8 table0 table0-IsCalm

kill-Killed_example : Returns (kill 4 table0) (λ r t. Killed 4 nproc 0 table0 r t × IsCalm t)
kill-Killed_example = kill-Killed 4 table0 table0-IsCalm refl

sched_cases_example : sched 3 table0 ≡ (if may_sched 3 table0 then ok true table0 else panic)
sched_cases_example = sched_cases 3 table0

scheduler_cases_example :
    (is_runnable (table0.procs 3).state ≡ true
      → scheduler 3 table0
        ≡ ok true (record (set_state 3 running (taken 3 table0)) { current = some 3 }))
    × (is_runnable (table0.procs 3).state ≡ false
        → scheduler 3 table0 ≡ ok false (freed table0.cpu 3 (taken 3 table0)))
scheduler_cases_example = scheduler_cases 3 table0 table0-IsCalm

-- Process 3 runs and holds the lock that it will pass to sleep().
abbrev table1 : Table
table1 = record (set_state 3 running table0) {
  cpu = record idle_cpu { noff = 1; intr = false; intena = true };
  current = some 3;
  lk = record { locked = true; cpu = some idle_cpu.id };
}

table1-IsRunning : IsRunning 3 table1
table1-IsRunning = record {
  state = refl;
  lk = refl;
  noff = refl;
  intr = refl;
  free = λ j. ground arith;
}

sleep_trip_example : Returns (trip 3 9 table1) (λ _ t.
    IsRunning 3 t
    × (t.current ≡ some 3)
    × (t.cpu.intena ≡ true)
    × ((j : ℕ)
        → t.procs j ≡ (
            if 3 == j
            then record (table1.procs j) { chan = 0; state = running }
            else if ltb j nproc
            then woken 9 none j (table1.procs j)
            else table1.procs j)))
sleep_trip_example = sleep_trip 3 9 table1 (omega arith) table1-IsRunning
