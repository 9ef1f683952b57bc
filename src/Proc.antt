-- ===== src/Proc.antt =====
-- The process table of xv6-os/kernel/proc.c and xv6-os/kernel/proc.h, and what needs no memory
-- management: sleep(), wakeup(), kill(), sched(), yield() and the scheduler. A process is its
-- index in `proc`. swtch() ends a function of the model: what the C function does after it, when
-- the process runs again, is a function of its own.
pub mod Locks
pub mod Wakeup
pub mod Kill
pub mod Switch
pub mod Trip
mod Tests
use os_advanced_course.Base.{
  ℕ, zero, suc, ◌+◌, ◌%◌, ◌^◌, Bool, true, false, not, ◌&&◌, ◌||◌, Option, none, some, ◌==◌,
  if◌then◌else◌, update, ℤ, pos, negsuc, Run, ok, panic, blocked, Cmd, gets, modify, panicking,
  pure, ◌>>=◌, ◌>>◌, zoom,
}
use os_advanced_course.Spinlock.{
  Cpu, Core, Spinlock, initlock, push_off, pop_off, holding, acquire, release,
}

abbrev pub nproc : ℕ
nproc = 64

pub data ProcState : Type 0 where
  unused : ProcState
  used : ProcState
  sleeping : ProcState
  runnable : ProcState
  running : ProcState
  zombie : ProcState

abbrev pub is_unused : ProcState → Bool
is_unused unused = true
is_unused _ = false

abbrev pub is_sleeping : ProcState → Bool
is_sleeping sleeping = true
is_sleeping _ = false

abbrev pub is_runnable : ProcState → Bool
is_runnable runnable = true
is_runnable _ = false

abbrev pub is_running : ProcState → Bool
is_running running = true
is_running _ = false

abbrev pub is_zombie : ProcState → Bool
is_zombie zombie = true
is_zombie _ = false

-- `struct proc` without its saved registers; ints are bit patterns, and 0 is the null pointer except
-- for `parent`.
pub record Proc : Type 0 where
  pub lock : Spinlock
  pub state : ProcState
  pub chan : ℕ
  pub killed : Bool
  pub xstate : ℕ
  pub pid : ℕ
  pub parent : Option ℕ
  pub sz : ℕ
  pub pagetable : ℕ
  pub trapframe : ℕ
  pub ofile : ℕ → ℕ
  pub cwd : ℕ

-- The globals of proc.c, with the CPU that runs the code, its field `proc`, and the lock `lk` that a
-- process passes to sleep().
pub record Table : Type 0 where
  pub cpu : Cpu
  pub current : Option ℕ
  pub procs : ℕ → Proc
  pub lk : Spinlock
  pub wait_lock : Spinlock
  pub pid_lock : Spinlock
  pub nextpid : ℕ
  pub initproc : ℕ

abbrev pub on_cpu : {A : Type 0} → Cmd Cpu A → Cmd Table A
on_cpu = zoom (λ s. s.cpu) (λ s c. record s { cpu = c })

abbrev pub on_lk : {A : Type 0} → Cmd Core A → Cmd Table A
on_lk =
    zoom (λ s. record { cpu = s.cpu; lock = s.lk }) (λ s c. record s { cpu = c.cpu; lk = c.lock })

abbrev pub on_wait_lock : {A : Type 0} → Cmd Core A → Cmd Table A
on_wait_lock =
    zoom (λ s. record { cpu = s.cpu; lock = s.wait_lock })
      (λ s c. record s { cpu = c.cpu; wait_lock = c.lock })

abbrev pub on_pid_lock : {A : Type 0} → Cmd Core A → Cmd Table A
on_pid_lock =
    zoom (λ s. record { cpu = s.cpu; lock = s.pid_lock })
      (λ s c. record s { cpu = c.cpu; pid_lock = c.lock })

abbrev pub set_proc : ℕ → Proc → Table → Table
set_proc i p s = record s { procs = update s.procs i p }

-- The lock of process `i`.
abbrev pub on_proc : {A : Type 0} → ℕ → Cmd Core A → Cmd Table A
on_proc i =
    zoom (λ s. record { cpu = s.cpu; lock = (s.procs i).lock })
      (λ s c. set_proc i (record (s.procs i) { lock = c.lock }) (record s { cpu = c.cpu }))

abbrev pub set_state : ℕ → ProcState → Table → Table
set_state i st s = set_proc i (record (s.procs i) { state = st }) s

-- procinit(), of the entries in use.
pub procinit_loop : ℕ → ℕ → Table → Table
procinit_loop zero i s = s
procinit_loop (suc k) i s =
    procinit_loop k (i + 1) (set_proc i (record (s.procs i) { lock = initlock; state = unused }) s)

pub procinit : Table → Table
unfolding procinit_loop
procinit s = procinit_loop nproc 0 (record s { pid_lock = initlock; wait_lock = initlock })

pub myproc : Cmd Table (Option ℕ)
myproc = do on_cpu push_off; p ← gets (λ s. s.current); on_cpu pop_off; pure p

pub allocpid : Cmd Table ℕ
allocpid = do
  on_pid_lock acquire
  pid ← gets (λ s. s.nextpid)
  modify (λ s. record s { nextpid = (s.nextpid + 1) % 2 ^ 32 })
  on_pid_lock release
  pure pid

abbrev pub is_proc : Option ℕ → ℕ → Bool
is_proc none i = false
is_proc (some j) i = j == i

-- A round of wakeup() at process `i`.
pub wakeup_round : ℕ → ℕ → Cmd Table (Unit {0})
unfolding myproc
wakeup_round chan i = do
  p ← myproc
  if is_proc p i then pure tt else (do
    on_proc i acquire
    hit ← gets (λ s. is_sleeping (s.procs i).state && ((s.procs i).chan == chan))
    if hit then modify (set_state i runnable) else pure tt
    on_proc i release)

-- The loop of wakeup() from process `i` on, with `k` processes left.
pub wakeup_loop : ℕ → ℕ → ℕ → Cmd Table (Unit {0})
unfolding wakeup_round
wakeup_loop chan zero i = pure tt
wakeup_loop chan (suc k) i = wakeup_round chan i >> wakeup_loop chan k (i + 1)

pub wakeup : ℕ → Cmd Table (Unit {0})
unfolding wakeup_loop
wakeup chan = wakeup_loop chan nproc 0

-- kill() once it has found process `i`, whose lock it has.
pub kill_hit : ℕ → Cmd Table ℤ
kill_hit i = do
  modify (λ s. set_proc i (record (s.procs i) { killed = true }) s)
  asleep ← gets (λ s. is_sleeping (s.procs i).state)
  if asleep then modify (set_state i runnable) else pure tt
  on_proc i release
  pure (pos 0)

-- The loop of kill().
pub kill_loop : ℕ → ℕ → ℕ → Cmd Table ℤ
unfolding kill_hit
kill_loop pid zero i = pure (negsuc 0)
kill_loop pid (suc k) i =
    let rest = on_proc i release >> kill_loop pid k (i + 1) in
    do on_proc i acquire; hit ← gets (λ s. (s.procs i).pid == pid); if hit then kill_hit i else rest

pub kill : ℕ → Cmd Table ℤ
unfolding kill_loop
kill pid = kill_loop pid nproc 0

pub setkilled : ℕ → Cmd Table (Unit {0})
setkilled i = do
  on_proc i acquire
  modify (λ s. set_proc i (record (s.procs i) { killed = true }) s)
  on_proc i release

pub killed : ℕ → Cmd Table Bool
killed i = do on_proc i acquire; k ← gets (λ s. (s.procs i).killed); on_proc i release; pure k

-- sched() of process `i` up to swtch(): its checks, and the `intena` that it keeps.
pub sched : ℕ → Cmd Table Bool
sched i = do
  mine ← gets (λ s. holding (record { cpu = s.cpu; lock = (s.procs i).lock }))
  if not mine then panicking else pure tt
  one ← gets (λ s. s.cpu.noff == 1)
  if not one then panicking else pure tt
  run ← gets (λ s. is_running (s.procs i).state)
  if run then panicking else pure tt
  intr ← gets (λ s. s.cpu.intr)
  if intr then panicking else pure tt
  gets (λ s. s.cpu.intena)

-- sched() after swtch().
abbrev pub sched_back : Bool → Cmd Table (Unit {0})
sched_back intena = modify (λ s. record s { cpu = record (s.cpu) { intena = intena } })

-- yield() of process `i`, up to swtch() and after it.
pub yield : ℕ → Cmd Table Bool
unfolding sched
yield i = do on_proc i acquire; modify (set_state i runnable); sched i

pub yield_back : ℕ → Bool → Cmd Table (Unit {0})
yield_back i intena = do sched_back intena; on_proc i release

-- sleep() of process `i`, up to swtch() and after it; `unlock` and `lock` free and take the lock that
-- the process passes.
pub sleep : Cmd Table (Unit {0}) → ℕ → ℕ → Cmd Table Bool
unfolding sched
sleep unlock i chan = do
  on_proc i acquire
  unlock
  modify (λ s. set_proc i (record (s.procs i) { chan = chan; state = sleeping }) s)
  sched i

pub sleep_back : Cmd Table (Unit {0}) → ℕ → Bool → Cmd Table (Unit {0})
sleep_back lock i intena = do
  sched_back intena
  modify (λ s. set_proc i (record (s.procs i) { chan = 0 }) s)
  on_proc i release
  lock

-- A round of the scheduler's loop at process `i`, up to swtch(): whether it switches to the process.
pub scheduler : ℕ → Cmd Table Bool
scheduler i = do
  on_proc i acquire
  can ← gets (λ s. is_runnable (s.procs i).state)
  if can
      then modify (λ s. record (set_state i running s) { current = some i })
      else on_proc i release
  pure can

-- The round after swtch() back from process `i`.
pub scheduler_back : ℕ → Cmd Table (Unit {0})
scheduler_back i = do modify (λ s. record s { current = none }); on_proc i release
