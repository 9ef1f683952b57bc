-- ===== src/Lifecycle.antt =====
-- The life of a process in xv6-os/kernel/proc.c: allocproc(), freeproc(), fork(), reparent(),
-- exit() and wait(). What they call of the memory, the file table and the file system is the
-- interface `Services` over a state `M` of those components. The argument `i` of a function is
-- myproc().
pub mod Alloc
pub mod Parents
pub mod Reap
pub mod Scan
mod Tests
use os_advanced_course.Base.{
  to_int, ℕ, zero, suc, ◌+◌, Bool, true, false, not, ◌&&◌, ◌||◌, Option, none, some, ◌==◌,
  if◌then◌else◌, update, ℤ, pos, negsuc, Run, ok, Cmd, gets, modify, panicking, pure, ◌>>=◌, ◌>>◌,
  zoom,
}
use os_advanced_course.Spinlock.{acquire, release}
use os_advanced_course.Proc.{
  Proc, Table, ProcState, unused, used, runnable, zombie, is_unused, is_zombie, is_proc, nproc,
  set_proc, set_state, on_proc, on_wait_lock, allocpid, myproc, wakeup, killed, sched, sleep,
}

abbrev pub nofile : ℕ
nofile = 16

-- 0 is the null pointer; the Booleans tell of success.
pub record Services (M : Type 0) : Type 0 where
  pub kalloc : Cmd M ℕ
  pub kfree : ℕ → Cmd M (Unit {0})
  pub proc_pagetable : ℕ → Cmd M ℕ
  pub proc_freepagetable : ℕ → ℕ → Cmd M (Unit {0})
  pub uvmcopy : ℕ → ℕ → ℕ → Cmd M Bool
  pub copyout : ℕ → ℕ → ℕ → Cmd M Bool
  pub copy_trapframe : ℕ → ℕ → Cmd M (Unit {0})
  pub filedup : ℕ → Cmd M ℕ
  pub fileclose : ℕ → Cmd M (Unit {0})
  pub idup : ℕ → Cmd M ℕ
  pub iput : ℕ → Cmd M (Unit {0})
  pub begin_op : Cmd M (Unit {0})
  pub end_op : Cmd M (Unit {0})

-- `address` is that of a process's `struct proc`, the channel that it waits on for its children.
module _ {M : Type 0} (v : Services M) (address : ℕ → ℕ) where
  pub record Kernel : Type 0 where
    pub table : Table
    pub mem : M

  abbrev pub on_table : {A : Type 0} → Cmd Table A → Cmd Kernel A
  on_table = zoom (λ s. s.table) (λ s t. record s { table = t })

  abbrev pub on_mem : {A : Type 0} → Cmd M A → Cmd Kernel A
  on_mem = zoom (λ s. s.mem) (λ s m. record s { mem = m })

  abbrev pub proc_of : ℕ → Cmd Kernel Proc
  proc_of i = gets (λ s. s.table.procs i)

  abbrev pub change : ℕ → (Proc → Proc) → Cmd Kernel (Unit {0})
  change i f = modify (λ s. record s { table = set_proc i (f (s.table.procs i)) s.table })

  -- The fields that freeproc() sets; the name is not in this model.
  abbrev pub cleared : Proc → Proc
  cleared p = record p {
    trapframe = 0;
    pagetable = 0;
    sz = 0;
    pid = 0;
    parent = none;
    chan = 0;
    killed = false;
    xstate = 0;
    state = unused;
  }

  pub freeproc : ℕ → Cmd Kernel (Unit {0})
  freeproc i = do
    p ← proc_of i
    if not (p.trapframe == 0) then on_mem (v.kfree p.trapframe) else pure tt
    if not (p.pagetable == 0) then on_mem (v.proc_freepagetable p.pagetable p.sz) else pure tt
    change i cleared

  -- allocproc() once it has found process `i` unused; `none` is the null pointer.
  pub allocproc_found : ℕ → Cmd Kernel (Option ℕ)
  unfolding freeproc
  allocproc_found i = do
    pid ← on_table allocpid
    change i (λ p. record p { pid = pid; state = used })
    frame ← on_mem v.kalloc
    change i (λ p. record p { trapframe = frame })
    if frame == 0 then (do freeproc i; on_table (on_proc i release); pure none) else (do
      table ← on_mem (v.proc_pagetable frame)
      change i (λ p. record p { pagetable = table })
      if table == 0
          then (do freeproc i; on_table (on_proc i release); pure none)
          else pure (some i))

  pub allocproc_loop : ℕ → ℕ → Cmd Kernel (Option ℕ)
  unfolding allocproc_found
  allocproc_loop zero i = pure none
  allocproc_loop (suc k) i =
      let rest = on_table (on_proc i release) >> allocproc_loop k (i + 1) in
      do
        on_table (on_proc i acquire)
        p ← proc_of i
        if is_unused p.state then allocproc_found i else rest

  pub allocproc : Cmd Kernel (Option ℕ)
  unfolding allocproc_loop
  allocproc = allocproc_loop nproc 0

  -- The loop of fork() over the open files of process `i`, for its child `n`.
  pub dup_loop : ℕ → ℕ → ℕ → ℕ → Cmd Kernel (Unit {0})
  dup_loop i n zero fd = pure tt
  dup_loop i n (suc k) fd = do
    p ← proc_of i
    if p.ofile fd == 0 then pure tt else (do
      f ← on_mem (v.filedup (p.ofile fd))
      change n (λ q. record q { ofile = update q.ofile fd f }))
    dup_loop i n k (fd + 1)

  -- fork() once the child `n` of process `i` is allocated, with its lock held.
  pub fork_child : ℕ → ℕ → Cmd Kernel ℤ
  unfolding freeproc dup_loop
  fork_child i n = do
    p ← proc_of i
    np ← proc_of n
    copied ← on_mem (v.uvmcopy p.pagetable np.pagetable p.sz)
    if not copied then (do freeproc n; on_table (on_proc n release); pure (negsuc 0)) else (do
      change n (λ q. record q { sz = p.sz })
      on_mem (v.copy_trapframe np.trapframe p.trapframe)
      dup_loop i n nofile 0
      d ← on_mem (v.idup p.cwd)
      change n (λ q. record q { cwd = d })
      child ← proc_of n
      on_table (on_proc n release)
      on_table (on_wait_lock acquire)
      change n (λ q. record q { parent = some i })
      on_table (on_wait_lock release)
      on_table (on_proc n acquire)
      change n (λ q. record q { state = runnable })
      on_table (on_proc n release)
      pure (to_int child.pid))

  pub fork : ℕ → Cmd Kernel ℤ
  unfolding allocproc fork_child
  fork i = do np ← allocproc; elim np [ none ↦ pure (negsuc 0) | some n ↦ fork_child i n ]

  -- The loop of reparent() of process `i`.
  pub reparent_loop : ℕ → ℕ → ℕ → Cmd Table (Unit {0})
  reparent_loop i zero j = pure tt
  reparent_loop i (suc k) j = do
    s ← gets (λ s. s)
    if is_proc (s.procs j).parent i
        then (do
          modify (set_proc j (record (s.procs j) { parent = some s.initproc }))
          wakeup (address s.initproc))
        else pure tt
    reparent_loop i k (j + 1)

  pub reparent : ℕ → Cmd Table (Unit {0})
  unfolding reparent_loop
  reparent i = reparent_loop i nproc 0

  -- The loop of exit() over the open files.
  pub close_loop : ℕ → ℕ → ℕ → Cmd Kernel (Unit {0})
  close_loop i zero fd = pure tt
  close_loop i (suc k) fd = do
    p ← proc_of i
    if p.ofile fd == 0 then pure tt else (do
      on_mem (v.fileclose (p.ofile fd))
      change i (λ q. record q { ofile = update q.ofile fd 0 }))
    close_loop i k (fd + 1)

  -- exit() of process `i`, up to the switch in sched(), from which it does not come back.
  pub exit : ℕ → ℕ → Cmd Kernel Bool
  unfolding close_loop reparent
  exit i status = do
    s ← gets (λ s. s)
    if i == s.table.initproc then panicking else pure tt
    close_loop i nofile 0
    on_mem v.begin_op
    p ← proc_of i
    on_mem (v.iput p.cwd)
    on_mem v.end_op
    change i (λ q. record q { cwd = 0 })
    on_table (on_wait_lock acquire)
    on_table (reparent i)
    q ← proc_of i
    on_table (wakeup (elim q.parent [ none ↦ 0 | some j ↦ address j ]))
    on_table (on_proc i acquire)
    change i (λ q. record q { xstate = status; state = zombie })
    on_table (on_wait_lock release)
    on_table (sched i)

  -- How a call of wait() ends: it returns, or it sleeps, and scans again when woken.
  pub data Waited : Type 0 where
    returned : ℤ → Waited
    slept : Bool → Waited

  -- wait() once it has found the zombie `j`, whose lock it has.
  pub wait_found : ℕ → ℕ → ℕ → Cmd Kernel Waited
  unfolding freeproc
  wait_found i dst j = do
    p ← proc_of i
    child ← proc_of j
    stored ← (if dst == 0 then pure true else on_mem (v.copyout p.pagetable dst child.xstate))
    if stored then freeproc j else pure tt
    on_table (on_proc j release)
    on_table (on_wait_lock release)
    pure (returned (if stored then to_int child.pid else negsuc 0))

  -- The end of a scan that has found no zombie.
  pub wait_none : ℕ → Bool → Cmd Kernel Waited
  wait_none i havekids = do
    dead ← (if havekids then on_table (killed i) else pure true)
    if dead
        then (do on_table (on_wait_lock release); pure (returned (negsuc 0)))
        else (do b ← on_table (sleep (on_wait_lock release) i (address i)); pure (slept b))

  -- The scan of wait() by process `i` from process `j` on.
  pub wait_loop : ℕ → ℕ → ℕ → ℕ → Bool → Cmd Kernel Waited
  unfolding wait_found wait_none
  wait_loop i dst zero j havekids = wait_none i havekids
  wait_loop i dst (suc k) j havekids =
      let other = wait_loop i dst k (j + 1) havekids in
      let child = (do
        on_table (on_proc j acquire)
        p ← proc_of j
        let rest = (do on_table (on_proc j release); wait_loop i dst k (j + 1) true)
        if is_zombie p.state then wait_found i dst j else rest) in
      do p ← proc_of j; if is_proc p.parent i then child else other

  pub wait : ℕ → ℕ → Cmd Kernel Waited
  unfolding wait_loop
  wait i dst = do on_table (on_wait_lock acquire); wait_loop i dst nproc 0 false
