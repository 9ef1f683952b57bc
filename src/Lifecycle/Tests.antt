-- ===== src/Lifecycle/Tests.antt =====
-- The life of a process at concrete states, over a memory that is a counter of the pages handed out.
use os_advanced_course.Base.{
  ℕ, ◌+◌, refl, true, false, Cmd, gets, modify, pure, ◌>>=◌, ◌>>◌, some, none, update, Returns,
  arith,
}
use os_advanced_course.Spinlock.{initlock}
use os_advanced_course.Spinlock.Nesting.{idle_cpu}
use os_advanced_course.Proc.{Proc, Table, unused, sleeping, running, zombie}
use os_advanced_course.Proc.Locks.{IsCalm}
use os_advanced_course.Lifecycle.{Services, Kernel, allocproc}
use os_advanced_course.Lifecycle.Alloc.{Allocated, allocproc-Allocated}

abbrev next_page : Cmd ℕ ℕ
next_page = do n ← gets (λ m. m); modify (λ m. m + 4096); pure n

abbrev counter : Services ℕ
counter = record {
  kalloc = next_page;
  kfree = λ p. pure tt;
  proc_pagetable = λ p. next_page;
  proc_freepagetable = λ p n. pure tt;
  uvmcopy = λ p q n. pure true;
  copyout = λ p a x. pure true;
  copy_trapframe = λ p q. pure tt;
  filedup = λ f. pure f;
  fileclose = λ f. pure tt;
  idup = λ d. pure d;
  iput = λ d. pure tt;
  begin_op = pure tt;
  end_op = pure tt;
}

abbrev address : ℕ → ℕ
address i = 4096 + i

abbrev blank : Proc
blank = record {
  lock = initlock;
  state = unused;
  chan = 0;
  killed = false;
  xstate = 0;
  pid = 0;
  parent = none;
  sz = 0;
  pagetable = 0;
  trapframe = 0;
  ofile = λ fd. 0;
  cwd = 0;
}

-- Process 0 is init and waits, process 1 runs, and its child 2 is a zombie.
abbrev table0 : Table
table0 = record {
  cpu = record idle_cpu { intena = true };
  current = some 1;
  procs =
      update
        (update
          (update (λ j. blank) 0 (record blank { state = sleeping; chan = address 0; pid = 1 })) 1
          (record blank { state = running; pid = 2; parent = some 0 }))
        2
        (record blank { state = zombie; pid = 3; parent = some 1; pagetable = 8; trapframe = 16 });
  lk = initlock;
  wait_lock = initlock;
  pid_lock = initlock;
  nextpid = 4;
  initproc = 0;
}

abbrev kernel0 : Kernel counter address
kernel0 = record { table = table0; mem = 40960 }

table0-IsCalm : IsCalm table0
table0-IsCalm = record {
  nested = record { off = λ h. absurd (omega arith) };
  free = λ j. ground arith;
}

allocproc-Allocated_example :
    Returns
      (allocproc counter address kernel0)
      (Allocated counter address 3 40960 45056 49152 kernel0)
allocproc-Allocated_example =
    allocproc-Allocated counter address 3 40960 45056 45056 49152 kernel0 table0-IsCalm refl
      (omega arith) (λ q l. ground arith) refl refl (λ h. absurd (omega arith)) refl
      (λ h. absurd (omega arith))
