-- ===== src/Lifecycle/Reap.antt =====
-- wait(): a parent reaps a zombie child.
use os_advanced_course.Base.{to_int, ◌-◌, ℕ, ◌≡◌, ◌≢◌, true, ◌&&◌, ◌==◌, if◌then◌else◌, ok, some}
use os_advanced_course.Spinlock.{release, initlock, Cpu, Cpu, Spinlock, initlock, release}
use os_advanced_course.Spinlock.Nesting.{held}
use os_advanced_course.Proc.{Proc, Table}
use os_advanced_course.Lifecycle.{
  freeproc, cleared, Services, Kernel, cleared, freeproc, Waited, returned,
}

-- release() of the lock of wait() while another lock is held below it.
abbrev after_wait : Table → Table
after_wait t = record t {
  cpu = record (t.cpu) { noff = t.cpu.noff - 1; intr = (t.cpu.noff - 1 == 0) && t.cpu.intena };
  wait_lock = initlock;
}

abbrev locked_by : ℕ → Spinlock
locked_by c = record { locked = true; cpu = some c }

module _ {M : Type 0} (v : Services M) (address : ℕ → ℕ) where
  -- What wait() hands over and gives back when it reaps `child`: the exit status goes to the
  -- parent's memory, unless it does not ask for it, and the child's trapframe and page table are
  -- freed.
  pub record Frees (parent child : Proc) (dst : ℕ) (m m' : M) : Type 0 where
    pub stored : M
    pub unframed : M
    pub copies :
        (if dst == 0 then ok true m else v.copyout parent.pagetable dst child.xstate m)
        ≡ ok true stored
    pub frame : child.trapframe ≢ 0
    pub table : child.pagetable ≢ 0
    pub kfree : v.kfree child.trapframe stored ≡ ok tt unframed
    pub freepagetable : v.proc_freepagetable child.pagetable child.sz unframed ≡ ok tt m'

  -- What is left when `j` has been reaped.
  abbrev pub reaped : ℕ → Table → ℕ → Proc
  reaped j s q =
      if j == q then record (cleared v address (s.procs j)) { lock = initlock } else s.procs q

  abbrev pub Reaped : ℕ → Kernel v address → M → Waited v address → Kernel v address → Type 0
  Reaped j s m r t =
      (r ≡ returned (to_int (s.table.procs j).pid))
      × (t.mem ≡ m)
      × (t.table.wait_lock ≡ initlock)
      × ((q : ℕ) → t.table.procs q ≡ reaped j s.table q)

  -- The table once wait() has its lock.
  abbrev waiting : Table → Table
  waiting t = record t {
    cpu = (held (record { cpu = t.cpu; lock = initlock })).cpu;
    wait_lock = record { locked = true; cpu = some t.cpu.id };
  }
