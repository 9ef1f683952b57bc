-- ===== src/Lifecycle/Alloc.antt =====
-- allocproc() where it succeeds.
use os_advanced_course.Base.{
  Bool-cases, inl, inr, ne→==, ==_iff, ℕ, zero, suc, ◌≡◌, ◌≢◌, ◌+◌, ◌<◌, ◌≤◌, ◌%◌, ◌^◌, refl, ap,
  ◌∙◌, Bool, true, false, ◌==◌, if◌then◌else◌, arith, ok, Returns, Returns_mono, Option, some,
}
use os_advanced_course.Spinlock.{initlock}
use os_advanced_course.Spinlock.Nesting.{IsNested}
use os_advanced_course.Proc.{Table, used, is_unused, nproc}
use os_advanced_course.Proc.Locks.{
  allocpid_lem, IsCalm, taken, acquire-taken, taken_self, freed, release-freed,
}
use os_advanced_course.Proc.Wakeup.{Maps, Maps-IsCalm}
use os_advanced_course.Proc.Kill.{missed}
use os_advanced_course.Lifecycle.{Services, Kernel, allocproc_found, allocproc_loop, allocproc}

module _ {M : Type 0} (v : Services M) (address : ℕ → ℕ) where
  -- Process `j` has become that of a new process, with its lock held by this CPU.
  pub record Allocated (j frame pagetable : ℕ) (m : M) (s : Kernel v address) (r : Option ℕ)
      (t : Kernel v address) : Type 0 where
    pub result : r ≡ some j
    pub mem : t.mem ≡ m
    pub nextpid : t.table.nextpid ≡ (s.table.nextpid + 1) % 2 ^ 32
    pub procs :
        (q : ℕ)
        → t.table.procs q ≡ (
            if j == q
            then record (s.table.procs q) {
              lock = record { locked = true; cpu = some s.table.cpu.id };
              state = used;
              pid = s.table.nextpid;
              trapframe = frame;
              pagetable = pagetable;
            }
            else s.table.procs q)

  taken-IsNested : (j : ℕ) (s : Table) → IsNested (taken j s).cpu
  taken-IsNested j s = record { off = λ h. refl }

  allocproc_found-Allocated :
      (j frame pagetable : ℕ) (m m' : M) (s : Kernel v address)
      → IsCalm s.table
      → s.table.pid_lock ≡ initlock
      → v.kalloc s.mem ≡ ok frame m
      → frame ≢ 0
      → v.proc_pagetable frame m ≡ ok pagetable m'
      → pagetable ≢ 0
      → Returns
          (allocproc_found v address j (record s { table = taken j s.table }))
          (Allocated j frame pagetable m' s)
  unfolding allocproc_found
  allocproc_found-Allocated j frame pagetable m m' s c f e1 n1 e2 n2 =
      rw
        (
          allocpid_lem (taken j s.table) (taken-IsNested j s.table) f,
          e1,
          ne→== frame 0 n1,
          e2,
          ne→== pagetable 0 n2,
        )
        (record { result = refl; mem = refl; nextpid = refl; procs = λ q. ground arith })

  Allocated-Maps :
      (j frame pagetable : ℕ) (m : M) (s : Kernel v address) (u : Table) (r : Option ℕ)
      (t : Kernel v address)
      → Maps (λ q p. p) s.table u
      → Allocated j frame pagetable m (record s { table = u }) r t
      → Allocated j frame pagetable m s r t
  Allocated-Maps j frame pagetable m s u r t e a = record {
    result = a.result;
    mem = a.mem;
    nextpid = a.nextpid ∙ ap (λ x. (x.nextpid + 1) % 2 ^ 32) e.rest;
    procs = λ q. a.procs q ∙ rw (e.procs q, ap (λ x. x.nextpid) e.rest, ap (λ x. x.cpu.id) e.rest);
  }

  look :
      (i : ℕ) (s : Table) (b : Bool)
      → is_unused (s.procs i).state ≡ b
      → is_unused ((taken i s).procs i).state ≡ b
  look i s b h = ground arith

  allocproc_loop-Allocated :
      (k i j frame pagetable : ℕ) (m m' : M) (s : Kernel v address)
      → IsCalm s.table
      → s.table.pid_lock ≡ initlock
      → i ≤ j
      → j < i + k
      → ((q : ℕ) → i ≤ q → q < j → is_unused (s.table.procs q).state ≡ false)
      → is_unused (s.table.procs j).state ≡ true
      → v.kalloc s.mem ≡ ok frame m
      → frame ≢ 0
      → v.proc_pagetable frame m ≡ ok pagetable m'
      → pagetable ≢ 0
      → Returns (allocproc_loop v address k i s) (Allocated j frame pagetable m' s)
  unfolding allocproc_loop
  allocproc_loop-Allocated zero i j frame pagetable m m' s c f lo hi before here e1 n1 e2 n2 =
      absurd (omega arith)
  allocproc_loop-Allocated (suc k) i j frame pagetable m m' s c f lo hi before here e1 n1 e2 n2 =
      elim (Bool-cases (i == j)) [
        | inl at ↦
            rw ((==_iff i j).0 at, acquire-taken j s.table c, look j s.table true here)
              (allocproc_found-Allocated j frame pagetable m m' s c f e1 n1 e2 n2)
        | inr past ↦
            let u = freed s.table.cpu i (taken i s.table) in
            let same = missed i s.table c in
            rw
              (
                acquire-taken i s.table c,
                look i s.table false (before i (omega arith) (ground arith)),
                release-freed i (taken i s.table) (taken_self i s.table c),
              )
              (Returns_mono _ (allocproc_loop v address k (i + 1) (record s { table = u }))
                (allocproc_loop-Allocated k (i + 1) j frame pagetable m m' (record s { table = u })
                  (Maps-IsCalm same (λ q p. refl) c) f (ground arith) (omega arith)
                  (λ q lo' hi'. rw (same.procs q) (before q (omega arith) hi'))
                  (rw (same.procs j) here) e1 n1 e2 n2)
                (λ r t. Allocated-Maps j frame pagetable m' s u r t same))
      ]

  -- With no process's lock held and that of the pids free, where `j` is the first unused process
  -- and its two allocations succeed, allocproc() returns `j`, used, with the next pid and what
  -- was allocated, its lock held by this CPU, and all else of it as the last process has left it;
  -- the counter of pids has stepped, and no other process has changed.
  pub allocproc-Allocated :
      (j frame pagetable : ℕ) (m m' : M) (s : Kernel v address)
      → IsCalm s.table
      → s.table.pid_lock ≡ initlock
      → j < nproc
      → ((q : ℕ) → q < j → is_unused (s.table.procs q).state ≡ false)
      → is_unused (s.table.procs j).state ≡ true
      → v.kalloc s.mem ≡ ok frame m
      → frame ≢ 0
      → v.proc_pagetable frame m ≡ ok pagetable m'
      → pagetable ≢ 0
      → Returns (allocproc v address s) (Allocated j frame pagetable m' s)
  unfolding allocproc
  allocproc-Allocated j frame pagetable m m' s c f hi before here =
      allocproc_loop-Allocated nproc 0 j frame pagetable m m' s c f (omega arith) hi
        (λ q lo. before q) here
