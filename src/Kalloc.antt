-- ===== src/Kalloc.antt =====
-- The page allocator of xv6-os/kernel/kalloc.c: a list of free pages, linked through the first
-- word of each page. The linker's symbol `end` is the parameter `kernel_end`.
pub mod FreeList
pub mod Range
pub mod Handout
mod Tests
use os_advanced_course.Base.{
  ℕ, zero, suc, ◌+◌, ◌*◌, ◌/◌, ◌%◌, ◌≡◌, Bool, not, ◌||◌, ltb, leb, ◌==◌, if◌then◌else◌, update, ok,
  out_of_fuel, Cmd, gets, modify, panicking, pure, ◌>>=◌, ◌>>◌, zoom,
}
use os_advanced_course.Riscv.{pgsize, phystop, pgroundup, Memory, fill}
use os_advanced_course.Spinlock.{Core, initlock, acquire, release}

-- `kmem`, with the CPU that runs the code and the memory.
pub record Kmem : Type 0 where
  pub core : Core
  pub freelist : ℕ
  pub mem : Memory

abbrev on_core : {A : Type 0} → Cmd Core A → Cmd Kmem A
on_core = zoom (λ s. s.core) (λ s c. record s { core = c })

-- kalloc(); the result 0 is the null pointer.
pub kalloc : Cmd Kmem ℕ
unfolding fill
kalloc = do
  on_core acquire
  r ← gets (λ s. s.freelist)
  if not (r == 0) then modify (λ s. record s { freelist = s.mem r }) else pure tt
  on_core release
  if not (r == 0) then modify (λ s. record s { mem = fill s.mem r 5 }) else pure tt
  pure r

module _ (kernel_end : ℕ) where
  pub kfree : ℕ → Cmd Kmem (Unit {0})
  unfolding fill
  kfree pa = do
    if not (pa % pgsize == 0) || ltb pa kernel_end || leb phystop pa then panicking else pure tt
    modify (λ s. record s { mem = fill s.mem pa 1 })
    on_core acquire
    modify (λ s. record s { mem = update s.mem pa s.freelist })
    modify (λ s. record s { freelist = pa })
    on_core release

  -- The loop of freerange(), on fuel.
  pub freerange_loop : ℕ → ℕ → ℕ → Cmd Kmem (Unit {0})
  freerange_loop zero p pa_end = λ s. out_of_fuel
  freerange_loop (suc k) p pa_end =
      let rest = kfree p >> freerange_loop k (p + pgsize) pa_end in
      if leb (p + pgsize) pa_end then rest else pure tt

  -- A round for each page below `pa_end`, and one for the last test.
  pub freerange : ℕ → ℕ → Cmd Kmem (Unit {0})
  unfolding freerange_loop
  freerange pa_start pa_end = freerange_loop (pa_end / pgsize + 1) (pgroundup pa_start) pa_end

  pub kinit : Cmd Kmem (Unit {0})
  unfolding freerange
  kinit = do
    modify (λ s. record s { core = record (s.core) { lock = initlock } })
    freerange kernel_end phystop
