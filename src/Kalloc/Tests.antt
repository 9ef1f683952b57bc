-- ===== src/Kalloc/Tests.antt =====
-- The page allocator at concrete states.
use os_advanced_course.Base.{ℕ, ◌≤◌, ◌≡◌, ◌≢◌, refl, false, [], ◌∷◌, has, length, arith, ok}
use os_advanced_course.Riscv.{fill}
use os_advanced_course.Spinlock.{acquire, release}
use os_advanced_course.Spinlock.Nesting.{cycled, idle_core, idle_core-IsIdle}
use os_advanced_course.Kalloc.{Kmem, kalloc}
use os_advanced_course.Kalloc.FreeList.{IsFree}
use os_advanced_course.Kalloc.Handout.{
  Pages, takes, Reach, here, next, Distinct, IsSound, kalloc_fresh,
}

abbrev last : ℕ
last = 0x87fff000

abbrev before : ℕ
before = 0x87ffe000

-- Nothing is free.
abbrev empty : Kmem
empty = record { core = idle_core; freelist = 0; mem = λ a. 0 }

-- One page is free.
abbrev single : Kmem
single = record empty { freelist = last }

empty-IsFree : IsFree 1 empty []
empty-IsFree = record { idle = idle_core-IsIdle; chain = refl }

single-IsFree : IsFree 1 single (last ∷ [])
single-IsFree = record { idle = idle_core-IsIdle; chain = (refl, omega arith, refl, refl) }

abbrev pages0 : Pages
pages0 = record { kmem = single; out = [] }

abbrev pages1 : Pages
pages1 = record {
  kmem = record { core = cycled single.core; freelist = 0; mem = fill single.mem last 5 };
  out = last ∷ [];
}

pages-Reach : Reach 1 pages0 pages1
unfolding kalloc acquire release
pages-Reach = next here (takes last pages1.kmem refl (λ h. omega arith) refl)

pages0-IsSound : IsSound 1 1 pages0
pages0-IsSound = record {
  free = last ∷ [];
  is_free = single-IsFree;
  held = tt;
  apart = λ q h. refl;
  total = refl;
}

kalloc_fresh_example :
    Distinct 1 pages1.out
    × (length pages1.out ≤ 1)
    × ((p : ℕ) (s : Kmem) → kalloc pages1.kmem ≡ ok p s → p ≢ 0 → has p pages1.out ≡ false)
    × ((s : Kmem) → kalloc pages1.kmem ≡ ok 0 s → length pages1.out ≡ 1)
kalloc_fresh_example = kalloc_fresh 1 (omega arith) 1 pages0-IsSound pages-Reach
