-- ===== src/Vm/Tests.antt =====
-- The page tables at concrete states.
use os_advanced_course.Base.{ℕ, ◌≡◌, refl, true, List, [], ◌∷◌, update, Returns, arith}
use os_advanced_course.Spinlock.Nesting.{idle_core, idle_core-IsIdle}
use os_advanced_course.Kalloc.{Kmem}
use os_advanced_course.Kalloc.FreeList.{IsFree}
use os_advanced_course.Vm.Map.{map_and_look, mappages-walkaddr}

-- The pages at 8192 and 12288 are free; the page table at 4096 is empty.
abbrev kmem0 : Kmem
kmem0 = record { core = idle_core; freelist = 8192; mem = update (λ a. 0) 8192 12288 }

abbrev free0 : List ℕ
free0 = 8192 ∷ 12288 ∷ []

kmem0-IsFree : IsFree 4096 kmem0 free0
kmem0-IsFree = record {
  idle = idle_core-IsIdle;
  chain = (
    refl,
    (refl, omega arith, omega arith),
    refl,
    (refl, (refl, omega arith, omega arith), refl, refl),
  );
}

-- The user's address 20480 is to be the page 40960.
mappages-walkaddr_example :
    Returns (map_and_look 4096 20480 40960 18 20485 kmem0) (λ r u. r ≡ (true, 40960))
mappages-walkaddr_example =
    mappages-walkaddr 4096 20480 40960 18 4096 20485 kmem0 free0 (omega arith) kmem0-IsFree
      (omega arith) (refl, refl, refl, λ h. absurd (ground arith))
      (λ r h. absurd (ground (arith, h))) (omega arith) refl refl (omega arith) (omega arith) refl
      refl
