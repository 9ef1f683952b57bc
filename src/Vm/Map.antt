-- ===== src/Vm/Map.antt =====
-- mappages() of a page, and walkaddr() after it.
use os_advanced_course.Base.{
  ℕ, ◌+◌, ◌-◌, ◌/◌, ◌%◌, ◌^◌, ◌≡◌, ◌≢◌, ◌≤◌, ◌<◌, refl, ◌∙◌, List, [], length, Bool, true, false,
  ◌==◌, leb, update, arith, ok, Returns, Returns_run, some, Cmd, pure, ◌>>=◌, ==_refl, ne→==,
}
use os_advanced_course.Riscv.{word_size, pgsize}
use os_advanced_course.Kalloc.{Kmem}
use os_advanced_course.Kalloc.FreeList.{IsFree}
use os_advanced_course.Vm.{
  pte_v, pte_u, has_flag, maxva, walk, walkaddr, walk_loop, mappages, mappages_loop, walk_loop,
}
use os_advanced_course.Vm.Bits.{entry, entry_valid, entry_user, pte2pa-entry}
use os_advanced_course.Vm.Lookup.{leaf, Road, Unmapped, walk_loop-leaf, leaf-page}
use os_advanced_course.Vm.Walk.{walk_loop-Found}

-- walkaddr() of an address that a user page is mapped at.
walkaddr-entry :
    (va t r pa perm : ℕ) (s : Kmem)
    → va < maxva
    → leaf 2 s.mem va t ≡ some r
    → r ≢ 0
    → s.mem r ≡ entry pa perm
    → pa % pgsize ≡ 0
    → pa < 2 ^ 56
    → perm < 2 ^ 10
    → has_flag perm pte_u ≡ true
    → walkaddr t va s ≡ ok pa s
unfolding walkaddr
walkaddr-entry va t r pa perm s l found nz e al hi small u =
    rw
      (
        below,
        walk_loop-leaf 2 va t s,
        found,
        ne→== r 0 nz,
        e,
        entry_valid pa perm,
        entry_user pa perm hi u,
        pte2pa-entry pa perm al hi small,
      )
      refl
  where
    below : leb maxva va ≡ false
    below = ground arith

-- The state after the entry is stored.
abbrev mapped : ℕ → ℕ → ℕ → Kmem → Kmem
mapped r pa perm u = record u { mem = update u.mem r (entry pa perm) }

mappages-walk :
    (va pa perm t r : ℕ) (s u : Kmem)
    → va < maxva
    → va % pgsize ≡ 0
    → walk_loop 2 va true t s ≡ ok r u
    → r ≢ 0
    → has_flag (u.mem r) pte_v ≡ false
    → mappages t va pgsize pa perm s ≡ ok true (mapped r pa perm u)
unfolding mappages mappages_loop walk
mappages-walk va pa perm t r s u l al run nz un = rw (al, below, run, ne→== r 0 nz, un, last) refl
  where
    below : leb maxva va ≡ false
    below = ground arith

    last : (va == (va + pgsize + word_size - pgsize) % word_size) ≡ true
    last = ground arith

-- mappages() of one page, and then a look at where an address leads.
abbrev pub map_and_look : ℕ → ℕ → ℕ → ℕ → ℕ → Cmd Kmem (Bool × ℕ)
map_and_look t va pa perm b = do
  done ← mappages t va pgsize pa perm
  a ← walkaddr t b
  pure (done, a)

-- Where two pages are free, the page tables that a page-aligned address leads through are distinct
-- pages that are not free, and nothing is mapped at the address: mappages() of a page for the user
-- at that address succeeds, allocating the page tables that are missing, and for each address of the
-- page walkaddr() then gives the physical page that was mapped.
pub mappages-walkaddr :
    (e va pa perm t b : ℕ) (s : Kmem) (xs : List ℕ)
    → 0 < e
    → IsFree e s xs
    → 2 ≤ length xs
    → Road 2 s.mem va t [] xs
    → Unmapped 2 s.mem va t
    → va < maxva
    → va % pgsize ≡ 0
    → pa % pgsize ≡ 0
    → pa < 2 ^ 56
    → perm < 2 ^ 10
    → has_flag perm pte_u ≡ true
    → b / pgsize ≡ va / pgsize
    → Returns (map_and_look t va pa perm b s) (λ r u. r ≡ (true, pa))
mappages-walkaddr e va pa perm t b s xs lo f two road un l al pal hi small user same =
    let w =
      Returns_run (walk_loop 2 va true t s)
        (walk_loop-Found e lo 2 va t [] s xs f two road (λ p h. absurd (ground arith)) un) in
    let r = w.0 in
    let u = w.1 in
    let found = w.3 in
    rw
      (
        mappages-walk va pa perm t r s u l al w.2 found.mapped found.unused,
        walkaddr-entry b t r pa perm (mapped r pa perm u) (omega arith)
            (leaf-page va b t (mapped r pa perm u).mem same ∙ found.stays (entry pa perm))
            found.mapped (rw (==_refl r) refl) pal hi small user,
      )
      refl
