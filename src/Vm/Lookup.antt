-- ===== src/Vm/Lookup.antt =====
-- The entry of a virtual address, and what walk() finds and makes.
use os_advanced_course.Base.{
  ℕ, zero, suc, ◌+◌, ◌*◌, ◌%◌, ◌≡◌, ◌≢◌, ◌<◌, refl, List, ◌∷◌, has, Bool-cases, inl, inr, true,
  false, leb, if◌then◌else◌, update, arith, ok, Option, none, some, ◌/◌,
}
use os_advanced_course.Riscv.{pgsize, pgrounddown, Memory}
use os_advanced_course.Kalloc.{Kmem}
use os_advanced_course.Vm.{pte_v, pte2pa, has_flag, px, maxva, walk, walk_loop}

-- The entry of `va` in the page table `t` of a level.
abbrev pub slot : ℕ → ℕ → ℕ → ℕ
slot level va t = t + 8 * px level va

-- The entry of `va` in the tree below the page table `t` of a level, if its page tables are there.
abbrev pub leaf : ℕ → Memory → ℕ → ℕ → Option ℕ
leaf zero m va t = some (slot 0 va t)
leaf (suc k) m va t =
    let e = m (slot (suc k) va t) in
    let next = leaf k m va (pte2pa e) in if has_flag e pte_v then next else none

abbrev pub or_null : Option ℕ → ℕ
or_null none = 0
or_null (some a) = a

-- walk() that is not to allocate finds the entry, and changes nothing.
pub walk_loop-leaf :
    (k va t : ℕ) (s : Kmem) → walk_loop k va false t s ≡ ok (or_null (leaf k s.mem va t)) s
unfolding walk_loop
walk_loop-leaf zero va t s = refl
walk_loop-leaf (suc k) va t s = elim (Bool-cases (has_flag (s.mem (slot (suc k) va t)) pte_v)) [
  | inl there ↦ rw there (walk_loop-leaf k va _ s)
  | inr gone ↦ rw gone refl
]

pub walk-leaf :
    (va t : ℕ) (s : Kmem) → va < maxva → walk t va false s ≡ ok (or_null (leaf 2 s.mem va t)) s
unfolding walk
walk-leaf va t s l = rw (below) (walk_loop-leaf 2 va t s)
  where
    below : leb maxva va ≡ false
    below = ground arith

-- The page tables that `va` leads through from `t` on are distinct pages, neither among `seen`
-- nor free.
abbrev pub Road : ℕ → Memory → ℕ → ℕ → List ℕ → List ℕ → Type 0
Road zero m va t seen xs = (0 < t) × (t % pgsize ≡ 0) × (has t seen ≡ false) × (has t xs ≡ false)
Road (suc k) m va t seen xs =
    (t % pgsize ≡ 0)
    × (has t seen ≡ false)
    × (has t xs ≡ false)
    × (has_flag (m (slot (suc k) va t)) pte_v ≡ true
        → Road k m va (pte2pa (m (slot (suc k) va t))) (t ∷ seen) xs)

-- The word at an entry, if it is there, is not valid.
abbrev pub Unmapped : ℕ → Memory → ℕ → ℕ → Type 0
Unmapped k m va t = (r : ℕ) → leaf k m va t ≡ some r → has_flag (m r) pte_v ≡ false

-- walk() from `t` on has found or made the entry `r`, and has left the pages `seen` alone.
pub record Found (k va t : ℕ) (seen : List ℕ) (s : Kmem) (r : ℕ) (u : Kmem) : Type 0 where
  pub leads : leaf k u.mem va t ≡ some r
  pub stays : (v : ℕ) → leaf k (update u.mem r v) va t ≡ some r
  pub page : has (pgrounddown r) seen ≡ false
  pub keeps : (a : ℕ) → has (pgrounddown a) seen ≡ true → u.mem a ≡ s.mem a
  pub unused : has_flag (u.mem r) pte_v ≡ false
  pub mapped : r ≢ 0

pub px_lem : (level va : ℕ) → px level va < 512
px_lem level va = omega arith

pub slot-page : (level va t : ℕ) → t % pgsize ≡ 0 → pgrounddown (slot level va t) ≡ t
slot-page level va t al = omega (arith, px_lem level va)

-- The addresses of a page lead to the same entry.
pub leaf-page : (va b t : ℕ) (m : Memory) → b / pgsize ≡ va / pgsize → leaf 2 m b t ≡ leaf 2 m va t
leaf-page va b t m same = rw (two, one, none_below) refl
  where
    two : px 2 b ≡ px 2 va
    two = omega (arith, same)

    one : px 1 b ≡ px 1 va
    one = omega (arith, same)

    none_below : px 0 b ≡ px 0 va
    none_below = omega (arith, same)
