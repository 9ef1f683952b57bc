-- ===== src/Kalloc/Range.antt =====
-- freerange() and kinit(): the free list that the kernel starts with.
use os_advanced_course.Base.{
  ℕ, zero, suc, ◌+◌, ◌-◌, ◌*◌, ◌/◌, ◌%◌, ◌≤◌, ◌<◌, ◌≡◌, ◌↔◌, refl, true, false, ◌&&◌, ◌||◌, List,
  [], ◌∷◌, ltb, leb, ◌==◌, has, All, All-mono, arith, Returns, Returns_bind, Returns_mono,
}
use os_advanced_course.Riscv.{pgsize, phystop, pgroundup}
use os_advanced_course.Spinlock.{initlock}
use os_advanced_course.Spinlock.Nesting.{IsNested}
use os_advanced_course.Kalloc.{Kmem, kfree, freerange_loop, freerange, kinit}
use os_advanced_course.Kalloc.FreeList.{IsPage, IsFree, kfree-cons}

-- `xs` with the `n` pages from `p` on in front, the last of them first.
abbrev pub added : ℕ → ℕ → List ℕ → List ℕ
added zero p xs = xs
added (suc n) p xs = added n (p + pgsize) (p ∷ xs)

has-added :
    (n p q : ℕ) (xs : List ℕ)
    → p % pgsize ≡ 0
    → has q (added n p xs) ≡ (((q % pgsize == 0) && leb p q && ltb q (p + n * pgsize)) || has q xs)
has-added zero p q xs al = ground arith
has-added (suc n) p q xs al = ground (arith, has-added n (p + pgsize) q (p ∷ xs) (omega arith))

not-has_of_lt : (p : ℕ) (xs : List ℕ) → All (λ x. x < p) xs → has p xs ≡ false
not-has_of_lt p [] h = refl
not-has_of_lt p (x ∷ xs) h = ground (arith, not-has_of_lt p xs h.1)

le→leb : (a b : ℕ) → a ≤ b → leb a b ≡ true
le→leb a b h = ground arith

gt→leb : (a b : ℕ) → b < a → leb a b ≡ false
gt→leb a b h = ground arith

module _ (e : ℕ) where
  -- The loop frees the `n` pages that fit between `p` and `pa_end`, if it has more than `n` rounds.
  freerange_loop-added :
      (n k p pa_end : ℕ) (s : Kmem) {xs : List ℕ}
      → IsFree e s xs
      → p % pgsize ≡ 0
      → e ≤ p
      → pa_end ≤ phystop
      → n < k
      → n * pgsize ≤ pa_end - p
      → pa_end < p + n * pgsize + pgsize
      → All (λ x. x < p) xs
      → Returns (freerange_loop e k p pa_end s) (λ _ t. IsFree e t (added n p xs))
  unfolding freerange_loop
  freerange_loop-added n zero p pa_end s f al low high fuel fits last below = absurd (omega arith)
  freerange_loop-added zero (suc k) p pa_end s f al low high fuel fits last below =
      rw (gt→leb (p + pgsize) pa_end (omega arith)) f
  freerange_loop-added (suc n) (suc k) p pa_end s {xs} f al low high fuel fits last below =
      rw (le→leb (p + pgsize) pa_end (omega arith)) (
        Returns_bind (λ _ t. IsFree e t (added n (p + pgsize) (p ∷ xs))) (kfree e p s) _
          (kfree-cons e s p f (al, low, omega arith) (not-has_of_lt p xs below))
          λ _ t g.
            freerange_loop-added n k (p + pgsize) pa_end t g (omega arith) (omega arith) high
              (omega arith) (omega arith) (omega arith)
              (omega arith, All-mono (λ x h. omega arith) xs below))

  -- freerange() with the lock free, of a range of physical memory above the kernel, on an empty
  -- free list: it returns, panics nowhere, and the free pages are exactly the whole pages of the
  -- range.
  pub freerange-pages :
      (pa_start pa_end : ℕ) {s : Kmem}
      → IsFree e s []
      → e ≤ pa_start
      → pa_start ≤ pa_end
      → pa_end ≤ phystop
      → Returns (freerange e pa_start pa_end s) (λ _ t.
        (xs : List ℕ) × IsFree e t xs
        × ((q : ℕ)
            → (has q xs ≡ true) ↔ ((q % pgsize ≡ 0) × (pa_start ≤ q) × (q + pgsize ≤ pa_end))))
  unfolding freerange
  freerange-pages pa_start pa_end {s} f low mid high =
      Returns_mono _ (freerange_loop e (pa_end / pgsize + 1) p pa_end s)
        (freerange_loop-added n (pa_end / pgsize + 1) p pa_end s f aligned (omega arith) high
          (omega arith) (omega arith) (omega arith) tt)
        λ _ t g. (added n p [], g, pages)
    where
      p : ℕ
      p = pgroundup pa_start

      n : ℕ
      n = (pa_end - p) / pgsize

      aligned : p % pgsize ≡ 0
      aligned = omega arith

      pages :
          (q : ℕ)
          → (has q (added n p []) ≡ true)
            ↔ ((q % pgsize ≡ 0) × (pa_start ≤ q) × (q + pgsize ≤ pa_end))
      pages q = rw (has-added n p q [] aligned) (ground arith)

  -- kinit() with an empty list, on a kernel that ends within physical memory: it returns, every
  -- page that kfree() accepts is free, and nothing else is.
  pub kinit-pages :
      (s : Kmem)
      → IsNested s.core.cpu
      → s.freelist ≡ 0
      → e ≤ phystop
      → Returns
          (kinit e s)
          (λ _ t. (xs : List ℕ) × IsFree e t xs × ((q : ℕ) → (has q xs ≡ true) ↔ IsPage e q))
  unfolding kinit
  kinit-pages s nested empty low =
      Returns_mono _ (freerange e e phystop s')
        (freerange-pages e phystop {s = s'}
          (record { idle = record { nested = nested; unlocked = refl }; chain = empty })
          (omega arith) low (omega arith))
        λ _ t (xs, f, pages).
          (xs, f, λ q. (λ h. ground (arith, pages q), λ h. (pages q).1 (omega arith)))
    where
      s' : Kmem
      s' = record s { core = record (s.core) { lock = initlock } }
