-- ===== src/Kalloc/FreeList.antt =====
-- The free list of kalloc.c, and what kalloc() and kfree() do to it.
use os_advanced_course.Base.{
  ℕ, ◌%◌, ◌≤◌, ◌<◌, ◌≡◌, refl, false, not, ◌||◌, List, [], ◌∷◌, ltb, leb, ◌==◌, update, has, arith,
  ok, panic, Returns,
}
use os_advanced_course.Riscv.{pgsize, phystop, Memory, fill}
use os_advanced_course.Spinlock.Nesting.{
  IsIdle, cycled, acquire-held, release-cycled, cycled-IsIdle,
}
use os_advanced_course.Kalloc.{Kmem, kalloc, kfree}

-- A page that kfree() takes.
abbrev pub IsPage : ℕ → ℕ → Type 0
IsPage kernel_end p = (p % pgsize ≡ 0) × (kernel_end ≤ p) × (p < phystop)

-- From `p` the first words of the pages lead through the distinct pages `xs` to the null pointer.
abbrev pub Chain : ℕ → Memory → ℕ → List ℕ → Type 0
Chain e m p [] = p ≡ 0
Chain e m p (x ∷ xs) = (p ≡ x) × IsPage e x × (has x xs ≡ false) × Chain e m (m x) xs

-- No lock is held, and the free pages are `xs`.
pub record IsFree (e : ℕ) (s : Kmem) (xs : List ℕ) : Type 0 where
  pub idle : IsIdle s.core
  pub chain : Chain e s.mem s.freelist xs

-- Filling a page, or writing its first word, leaves a chain of other pages alone.
pub Chain-fill :
    (e : ℕ) (m : Memory) (p : ℕ) (xs : List ℕ) (pa c : ℕ)
    → pa % pgsize ≡ 0
    → has pa xs ≡ false
    → Chain e m p xs
    → Chain e (fill m pa c) p xs
unfolding fill
Chain-fill e m p [] pa c al out ch = ch
Chain-fill e m p (x ∷ xs) pa c al out ch =
    (ch.0, ch.1, ch.2, rw same (Chain-fill e m (m x) xs pa c al (ground arith) ch.3))
  where
    same : fill m pa c x ≡ m x
    same = ground arith

pub Chain-update :
    (e : ℕ) (m : Memory) (p : ℕ) (xs : List ℕ) (pa v : ℕ)
    → has pa xs ≡ false
    → Chain e m p xs
    → Chain e (update m pa v) p xs
Chain-update e m p [] pa v out ch = ch
Chain-update e m p (x ∷ xs) pa v out ch =
    (ch.0, ch.1, ch.2, rw same (Chain-update e m (m x) xs pa v (ground arith) ch.3))
  where
    same : update m pa v x ≡ m x
    same = ground arith

module _ (e : ℕ) (s : Kmem) where
  -- kfree() with the lock free, of an aligned page of the allocator's memory that is not free,
  -- puts it at the front of the free list and frees the lock again.
  pub kfree-cons :
      (pa : ℕ) {xs : List ℕ}
      → IsFree e s xs
      → IsPage e pa
      → has pa xs ≡ false
      → Returns (kfree e pa s) (λ _ t. IsFree e t (pa ∷ xs))
  unfolding kfree
  kfree-cons pa {xs} f pg out =
      rw (test, acquire-held f.idle, release-cycled f.idle)
        (record {
          idle = cycled-IsIdle f.idle;
          chain = (
            refl,
            pg,
            out,
            rw first (
                Chain-update e (fill s.mem pa 1) s.freelist xs pa s.freelist out
                  (Chain-fill e s.mem s.freelist xs pa 1 pg.0 out f.chain)),
          );
        })
    where
      test : (not (pa % pgsize == 0) || ltb pa e || leb phystop pa) ≡ false
      test = ground arith

      first : update (fill s.mem pa 1) pa s.freelist pa ≡ s.freelist
      first = ground arith

  -- kfree() of anything else panics: a misaligned address, one below the end of the kernel, or one
  -- past physical memory.
  pub kfree-panic : (pa : ℕ) → ¬ (IsPage e pa) → kfree e pa s ≡ panic
  unfolding kfree
  kfree-panic pa h = ground arith

  -- kalloc() with no page left returns the null pointer and leaves the memory alone.
  pub kalloc-nil : IsFree e s [] → kalloc s ≡ ok 0 (record s { core = cycled s.core })
  unfolding kalloc
  kalloc-nil f = ground (arith, acquire-held f.idle, release-cycled f.idle, f.chain)

  pub kalloc-eq :
      (x : ℕ) {xs : List ℕ}
      → 0 < e
      → IsFree e s (x ∷ xs)
      → kalloc s ≡ ok x (record { core = cycled s.core; freelist = s.mem x; mem = fill s.mem x 5 })
  unfolding kalloc
  kalloc-eq x pos f = ground (arith, acquire-held f.idle, release-cycled f.idle, f.chain)

  -- kalloc() with the lock free and a page left, on a kernel that ends above address 0, takes the
  -- first page of the free list, fills it with junk, writes nowhere else, and leaves the other
  -- pages free.
  pub kalloc-cons :
      (x : ℕ) {xs : List ℕ}
      → 0 < e
      → IsFree e s (x ∷ xs)
      → Returns (kalloc s) (λ r t. (r ≡ x) × IsPage e r × IsFree e t xs × (t.mem ≡ fill s.mem x 5))
  kalloc-cons x {xs} pos f = rw (kalloc-eq x pos f) (
    refl,
    f.chain.1,
    record {
      idle = cycled-IsIdle f.idle;
      chain = Chain-fill e s.mem (s.mem x) xs x 5 (f.chain.1.0) f.chain.2 f.chain.3;
    },
    refl,
  )
