-- ===== src/Vm/Walk.antt =====
-- walk() that is to allocate.
use os_advanced_course.Base.{
  zero, suc, inl, inr, Bool-cases, Returns, Returns_mono, length, ℕ, ◌≤◌, ◌<◌, ◌≡◌, ◌≢◌, refl, ap,
  ◌∙◌, List, [], ◌∷◌, has, true, false, ◌==◌, update, arith, ne→==, ==_refl, ◌%◌,
}
use Prim.Native.Nat.{bit_or}
use os_advanced_course.Riscv.{pgsize, pgrounddown, Memory, fill}
use os_advanced_course.Spinlock.Nesting.{cycled, cycled-IsIdle}
use os_advanced_course.Kalloc.{Kmem}
use os_advanced_course.Kalloc.FreeList.{IsFree, Chain, Chain-fill, Chain-update, kalloc-eq}
use os_advanced_course.Vm.{pte_v, pa2pte, pte2pa, has_flag, walk_loop, clear_page}
use os_advanced_course.Vm.Bits.{entry, entry_valid, pte2pa-entry, bit_or_zero}
use os_advanced_course.Vm.Lookup.{slot, Found, slot-page, Unmapped, Road}

-- The pages `seen` are not free.
abbrev pub Apart : List ℕ → List ℕ → Type 0
Apart seen xs = (p : ℕ) → has p seen ≡ true → has p xs ≡ false

other_page :
    (a b : ℕ) (ys : List ℕ) → has (pgrounddown a) ys ≡ false → has (pgrounddown b) ys ≡ true → a ≢ b
other_page a b ys out in_it same =
    absurd (ground (arith, out, in_it, ap (λ c. has (pgrounddown c) ys) same))

-- What is found from the next level on, is found from this one.
Found-suc :
    (k va t n : ℕ) (seen : List ℕ) (s s' : Kmem) (r : ℕ) (u : Kmem)
    → t % pgsize ≡ 0
    → has_flag (s'.mem (slot (suc k) va t)) pte_v ≡ true
    → pte2pa (s'.mem (slot (suc k) va t)) ≡ n
    → ((a : ℕ) → has (pgrounddown a) seen ≡ true → s'.mem a ≡ s.mem a)
    → Found k va n (t ∷ seen) s' r u
    → Found (suc k) va t seen s r u
Found-suc k va t n seen s s' r u al there next same f = record {
  leads = rw (here, there, next) f.leads;
  stays = λ v. rw (elsewhere v, here, there, next) (f.stays v);
  page = outside (f.page);
  keeps = λ a i. f.keeps a (ground (arith, i)) ∙ same a i;
  unused = f.unused;
  mapped = f.mapped;
}
  where
    top : has (pgrounddown (slot (suc k) va t)) (t ∷ seen) ≡ true
    top = rw (slot-page (suc k) va t al, ==_refl t) refl

    here : u.mem (slot (suc k) va t) ≡ s'.mem (slot (suc k) va t)
    here = f.keeps (slot (suc k) va t) top

    outside : has (pgrounddown r) (t ∷ seen) ≡ false → has (pgrounddown r) seen ≡ false
    outside h = ground arith

    differs : (r == slot (suc k) va t) ≡ false
    differs = ne→== _ _ (other_page r (slot (suc k) va t) (t ∷ seen) f.page top)

    elsewhere : (v : ℕ) → update u.mem r v (slot (suc k) va t) ≡ u.mem (slot (suc k) va t)
    elsewhere v = rw differs refl

-- The state once walk() has allocated the page table `x` and stored its entry at `a`.
abbrev grown : ℕ → ℕ → Kmem → Kmem
grown x a s = record {
  core = cycled s.core;
  freelist = s.mem x;
  mem = update (fill (fill s.mem x 5) x 0) a (bit_or (pa2pte x) pte_v);
}

has-aligned :
    (e a : ℕ) (m : Memory) (p : ℕ) (xs : List ℕ)
    → Chain e m p xs
    → has (pgrounddown a) xs ≡ false
    → has a xs ≡ false
has-aligned e a m p [] c h = refl
has-aligned e a m p (x ∷ xs) c h = ground (arith, c.1.0, has-aligned e a m (m x) xs c.3)

grown-IsFree :
    (e x a : ℕ) (xs : List ℕ) (s : Kmem)
    → IsFree e s (x ∷ xs)
    → has (pgrounddown a) xs ≡ false
    → IsFree e (grown x a s) xs
grown-IsFree e x a xs s f out = record {
  idle = cycled-IsIdle f.idle;
  chain =
      Chain-update e (fill (fill s.mem x 5) x 0) (s.mem x) xs a (bit_or (pa2pte x) pte_v)
        (has-aligned e a s.mem (s.mem x) xs f.chain.3 out)
        (Chain-fill e (fill s.mem x 5) (s.mem x) xs x 0 (f.chain.1.0) f.chain.2
          (Chain-fill e s.mem (s.mem x) xs x 5 (f.chain.1.0) f.chain.2 f.chain.3));
}

grown_new :
    (x a b : ℕ) (s : Kmem)
    → x % pgsize ≡ 0
    → pgrounddown b ≡ x
    → pgrounddown a ≢ x
    → (grown x a s).mem b ≡ 0
unfolding fill
grown_new x a b s al i o = ground arith

grown_old :
    (x a b : ℕ) (s : Kmem)
    → x % pgsize ≡ 0
    → pgrounddown b ≢ x
    → a ≢ b
    → (grown x a s).mem b ≡ s.mem b
unfolding fill
grown_old x a b s al i o = ground arith

-- Nothing is mapped through an empty page table.
empty-Unmapped :
    (k va x : ℕ) (m : Memory)
    → ((b : ℕ) → pgrounddown b ≡ x → m b ≡ 0)
    → x % pgsize ≡ 0
    → Unmapped k m va x
empty-Unmapped zero va x m z al r h = ground (arith, z (slot 0 va x) (slot-page 0 va x al), h)
empty-Unmapped (suc k) va x m z al r h =
    ground (arith, z (slot (suc k) va x) (slot-page (suc k) va x al), h)

empty-Road :
    (k va x : ℕ) (m : Memory) (seen xs : List ℕ)
    → ((b : ℕ) → pgrounddown b ≡ x → m b ≡ 0)
    → 0 < x
    → x % pgsize ≡ 0
    → has x seen ≡ false
    → has x xs ≡ false
    → Road k m va x seen xs
empty-Road zero va x m seen xs z pos al o p = (pos, al, o, p)
empty-Road (suc k) va x m seen xs z pos al o p =
    (al, o, p, λ h. absurd (ground (arith, z (slot (suc k) va x) (slot-page (suc k) va x al), h)))

Apart-cons : (t : ℕ) (seen xs : List ℕ) → has t xs ≡ false → Apart seen xs → Apart (t ∷ seen) xs
Apart-cons t seen xs free apart p h = ground (arith, apart p)

-- What the new page table and its entry give to the rest of the walk.
record NewTable (k va t : ℕ) (seen : List ℕ) (s : Kmem) (x : ℕ) (xs : List ℕ) : Type 0 where
  positive : 0 < x
  outside : has (pgrounddown (slot (suc k) va t)) xs ≡ false
  road : Road k (grown x (slot (suc k) va t) s).mem va x (t ∷ seen) xs
  apart : Apart (t ∷ seen) xs
  unmapped : Unmapped k (grown x (slot (suc k) va t) s).mem va x
  valid : has_flag ((grown x (slot (suc k) va t) s).mem (slot (suc k) va t)) pte_v ≡ true
  next : pte2pa ((grown x (slot (suc k) va t) s).mem (slot (suc k) va t)) ≡ x
  same : (a : ℕ) → has (pgrounddown a) seen ≡ true → (grown x (slot (suc k) va t) s).mem a ≡ s.mem a

grown-entry : (x a : ℕ) (s : Kmem) → (grown x a s).mem a ≡ entry x 0
grown-entry x a s = rw (==_refl a, bit_or_zero (pa2pte x)) refl

grown-NewTable :
    (e k va t : ℕ) (seen : List ℕ) (s : Kmem) (x : ℕ) (xs : List ℕ)
    → 0 < e
    → IsFree e s (x ∷ xs)
    → t % pgsize ≡ 0
    → has t seen ≡ false
    → has t (x ∷ xs) ≡ false
    → Apart seen (x ∷ xs)
    → NewTable k va t seen s x xs
grown-NewTable e k va t seen s x xs lo f al out free apart = record {
  positive = omega (arith, lo, f.chain.1.1);
  outside = rw (slot-page (suc k) va t al) (ground (arith, free));
  road =
      empty-Road k va x _ (t ∷ seen) xs empty (omega (arith, lo, f.chain.1.1)) (f.chain.1.0)
        (ground (arith, apart x, apart_t)) (f.chain.2);
  apart = Apart-cons t seen xs (ground (arith, free)) (λ p h. ground (arith, apart p));
  unmapped = empty-Unmapped k va x _ empty (f.chain.1.0);
  valid = rw (grown-entry x (slot (suc k) va t) s) (entry_valid x 0);
  next =
      rw (grown-entry x (slot (suc k) va t) s)
        (pte2pa-entry x 0 (f.chain.1.0) (omega (arith, f.chain.1.2)) (omega arith));
  same = λ a i.
      grown_old x (slot (suc k) va t) a s (f.chain.1.0)
        (λ h. absurd (ground (arith, apart (pgrounddown a) i, h)))
        (other_page (slot (suc k) va t) a seen (rw (slot-page (suc k) va t al) out) i);
}
  where
    apart_t : t ≢ x
    apart_t h = absurd (ground (arith, free, h))

    empty : (b : ℕ) → pgrounddown b ≡ x → (grown x (slot (suc k) va t) s).mem b ≡ 0
    empty b i =
        grown_new x (slot (suc k) va t) b s (f.chain.1.0) i (rw (slot-page (suc k) va t al) apart_t)

-- walk() that is to allocate, with a free page for each level below, finds or makes the entry.
pub walk_loop-Found :
    (e : ℕ)
    → 0 < e
    → (k va t : ℕ) (seen : List ℕ) (s : Kmem) (xs : List ℕ) → IsFree e s xs
    → k ≤ length xs
    → Road k s.mem va t seen xs
    → Apart seen xs
    → Unmapped k s.mem va t
    → Returns (walk_loop k va true t s) (Found k va t seen s)
unfolding walk_loop clear_page
walk_loop-Found e lo zero va t seen s xs f l (pos, al, out, free) apart un = record {
  leads = refl;
  stays = λ v. refl;
  page = rw (slot-page 0 va t al) out;
  keeps = λ a i. refl;
  unused = un _ refl;
  mapped = λ h. absurd (omega arith);
}
walk_loop-Found e lo (suc k) va t seen s [] f l road apart un = absurd (omega arith)
walk_loop-Found e lo (suc k) va t seen s (x ∷ xs) f l (al, out, free, next) apart un =
    elim (Bool-cases (has_flag (s.mem (slot (suc k) va t)) pte_v)) [
      | inl there ↦ rw there (
          Returns_mono _ (walk_loop k va true (pte2pa (s.mem (slot (suc k) va t))) s)
            (walk_loop-Found e lo k va _ (t ∷ seen) s (x ∷ xs) f (omega arith) (next there)
              (Apart-cons t seen (x ∷ xs) free apart) (λ r h. un r (rw there h)))
            (λ r u. Found-suc k va t _ seen s s r u al there refl (λ a i. refl)))
      | inr gone ↦
          let g : NewTable k va t seen s x xs =
            grown-NewTable e k va t seen s x xs lo f al out free apart in
          rw (gone, kalloc-eq e s x lo f, ne→== x 0 (λ h. absurd (omega (arith, g.positive))))
            (Returns_mono _ (walk_loop k va true x (grown x (slot (suc k) va t) s))
              (walk_loop-Found e lo k va x (t ∷ seen) (grown x (slot (suc k) va t) s) xs
                (grown-IsFree e x (slot (suc k) va t) xs s f g.outside) (omega arith) g.road g.apart
                g.unmapped)
              (λ r u.
                Found-suc k va t x seen s (grown x (slot (suc k) va t) s) r u al g.valid g.next
                  g.same))
    ]
