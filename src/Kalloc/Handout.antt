-- ===== src/Kalloc/Handout.antt =====
-- The pages that kalloc() has handed out, over any sequence of calls.
use os_advanced_course.Base.{
  ℕ, suc, ◌+◌, ◌≤◌, ◌<◌, ◌≡◌, ◌≢◌, true, false, List, [], ◌∷◌, ◌==◌, if◌then◌else◌, has, length,
  arith, ok, Returns_ok,
}
use os_advanced_course.Spinlock.Nesting.{cycled, cycled-IsIdle}
use os_advanced_course.Kalloc.{Kmem, kalloc, kfree}
use os_advanced_course.Kalloc.FreeList.{
  IsPage, IsFree, kfree-cons, kalloc-cons, kalloc-nil, kalloc-eq,
}

-- The allocator, and the pages that its clients hold.
pub record Pages : Type 0 where
  pub kmem : Kmem
  pub out : List ℕ

abbrev pub remove : ℕ → List ℕ → List ℕ
remove a [] = []
remove a (x ∷ xs) = if a == x then xs else x ∷ remove a xs

module _ (e : ℕ) where
  -- A client takes a page, or gives back one that it holds; kalloc() may also return null.
  pub data Step (w v : Pages) : Type 0 where
    takes :
        (p : ℕ) (s : Kmem)
        → kalloc w.kmem ≡ ok p s
        → p ≢ 0
        → v ≡ record { kmem = s; out = p ∷ w.out }
        → Step w v
    fails : (s : Kmem) → kalloc w.kmem ≡ ok 0 s → v ≡ record { kmem = s; out = w.out } → Step w v
    gives :
        (p : ℕ) (s : Kmem)
        → has p w.out ≡ true
        → kfree e p w.kmem ≡ ok tt s
        → v ≡ record { kmem = s; out = remove p w.out }
        → Step w v

  pub data Reach (w : Pages) : Pages → Type 0 where
    here : Reach w w
    next : {u v : Pages} → Reach w u → Step u v → Reach w v

  -- A list of distinct pages.
  abbrev pub Distinct : List ℕ → Type 0
  Distinct [] = Unit
  Distinct (x ∷ xs) = IsPage e x × (has x xs ≡ false) × Distinct xs

  -- `n` pages in all, each of them free or handed out, and never both.
  pub record IsSound (n : ℕ) (w : Pages) : Type 0 where
    pub free : List ℕ
    pub is_free : IsFree e w.kmem free
    pub held : Distinct w.out
    pub apart : (q : ℕ) → has q free ≡ true → has q w.out ≡ false
    pub total : length free + length w.out ≡ n

  has-remove :
      (p q : ℕ) (xs : List ℕ)
      → Distinct xs
      → has q (remove p xs) ≡ (if p == q then false else has q xs)
  has-remove p q [] d = ground arith
  has-remove p q (x ∷ xs) d = ground (arith, has-remove p q xs d.2)

  Distinct-remove : (p : ℕ) (xs : List ℕ) → Distinct xs → Distinct (remove p xs)
  Distinct-remove p [] d = tt
  Distinct-remove p (x ∷ xs) d = ground (arith, Distinct-remove p xs d.2, has-remove p x xs d.2)

  length-remove : (p : ℕ) (xs : List ℕ) → has p xs ≡ true → suc (length (remove p xs)) ≡ length xs
  length-remove p [] h = absurd (ground arith)
  length-remove p (x ∷ xs) h = ground (arith, length-remove p xs)

  IsPage-of_has : (p : ℕ) (xs : List ℕ) → Distinct xs → has p xs ≡ true → IsPage e p
  IsPage-of_has p [] d h = absurd (ground arith)
  IsPage-of_has p (x ∷ xs) d h = ground (arith, IsPage-of_has p xs d.2)

  module _ (pos : 0 < e) (n : ℕ) where
    takes-IsSound :
        (fr : List ℕ) (w : Pages) {p : ℕ} {s : Kmem}
        → IsFree e w.kmem fr
        → Distinct w.out
        → ((q : ℕ) → has q fr ≡ true → has q w.out ≡ false)
        → length fr + length w.out ≡ n
        → kalloc w.kmem ≡ ok p s
        → p ≢ 0
        → IsSound n (record { kmem = s; out = p ∷ w.out })
    takes-IsSound [] w f held apart total call ne =
        absurd (ne (ground (arith, kalloc-nil e w.kmem f)))
    takes-IsSound (x ∷ xs) w {p} {s} f held apart total call ne = record {
      free = xs;
      is_free = (Returns_ok _ (kalloc w.kmem) p s call (kalloc-cons e w.kmem x pos f)).2;
      held = (rw head (f.chain.1), rw head (apart x (ground arith)), held);
      apart = λ q h. ground (arith, head, apart q, f.chain.2);
      total = omega arith;
    }
      where
        head : p ≡ x
        head = ground (arith, kalloc-eq e w.kmem x pos f)

    gives-IsSound :
        (w : Pages) (p : ℕ) (s : Kmem)
        → IsSound n w
        → has p w.out ≡ true
        → kfree e p w.kmem ≡ ok tt s
        → IsSound n (record { kmem = s; out = remove p w.out })
    gives-IsSound w p s w-sound owned call = record {
      free = p ∷ free;
      is_free =
          Returns_ok _ (kfree e p w.kmem) tt s call
            (kfree-cons e w.kmem p is_free (IsPage-of_has p w.out held owned) not_free);
      held = Distinct-remove p w.out held;
      apart = λ q h. ground (arith, has-remove p q w.out held, apart q);
      total = omega (arith, length-remove p w.out owned);
    }
      where
        open w-sound use {free, is_free, held, apart, total}

        not_free : has p free ≡ false
        not_free = ground (arith, apart p)

    fails-IsSound :
        (fr : List ℕ) (w : Pages) {s : Kmem}
        → IsFree e w.kmem fr
        → Distinct w.out
        → length fr + length w.out ≡ n
        → kalloc w.kmem ≡ ok 0 s
        → IsSound n (record { kmem = s; out = w.out }) × (length w.out ≡ n)
    fails-IsSound [] w {s} f held total call = (
      record {
        free = [];
        is_free = rw same (record { idle = cycled-IsIdle f.idle; chain = f.chain });
        held = held;
        apart = λ q h. ground arith;
        total = total;
      },
      omega arith,
    )
      where
        same : s ≡ record (w.kmem) { core = cycled w.kmem.core }
        same = ground (arith, kalloc-nil e w.kmem f)
    fails-IsSound (x ∷ xs) w f held total call =
        absurd (ground (arith, kalloc-eq e w.kmem x pos f, f.chain))

    Step-IsSound : {w v : Pages} → Step w v → IsSound n w → IsSound n v
    Step-IsSound {w} (takes p s call ne e') x =
        rw e' (takes-IsSound x.free w x.is_free x.held x.apart x.total call ne)
    Step-IsSound {w} (fails s call e') x =
        rw e' ((fails-IsSound x.free w x.is_free x.held x.total call).0)
    Step-IsSound {w} (gives p s owned call e') x = rw e' (gives-IsSound w p s x owned call)

    Reach-IsSound : {w v : Pages} → IsSound n w → Reach w v → IsSound n v
    Reach-IsSound x here = x
    Reach-IsSound x (next r st) = Step-IsSound st (Reach-IsSound x r)

    -- From a state in which `n` pages are free or handed out, and the kernel ends above address 0.
    -- After any sequence of kalloc() and kfree() calls in which clients free only what they hold:
    -- the pages handed out are distinct pages, at most `n` of them; the next kalloc() hands out no
    -- page that is still held; and it returns null only when all `n` pages are held.
    pub kalloc_fresh :
        {w v : Pages}
        → IsSound n w
        → Reach w v
        → Distinct v.out
          × (length v.out ≤ n)
          × ((p : ℕ) (s : Kmem) → kalloc v.kmem ≡ ok p s → p ≢ 0 → has p v.out ≡ false)
          × ((s : Kmem) → kalloc v.kmem ≡ ok 0 s → length v.out ≡ n)
    kalloc_fresh {v} x r = (
      y.held,
      omega (arith, y.total),
      λ p s call ne. (takes-IsSound y.free v y.is_free y.held y.apart y.total call ne).held.1,
      λ s call. (fails-IsSound y.free v y.is_free y.held y.total call).1,
    )
      where
        y : IsSound n v
        y = Reach-IsSound x r
