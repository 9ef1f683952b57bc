-- ===== src/Spinlock/Exclusion.antt =====
-- CPUs that acquire and release one lock, in any order.
use os_advanced_course.Base.{ℕ, ◌≡◌, Bool, true, false, some, arith, ok, update}
use os_advanced_course.Spinlock.{Cpu, Spinlock, Core, initlock, holding, acquire, release}

-- The CPUs, the lock, and which CPUs stand between a return of acquire() and the next release().
pub record World : Type 0 where
  pub cpus : ℕ → Cpu
  pub lock : Spinlock
  pub inside : ℕ → Bool

abbrev pub core : World → ℕ → Core
core w i = record { cpu = w.cpus i; lock = w.lock }

abbrev pub after : World → ℕ → Core → Bool → World
after w i s b = record { cpus = update w.cpus i s.cpu; lock = s.lock; inside = update w.inside i b }

-- CPU `i` makes a call that returns. A call that spins has no step until it can return.
pub data Step (w : World) (v : World) : Type 0 where
  acquires : (i : ℕ) (s : Core) → acquire (core w i) ≡ ok tt s → v ≡ after w i s true → Step w v
  releases : (i : ℕ) (s : Core) → release (core w i) ≡ ok tt s → v ≡ after w i s false → Step w v

pub data Reach (w : World) : World → Type 0 where
  here : Reach w w
  next : {u v : World} → Reach w u → Step u v → Reach w v

-- Each CPU has its own index, and the CPU inside is the one that the lock names.
pub record IsExclusive (w : World) : Type 0 where
  pub ids : (i : ℕ) → (w.cpus i).id ≡ i
  pub owner : (i : ℕ) → w.inside i ≡ true → holding (core w i) ≡ true

acquire-free : (s : Core) {t : Core} → acquire s ≡ ok tt t → s.lock.locked ≡ false
unfolding acquire
acquire-free s e = ground arith

acquire-owns :
    (s : Core) {t : Core}
    → acquire s ≡ ok tt t
    → (t.lock ≡ record { locked = true; cpu = some s.cpu.id }) × (t.cpu.id ≡ s.cpu.id)
unfolding acquire
acquire-owns s e = (ground arith, ground arith)

release-frees :
    (s : Core) {t : Core}
    → release s ≡ ok tt t
    → (holding s ≡ true) × (t.lock ≡ initlock) × (t.cpu.id ≡ s.cpu.id)
unfolding release
release-frees s e = ground arith

Step-IsExclusive : {w v : World} → Step w v → IsExclusive w → IsExclusive v
unfolding holding
Step-IsExclusive {w} (acquires i s e f) x = rw f (record {
  ids = λ j. ground (arith, x.ids j, x.ids i, acquire-owns (core w i) e);
  owner = λ j h.
      ground
        (arith, x.ids j, x.ids i, x.owner j, acquire-owns (core w i) e, acquire-free (core w i) e);
})
Step-IsExclusive {w} (releases i s e f) x = rw f (record {
  ids = λ j. ground (arith, x.ids j, x.ids i, release-frees (core w i) e);
  owner = λ j h. ground (arith, x.ids j, x.ids i, x.owner j, release-frees (core w i) e);
})

Reach-IsExclusive : {w v : World} → IsExclusive w → Reach w v → IsExclusive v
Reach-IsExclusive x here = x
Reach-IsExclusive x (next r s) = Step-IsExclusive s (Reach-IsExclusive x r)

-- Mutual exclusion: from a state in which each CPU has its own index and no CPU is inside, no
-- sequence of calls that return puts two different CPUs between acquire() and release(), and
-- whoever is inside holds the lock.
pub mutual_exclusion :
    {w v : World}
    → ((i : ℕ) → (w.cpus i).id ≡ i)
    → ((i : ℕ) → w.inside i ≡ false)
    → Reach w v
    → ((i : ℕ) → v.inside i ≡ true → holding (core v i) ≡ true)
      × ((i j : ℕ) → v.inside i ≡ true → v.inside j ≡ true → i ≡ j)
unfolding holding
mutual_exclusion {w} {v} ids outside r =
    (x.owner, λ i j p q. ground (arith, x.owner i, x.owner j, x.ids i, x.ids j))
  where
    x : IsExclusive v
    x = Reach-IsExclusive (record { ids = ids; owner = λ i h. ground (arith, outside i) }) r
