-- ===== src/Sleeplock/Exclusion.antt =====
-- Processes that lock and unlock one sleep lock, in any order.
use os_advanced_course.Base.{
  ap, ◌∙◌, ℕ, ◌≡◌, refl, Bool, true, false, ◌&&◌, ◌==◌, arith, ok, blocked, update,
}
use os_advanced_course.Spinlock.{Cpu}
use os_advanced_course.Spinlock.Nesting.{
  IsNested, IsIdle, cycled, acquire-held, release-cycled, cycled-IsIdle,
}
use os_advanced_course.Sleeplock.{Sleeplock, acquiresleep, releasesleep, holdingsleep}

-- The lock when a call that changed no other field has returned.
abbrev pub resting : Sleeplock → Sleeplock
resting s = record s { core = cycled s.core }

-- With its spin lock free, each operation on a sleep lock returns or sleeps with the spin lock
-- free again: acquiresleep() takes a free lock for the caller and sleeps on a taken one, which it
-- leaves alone; releasesleep() frees the lock; holdingsleep() tells whether the lock is taken by
-- the caller.
pub sleeplock_cases :
    (s : Sleeplock) (self : ℕ)
    → IsIdle s.core
    → (s.locked ≡ false
        → acquiresleep self s ≡ ok tt (record (resting s) { locked = true; pid = self }))
      × (s.locked ≡ true → acquiresleep self s ≡ blocked (resting s))
      × (releasesleep s ≡ ok tt (record (resting s) { locked = false; pid = 0 }))
      × (holdingsleep self s ≡ ok (s.locked && (s.pid == self)) (resting s))
unfolding acquiresleep releasesleep holdingsleep
sleeplock_cases s self h = (
  λ e. rw (acquire-held h, e, release-cycled h),
  λ e. rw (acquire-held h, e, release-cycled h),
  rw (acquire-held h, release-cycled h) refl,
  rw (acquire-held h, release-cycled h) refl,
)

-- The lock, and the processes that have locked it and not unlocked it since.
pub record World : Type 0 where
  pub lock : Sleeplock
  pub inside : ℕ → Bool

abbrev after : World → ℕ → Sleeplock → Bool → World
after w p s b = record { lock = s; inside = update w.inside p b }

-- Process `p` makes a call, on any CPU that holds no lock; only one that is inside unlocks.
pub data Step (w : World) (v : World) : Type 0 where
  locks :
      (p : ℕ) (s : Sleeplock) → acquiresleep p w.lock ≡ ok tt s → v ≡ after w p s true → Step w v
  sleeps :
      (p : ℕ) (s : Sleeplock)
      → acquiresleep p w.lock ≡ blocked s
      → v ≡ record w { lock = s }
      → Step w v
  unlocks :
      (p : ℕ) (s : Sleeplock)
      → w.inside p ≡ true
      → releasesleep w.lock ≡ ok tt s
      → v ≡ after w p s false
      → Step w v
  moves :
      (c : Cpu)
      → IsNested c
      → v ≡ record w { lock = record (w.lock) { core = record (w.lock.core) { cpu = c } } }
      → Step w v

pub data Reach (w : World) : World → Type 0 where
  here : Reach w w
  next : {u v : World} → Reach w u → Step u v → Reach w v

-- The process inside is the one that the lock names.
record IsExclusive (w : World) : Type 0 where
  idle : IsIdle w.lock.core
  owner : (p : ℕ) → w.inside p ≡ true → (w.lock.locked && (w.lock.pid == p)) ≡ true

locks-owner :
    (s : Sleeplock) (p : ℕ) {t : Sleeplock}
    → IsIdle s.core
    → acquiresleep p s ≡ ok tt t
    → (s.locked ≡ false) × (t ≡ record (resting s) { locked = true; pid = p })
locks-owner s p h e = ground (arith, sleeplock_cases s p h)

sleeps-resting :
    (s : Sleeplock) (p : ℕ) {t : Sleeplock}
    → IsIdle s.core
    → acquiresleep p s ≡ blocked t
    → t ≡ resting s
sleeps-resting s p h e = ground (arith, sleeplock_cases s p h)

unlocks-free :
    (s : Sleeplock) {t : Sleeplock}
    → IsIdle s.core
    → releasesleep s ≡ ok tt t
    → t ≡ record (resting s) { locked = false; pid = 0 }
unlocks-free s h e = ground (arith, sleeplock_cases s 0 h)

Step-IsExclusive : {w v : World} → Step w v → IsExclusive w → IsExclusive v
Step-IsExclusive {w} (locks p s e f) x =
    let own = locks-owner w.lock p x.idle e in
    rw (f, own.1)
      (record { idle = cycled-IsIdle x.idle; owner = λ q h. ground (arith, own.0, x.owner q) })
Step-IsExclusive {w} (sleeps p s e f) x =
    rw (f, sleeps-resting w.lock p x.idle e)
      (record { idle = cycled-IsIdle x.idle; owner = x.owner })
Step-IsExclusive {w} (unlocks p s i e f) x =
    rw (f, unlocks-free w.lock x.idle e)
      (record {
        idle = cycled-IsIdle x.idle;
        owner = λ q h. ground (arith, x.owner p i, x.owner q);
      })
Step-IsExclusive {w} (moves c n f) x =
    rw f (record { idle = record { nested = n; unlocked = x.idle.unlocked }; owner = x.owner })

Reach-IsExclusive : {w v : World} → IsExclusive w → Reach w v → IsExclusive v
Reach-IsExclusive x here = x
Reach-IsExclusive x (next r s) = Step-IsExclusive s (Reach-IsExclusive x r)

-- Mutual exclusion among processes that keep to one rule, which releasesleep() does not check:
-- only a process that is inside, having locked and not unlocked since, calls releasesleep(). From a
-- state in which the spin lock is free and nobody is inside, no sequence of such calls, of calls of
-- acquiresleep(), sleeps in them and moves to other CPUs brings two different processes inside,
-- holdingsleep() says of each process inside that it holds the lock, and the spin lock is free after
-- each call.
pub sleep_exclusion :
    {w v : World}
    → IsIdle w.lock.core
    → ((p : ℕ) → w.inside p ≡ false)
    → Reach w v
    → ((p : ℕ) → v.inside p ≡ true → holdingsleep p v.lock ≡ ok true (resting v.lock))
      × ((p q : ℕ) → v.inside p ≡ true → v.inside q ≡ true → p ≡ q)
      × IsIdle v.lock.core
sleep_exclusion {w} {v} h outside r = (
  λ p i. (sleeplock_cases v.lock p x.idle).3 ∙ ap (λ b. ok b (resting v.lock)) (x.owner p i),
  λ p q i j. ground (arith, x.owner p i, x.owner q j),
  x.idle,
)
  where
    x : IsExclusive v
    x = Reach-IsExclusive (record { idle = h; owner = λ p i. ground (arith, outside p) }) r
