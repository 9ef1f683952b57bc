-- ===== src/Sleeplock/Tests.antt =====
-- Two processes and one sleep lock.
use os_advanced_course.Base.{ℕ, ◌≡◌, arith, refl, true, false, ◌==◌, if◌then◌else◌, ok}
use os_advanced_course.Spinlock.{Cpu, Core, initlock, acquire, release}
use os_advanced_course.Spinlock.Nesting.{IsIdle, idle_cpu}
use os_advanced_course.Sleeplock.{
  Sleeplock, initsleeplock, acquiresleep, releasesleep, holdingsleep,
}
use os_advanced_course.Sleeplock.Exclusion.{
  World, locks, sleeps, unlocks, Reach, here, next, resting, sleep_exclusion,
}

abbrev cpu_on : Cpu
cpu_on = record idle_cpu { intena = true }

abbrev core_on : Core
core_on = record { cpu = cpu_on; lock = initlock }

core_on-IsIdle : IsIdle core_on
core_on-IsIdle = record { nested = record { off = λ h. absurd (omega arith) }; unlocked = refl }

abbrev fresh : Sleeplock
fresh = record { core = core_on; locked = false; pid = 0 }

fresh-init : initsleeplock cpu_on ≡ fresh
unfolding initsleeplock
fresh-init = refl

abbrev taken : ℕ → Sleeplock
taken p = record { core = core_on; locked = true; pid = p }

abbrev start : World
start = record { lock = fresh; inside = λ p. false }

abbrev end : World
end = record {
  lock = taken 2;
  inside = λ p. if 2 == p then true else if 1 == p then false else if 1 == p then true else false;
}

-- Process 1 locks, 2 sleeps, 1 unlocks, and 2 locks.
trace : Reach start end
unfolding acquiresleep releasesleep acquire release
trace =
    next
      (next (next (next here (locks 1 (taken 1) refl refl)) (sleeps 2 (taken 1) refl refl))
        (unlocks 1 fresh refl refl refl))
      (locks 2 (taken 2) refl refl)

sleep_exclusion_example :
    ((p : ℕ) → end.inside p ≡ true → holdingsleep p end.lock ≡ ok true (resting end.lock))
    × ((p q : ℕ) → end.inside p ≡ true → end.inside q ≡ true → p ≡ q)
    × IsIdle end.lock.core
sleep_exclusion_example = sleep_exclusion core_on-IsIdle (λ p. refl) trace
