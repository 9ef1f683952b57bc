-- ===== src/Spinlock/Tests.antt =====
-- The locks at concrete states.
use os_advanced_course.Base.{ℕ, ◌≡◌, refl, true, false, panic, ◌>>◌}
use os_advanced_course.Spinlock.{initlock, holding, acquire, release}
use os_advanced_course.Spinlock.Nesting.{held, idle_cpu, idle_core}
use os_advanced_course.Spinlock.Exclusion.{
  World, acquires, Reach, here, next, core, after, mutual_exclusion,
}

twice_panics : (acquire >> acquire) idle_core ≡ panic
unfolding acquire
twice_panics = refl

release_free_panics : release idle_core ≡ panic
unfolding release
release_free_panics = refl

abbrev world0 : World
world0 = record { cpus = λ i. record idle_cpu { id = i }; lock = initlock; inside = λ i. false }

abbrev world1 : World
world1 = after world0 2 (held (core world0 2)) true

world-Reach : Reach world0 world1
unfolding acquire
world-Reach = next here (acquires 2 (held (core world0 2)) refl refl)

mutual_exclusion_example :
    ((i : ℕ) → world1.inside i ≡ true → holding (core world1 i) ≡ true)
    × ((i j : ℕ) → world1.inside i ≡ true → world1.inside j ≡ true → i ≡ j)
mutual_exclusion_example = mutual_exclusion (λ i. refl) (λ i. refl) world-Reach
