-- ===== src/Descriptor/First.antt =====
-- fdalloc() takes the first free descriptor.
use mathlib.Core.Path.{subst}
use os_advanced_course.Base.{
  ℕ, zero, suc, ◌+◌, ◌≤◌, ◌<◌, ◌≡◌, ◌≢◌, refl, arith, some, ◌==◌, update, ℤ, pos, negsuc, ◌⊎◌, inl,
  inr, Bool-cases, ==_iff, ==_refl, ne→==, lt→ltb,
}
use os_advanced_course.Lifecycle.{nofile}
use os_advanced_course.Descriptor.{argfd, fdalloc_loop, fdalloc}

-- From descriptor `lo` on: the first free one holds `f` now, and argfd() finds it there; or none
-- is free.
pub Taken : ℕ → ℕ → (ℕ → ℕ) → ℤ × (ℕ → ℕ) → Type 0
Taken lo f ofile r =
    ((fd : ℕ) × (fd < nofile)
      × (r ≡ (pos fd, update ofile fd f))
      × (ofile fd ≡ 0)
      × ((q : ℕ) → lo ≤ q → q < fd → ofile q ≢ 0)
      × (argfd r.0 r.1 ≡ some (fd, f)))
    ⊎ ((r ≡ (negsuc 0, ofile)) × ((q : ℕ) → lo ≤ q → q < nofile → ofile q ≢ 0))

found :
    (fd f : ℕ) (ofile : ℕ → ℕ)
    → fd < nofile
    → f ≢ 0
    → argfd (pos fd) (update ofile fd f) ≡ some (fd, f)
unfolding argfd
found fd f ofile l n = rw (lt→ltb fd nofile l, ==_refl fd, ne→== f 0 n) refl

at_or_later :
    (lo q : ℕ) (ofile : ℕ → ℕ) → lo ≤ q → ofile lo ≢ 0 → (lo + 1 ≤ q → ofile q ≢ 0) → ofile q ≢ 0
at_or_later lo q ofile l n later = elim (Bool-cases (lo == q)) [
  | inl e ↦ subst (λ x. ofile x ≢ 0) ((==_iff lo q).0 e) n
  | inr e ↦ later (ground (arith, l, e))
]

Taken-suc :
    (lo f : ℕ) (ofile : ℕ → ℕ) (r : ℤ × (ℕ → ℕ))
    → ofile lo ≢ 0
    → Taken (lo + 1) f ofile r
    → Taken lo f ofile r
unfolding Taken
Taken-suc lo f ofile r n (inl (fd, l, e, z, b, a)) =
    inl (fd, l, e, z, (λ q m k. at_or_later lo q ofile m n (λ y. b q y k)), a)
Taken-suc lo f ofile r n (inr (e, b)) = inr (e, λ q m k. at_or_later lo q ofile m n (λ y. b q y k))

fdalloc_loop-Taken :
    (k lo f : ℕ) (ofile : ℕ → ℕ)
    → f ≢ 0
    → lo + k ≡ nofile
    → Taken lo f ofile (fdalloc_loop k lo f ofile)
unfolding fdalloc_loop Taken
fdalloc_loop-Taken zero lo f ofile n e = inr (refl, λ q m k. absurd (omega (arith, e, m, k)))
fdalloc_loop-Taken (suc k) lo f ofile n e = elim (Bool-cases (ofile lo == 0)) [
  | inl z ↦ rw z (
      inl (
        lo,
        omega (arith, e),
        refl,
        (==_iff (ofile lo) 0).0 z,
        (λ q m k. absurd (omega (arith, m, k))),
        found lo f ofile (omega (arith, e)) n,
      ))
  | inr nz ↦ rw nz (
      Taken-suc lo f ofile _ (λ y. absurd (ground (arith, y, nz)))
        (fdalloc_loop-Taken k (lo + 1) f ofile n (omega (arith, e))))
]

-- fdalloc() of a file takes the first descriptor that is free, and changes no other; argfd()
-- finds the file at it. Where none is free it returns -1 and changes nothing.
pub fdalloc-Taken : (f : ℕ) (ofile : ℕ → ℕ) → f ≢ 0 → Taken 0 f ofile (fdalloc f ofile)
unfolding fdalloc
fdalloc-Taken f ofile n = fdalloc_loop-Taken nofile 0 f ofile n refl
