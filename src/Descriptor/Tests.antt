-- ===== src/Descriptor/Tests.antt =====
-- Descriptors of a process with the first two in use.
use os_advanced_course.Base.{ℕ, ltb, if◌then◌else◌, arith}
use os_advanced_course.Descriptor.{fdalloc}
use os_advanced_course.Descriptor.First.{Taken, fdalloc-Taken}

abbrev two_open : ℕ → ℕ
two_open fd = if ltb fd 2 then 7 else 0

fdalloc-Taken_example : Taken 0 9 two_open (fdalloc 9 two_open)
fdalloc-Taken_example = fdalloc-Taken 9 two_open (λ e. absurd (omega (arith, e)))
