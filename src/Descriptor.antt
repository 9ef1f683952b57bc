-- ===== src/Descriptor.antt =====
-- File descriptors, argfd() and fdalloc() of xv6-os/kernel/sysfile.c. The array `ofile` of the
-- process is a function of the descriptor, and 0 is the null pointer.
pub mod First
mod Tests
use os_advanced_course.Base.{
  ℕ, zero, suc, ◌+◌, Bool, not, ◌||◌, Option, none, some, ltb, ◌==◌, if◌then◌else◌, update, ℤ, pos,
  negsuc,
}
use os_advanced_course.Lifecycle.{nofile}

-- The descriptor and the file of the argument `fd`.
pub argfd : ℤ → (ℕ → ℕ) → Option (ℕ × ℕ)
argfd (negsuc n) ofile = none
argfd (pos fd) ofile = if not (ltb fd nofile) || (ofile fd == 0) then none else some (fd, ofile fd)

-- The loop of fdalloc() from `fd` on, with `k` descriptors left; the result and the array after it.
pub fdalloc_loop : ℕ → ℕ → ℕ → (ℕ → ℕ) → ℤ × (ℕ → ℕ)
fdalloc_loop zero fd f ofile = (negsuc 0, ofile)
fdalloc_loop (suc k) fd f ofile =
    let rest = fdalloc_loop k (fd + 1) f ofile in
    if ofile fd == 0 then (pos fd, update ofile fd f) else rest

pub fdalloc : ℕ → (ℕ → ℕ) → ℤ × (ℕ → ℕ)
unfolding fdalloc_loop
fdalloc f ofile = fdalloc_loop nofile 0 f ofile
