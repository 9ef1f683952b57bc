-- ===== src/StringLib.antt =====
-- The memory and string functions of xv6-os/kernel/string.c, over a memory of bytes. Pointers are
-- numbers, and no range of addresses wraps around. An int count that is negative is 0 here: every
-- loop over it ends at once. The returned pointers, always the first argument, are left out.
pub mod Move
pub mod Compare
pub mod Copy
mod Tests
use os_advanced_course.Base.{
  ℕ, zero, suc, ◌+◌, ◌-◌, ◌%◌, ◌<◌, ◌&&◌, not, Option, none, some, ltb, ◌==◌, if◌then◌else◌, update,
  ℤ, pos, sub_ℕ, true, false,
}

-- The byte at each address, below 256.
abbrev pub Bytes : Type 0
Bytes = ℕ → ℕ

-- The loop of memset() from index `i` on, with `k` rounds left.
memset_loop : ℕ → ℕ → ℕ → ℕ → Bytes → Bytes
memset_loop zero dst c i m = m
memset_loop (suc k) dst c i m = memset_loop k dst c (i + 1) (update m (dst + i) (c % 256))

pub memset : ℕ → ℕ → ℕ → Bytes → Bytes
unfolding memset_loop
memset dst c n m = memset_loop n dst c 0 m

pub memcmp : ℕ → ℕ → ℕ → Bytes → ℤ
memcmp v1 v2 zero m = pos 0
memcmp v1 v2 (suc n) m =
    let rest = memcmp (v1 + 1) (v2 + 1) n m in
    if not (m v1 == m v2) then sub_ℕ (m v1) (m v2) else rest

-- The loop of memmove() that copies upwards.
copy_up : ℕ → ℕ → ℕ → Bytes → Bytes
copy_up zero s d m = m
copy_up (suc n) s d m = copy_up n (s + 1) (d + 1) (update m d (m s))

-- The loop that copies downwards: the pointers have been moved to the ends of the ranges.
copy_down : ℕ → ℕ → ℕ → Bytes → Bytes
copy_down zero s d m = m
copy_down (suc n) s d m = copy_down n (s - 1) (d - 1) (update m (d - 1) (m (s - 1)))

pub memmove : ℕ → ℕ → ℕ → Bytes → Bytes
unfolding copy_up copy_down
memmove dst src n m =
    if n == 0
    then m
    else if ltb src dst && ltb dst (src + n)
    then copy_down n (src + n) (dst + n) m
    else copy_up n src dst m

pub memcpy : ℕ → ℕ → ℕ → Bytes → Bytes
memcpy dst src n m = memmove dst src n m

pub strncmp : ℕ → ℕ → ℕ → Bytes → ℤ
strncmp p q zero m = pos 0
strncmp p q (suc n) m =
    let rest = strncmp (p + 1) (q + 1) n m in
    if not (m p == 0) && (m p == m q) then rest else sub_ℕ (m p) (m q)

-- The second loop of strncpy().
pad : ℕ → ℕ → Bytes → Bytes
pad zero s m = m
pad (suc n) s m = pad n (s + 1) (update m s 0)

pub strncpy : ℕ → ℕ → ℕ → Bytes → Bytes
unfolding pad
strncpy s t zero m = m
strncpy s t (suc n) m =
    let m' = update m s (m t) in
    let rest = strncpy (s + 1) (t + 1) n m' in if not (m' s == 0) then rest else pad n (s + 1) m'

-- safestrcpy() once its count is known to be positive, with `n` more than the rounds left.
safe_loop : ℕ → ℕ → ℕ → Bytes → Bytes
safe_loop zero s t m = update m s 0
safe_loop (suc n) s t m =
    let m' = update m s (m t) in
    let rest = safe_loop n (s + 1) (t + 1) m' in
    if not (m' s == 0) then rest else update m' (s + 1) 0

pub safestrcpy : ℕ → ℕ → ℕ → Bytes → Bytes
unfolding safe_loop
safestrcpy s t zero m = m
safestrcpy s t (suc n) m = safe_loop n s t m

-- strlen() on fuel, from index `n` on; `none` when the fuel runs out.
strlen_loop : ℕ → ℕ → ℕ → Bytes → Option ℕ
strlen_loop zero s n m = none
strlen_loop (suc k) s n m =
    let rest = strlen_loop k s (n + 1) m in if not (m (s + n) == 0) then rest else some n

pub strlen : ℕ → ℕ → Bytes → Option ℕ
unfolding strlen_loop
strlen fuel s m = strlen_loop fuel s 0 m
