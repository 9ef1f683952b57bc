-- ===== src/StringLib/Move.antt =====
-- memset() and memmove(): each byte of the memory afterwards.
use os_advanced_course.Base.{
  ℕ, zero, suc, ◌+◌, ◌-◌, ◌%◌, ◌≤◌, ◌<◌, ◌≡◌, ◌⊎◌, inl, inr, ◌&&◌, ltb, leb, if◌then◌else◌, update,
  arith,
}
use os_advanced_course.StringLib.{Bytes, memset_loop, memset, copy_up, copy_down, memmove}

memset_loop-eq :
    (k dst c i : ℕ) (m : Bytes) (a : ℕ)
    → memset_loop k dst c i m a ≡ (if leb (dst + i) a && ltb a (dst + i + k) then c % 256 else m a)
unfolding memset_loop
memset_loop-eq zero dst c i m a = ground arith
memset_loop-eq (suc k) dst c i m a =
    ground (arith, memset_loop-eq k dst c (i + 1) (update m (dst + i) (c % 256)) a)

-- memset() sets the `n` bytes from `dst` on to the low byte of `c`, and no other.
pub memset_lem :
    (dst c n : ℕ) (m : Bytes) (a : ℕ)
    → memset dst c n m a ≡ (if leb dst a && ltb a (dst + n) then c % 256 else m a)
unfolding memset
memset_lem dst c n m a = ground (arith, memset_loop-eq n dst c 0 m a)

copy_up-eq :
    (n s d : ℕ) (m : Bytes) (a : ℕ)
    → (d ≤ s) ⊎ (s + n ≤ d)
    → copy_up n s d m a ≡ (if leb d a && ltb a (d + n) then m (s + (a - d)) else m a)
unfolding copy_up
copy_up-eq zero s d m a h = ground arith
copy_up-eq (suc n) s d m a h =
    ground (arith, copy_up-eq n (s + 1) (d + 1) (update m d (m s)) a (shift h), h)
  where
    shift : (d ≤ s) ⊎ (s + suc n ≤ d) → (d + 1 ≤ s + 1) ⊎ (s + 1 + n ≤ d + 1)
    shift (inl l) = inl (omega arith)
    shift (inr l) = inr (omega arith)

copy_down-eq :
    (n s d : ℕ) (m : Bytes) (a : ℕ)
    → s < d
    → copy_down n (s + n) (d + n) m a ≡ (if leb d a && ltb a (d + n) then m (s + (a - d)) else m a)
unfolding copy_down
copy_down-eq zero s d m a h = ground arith
copy_down-eq (suc n) s d m a h =
    rw (below s, below d) (ground (arith, copy_down-eq n s d (update m (d + n) (m (s + n))) a h))
  where
    below : (x : ℕ) → x + suc n - 1 ≡ x + n
    below x = omega arith

-- memmove() copies the `n` bytes at `src` to `dst` as they were before, whether the ranges overlap
-- or not, and writes nowhere else.
pub memmove_lem :
    (dst src n : ℕ) (m : Bytes) (a : ℕ)
    → memmove dst src n m a ≡ (if leb dst a && ltb a (dst + n) then m (src + (a - dst)) else m a)
unfolding memmove
memmove_lem dst src n m a = ground (arith, copy_up-eq n src dst m a, copy_down-eq n src dst m a)
