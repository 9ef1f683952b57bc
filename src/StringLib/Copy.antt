-- ===== src/StringLib/Copy.antt =====
-- strncpy() and safestrcpy(): the string that they leave, and the bytes that they spare.
use os_advanced_course.Base.{
  ℕ, zero, suc, ◌+◌, ◌≤◌, ◌<◌, ◌≡◌, ◌⊎◌, refl, ap, inl, inr, ◌==◌, Bool-cases, if◌then◌else◌,
  update, arith, leb, ◌&&◌, ltb, length,
}
use os_advanced_course.StringLib.{Bytes, pad, strncpy, safe_loop, safestrcpy}
use os_advanced_course.StringLib.Compare.{text}

-- The ranges of `k` bytes from `s` and of `n` bytes from `t` do not overlap.
abbrev pub Apart : ℕ → ℕ → ℕ → ℕ → Type 0
Apart s k t n = (t + n ≤ s) ⊎ (s + k ≤ t)

text-update :
    (n p a v : ℕ) (m : Bytes) → (a < p) ⊎ (p + n ≤ a) → text n p (update m a v) ≡ text n p m
text-update zero p a v m h = refl
text-update (suc n) p a v m h = ground (arith, text-update n (p + 1) a v m (next h))
  where
    next : (a < p) ⊎ (p + suc n ≤ a) → (a < p + 1) ⊎ (p + 1 + n ≤ a)
    next (inl l) = inl (omega arith)
    next (inr l) = inr (omega arith)

pad_lem :
    (n s : ℕ) (m : Bytes) (a : ℕ) → pad n s m a ≡ (if leb s a && ltb a (s + n) then 0 else m a)
unfolding pad
pad_lem zero s m a = ground arith
pad_lem (suc n) s m a = ground (arith, pad_lem n (s + 1) (update m s 0) a)

strncpy-outside : (s t n : ℕ) (m : Bytes) (a : ℕ) → (a < s) ⊎ (s + n ≤ a) → strncpy s t n m a ≡ m a
unfolding strncpy
strncpy-outside s t zero m a h = refl
strncpy-outside s t (suc n) m a h = ground (
  arith,
  strncpy-outside (s + 1) (t + 1) n (update m s (m t)) a,
  pad_lem n (s + 1) (update m s (m t)) a,
)

Apart-next : (s t n : ℕ) → Apart s (suc n) t (suc n) → Apart (s + 1) n (t + 1) n
Apart-next s t n (inl l) = inl (omega arith)
Apart-next s t n (inr l) = inr (omega arith)

Apart-spare : (s t n : ℕ) → Apart s (suc n) t (suc n) → (s < t + 1) ⊎ (t + 1 + n ≤ s)
Apart-spare s t n (inl l) = inr (omega arith)
Apart-spare s t n (inr l) = inl (omega arith)

strncpy-text : (s t n : ℕ) (m : Bytes) → Apart s n t n → text n s (strncpy s t n m) ≡ text n t m
unfolding strncpy
strncpy-text s t zero m h = refl
strncpy-text s t (suc n) m h = elim (Bool-cases (m t == 0)) [
  | inl e ↦ ground (arith, pad_lem n (s + 1) (update m s (m t)) s)
  | inr e ↦ ground (
    arith,
    strncpy-outside (s + 1) (t + 1) n (update m s (m t)) s,
    strncpy-text (s + 1) (t + 1) n (update m s (m t)) (Apart-next s t n h),
    text-update n (t + 1) s (m t) m (Apart-spare s t n h),
  )
]

strncpy-zero :
    (s t n : ℕ) (m : Bytes) (i : ℕ)
    → Apart s n t n
    → length (text n t m) ≤ i
    → i < n
    → strncpy s t n m (s + i) ≡ 0
unfolding strncpy
strncpy-zero s t zero m i h l u = absurd (omega arith)
strncpy-zero s t (suc n) m zero h l u = ground (arith, pad_lem n (s + 1) (update m s (m t)) (s + 0))
strncpy-zero s t (suc n) m (suc i) h l u = elim (Bool-cases (m t == 0)) [
  | inl e ↦ ground (arith, pad_lem n (s + 1) (update m s (m t)) (s + suc i))
  | inr e ↦ ground (
    arith,
    strncpy-zero (s + 1) (t + 1) n (update m s (m t)) i (Apart-next s t n h),
    ap length (text-update n (t + 1) s (m t) m (Apart-spare s t n h)),
  )
]

-- strncpy() between ranges of `n` bytes that do not overlap: it copies the string at `t`, cut to
-- `n` bytes, fills the rest of the `n` bytes with NULs, and writes nowhere else.
pub strncpy_lem :
    (s t n : ℕ) (m : Bytes)
    → Apart s n t n
    → (text n s (strncpy s t n m) ≡ text n t m)
      × ((i : ℕ) → length (text n t m) ≤ i → i < n → strncpy s t n m (s + i) ≡ 0)
      × ((a : ℕ) → (a < s) ⊎ (s + n ≤ a) → strncpy s t n m a ≡ m a)
strncpy_lem s t n m h =
    (strncpy-text s t n m h, λ i. strncpy-zero s t n m i h, λ a. strncpy-outside s t n m a)

safe_loop-outside :
    (n s t : ℕ) (m : Bytes) (a : ℕ) → (a < s) ⊎ (s + n < a) → safe_loop n s t m a ≡ m a
unfolding safe_loop
safe_loop-outside zero s t m a h = ground arith
safe_loop-outside (suc n) s t m a h =
    ground (arith, safe_loop-outside n (s + 1) (t + 1) (update m s (m t)) a)

safe_loop-text :
    (n s t : ℕ) (m : Bytes) → Apart s (suc n) t n → text (suc n) s (safe_loop n s t m) ≡ text n t m
unfolding safe_loop
safe_loop-text zero s t m h = ground arith
safe_loop-text (suc n) s t m h = elim (Bool-cases (m t == 0)) [
  | inl e ↦ ground arith
  | inr e ↦ ground (
    arith,
    safe_loop-outside n (s + 1) (t + 1) (update m s (m t)) s,
    safe_loop-text n (s + 1) (t + 1) (update m s (m t)) (next h),
    text-update n (t + 1) s (m t) m (spare h),
  )
]
  where
    next : Apart s (suc (suc n)) t (suc n) → Apart (s + 1) (suc n) (t + 1) n
    next (inl l) = inl (omega arith)
    next (inr l) = inr (omega arith)

    spare : Apart s (suc (suc n)) t (suc n) → (s < t + 1) ⊎ (t + 1 + n ≤ s)
    spare (inl l) = inr (omega arith)
    spare (inr l) = inl (omega arith)

length-text : (n p : ℕ) (m : Bytes) → length (text n p m) ≤ n
length-text zero p m = omega arith
length-text (suc n) p m = ground (arith, length-text n (p + 1) m)

-- safestrcpy() into a buffer of `n + 1` bytes that does not overlap the source: it leaves there the
-- string at `t` cut to `n` bytes, with a NUL after it inside the buffer, and writes nowhere else.
pub safestrcpy_lem :
    (s t n : ℕ) (m : Bytes)
    → Apart s (suc n) t n
    → (text (suc n) s (safestrcpy s t (suc n) m) ≡ text n t m)
      × (length (text (suc n) s (safestrcpy s t (suc n) m)) < suc n)
      × ((a : ℕ) → (a < s) ⊎ (s + n < a) → safestrcpy s t (suc n) m a ≡ m a)
unfolding safestrcpy
safestrcpy_lem s t n m h = (
  safe_loop-text n s t m h,
  rw (safe_loop-text n s t m h) (omega (arith, length-text n t m)),
  λ a. safe_loop-outside n s t m a,
)
