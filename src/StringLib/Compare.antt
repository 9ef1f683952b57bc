-- ===== src/StringLib/Compare.antt =====
-- memcmp(), strncmp() and strlen() against the texts that the memory holds.
use os_advanced_course.Base.{
  ℕ, zero, suc, ◌+◌, ◌<◌, ◌≡◌, ◌↔◌, refl, inl, inr, some, List, [], ◌∷◌, length, ◌==◌, Bool-cases,
  if◌then◌else◌, arith, pos, sub_ℕ-eq_zero,
}
use os_advanced_course.StringLib.{Bytes, memcmp, strncmp, strlen_loop, strlen}

-- The string at `p`: the bytes before the first NUL, `n` of them at most.
abbrev pub text : ℕ → ℕ → Bytes → List ℕ
text zero p m = []
text (suc n) p m = if m p == 0 then [] else m p ∷ text n (p + 1) m

memcmp_same :
    (v1 v2 n : ℕ) (m : Bytes) (i : ℕ) → memcmp v1 v2 n m ≡ pos 0 → i < n → m (v1 + i) ≡ m (v2 + i)
unfolding memcmp
memcmp_same v1 v2 zero m i h l = absurd (omega arith)
memcmp_same v1 v2 (suc n) m zero h l = ground (arith, sub_ℕ-eq_zero (m v1) (m v2))
memcmp_same v1 v2 (suc n) m (suc i) h l =
    ground (arith, memcmp_same (v1 + 1) (v2 + 1) n m i, sub_ℕ-eq_zero (m v1) (m v2))

memcmp_zero :
    (v1 v2 n : ℕ) (m : Bytes)
    → ((i : ℕ) → i < n → m (v1 + i) ≡ m (v2 + i))
    → memcmp v1 v2 n m ≡ pos 0
unfolding memcmp
memcmp_zero v1 v2 zero m h = refl
memcmp_zero v1 v2 (suc n) m h =
    ground (arith, h 0, memcmp_zero (v1 + 1) (v2 + 1) n m (λ i l. ground (arith, h (suc i))))

-- memcmp() is 0 exactly when the two ranges hold the same bytes.
pub memcmp_iff :
    (v1 v2 n : ℕ) (m : Bytes)
    → (memcmp v1 v2 n m ≡ pos 0) ↔ ((i : ℕ) → i < n → m (v1 + i) ≡ m (v2 + i))
memcmp_iff v1 v2 n m = (λ h i l. memcmp_same v1 v2 n m i h l, memcmp_zero v1 v2 n m)

-- strncmp() is 0 exactly when the two strings agree in their first `n` bytes, or up to a NUL that
-- comes before.
pub strncmp_iff : (p q n : ℕ) (m : Bytes) → (strncmp p q n m ≡ pos 0) ↔ (text n p m ≡ text n q m)
unfolding strncmp
strncmp_iff p q zero m = (λ h. refl, λ h. refl)
strncmp_iff p q (suc n) m = (
  λ h. ground (arith, strncmp_iff (p + 1) (q + 1) n m, sub_ℕ-eq_zero (m p) (m q)),
  λ h. ground (arith, strncmp_iff (p + 1) (q + 1) n m),
)

strlen_loop-eq :
    (k s n : ℕ) (m : Bytes)
    → length (text k (s + n) m) < k
    → strlen_loop k s n m ≡ some (n + length (text k (s + n) m))
unfolding strlen_loop
strlen_loop-eq zero s n m h = absurd (omega arith)
strlen_loop-eq (suc k) s n m h = elim (Bool-cases (m (s + n) == 0)) [
  | inl e ↦ rw e (ground arith)
  | inr e ↦ ground (arith, strlen_loop-eq k s (n + 1) m)
]

-- strlen() of a string that ends within `k` bytes returns its length after at most `k` rounds.
pub strlen_lem :
    (k s : ℕ) (m : Bytes) → length (text k s m) < k → strlen k s m ≡ some (length (text k s m))
unfolding strlen
strlen_lem k s m h = ground (arith, strlen_loop-eq k s 0 m)
