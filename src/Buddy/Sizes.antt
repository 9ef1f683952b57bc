-- ===== src/Buddy/Sizes.antt =====
-- Block sizes of the buddy allocator.
use Prim.Native.Nat.pow
use Prim.Native.Nat.{◌^◌, ◌+◌}
use native.Mathlib.Nat.{mul_assoc, mul_comm, le-mul_of_pos_right}
use os_advanced_course.Base.{
  ◌∙◌, ap, sym, ltb→lt, ℕ, zero, suc, ◌-◌, ◌*◌, ◌/◌, ◌%◌, ◌<◌, ◌≤◌, ◌≡◌, ◌⊎◌, inl, inr, refl, true,
  false, none, some, ltb, arith, Bool-cases,
}
use os_advanced_course.Buddy.{leaf_size, blk_size, firstk_loop, firstk, log2_loop, log2}

-- `k` is the smallest size of a block for `n` bytes.
abbrev pub IsSmallest : ℕ → ℕ → Type 0
IsSmallest n k = (n ≤ blk_size k) × ((k ≡ 0) ⊎ blk_size (k - 1) < n)

pow_step : (k : ℕ) → 2 ^ suc k ≡ 2 ^ k * 2
pow_step k = λ i. pow.suc 2 k i

one_more : (k : ℕ) → k + 1 ≡ suc k
one_more k = omega arith

pow_succ : (k : ℕ) → 2 ^ (k + 1) ≡ 2 ^ k * 2
pow_succ k = rw (one_more k) (pow_step k)

pub pow_pos : (k : ℕ) → 0 < 2 ^ k
pow_pos zero = omega arith
pow_pos (suc k) = omega (arith, pow_pos k, pow_step k)

pub blk_size-suc : (k : ℕ) → blk_size (k + 1) ≡ blk_size k * 2
blk_size-suc k = omega (arith, pow_succ k)

blk_size_64 : (k n : ℕ) → n ≤ 2 ^ 63 → blk_size k < n → blk_size k * 2 % 2 ^ 64 ≡ blk_size (k + 1)
blk_size_64 k n h l = omega (arith, blk_size-suc k)

minus_one : (k : ℕ) → k + 1 - 1 ≡ k
minus_one k = omega arith

half_up : (k n : ℕ) → blk_size k < n → (k + 1 ≡ 0) ⊎ blk_size (k + 1 - 1) < n
half_up k n h = inr (rw (minus_one k) h)

shift : (k f : ℕ) → k + suc f ≡ k + 1 + f
shift k f = omega arith

done : (k n : ℕ) → n ≤ blk_size (k + 0) → ltb (blk_size k) n ≡ false
done k n h = ground arith

firstk_loop_lem :
    (f k n : ℕ)
    → n ≤ 2 ^ 63
    → n ≤ blk_size (k + f)
    → (k ≡ 0) ⊎ blk_size (k - 1) < n
    → (j : ℕ) × (firstk_loop (suc f) k (blk_size k) n ≡ some j) × IsSmallest n j
unfolding firstk_loop
firstk_loop_lem zero k n h enough least = rw (done k n enough) (k, refl, (ground arith, least))
firstk_loop_lem (suc f) k n h enough least = elim (Bool-cases (ltb (blk_size k) n)) [
  | inl e ↦
      rw (e, blk_size_64 k n h (ltb→lt _ _ e))
        (firstk_loop_lem f (k + 1) n h (rw (← shift k f) enough) (half_up k n (ltb→lt _ _ e)))
  | inr e ↦ rw (e) (k, refl, (ground arith, least))
]

zero-none : (f k n : ℕ) → 0 < n → firstk_loop f k 0 n ≡ none
unfolding firstk_loop
zero-none zero k n l = refl
zero-none (suc f) k n l = ground (arith, zero-none f (k + 1) n l)

double_lt :
    (d size : ℕ)
    → size * 2 ^ suc d ≡ 2 ^ 63
    → (size * 2 * 2 ^ d ≡ 2 ^ 63) × (size * 2 % 2 ^ 64 ≡ size * 2)
double_lt d size e = (product, omega (arith, le-mul_of_pos_right (size * 2) (pow_pos d), product))
  where
    product : size * 2 * 2 ^ d ≡ 2 ^ 63
    product =
        mul_assoc size 2 (2 ^ d) ∙ ap (λ x. size * x) (mul_comm 2 (2 ^ d) ∙ sym (pow_step d)) ∙ e

firstk_loop-none :
    (f k d size n : ℕ) → size * 2 ^ d ≡ 2 ^ 63 → 2 ^ 63 < n → firstk_loop f k size n ≡ none
unfolding firstk_loop
firstk_loop-none zero k d size n e l = refl
firstk_loop-none (suc f) k zero size n e l = ground (arith, zero-none f (k + 1) n)
firstk_loop-none (suc f) k (suc d) size n e l =
    ground (arith, firstk_loop-none f (k + 1) d (size * 2) n, double_lt d size e)

-- For at most 2^63 bytes, firstk() returns within 61 rounds, and what it returns is the smallest
-- size of a block that has room for them.
pub firstk_lem : (n : ℕ) → n ≤ 2 ^ 63 → (k : ℕ) × (firstk 61 n ≡ some k) × IsSmallest n k
unfolding firstk
firstk_lem n h = firstk_loop_lem 60 0 n h (omega arith) (inl refl)

-- For more than 2^63 bytes, firstk() never returns: `size` becomes zero.
pub firstk-none : (n fuel : ℕ) → 2 ^ 63 < n → firstk fuel n ≡ none
unfolding firstk
firstk-none n fuel h = firstk_loop-none fuel 0 59 leaf_size n refl h

-- `k` is the binary logarithm of `n`, rounded down.
abbrev pub IsLog : ℕ → ℕ → Type 0
IsLog n k = (2 ^ k ≤ n) × n < 2 ^ (k + 1)

small : (n : ℕ) → n < 2 ^ 1 → ltb 1 n ≡ false
small n h = ground arith

half_pos : (n : ℕ) → ltb 1 n ≡ true → 0 < n / 2
half_pos n h = ground arith

half_lt : (f n : ℕ) → n < 2 ^ suc (suc f) → n / 2 < 2 ^ suc f
half_lt f n h = omega (arith, pow_step (suc f))

IsLog-suc : (n j : ℕ) → IsLog (n / 2) j → IsLog n (j + 1)
IsLog-suc n j h = (omega (arith, h.0, pow_succ j), omega (arith, h.1, pow_succ (j + 1)))

log2_loop_lem :
    (f k n : ℕ)
    → 0 < n
    → n < 2 ^ suc f
    → (j : ℕ) × (log2_loop (suc f) k n ≡ some (k + j)) × IsLog n j
unfolding log2_loop
log2_loop_lem zero k n p h = rw (small n h) (0, ap some (omega arith), (omega arith, omega arith))
log2_loop_lem (suc f) k n p h = elim (Bool-cases (ltb 1 n)) [
  | inl e ↦
      let rest = log2_loop_lem f (k + 1) (n / 2) (half_pos n e) (half_lt f n h) in
      rw (e, rest.1) (rest.0 + 1, ap some (omega arith), IsLog-suc n rest.0 rest.2)
  | inr e ↦ rw (e) (0, ap some (omega arith), (omega arith, ground arith))
]

-- Within 64 rounds, _log2() of a uint64 that is not zero returns its binary logarithm, rounded down.
pub log2_lem : (n : ℕ) → 0 < n → n < 2 ^ 64 → (k : ℕ) × (log2 64 n ≡ some k) × IsLog n k
unfolding log2
log2_lem n p h = (let r = log2_loop_lem 63 0 n p h in (r.0, r.1 ∙ ap some (omega arith), r.2))
