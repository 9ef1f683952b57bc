-- ===== src/Console/Window.antt =====
-- A range of the input buffer as a list of characters.
use os_advanced_course.Base.{
  ℕ, zero, suc, ◌+◌, ◌%◌, ◌^◌, ◌<◌, ◌≡◌, refl, ap, arith, List, [], ◌∷◌, ◌++◌, update, length,
  ne→==,
}
use os_advanced_course.Console.{input_buf_size}

-- `k` characters from index `r` on.
unfoldable pub window : ℕ → ℕ → (ℕ → ℕ) → List ℕ
window zero r m = []
window (suc k) r m = m (r % input_buf_size) ∷ window k ((r + 1) % 2 ^ 32) m

pub length-window : (k r : ℕ) (m : ℕ → ℕ) → length (window k r m) ≡ k
unfolding window
length-window zero r m = refl
length-window (suc k) r m = omega (arith, length-window k ((r + 1) % 2 ^ 32) m)

pub window-join :
    (j k r w : ℕ) (m : ℕ → ℕ)
    → r < 2 ^ 32
    → w ≡ (r + j) % 2 ^ 32
    → window (j + k) r m ≡ window j r m ++ window k w m
unfolding window
window-join zero k r w m h e = rw (none, start) refl
  where
    none : 0 + k ≡ k
    none = omega arith

    start : w ≡ r
    start = omega (arith, h, e)
window-join (suc j) k r w m h e = rw more (
    ap (λ xs. m (r % input_buf_size) ∷ xs)
      (window-join j k ((r + 1) % 2 ^ 32) w m (omega arith) (omega (arith, h, e))))
  where
    more : suc j + k ≡ suc (j + k)
    more = omega arith

-- The last character of a range.
pub window-last :
    (k r w : ℕ) (m : ℕ → ℕ)
    → r < 2 ^ 32
    → w ≡ (r + k) % 2 ^ 32
    → window (suc k) r m ≡ window k r m ++ m (w % input_buf_size) ∷ []
unfolding window
window-last zero r w m h e = rw start refl
  where
    start : w ≡ r
    start = omega (arith, h, e)
window-last (suc k) r w m h e =
    ap (λ xs. m (r % input_buf_size) ∷ xs)
      (window-last k ((r + 1) % 2 ^ 32) w m (omega arith) (omega (arith, h, e)))

-- A character behind a range, where both fit the buffer.
pub window_after :
    (k r w gap b : ℕ) (m : ℕ → ℕ)
    → r < 2 ^ 32
    → w ≡ (r + (k + gap)) % 2 ^ 32
    → k + gap < input_buf_size
    → window k r (update m (w % input_buf_size) b) ≡ window k r m
unfolding window
window_after zero r w gap b m h e l = refl
window_after (suc k) r w gap b m h e l =
    rw (ne→== (w % input_buf_size) (r % input_buf_size) (λ y. absurd (omega (arith, y, h, e, l)))) (
      ap (λ xs. m (r % input_buf_size) ∷ xs)
        (window_after k ((r + 1) % 2 ^ 32) w gap b m (omega arith) (omega (arith, h, e))
          (omega (arith, l))))
