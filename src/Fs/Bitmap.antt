-- ===== src/Fs/Bitmap.antt =====
-- The bitmap as the set of the blocks in use.
use os_advanced_course.Base.{
  ℕ, ◌%◌, ◌≡◌, refl, ap, Bool, Bool-cases, inl, inr, true, false, not, ◌==◌, if◌then◌else◌, update,
  arith, ==_iff, ◌∷◌,
}
use os_advanced_course.Buddy.{Array, bit_set, bit_clear}
use os_advanced_course.Buddy.Bits.{IsBytes, bit_off_set, bit_off_clear}
use os_advanced_course.Fs.{Fs, bpb, bblock, bit_free, mark, unmark}

abbrev pub is_used : Fs → ℕ → Bool
is_used s q = not (bit_free (s.bytes (bblock q s)) (q % bpb))

-- The state once the block of the bitmap with the bit of `b` is written.
abbrev pub write_bit : ℕ → Array → Fs → Fs
write_bit b d s = record s { bytes = update s.bytes (bblock b s) d; logged = bblock b s ∷ s.logged }

abbrev pub bitmap_of : ℕ → Fs → Array
bitmap_of b s = s.bytes (bblock b s)

same_block :
    (b q : ℕ) (s : Fs) → (bblock b s == bblock q s) ≡ true → (b % bpb == q % bpb) ≡ (b == q)
same_block b q s h = ground arith

other_block : (b q : ℕ) (s : Fs) → (bblock b s == bblock q s) ≡ false → (b == q) ≡ false
other_block b q s h = ground arith

pub marked-is_used :
    (b q : ℕ) (s : Fs)
    → ((k : ℕ) → IsBytes (s.bytes k))
    → is_used (write_bit b (mark (bitmap_of b s) (b % bpb)) s) q
      ≡ (if b == q then true else is_used s q)
unfolding bit_set
marked-is_used b q s h = elim (Bool-cases (bblock b s == bblock q s)) [
  | inl same ↦
      rw
        (
          same,
          bit_off_set (bitmap_of b s) (b % bpb) (q % bpb) (h (bblock b s)),
          same_block b q s same,
        )
        (rw (ap s.bytes ((==_iff (bblock b s) (bblock q s)).0 same)) (ground arith))
  | inr other ↦ rw (other, other_block b q s other) refl
]

pub unmarked-is_used :
    (b q : ℕ) (s : Fs)
    → ((k : ℕ) → IsBytes (s.bytes k))
    → is_used (write_bit b (unmark (bitmap_of b s) (b % bpb)) s) q
      ≡ (if b == q then false else is_used s q)
unfolding bit_clear
unmarked-is_used b q s h = elim (Bool-cases (bblock b s == bblock q s)) [
  | inl same ↦
      rw
        (
          same,
          bit_off_clear (bitmap_of b s) (b % bpb) (q % bpb) (h (bblock b s)),
          same_block b q s same,
        )
        (rw (ap s.bytes ((==_iff (bblock b s) (bblock q s)).0 same)) (ground arith))
  | inr other ↦ rw (other, other_block b q s other) refl
]
