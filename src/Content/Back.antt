-- ===== src/Content/Back.antt =====
-- What writei() has written, readi() reads.
use mathlib.Core.Path.{subst}
use os_advanced_course.Base.{
  ℕ, ◌≡◌, ◌<◌, ◌≤◌, ◌+◌, ◌*◌, refl, sym, ap, ◌∙◌, arith, ◌⊎◌, inl, inr, Returns, Returns_mono,
  Returns_ok, ok, ℤ, to_int,
}
use os_advanced_course.Fs.{bsize}
use os_advanced_course.Content.{Node, maxfile, writei, readi, iblock}
use os_advanced_course.Content.Dinode.{Fits}
use os_advanced_course.Content.Map.{IsFile, IsOutside}
use os_advanced_course.Content.Rounds.{CopyOut}
use os_advanced_course.Content.Read.{to_read, readi-Outcome, Outcome, IsFull, CopyFails}
use os_advanced_course.Content.Write.{CopyIn}
use os_advanced_course.Content.Write.Finish.{WriteOutcome, writei-Finished}

module _ {M : Type 0} (c : CopyIn M) (d : CopyOut M) where
  -- `n` bytes at `dst` are the `n` bytes that were at `src`, and the result counts them.
  abbrev pub ReadBack : Node M → ℕ → ℕ → ℕ → ℤ → Node M → Type 0
  ReadBack s src dst n r t =
      (r ≡ to_int n) × ((i : ℕ) → i < n → d.peek t.mem (dst + i) ≡ c.peek s.mem (src + i))

  counts : (a b : ℕ) → a ≤ maxfile * bsize → b ≤ maxfile * bsize → to_int a ≡ to_int b → a ≡ b
  counts a b l m e = ground (arith, e)

  read_written :
      (s : Node M) (src dst off n : ℕ) (r : ℤ) (u : Node M)
      → s.ip.size ≤ maxfile * bsize
      → off ≤ s.ip.size
      → off + n ≤ maxfile * bsize
      → r ≡ to_int n
      → WriteOutcome c s src off n r u
      → Returns
          (readi d.copyout dst off n u)
          (λ r t. ReadBack s src dst n r t ⊎ (IsFull d t ⊎ CopyFails d u dst off n))
  read_written s src dst off n r u fits l b all (got, reach, lo, hi, e, f, end) =
      Returns_mono _ (readi d.copyout dst off n u)
        (readi-Outcome d dst off n u f.file (rw f.size (ground arith)) (rw f.size (ground arith))
          (omega (arith, b)))
        back
    where
      same : got ≡ n
      same = counts got n (omega (arith, lo, hi, b)) (omega (arith, b)) (sym e ∙ all)

      whole : to_read u off n ≡ n
      whole = ground (arith, f.size, same)

      back :
          (a : ℤ) (t : Node M)
          → Outcome d u dst off (to_read u off n) 0 a t
          → ReadBack s src dst n a t ⊎ (IsFull d t ⊎ CopyFails d u dst off n)
      back a t (k, inl (m, le, x, g, inl y)) = inl (
        x ∙ ap to_int (omega (arith, y, whole)),
        λ i w. g.inside i (omega (arith, w, y, whole)) ∙ f.inside i (omega (arith, w, same)),
      )
      back a t (k, inl (m, le, x, g, inr full)) = inr (inl full)
      back a t (k, inr (x, fail)) = inr (inr (subst (λ y. CopyFails d u dst off y) whole fail))

  -- Where a writei() has written all its bytes, a readi() of the same range of the file has in
  -- memory at `dst` the bytes that were at `src`, and counts them all; unless the disk is full,
  -- or a call of either_copyout() for some of them fails.
  pub writei-readi :
      (src dst off n : ℕ) (s u : Node M)
      → IsFile s.fs s.ip.addrs
      → IsOutside (iblock s.ip.inum s.fs) s.fs s.ip.addrs
      → Fits s.ip
      → s.ip.size ≤ maxfile * bsize
      → off ≤ s.ip.size
      → off + n ≤ maxfile * bsize
      → writei c.copyin src off n s ≡ ok (to_int n) u
      → Returns
          (readi d.copyout dst off n u)
          (λ r t. ReadBack s src dst n r t ⊎ (IsFull d t ⊎ CopyFails d u dst off n))
  writei-readi src dst off n s u h o fit fits l b e =
      read_written s src dst off n (to_int n) u fits l b refl (
        Returns_ok (WriteOutcome c s src off n) (writei c.copyin src off n s) (to_int n) u e
          (writei-Finished c src off n s h o fit l b))
