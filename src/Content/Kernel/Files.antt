-- ===== src/Content/Kernel/Files.antt =====
-- readi() and writei() of xv6-os/kernel/fs.c between a file and the kernel's memory, as dirlookup()
-- and dirlink() call them.
use os_advanced_course.Base.{
  Bool, false, Run, panic, blocked, out_of_fuel, ℕ, ◌+◌, ◌*◌, ◌≡◌, ◌<◌, ◌≤◌, true, arith, Returns,
  inl, inr, ℤ, to_int, ◌⊎◌, Returns_mono, ok,
}
use os_advanced_course.Kalloc.{Kmem}
use os_advanced_course.Fs.{bsize}
use os_advanced_course.Fs.Bitmap.{is_used}
use os_advanced_course.Content.{Node, maxfile, readi, writei, iblock}
use os_advanced_course.Content.Dinode.{Fits}
use os_advanced_course.Content.Map.{IsFile, IsOutside, content}
use os_advanced_course.Content.Rounds.{Copied, Kept}
use os_advanced_course.Content.Read.{CopyFails as ReadFails, IsFull as ReadFull}
use os_advanced_course.Content.Write.Loop.{CopyFails as WriteFails}
use os_advanced_course.Content.Write.Finish.{Finished}
use os_advanced_course.Content.Back.{ReadBack, writei-readi}
use os_advanced_course.Content.Kernel.{
  kernel_copyout-done, peek, kernel_copyout, kernel_copyin, kernel_out, kernel_in,
}

-- A run cannot end with a test both true and false.
one_end :
    {S A : Type 0} (test : A → Bool) (r : Run S A)
    → Returns r (λ a _. test a ≡ true)
    → Returns r (λ a _. test a ≡ false)
    → ⊥
one_end test (ok a s) h k = absurd (ground (arith, h, k))
one_end test panic h k = h
one_end test (blocked s) h k = h
one_end test out_of_fuel h k = h

no_fault_out : (s : Node Kmem) (dst off left : ℕ) → ReadFails kernel_out s dst off left → ⊥
no_fault_out s dst off left f =
    one_end (λ b. b) (kernel_copyout f.at f.n f.src f.mem)
      (kernel_copyout-done f.at f.n f.src f.mem) f.fails

-- No block of the disk is free.
abbrev pub IsFull : Node Kmem → Type 0
IsFull s = (x : ℕ) → x < s.fs.size → is_used s.fs x ≡ true

-- What readi() does of `left` bytes at `off`.
abbrev pub Fetched : Node Kmem → ℕ → ℕ → ℕ → ℤ → Node Kmem → Type 0
Fetched s dst off left r t =
    Kept s t
    × (got : ℕ) × (got ≤ left)
    × (r ≡ to_int got)
    × Copied (peek s.mem) (peek t.mem) dst got (λ i. content s.fs s.ip.addrs (off + i))
    × ((got ≡ left) ⊎ IsFull t)

-- What writei() does of `n` bytes at `src`.
abbrev pub Stored : Node Kmem → ℕ → ℕ → ℕ → ℤ → Node Kmem → Type 0
Stored s src off n r u =
    (got : ℕ) × (got ≤ n)
    × (r ≡ to_int got)
    × Finished s u off got got (λ i. peek s.mem (src + i))
    × ((got ≡ n) ⊎ IsFull u)

-- What is read where all of it was written: `n` bytes at `dst` are the `n` bytes that were at `src`
-- before the write, and the result counts them.
abbrev pub IsReadBack : Node Kmem → ℕ → ℕ → ℕ → ℤ → Node Kmem → Type 0
IsReadBack s src dst n r t =
    (r ≡ to_int n) × ((i : ℕ) → i < n → peek t.mem (dst + i) ≡ peek s.mem (src + i))

-- Of a file whose blocks are distinct and in use, within its greatest size, whose inode's fields fit
-- their words on disk and whose inode's block is none of its own, at an offset up to its size and
-- with a range within the greatest size: where writei() from the kernel's memory has written all
-- its bytes, a readi() of the same range to the kernel's memory has at `dst` the bytes that were at
-- `src`, and counts them all, unless no block of the disk is free.
pub writei-readi_kernel :
    (src dst off n : ℕ) (s u : Node Kmem)
    → IsFile s.fs s.ip.addrs
    → IsOutside (iblock s.ip.inum s.fs) s.fs s.ip.addrs
    → Fits s.ip
    → s.ip.size ≤ maxfile * bsize
    → off ≤ s.ip.size
    → off + n ≤ maxfile * bsize
    → writei kernel_copyin src off n s ≡ ok (to_int n) u
    → Returns (readi kernel_copyout dst off n u) (λ r t. IsReadBack s src dst n r t ⊎ IsFull t)
writei-readi_kernel src dst off n s u h o fit fits l b e =
    Returns_mono _ _ (writei-readi kernel_in kernel_out src dst off n s u h o fit fits l b e) ends
  where
    ends :
        (r : ℤ) (t : Node Kmem)
        → ReadBack kernel_in kernel_out s src dst n r t
          ⊎ (ReadFull kernel_out t ⊎ ReadFails kernel_out u dst off n)
        → IsReadBack s src dst n r t ⊎ IsFull t
    ends r t (inl back) = inl back
    ends r t (inr (inl full)) = inr full
    ends r t (inr (inr fail)) = absurd (no_fault_out u dst off n fail)
