-- ===== src/Content/Tests.antt =====
-- A file of one block.
use os_advanced_course.Base.{
  ℤ, ℕ, ◌≡◌, ◌≢◌, ◌<◌, ◌/◌, refl, [], ◌==◌, true, false, if◌then◌else◌, update, Returns, arith, Run,
  ok, panic, blocked, out_of_fuel, to_int, ◌⊎◌, ◌>>◌, sym, ◌∙◌,
}
use os_advanced_course.Buddy.Bits.{IsBytes}
use os_advanced_course.Fs.{Fs, bpb}
use os_advanced_course.Inode.{Inode}
use os_advanced_course.Content.{Node, bmap, readi, writei, iupdate, ilock_read}
use os_advanced_course.Content.Dinode.{Fits, SameOnDisk, set_ip, iupdate-ilock_read}
use os_advanced_course.Content.Map.{slot, IsFile, IsOutside}
use os_advanced_course.Content.Map.Bmap.{Mapped, bmap-Mapped}
use os_advanced_course.Kalloc.{Kmem}
use os_advanced_course.Spinlock.Nesting.{idle_core}
use os_advanced_course.Vm.Copy.{either_copyin}
use os_advanced_course.Content.Kernel.{kernel_copyout, kernel_copyin}
use os_advanced_course.Content.Kernel.Files.{IsReadBack, IsFull, writei-readi_kernel}

-- Block 1 has the inodes, block 2 the bitmap with blocks 0 to 3 in use, and block 3 is that of
-- the file.
abbrev disk : Fs
disk = record {
  size = 8;
  bmapstart = 2;
  inodestart = 1;
  ninodes = 16;
  bytes = update (λ k i. 0) 2 (update (λ i. 0) 0 15);
  logged = [];
}

abbrev addresses : ℕ → ℕ
addresses = update (λ i. 0) 0 3

disk-IsBytes : (k : ℕ) → IsBytes (disk.bytes k)
disk-IsBytes k i = ground arith

in_bitmap : (q : ℕ) → q < 8 → q / bpb ≡ 0
in_bitmap q l = omega arith

one_slot : (q : ℕ) → slot disk addresses q ≡ (if q == 0 then 3 else 0)
unfolding slot
one_slot q = ground arith

-- A block with a number in the file is block 3, at index 0.
slot_three : (q : ℕ) → slot disk addresses q ≢ 0 → (q ≡ 0) × (slot disk addresses q ≡ 3)
slot_three q z = (ground (arith, one_slot q, z), ground (arith, one_slot q, z))

disk-IsFile : IsFile disk addresses
disk-IsFile = record {
  sound = record { bytes = disk-IsBytes; meta_used = λ q l. rw (in_bitmap q l) refl };
  inside = λ q l. rw (in_bitmap q l) (omega arith);
  fit = omega arith;
  boot = refl;
  below = λ q m z. rw ((slot_three q z).1) (omega arith);
  used = λ q m z. rw ((slot_three q z).1) refl;
  apart = λ q x m l z. rw ((slot_three q z).1, in_bitmap x l) (λ e. absurd (omega (arith, e)));
  distinct = λ p q lp lq z e. (slot_three p z).0 ∙ sym (slot_three q (λ o. z (e ∙ o))).0;
}

inodes-IsOutside : IsOutside 1 disk addresses
inodes-IsOutside = record {
  below = omega arith;
  used = refl;
  apart = λ y l. rw (in_bitmap y l) (λ e. absurd (omega (arith, e)));
  off = λ q m. rw (one_slot q) (λ e. absurd (ground (arith, e)));
}

abbrev inode : Inode
inode = record {
  dev = 1;
  inum = 1;
  ref = 1;
  valid = true;
  type = 2;
  major = 0;
  minor = 0;
  nlink = 1;
  size = 5;
  addrs = addresses;
}

inode-Fits : Fits inode
inode-Fits = record {
  type = omega arith;
  major = omega arith;
  minor = omega arith;
  nlink = omega arith;
  size = omega arith;
  addrs = λ i l. ground arith;
}

-- The memory has the bytes 1 to 8 in each word.
abbrev memory : Kmem
memory = record { core = idle_core; freelist = 0; mem = λ a. 578437695752307201 }

abbrev node : Node Kmem
node = record { fs = disk; ip = inode; mem = memory }

bmap-Mapped_example : Returns (bmap 1 node) (Mapped 1 node)
bmap-Mapped_example = bmap-Mapped 1 node disk-IsFile (omega arith)

iupdate-ilock_read_example :
    (node.ip.type ≢ 0
      → Returns
          ((iupdate >> set_ip (record inode { valid = false; size = 0 }) >> ilock_read) node)
          (λ _ t. SameOnDisk t.ip node.ip × (t.ip.valid ≡ true)))
    × (node.ip.type ≡ 0
        → (iupdate >> set_ip (record inode { valid = false; size = 0 }) >> ilock_read) node ≡ panic)
iupdate-ilock_read_example =
    iupdate-ilock_read node (record inode { valid = false; size = 0 }) inode-Fits refl refl

abbrev end_of : Run (Node Kmem) ℤ → Node Kmem
end_of (ok a s) = s
end_of panic = node
end_of (blocked s) = s
end_of out_of_fuel = node

abbrev after_write : Node Kmem
after_write = end_of (writei kernel_copyin 100 4 3 node)

wrote : writei kernel_copyin 100 4 3 node ≡ ok (to_int 3) after_write
unfolding writei kernel_copyin either_copyin
wrote = refl

writei-readi_kernel_example :
    Returns
      (readi kernel_copyout 200 4 3 after_write)
      (λ r t. IsReadBack node 100 200 3 r t ⊎ IsFull t)
writei-readi_kernel_example =
    writei-readi_kernel 100 200 4 3 node after_write disk-IsFile inodes-IsOutside inode-Fits
      (omega arith) (omega arith) (omega arith) wrote
