-- ===== src/Inode.antt =====
-- The table of inodes in memory, xv6-os/kernel/fs.c and xv6-os/kernel/file.h: iget() and idup().
-- An inode is its index in the table.
pub mod Lookup
mod Tests
use os_advanced_course.Base.{
  ℕ, zero, suc, ◌+◌, Bool, true, false, ◌&&◌, Option, none, some, ltb, ◌==◌, if◌then◌else◌, update,
  Cmd, gets, modify, panicking, pure, ◌>>=◌, ◌>>◌, zoom,
}
use os_advanced_course.Spinlock.{Core, initlock, acquire, release}

abbrev pub ninode : ℕ
ninode = 50

-- `struct inode` without its sleep lock.
pub record Inode : Type 0 where
  pub dev : ℕ
  pub inum : ℕ
  pub ref : ℕ
  pub valid : Bool
  pub type : ℕ
  pub major : ℕ
  pub minor : ℕ
  pub nlink : ℕ
  pub size : ℕ
  pub addrs : ℕ → ℕ

-- `itable`, with the CPU that runs the code.
pub record Itable : Type 0 where
  pub core : Core
  pub inode : ℕ → Inode

abbrev on_core : {A : Type 0} → Cmd Core A → Cmd Itable A
on_core = zoom (λ s. s.core) (λ s c. record s { core = c })

abbrev pub set_inode : ℕ → Inode → Itable → Itable
set_inode i x s = record s { inode = update s.inode i x }

abbrev pub one_more : ℕ → Itable → Itable
one_more i s = set_inode i (record (s.inode i) { ref = (s.inode i).ref + 1 }) s

-- Entry `i` as iget() fills it.
abbrev pub fill_entry : ℕ → ℕ → ℕ → Itable → Itable
fill_entry dev inum i s =
    set_inode i (record (s.inode i) { dev = dev; inum = inum; ref = 1; valid = false }) s

abbrev pub is_entry : ℕ → ℕ → Inode → Bool
is_entry dev inum x = ltb 0 x.ref && ((x.dev == dev) && (x.inum == inum))

-- The empty entry that the loop of iget() has in mind after entry `i`.
abbrev pub note : Option ℕ → ℕ → Inode → Option ℕ
note none i x = if x.ref == 0 then some i else none
note (some e) i x = some e

-- iget() after its loop.
pub recycle : ℕ → ℕ → Option ℕ → Cmd Itable ℕ
recycle dev inum none = panicking
recycle dev inum (some i) = do modify (fill_entry dev inum i); on_core release; pure i

-- The loop of iget() from entry `i` on, with `k` entries left.
pub iget_loop : ℕ → ℕ → ℕ → ℕ → Option ℕ → Cmd Itable ℕ
unfolding recycle
iget_loop dev inum zero i empty = recycle dev inum empty
iget_loop dev inum (suc k) i empty = do
  x ← gets (λ s. s.inode i)
  let rest = iget_loop dev inum k (i + 1) (note empty i x)
  if is_entry dev inum x then (do modify (one_more i); on_core release; pure i) else rest

pub iget : ℕ → ℕ → Cmd Itable ℕ
unfolding iget_loop
iget dev inum = do on_core acquire; iget_loop dev inum ninode 0 none

pub idup : ℕ → Cmd Itable ℕ
idup i = do on_core acquire; modify (one_more i); on_core release; pure i
