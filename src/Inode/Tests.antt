-- ===== src/Inode/Tests.antt =====
-- The table of inodes at a concrete state.
use os_advanced_course.Base.{false, update}
use os_advanced_course.Spinlock.Nesting.{idle_core}
use os_advanced_course.Inode.{Inode, Itable}

abbrev no_inode : Inode
no_inode = record {
  dev = 0;
  inum = 0;
  ref = 0;
  valid = false;
  type = 0;
  major = 0;
  minor = 0;
  nlink = 0;
  size = 0;
  addrs = λ i. 0;
}

-- Entry 1 is inode 5 of device 1.
abbrev table5 : Itable
table5 = record {
  core = idle_core;
  inode = update (λ i. no_inode) 1 (record no_inode { dev = 1; inum = 5; ref = 2 });
}
