-- ===== src/Lib.antt =====
-- The xv6 kernel of xv6-os/kernel, and the matcher of a user program, as functions on explicit
-- states.
--
-- Every function of the C code that is modelled is a function of the same name. Code that cannot
-- fail is a function from state to state; code that may panic, or wait for another CPU or process,
-- is a command (Base/Outcome): it returns with a new state, panics, is blocked in a state, or, in a
-- loop on fuel, runs out of it. A lock is part of the state of the component that it protects, with
-- the CPU that runs the code, so that acquire() and release() are calls like any other.
--
-- - Base: shared names, Boolean tests, lists, outcomes.
-- - Spinlock (xv6-os/kernel/spinlock.c, `struct cpu` of xv6-os/kernel/proc.h): push_off, pop_off,
--   acquire, release. Spinlock/Nesting is about one CPU, Spinlock/Exclusion about many.
-- - Sleeplock (xv6-os/kernel/sleeplock.c): every function. Sleeplock/Exclusion is about many
--   processes; that a sleeping process is woken is not part of it.
-- - Riscv (xv6-os/kernel/riscv.h, xv6-os/kernel/memlayout.h): constants, page arithmetic, and
--   physical memory as 64-bit words.
-- - Kalloc (xv6-os/kernel/kalloc.c): kalloc, kfree, freerange, kinit. The loop of freerange() has
--   fuel for every page below the end of the range and one round more. The linker's symbol `end`
--   is a parameter.
-- - Bio (xv6-os/kernel/bio.c): bget and brelse, with the list of xv6-os/kernel/buf.h as the links
--   of ListC. The loops of bget() have fuel: one round more than there are buffers before the one
--   that is sought is enough. A call that sleeps on a buffer that it has found goes on with
--   acquiresleep().
-- - Log (xv6-os/kernel/log.c, with bwrite, bpin and bunpin of xv6-os/kernel/bio.c): every
--   function of the log. The buffer cache is seen through what bread() returns; its replacement
--   of unused buffers is left out there. A crash may come before any write of a block, and leaves
--   the disk alone. Blocks are written whole. The one disk has no number.
-- - StringLib (xv6-os/kernel/string.c): every function. strlen() runs on fuel: one more than the
--   length is enough.
-- - ListC (xv6-os/kernel/list.c): lst_init, lst_empty, lst_remove, lst_pop, lst_push over the
--   fields of the nodes.
-- - Buddy (xv6-os/kernel/buddy.c): the bit arrays, firstk, _log2, and the arithmetic of block
--   numbers. The loops of firstk() and _log2() run on fuel, 61 and 64 rounds at most. An int is
--   the 64-bit word that it widens to.
-- - Pipe (xv6-os/kernel/pipe.c): pipewrite and piperead. copyin() and copyout() of
--   xv6-os/kernel/vm.c are parameters: the byte at a user address, if it can be read, and whether
--   an address can be written. The loops run once for each byte left, so they need no fuel. A
--   sleep is an outcome, and the call that is woken starts from the state in which the pipe then
--   is.
-- - Proc (xv6-os/kernel/proc.c, xv6-os/kernel/proc.h): the process table, with procinit, myproc,
--   allocpid, sleep, wakeup, kill, setkilled, killed, sched, yield and a round of scheduler. A
--   process is its index in the table. A function that switches to another thread ends there,
--   with what it keeps on its stack as its result, and what it does when it runs again is a
--   function of its own (sleep and sleep_back). The loops run once for each process. Saved
--   registers, kernel stacks and names are left out, and so are calls of myproc() whose value is
--   an argument here.
-- - Lifecycle (xv6-os/kernel/proc.c): allocproc, freeproc, fork, reparent, exit and wait. What
--   they call of xv6-os/kernel/vm.c, kalloc.c, file.c, fs.c and log.c is the record Services:
--   operations on a state of any type. A wait() that sleeps ends there, and scans again when
--   woken.
-- - Vm (xv6-os/kernel/vm.c, page tables of xv6-os/kernel/proc.c): walk, mappages and the
--   kernel's page table; Vm/User, the uvm functions; Vm/Copy, copyin, copyout and copyinstr, and
--   either_copyout and either_copyin of proc.c. Page tables are pages of the memory of Kalloc,
--   which string functions see as bytes. The linker's symbols are arguments. Loops run on fuel:
--   a round for each page or byte, and freewalk() one for each of the three levels.
-- - File (xv6-os/kernel/file.c, xv6-os/kernel/file.h): every function. Pipes, inodes, devices and
--   the log are the record Backends. The loop of filewrite() has fuel for a byte a round.
--   Reference counts have no upper bound.
-- - Fs (xv6-os/kernel/fs.c, xv6-os/kernel/fs.h): balloc, bfree and bzero, over the contents of
--   blocks that bread() returns; a call of log_write() is noted with its block. The outer loop of
--   balloc() has fuel for each block of the bitmap and one round more.
-- - Grep (xv6-os/user/grep.c): match, matchhere and matchstar. A string of C is the list of the
--   characters before its null, so a loop that stops at the null is recursion on the list.
-- - Inode (xv6-os/kernel/fs.c, xv6-os/kernel/file.h): the table of inodes, with iget and idup.
--   The sleep lock of an inode is left out.
-- - Content (xv6-os/kernel/fs.c, xv6-os/kernel/fs.h): iupdate, the reading of an inode in
--   ilock, bmap, itrunc, readi and writei, on one inode and the blocks of Fs. The copies are
--   parameters with the laws of the records CopyOut and CopyIn. Content/Kernel has
--   either_copyout() and either_copyin() of Vm/Copy for the kernel's addresses as such copies,
--   with the buffer of the block behind the range that is copied, and Content/Kernel/Files the
--   reading and writing of a file with them. Of the copies for a user's addresses nothing is
--   stated, since two of its pages may be one page of the memory. Content/Map has the blocks of
--   a file, which bmap() keeps distinct. The loops have fuel for a byte a round.
-- - Console (xv6-os/kernel/console.c): consoleintr and consoleread. Console/Edit has the
--   editor of a line that the indices of the buffer implement. The loop that kills a line has
--   fuel for the buffer.
-- - Printf (xv6-os/kernel/printf.c, xv6-os/user/printf.c, xv6-os/user/ulib.c): printint of both and
--   atoi. The loop over the digits runs on 64 rounds, which a number of 64 bits does not use up.
-- - Path (xv6-os/kernel/fs.c): skipelem and namex. What namex() uses of inodes and directories is
--   the record Inodes. Path/Elements has the names of a path. The loop has fuel for a character a
--   round, and one round more.
-- - Descriptor (xv6-os/kernel/sysfile.c): argfd and fdalloc, on the array of open files of a process.
--
-- Not modelled: the C compiler's memory model and the fences; lock names; messages to the console;
-- device registers; of the kernel, directories, system calls but for their descriptors, exec, traps
-- and the drivers of the disk and the UART; of the user programs, all but grep's matcher and the
-- numbers; the build tool mkfs and the Linux modules.
pub mod Base
pub mod Bio
pub mod Buddy
pub mod Console
pub mod Content
pub mod Descriptor
pub mod File
pub mod Fs
pub mod Grep
pub mod Inode
pub mod Kalloc
pub mod Lifecycle
pub mod ListC
pub mod Log
pub mod Path
pub mod Pipe
pub mod Printf
pub mod Proc
pub mod Riscv
pub mod Sleeplock
pub mod Spinlock
pub mod StringLib
pub mod Vm
