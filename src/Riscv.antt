-- ===== src/Riscv.antt =====
-- Constants and page arithmetic of xv6-os/kernel/riscv.h and xv6-os/kernel/memlayout.h.
-- Addresses are 64-bit numbers.
use os_advanced_course.Base.{ℕ, ◌+◌, ◌-◌, ◌*◌, ◌/◌, ◌%◌, ◌^◌, ltb, leb, ◌&&◌, if◌then◌else◌}

abbrev pub word_size : ℕ
word_size = 2 ^ 64

abbrev pub pgsize : ℕ
pgsize = 4096

abbrev pub kernbase : ℕ
kernbase = 0x80000000

abbrev pub phystop : ℕ
phystop = kernbase + 128 * 1024 * 1024

abbrev pub pgroundup : ℕ → ℕ
pgroundup sz = (sz + pgsize - 1) % word_size / pgsize * pgsize

abbrev pub pgrounddown : ℕ → ℕ
pgrounddown a = a / pgsize * pgsize

-- Physical memory by aligned 64-bit words: the word at each address that is a multiple of 8.
abbrev pub Memory : Type 0
Memory = ℕ → ℕ

-- memset(p, c, PGSIZE) of the page at `p`, whose words are then eight times the byte `c`.
unfoldable pub fill : Memory → ℕ → ℕ → Memory
fill m p c a = if leb p a && ltb a (p + pgsize) then c * 0x0101010101010101 else m a
