-- ===== src/Vm.antt =====
-- Page tables: xv6-os/kernel/vm.c, with the page table entries of xv6-os/kernel/riscv.h and the
-- memory layout of xv6-os/kernel/memlayout.h. A page table is the address of its page; the result
-- 0 of a function that returns a pointer is the null pointer. A result that is 0 or -1 in C is a
-- Boolean.
pub mod User
pub mod Copy
pub mod Bits
pub mod Map
pub mod Lookup
mod Tests
pub mod Walk
use os_advanced_course.Base.{
  ℕ, zero, suc, ◌+◌, ◌-◌, ◌*◌, ◌/◌, ◌%◌, ◌^◌, Bool, true, false, not, ◌||◌, ltb, leb, ◌==◌,
  if◌then◌else◌, update, out_of_fuel, Cmd, gets, modify, panicking, pure, ◌>>=◌, ◌>>◌,
}
use Prim.Native.Nat.{bit_and, bit_or}
use os_advanced_course.Riscv.{word_size, pgsize, kernbase, phystop, Memory, fill}
use os_advanced_course.Kalloc.{Kmem, kalloc}
use os_advanced_course.Proc.{nproc}

abbrev pub pte_v : ℕ
pte_v = 1

abbrev pub pte_r : ℕ
pte_r = 2

abbrev pub pte_w : ℕ
pte_w = 4

abbrev pub pte_x : ℕ
pte_x = 8

abbrev pub pte_u : ℕ
pte_u = 16

-- The test of a flag.
abbrev pub has_flag : ℕ → ℕ → Bool
has_flag pte flag = pte / flag % 2 == 1

abbrev pub pa2pte : ℕ → ℕ
pa2pte pa = pa / 2 ^ 12 * 2 ^ 10 % word_size

abbrev pub pte2pa : ℕ → ℕ
pte2pa pte = pte / 2 ^ 10 * 2 ^ 12 % word_size

abbrev pub pte_flags : ℕ → ℕ
pte_flags pte = pte % 2 ^ 10

abbrev pub px : ℕ → ℕ → ℕ
px level va = va / 2 ^ (12 + 9 * level) % 2 ^ 9

abbrev pub maxva : ℕ
maxva = 2 ^ 38

abbrev pub uart0 : ℕ
uart0 = 0x10000000

abbrev pub virtio0 : ℕ
virtio0 = 0x10001000

abbrev pub plic : ℕ
plic = 0x0c000000

abbrev pub trampoline_page : ℕ
trampoline_page = maxva - pgsize

abbrev pub trapframe_page : ℕ
trapframe_page = trampoline_page - pgsize

abbrev pub kstack : ℕ → ℕ
kstack p = trampoline_page - (p + 1) * 2 * pgsize

abbrev pub load : ℕ → Cmd Kmem ℕ
load a = gets (λ s. s.mem a)

abbrev pub store : ℕ → ℕ → Cmd Kmem (Unit {0})
store a v = modify (λ s. record s { mem = update s.mem a v })

-- memset() of a page with 0.
pub clear_page : ℕ → Cmd Kmem (Unit {0})
unfolding fill
clear_page p = modify (λ s. record s { mem = fill s.mem p 0 })

-- The loop of walk() from `level` on.
pub walk_loop : ℕ → ℕ → Bool → ℕ → Cmd Kmem ℕ
unfolding clear_page
walk_loop zero va alloc pagetable = pure (pagetable + 8 * px 0 va)
walk_loop (suc level) va alloc pagetable =
    let rest = walk_loop level va alloc in
    let pte = pagetable + 8 * px (suc level) va in
    let grow = (do
      page ← kalloc
      if page == 0
          then pure 0
          else (do clear_page page; store pte (bit_or (pa2pte page) pte_v); rest page)) in
    do
      e ← load pte
      if has_flag e pte_v then rest (pte2pa e) else if not alloc then pure 0 else grow

pub walk : ℕ → ℕ → Bool → Cmd Kmem ℕ
unfolding walk_loop
walk pagetable va alloc = if leb maxva va then panicking else walk_loop 2 va alloc pagetable

pub walkaddr : ℕ → ℕ → Cmd Kmem ℕ
unfolding walk
walkaddr pagetable va = if leb maxva va then pure 0 else (do
  pte ← walk pagetable va false
  if pte == 0 then pure 0 else (do
    e ← load pte
    if not (has_flag e pte_v)
        then pure 0
        else if not (has_flag e pte_u)
        then pure 0
        else pure (pte2pa e)))

-- The loop of mappages(), on fuel.
pub mappages_loop : ℕ → ℕ → ℕ → ℕ → ℕ → ℕ → Cmd Kmem Bool
unfolding walk
mappages_loop zero pagetable a last pa perm = λ s. out_of_fuel
mappages_loop (suc k) pagetable a last pa perm =
    let rest =
      mappages_loop k pagetable ((a + pgsize) % word_size) last ((pa + pgsize) % word_size) perm in
    do
      pte ← walk pagetable a true
      if pte == 0 then pure false else (do
        e ← load pte
        if has_flag e pte_v then panicking else pure tt
        store pte (bit_or (bit_or (pa2pte pa) perm) pte_v)
        if a == last then pure true else rest)

-- A round for each page.
pub mappages : ℕ → ℕ → ℕ → ℕ → ℕ → Cmd Kmem Bool
unfolding mappages_loop
mappages pagetable va size pa perm = do
  if not (va % pgsize == 0) then panicking else pure tt
  if not (size % pgsize == 0) then panicking else pure tt
  if size == 0 then panicking else pure tt
  mappages_loop (size / pgsize) pagetable va ((va + size + word_size - pgsize) % word_size) pa perm

pub kvmmap : ℕ → ℕ → ℕ → ℕ → ℕ → Cmd Kmem (Unit {0})
unfolding mappages
kvmmap kpgtbl va pa sz perm = do
  mapped ← mappages kpgtbl va sz pa perm
  if mapped then pure tt else panicking

-- proc_mapstacks() of xv6-os/kernel/proc.c, from process `i` on.
pub proc_mapstacks_loop : ℕ → ℕ → ℕ → Cmd Kmem (Unit {0})
unfolding kvmmap
proc_mapstacks_loop kpgtbl zero i = pure tt
proc_mapstacks_loop kpgtbl (suc k) i = do
  pa ← kalloc
  if pa == 0 then panicking else pure tt
  kvmmap kpgtbl (kstack i) pa pgsize (bit_or pte_r pte_w)
  proc_mapstacks_loop kpgtbl k (i + 1)

pub proc_mapstacks : ℕ → Cmd Kmem (Unit {0})
unfolding proc_mapstacks_loop
proc_mapstacks kpgtbl = proc_mapstacks_loop kpgtbl nproc 0

-- The linker's symbols `etext` and `trampoline` are arguments.
pub kvmmake : ℕ → ℕ → Cmd Kmem ℕ
unfolding kvmmap proc_mapstacks
kvmmake etext trampoline = do
  kpgtbl ← kalloc
  clear_page kpgtbl
  kvmmap kpgtbl uart0 uart0 pgsize (bit_or pte_r pte_w)
  kvmmap kpgtbl virtio0 virtio0 pgsize (bit_or pte_r pte_w)
  kvmmap kpgtbl plic plic 0x4000000 (bit_or pte_r pte_w)
  kvmmap kpgtbl kernbase kernbase ((etext + word_size - kernbase) % word_size) (bit_or pte_r pte_x)
  kvmmap kpgtbl etext etext ((phystop + word_size - etext) % word_size) (bit_or pte_r pte_w)
  kvmmap kpgtbl trampoline_page trampoline pgsize (bit_or pte_r pte_x)
  proc_mapstacks kpgtbl
  pure kpgtbl

pub uvmclear : ℕ → ℕ → Cmd Kmem (Unit {0})
unfolding walk
uvmclear pagetable va = do
  pte ← walk pagetable va false
  if pte == 0 then panicking else (do e ← load pte; store pte (bit_and e (word_size - 1 - pte_u)))
