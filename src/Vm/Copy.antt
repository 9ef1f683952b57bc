-- ===== src/Vm/Copy.antt =====
-- copyout(), copyin() and copyinstr() of xv6-os/kernel/vm.c.
use os_advanced_course.Base.{
  ℕ, zero, suc, ◌+◌, ◌-◌, ◌%◌, Bool, true, false, not, ◌||◌, ltb, leb, ◌==◌, if◌then◌else◌, update,
  out_of_fuel, Cmd, gets, pure, ◌>>=◌, ◌>>◌,
}
use os_advanced_course.Riscv.{word_size, pgsize, pgrounddown}
use os_advanced_course.StringLib.{memmove}
use os_advanced_course.Kalloc.{Kmem}
use os_advanced_course.Vm.{pte_v, pte_w, pte_u, has_flag, pte2pa, maxva, load, walk, walkaddr}
use os_advanced_course.Vm.User.{bytes_of, on_bytes}

-- The bytes of a round: up to the end of the page of `va`, `len` of them at most.
abbrev pub chunk : ℕ → ℕ → ℕ
chunk va len = let n = pgsize - (va - pgrounddown va) in if ltb len n then len else n

abbrev pub next_page : ℕ → ℕ
next_page va = (pgrounddown va + pgsize) % word_size

-- The loop of copyout(), on fuel.
pub copyout_loop : ℕ → ℕ → ℕ → ℕ → ℕ → Cmd Kmem Bool
unfolding walk
copyout_loop zero pagetable dstva src len = λ s. out_of_fuel
copyout_loop (suc k) pagetable dstva src len =
    let va0 = pgrounddown dstva in
    let n = chunk dstva len in
    let rest = copyout_loop k pagetable (next_page dstva) ((src + n) % word_size) (len - n) in
    let round = (do
      pte ← walk pagetable va0 false
      if pte == 0 then pure false else (do
        e ← load pte
        if not (has_flag e pte_v) || (not (has_flag e pte_u) || not (has_flag e pte_w))
            then pure false
            else (do on_bytes (memmove (pte2pa e + (dstva - va0)) src n); rest))) in
    if len == 0 then pure true else if leb maxva va0 then pure false else round

-- A round copies a byte at least, and one more is for the last test.
pub copyout : ℕ → ℕ → ℕ → ℕ → Cmd Kmem Bool
unfolding copyout_loop
copyout pagetable dstva src len = copyout_loop (len + 1) pagetable dstva src len

-- The loop of copyin(), on fuel.
pub copyin_loop : ℕ → ℕ → ℕ → ℕ → ℕ → Cmd Kmem Bool
unfolding walkaddr
copyin_loop zero pagetable dst srcva len = λ s. out_of_fuel
copyin_loop (suc k) pagetable dst srcva len =
    let va0 = pgrounddown srcva in
    let n = chunk srcva len in
    let rest = copyin_loop k pagetable ((dst + n) % word_size) (next_page srcva) (len - n) in
    let round = (do
      pa0 ← walkaddr pagetable va0
      if pa0 == 0 then pure false else (do on_bytes (memmove dst (pa0 + (srcva - va0)) n); rest)) in
    if len == 0 then pure true else round

pub copyin : ℕ → ℕ → ℕ → ℕ → Cmd Kmem Bool
unfolding copyin_loop
copyin pagetable dst srcva len = copyin_loop (len + 1) pagetable dst srcva len

abbrev store_byte : ℕ → ℕ → Cmd Kmem (Unit {0})
store_byte a v = on_bytes (λ b. update b a v)

-- The inner loop of copyinstr() over `n` bytes: whether it has found the end of the string.
pub copyinstr_page : ℕ → ℕ → ℕ → Cmd Kmem Bool
copyinstr_page zero p dst = pure false
copyinstr_page (suc n) p dst =
    let rest = copyinstr_page n (p + 1) (dst + 1) in
    do c ← gets (λ s. bytes_of s.mem p); store_byte dst c; if c == 0 then pure true else rest

-- The outer loop, on fuel.
pub copyinstr_loop : ℕ → ℕ → ℕ → ℕ → ℕ → Cmd Kmem Bool
unfolding walkaddr copyinstr_page
copyinstr_loop zero pagetable dst srcva max = λ s. out_of_fuel
copyinstr_loop (suc k) pagetable dst srcva max =
    let va0 = pgrounddown srcva in
    let n = chunk srcva max in
    let rest = copyinstr_loop k pagetable (dst + n) (next_page srcva) (max - n) in
    let round = (do
      pa0 ← walkaddr pagetable va0
      if pa0 == 0 then pure false else (do
        got_null ← copyinstr_page n (pa0 + (srcva - va0)) dst
        if got_null then pure true else rest)) in
    if max == 0 then pure false else round

pub copyinstr : ℕ → ℕ → ℕ → ℕ → Cmd Kmem Bool
unfolding copyinstr_loop
copyinstr pagetable dst srcva max = copyinstr_loop (max + 1) pagetable dst srcva max

-- either_copyout() and either_copyin() of xv6-os/kernel/proc.c, with the page table of myproc().
unfoldable pub either_copyout : ℕ → Bool → ℕ → ℕ → ℕ → Cmd Kmem Bool
unfolding copyout
either_copyout pagetable user_dst dst src len =
    if user_dst
    then copyout pagetable dst src len
    else (do on_bytes (memmove dst src len); pure true)

unfoldable pub either_copyin : ℕ → ℕ → Bool → ℕ → ℕ → Cmd Kmem Bool
unfolding copyin
either_copyin pagetable dst user_src src len =
    if user_src
    then copyin pagetable dst src len
    else (do on_bytes (memmove dst src len); pure true)
