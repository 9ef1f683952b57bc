-- ===== src/Vm/User.antt =====
-- The memory of a process: the uvm functions of xv6-os/kernel/vm.c, and proc_pagetable() and
-- proc_freepagetable() of xv6-os/kernel/proc.c. The linker's symbols are the parameters
-- `kernel_end` and `trampoline`.
use os_advanced_course.Base.{
  ℤ, pos, negsuc, Option, none, some, ℕ, zero, suc, ◌+◌, ◌-◌, ◌*◌, ◌/◌, ◌%◌, ◌^◌, Bool, true, false,
  not, ◌&&◌, ltb, leb, ◌==◌, if◌then◌else◌, out_of_fuel, Cmd, modify, panicking, pure, ◌>>=◌, ◌>>◌,
}
use Prim.Native.Nat.{bit_or}
use os_advanced_course.Riscv.{word_size, pgsize, pgroundup, Memory}
use os_advanced_course.StringLib.{memmove}
use os_advanced_course.Kalloc.{Kmem, kalloc, kfree}
use os_advanced_course.Vm.{
  pte_v, pte_r, pte_w, pte_x, pte_u, has_flag, pte2pa, pte_flags, load, store, clear_page, walk,
  mappages, trampoline_page, trapframe_page,
}

-- The bytes of the memory's words, and back.
abbrev pub bytes_of : Memory → ℕ → ℕ
bytes_of m a = m (a / 8 * 8) / 256 ^ (a % 8) % 256

abbrev pub word_at : ℕ → ℕ → (ℕ → ℕ) → ℕ
word_at zero a b = 0
word_at (suc k) a b = b a + 256 * word_at k (a + 1) b

-- A string function, on the bytes of the memory.
abbrev pub on_bytes : ((ℕ → ℕ) → ℕ → ℕ) → Cmd Kmem (Unit {0})
on_bytes f = modify (λ s. record s { mem = λ a. word_at 8 a (f (bytes_of s.mem)) })

pub uvmcreate : Cmd Kmem ℕ
unfolding clear_page
uvmcreate = do
  pagetable ← kalloc
  if pagetable == 0 then pure 0 else (do clear_page pagetable; pure pagetable)

pub uvmfirst : ℕ → ℕ → ℕ → Cmd Kmem (Unit {0})
unfolding clear_page mappages
uvmfirst pagetable src sz = do
  if leb pgsize sz then panicking else pure tt
  mem ← kalloc
  clear_page mem
  mappages pagetable 0 pgsize mem (bit_or (bit_or (bit_or pte_w pte_r) pte_x) pte_u)
  on_bytes (memmove mem src sz)

module _ (kernel_end : ℕ) where
  -- The loop of uvmunmap(), on fuel; `last` is the address after the range.
  pub uvmunmap_loop : ℕ → ℕ → ℕ → ℕ → Bool → Cmd Kmem (Unit {0})
  unfolding walk
  uvmunmap_loop zero pagetable a last do_free = λ s. out_of_fuel
  uvmunmap_loop (suc k) pagetable a last do_free =
      let rest = uvmunmap_loop k pagetable ((a + pgsize) % word_size) last do_free in
      let round = (do
        pte ← walk pagetable a false
        if pte == 0 then panicking else pure tt
        e ← load pte
        if not (has_flag e pte_v) then panicking else pure tt
        if pte_flags e == pte_v then panicking else pure tt
        if do_free then kfree kernel_end (pte2pa e) else pure tt
        store pte 0
        rest) in
      if ltb a last then round else pure tt

  -- A round for each page, and one for the last test.
  pub uvmunmap : ℕ → ℕ → ℕ → Bool → Cmd Kmem (Unit {0})
  unfolding uvmunmap_loop
  uvmunmap pagetable va npages do_free = do
    if not (va % pgsize == 0) then panicking else pure tt
    uvmunmap_loop (npages + 1) pagetable va ((va + npages * pgsize) % word_size) do_free

  -- The uint64 of an `int`.
  abbrev sign_extend : ℕ → ℕ
  sign_extend n = let low = n % 2 ^ 32 in if ltb low (2 ^ 31) then low else low + word_size - 2 ^ 32

  pub uvmdealloc : ℕ → ℕ → ℕ → Cmd Kmem ℕ
  unfolding uvmunmap
  uvmdealloc pagetable oldsz newsz =
      let npages = sign_extend ((pgroundup oldsz - pgroundup newsz) / pgsize) in
      if leb oldsz newsz then pure oldsz else (do
        if ltb (pgroundup newsz) (pgroundup oldsz)
            then uvmunmap pagetable (pgroundup newsz) npages true
            else pure tt
        pure newsz)

  -- The loop of uvmalloc(), on fuel.
  pub uvmalloc_loop : ℕ → ℕ → ℕ → ℕ → ℕ → ℕ → Cmd Kmem ℕ
  unfolding clear_page mappages uvmdealloc
  uvmalloc_loop zero pagetable a oldsz newsz xperm = λ s. out_of_fuel
  uvmalloc_loop (suc k) pagetable a oldsz newsz xperm =
      let rest = uvmalloc_loop k pagetable ((a + pgsize) % word_size) oldsz newsz xperm in
      let round = (do
        mem ← kalloc
        if mem == 0 then (do uvmdealloc pagetable a oldsz; pure 0) else (do
          clear_page mem
          mapped ← mappages pagetable a pgsize mem (bit_or (bit_or pte_r pte_u) xperm)
          if mapped
              then rest
              else (do kfree kernel_end mem; uvmdealloc pagetable a oldsz; pure 0))) in
      if ltb a newsz then round else pure newsz

  -- A round for each page below `newsz`, and one for the last test.
  pub uvmalloc : ℕ → ℕ → ℕ → ℕ → Cmd Kmem ℕ
  unfolding uvmalloc_loop
  uvmalloc pagetable oldsz newsz xperm =
      if ltb newsz oldsz
      then pure oldsz
      else uvmalloc_loop (newsz / pgsize + 2) pagetable (pgroundup oldsz) (pgroundup oldsz) newsz
          xperm

  -- The loop of freewalk() over the entries from `i` on; `freewalk` frees a page table below.
  pub freewalk_loop : (ℕ → Cmd Kmem (Unit {0})) → ℕ → ℕ → ℕ → Cmd Kmem (Unit {0})
  freewalk_loop freewalk pagetable zero i = pure tt
  freewalk_loop freewalk pagetable (suc k) i =
      let rest = freewalk_loop freewalk pagetable k (i + 1) in
      do
        pte ← load (pagetable + 8 * i)
        if has_flag pte pte_v && (pte / 2 % 8 == 0)
            then (do freewalk (pte2pa pte); store (pagetable + 8 * i) 0)
            else if has_flag pte pte_v
            then panicking
            else pure tt
        rest

  -- On fuel for the depth of the tree.
  pub freewalk : ℕ → ℕ → Cmd Kmem (Unit {0})
  unfolding freewalk_loop
  freewalk zero pagetable = λ s. out_of_fuel
  freewalk (suc depth) pagetable = do
    freewalk_loop (freewalk depth) pagetable 512 0
    kfree kernel_end pagetable

  -- A page table has three levels.
  pub uvmfree : ℕ → ℕ → Cmd Kmem (Unit {0})
  unfolding uvmunmap freewalk
  uvmfree pagetable sz = do
    if ltb 0 sz then uvmunmap pagetable 0 (pgroundup sz / pgsize) true else pure tt
    freewalk 3 pagetable

  -- The loop of uvmcopy(), on fuel, from `i` on.
  pub uvmcopy_loop : ℕ → ℕ → ℕ → ℕ → ℕ → Cmd Kmem Bool
  unfolding walk mappages uvmunmap
  uvmcopy_loop zero old new sz i = λ s. out_of_fuel
  uvmcopy_loop (suc k) old new sz i =
      let rest = uvmcopy_loop k old new sz ((i + pgsize) % word_size) in
      let err = (do uvmunmap new 0 (i / pgsize) true; pure false) in
      let round = (do
        pte ← walk old i false
        if pte == 0 then panicking else pure tt
        e ← load pte
        if not (has_flag e pte_v) then panicking else pure tt
        mem ← kalloc
        if mem == 0 then err else (do
          on_bytes (memmove mem (pte2pa e) pgsize)
          mapped ← mappages new i pgsize mem (pte_flags e)
          if mapped then rest else (do kfree kernel_end mem; err))) in
      if ltb i sz then round else pure true

  -- A round for each page below `sz`, and one for the last test.
  pub uvmcopy : ℕ → ℕ → ℕ → Cmd Kmem Bool
  unfolding uvmcopy_loop
  uvmcopy old new sz = uvmcopy_loop (sz / pgsize + 2) old new sz 0

  pub proc_pagetable : ℕ → ℕ → Cmd Kmem ℕ
  unfolding uvmcreate mappages uvmunmap uvmfree
  proc_pagetable trampoline trapframe = do
    pagetable ← uvmcreate
    if pagetable == 0 then pure 0 else (do
      text ← mappages pagetable trampoline_page pgsize trampoline (bit_or pte_r pte_x)
      if not text then (do uvmfree pagetable 0; pure 0) else (do
        frame ← mappages pagetable trapframe_page pgsize trapframe (bit_or pte_r pte_w)
        if not frame
            then (do uvmunmap pagetable trampoline_page 1 false; uvmfree pagetable 0; pure 0)
            else pure pagetable))

  pub proc_freepagetable : ℕ → ℕ → Cmd Kmem (Unit {0})
  unfolding uvmunmap uvmfree
  proc_freepagetable pagetable sz = do
    uvmunmap pagetable trampoline_page 1 false
    uvmunmap pagetable trapframe_page 1 false
    uvmfree pagetable sz

  -- growproc() of xv6-os/kernel/proc.c, of a process with this page table and `sz`: its new `sz`,
  -- or none for the result -1.
  pub growproc : ℕ → ℕ → ℤ → Cmd Kmem (Option ℕ)
  unfolding uvmalloc uvmdealloc
  growproc pagetable sz (pos zero) = pure (some sz)
  growproc pagetable sz (pos (suc n)) = do
    grown ← uvmalloc pagetable sz ((sz + suc n) % word_size) pte_w
    pure (if grown == 0 then none else some grown)
  growproc pagetable sz (negsuc n) = do
    shrunk ← uvmdealloc pagetable sz ((sz + word_size - (n + 1)) % word_size)
    pure (some shrunk)
