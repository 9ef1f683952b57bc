-- ===== src/File.antt =====
-- Open files: xv6-os/kernel/file.c, xv6-os/kernel/file.h. A `struct file` is its index in the file
-- table. What the code calls of the pipes, the inodes, the log and the devices is the interface
-- `Backends` over a state `M` of those components. `pid` stands for myproc().
pub mod Table
pub mod Refs
mod Tests
use os_advanced_course.Base.{
  ℕ, zero, suc, ◌+◌, ◌-◌, ◌*◌, ◌/◌, ◌%◌, ◌^◌, Bool, true, false, not, ◌||◌, Option, none, some, ltb,
  leb, ◌==◌, if◌then◌else◌, update, ℤ, pos, negsuc, out_of_fuel, Cmd, gets, modify, panicking, pure,
  ◌>>=◌, ◌>>◌, zoom,
}
use os_advanced_course.Spinlock.{Core, initlock, acquire, release}

abbrev pub nfile : ℕ
nfile = 100

abbrev pub ndev : ℕ
ndev = 10

pub data FileType : Type 0 where
  fd_none : FileType
  fd_pipe : FileType
  fd_inode : FileType
  fd_device : FileType

-- `major` is a bit pattern of 16 bits.
pub record File : Type 0 where
  pub type : FileType
  pub ref : ℕ
  pub readable : Bool
  pub writable : Bool
  pub pipe : ℕ
  pub ip : ℕ
  pub off : ℕ
  pub major : ℕ

-- The functions on a pipe, an inode or a device; `copy_stat` is stati() and the copyout() of its
-- result.
pub record Backends (M : Type 0) : Type 0 where
  pub pipeclose : ℕ → Bool → Cmd M (Unit {0})
  pub piperead : ℕ → ℕ → ℤ → Cmd M ℤ
  pub pipewrite : ℕ → ℕ → ℤ → Cmd M ℤ
  pub begin_op : Cmd M (Unit {0})
  pub end_op : Cmd M (Unit {0})
  pub ilock : ℕ → Cmd M (Unit {0})
  pub iunlock : ℕ → Cmd M (Unit {0})
  pub iput : ℕ → Cmd M (Unit {0})
  pub stati : ℕ → Cmd M ℕ
  pub copyout : ℕ → ℕ → Cmd M Bool
  pub readi : ℕ → ℕ → ℕ → ℤ → Cmd M ℤ
  pub writei : ℕ → ℕ → ℕ → ℕ → Cmd M ℤ
  pub devsw_read : ℕ → Option (ℕ → ℤ → Cmd M ℤ)
  pub devsw_write : ℕ → Option (ℕ → ℤ → Cmd M ℤ)

-- `ftable`, with the CPU that runs the code, and the rest of the system.
pub record Ftable (M : Type 0) : Type 0 where
  pub core : Core
  pub file : ℕ → File
  pub mem : M

module _ {M : Type 0} where
  abbrev pub on_core : {A : Type 0} → Cmd Core A → Cmd (Ftable M) A
  on_core = zoom (λ s. s.core) (λ s c. record s { core = c })

  abbrev pub on_mem : {A : Type 0} → Cmd M A → Cmd (Ftable M) A
  on_mem = zoom (λ s. s.mem) (λ s m. record s { mem = m })

  abbrev pub set_file : ℕ → File → Ftable M → Ftable M
  set_file f x s = record s { file = update s.file f x }

  abbrev pub set_ref : ℕ → ℕ → Ftable M → Ftable M
  set_ref f n s = set_file f (record (s.file f) { ref = n }) s

  pub fileinit : Cmd (Ftable M) (Unit {0})
  fileinit = modify (λ s. record s { core = record (s.core) { lock = initlock } })

  -- The loop of filealloc() from file `f` on, with `k` files left.
  pub filealloc_loop : ℕ → ℕ → Cmd (Ftable M) (Option ℕ)
  filealloc_loop zero f = do on_core release; pure none
  filealloc_loop (suc k) f =
      let rest = filealloc_loop k (f + 1) in
      do
        x ← gets (λ s. s.file f)
        if x.ref == 0 then (do modify (set_ref f 1); on_core release; pure (some f)) else rest

  pub filealloc : Cmd (Ftable M) (Option ℕ)
  unfolding filealloc_loop
  filealloc = do on_core acquire; filealloc_loop nfile 0

  pub filedup : ℕ → Cmd (Ftable M) ℕ
  filedup f = do
    on_core acquire
    x ← gets (λ s. s.file f)
    if ltb x.ref 1 then panicking else pure tt
    modify (set_ref f (x.ref + 1))
    on_core release
    pure f

module _ {M : Type 0} (v : Backends M) where
  -- What fileclose() does with a file that nobody refers to any more.
  pub close_last : File → Cmd M (Unit {0})
  close_last ff =
      let put = (do v.begin_op; v.iput ff.ip; v.end_op) in
      elim (ff.type) [
        | fd_none ↦ pure tt
        | fd_pipe ↦ v.pipeclose ff.pipe ff.writable
        | fd_inode ↦ put
        | fd_device ↦ put
      ]

  pub fileclose : ℕ → Cmd (Ftable M) (Unit {0})
  unfolding close_last
  fileclose f = do
    on_core acquire
    x ← gets (λ s. s.file f)
    if ltb x.ref 1 then panicking else pure tt
    modify (set_ref f (x.ref - 1))
    if ltb 0 (x.ref - 1) then on_core release else (do
      ff ← gets (λ s. s.file f)
      modify (set_file f (record ff { ref = 0; type = fd_none }))
      on_core release
      on_mem (close_last ff))

  abbrev is_inode : FileType → Bool
  is_inode fd_inode = true
  is_inode fd_device = true
  is_inode _ = false

  pub filestat : ℕ → ℕ → Cmd (Ftable M) Bool
  filestat f addr = do
    x ← gets (λ s. s.file f)
    if is_inode x.type
        then on_mem (do v.ilock x.ip; st ← v.stati x.ip; v.iunlock x.ip; v.copyout addr st)
        else pure false

  -- A positive result of readi() or writei() moves the offset, a uint.
  abbrev advance : ℕ → ℤ → Cmd (Ftable M) (Unit {0})
  advance f (pos r) =
      modify (λ s. set_file f (record (s.file f) { off = ((s.file f).off + r) % 2 ^ 32 }) s)
  advance f (negsuc r) = pure tt

  abbrev no_device : ℕ → Bool
  no_device major = leb (2 ^ 15) major || leb ndev major

  abbrev call_device : Option (ℕ → ℤ → Cmd M ℤ) → ℕ → ℤ → Cmd (Ftable M) ℤ
  call_device none addr n = pure (negsuc 0)
  call_device (some op) addr n = on_mem (op addr n)

  -- fileread() of an inode.
  pub fileread_inode : ℕ → File → ℕ → ℤ → Cmd (Ftable M) ℤ
  fileread_inode f x addr n = do
    on_mem (v.ilock x.ip)
    r ← on_mem (v.readi x.ip addr x.off n)
    advance f r
    on_mem (v.iunlock x.ip)
    pure r

  pub fileread : ℕ → ℕ → ℤ → Cmd (Ftable M) ℤ
  unfolding fileread_inode
  fileread f addr n = do
    x ← gets (λ s. s.file f)
    if not x.readable then pure (negsuc 0) else (elim (x.type) [
      | fd_none ↦ panicking
      | fd_pipe ↦ on_mem (v.piperead x.pipe addr n)
      | fd_inode ↦ fileread_inode f x addr n
      | fd_device ↦
          if no_device x.major then pure (negsuc 0) else call_device (v.devsw_read x.major) addr n
    ])

  -- The most bytes of one transaction: ((MAXOPBLOCKS-1-1-2) / 2) * BSIZE.
  abbrev pub max_write : ℕ
  max_write = (10 - 1 - 1 - 2) / 2 * 1024

  abbrev is_count : ℤ → ℕ → Bool
  is_count (pos r) n = r == n
  is_count (negsuc r) n = false

  -- The loop of filewrite() of an inode, on fuel: where it stops.
  pub filewrite_loop : ℕ → ℕ → ℕ → ℕ → ℕ → Cmd (Ftable M) ℕ
  filewrite_loop zero f addr n i = λ s. out_of_fuel
  filewrite_loop (suc k) f addr n i =
      let n1 = if ltb max_write (n - i) then max_write else n - i in
      let rest = filewrite_loop k f addr n (i + n1) in
      let round = (do
        on_mem v.begin_op
        x ← gets (λ s. s.file f)
        on_mem (v.ilock x.ip)
        y ← gets (λ s. s.file f)
        r ← on_mem (v.writei x.ip (addr + i) y.off n1)
        advance f r
        on_mem (v.iunlock x.ip)
        on_mem v.end_op
        if is_count r n1 then rest else pure i) in
      if ltb i n then round else pure i

  -- A round writes a byte at least, and one more is for the last test.
  pub filewrite_inode : ℕ → ℕ → ℤ → Cmd (Ftable M) ℤ
  unfolding filewrite_loop
  filewrite_inode f addr (negsuc n) = pure (negsuc 0)
  filewrite_inode f addr (pos n) = do
    i ← filewrite_loop (n + 1) f addr n 0
    pure (if i == n then pos n else negsuc 0)

  pub filewrite : ℕ → ℕ → ℤ → Cmd (Ftable M) ℤ
  unfolding filewrite_inode
  filewrite f addr n = do
    x ← gets (λ s. s.file f)
    if not x.writable then pure (negsuc 0) else (elim (x.type) [
      | fd_none ↦ panicking
      | fd_pipe ↦ on_mem (v.pipewrite x.pipe addr n)
      | fd_inode ↦ filewrite_inode f addr n
      | fd_device ↦
          if no_device x.major then pure (negsuc 0) else call_device (v.devsw_write x.major) addr n
    ])
