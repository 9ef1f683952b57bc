-- ===== src/Log.antt =====
-- The write-ahead log of xv6-os/kernel/log.c over one disk.
-- `view` holds what bread() returns of each block: the cached copy, and the disk's where there is
-- none. A store through `buf->data` changes the view, bwrite() copies a block of it to the disk, and
-- after a crash the view is the disk. `past` records, for the sake of the statements about crashes
-- alone, the disk as it stood before each write, the latest first.
pub mod Crash
pub mod Install
pub mod Record
pub mod Recover
pub mod Commit
pub mod Transaction
mod Tests
use os_advanced_course.Base.{
  ℕ, zero, suc, ◌+◌, ◌-◌, ◌*◌, ◌%◌, ◌^◌, ◌≡◌, Bool, true, false, not, ◌||◌, ◌&&◌, List, [], ◌∷◌,
  ltb, leb, ◌==◌, if◌then◌else◌, update, ok, blocked, panic, Cmd, gets, modify, panicking, pure,
  ◌>>=◌, ◌>>◌, zoom,
}
use os_advanced_course.Spinlock.{Core, initlock, acquire, release}

-- A disk block of BSIZE bytes, as the 32-bit words that `struct logheader` lays over it.
abbrev pub Block : Type 0
Block = ℕ → ℕ

abbrev pub Disk : Type 0
Disk = ℕ → Block

abbrev pub max_op_blocks : ℕ
max_op_blocks = 10

abbrev pub log_size : ℕ
log_size = max_op_blocks * 3

-- `struct logheader`
pub record Header : Type 0 where
  pub n : ℕ
  pub block : ℕ → ℕ

-- Whether the bit pattern of an int stands for a negative number.
abbrev pub is_negative : ℕ → Bool
is_negative x = leb (2 ^ 31) x

-- `struct log`, the CPU, the disk and its cache. `outstanding` is the bit pattern of an int, `n` in
-- the header an int that is not negative; `refcnt` is the reference count of each block's
-- buffer.
pub record Log : Type 0 where
  pub core : Core
  pub start : ℕ
  pub size : ℕ
  pub outstanding : ℕ
  pub committing : Bool
  pub lh : Header
  pub view : Disk
  pub refcnt : ℕ → ℕ
  pub disk : Disk
  pub past : List Disk

-- The blocking write of one block, and stores to its cached copy.
abbrev pub bwrite : ℕ → Log → Log
bwrite b s = record s { disk = update s.disk b (s.view b); past = s.disk ∷ s.past }

abbrev pub store : ℕ → Block → Log → Log
store b c s = record s { view = update s.view b c }

-- `refcnt` is an unsigned int.
abbrev pub bpin : ℕ → Log → Log
bpin b s = record s { refcnt = update s.refcnt b ((s.refcnt b + 1) % 2 ^ 32) }

abbrev pub bunpin : ℕ → Log → Log
bunpin b s = record s { refcnt = update s.refcnt b ((s.refcnt b + 2 ^ 32 - 1) % 2 ^ 32) }

-- A round of install_trans(): block `tail` of the log goes to its home.
install_block : Bool → ℕ → Log → Log
install_block recovering tail s =
    let b = s.lh.block tail in
    let s' = bwrite b (store b (s.view (s.start + tail + 1)) s) in
    if recovering then s' else bunpin b s'

-- The rounds from `tail` on, of which `k` are left.
install_loop : Bool → ℕ → ℕ → Log → Log
install_loop recovering zero tail s = s
install_loop recovering (suc k) tail s =
    install_loop recovering k (tail + 1) (install_block recovering tail s)

pub install_trans : Bool → Log → Log
unfolding install_loop install_block
install_trans recovering s = install_loop recovering s.lh.n 0 s

-- The two loops over `block[]`, from index `i` on with `k` rounds left.
pub read_entries : ℕ → ℕ → Block → (ℕ → ℕ) → ℕ → ℕ
read_entries zero i buf block = block
read_entries (suc k) i buf block = read_entries k (i + 1) buf (update block i (buf (i + 1)))

pub write_entries : ℕ → ℕ → (ℕ → ℕ) → Block → Block
write_entries zero i block buf = buf
write_entries (suc k) i block buf = write_entries k (i + 1) block (update buf (i + 1) (block i))

pub read_head : Log → Log
read_head s =
    let buf = s.view s.start in
    record s { lh = record { n = buf 0; block = read_entries (buf 0) 0 buf s.lh.block } }

pub write_head : Log → Log
write_head s =
    let hb = update (s.view s.start) 0 s.lh.n in
    bwrite s.start (store s.start (write_entries s.lh.n 0 s.lh.block hb) s)

abbrev pub clear : Log → Log
clear s = record s { lh = record (s.lh) { n = 0 } }

pub recover_from_log : Log → Log
recover_from_log s = write_head (clear (install_trans true (read_head s)))

-- `struct superblock`, as far as the log reads it. The check of the header's size against BSIZE
-- is one of constants, and passes.
pub initlog : ℕ → ℕ → Log → Log
unfolding recover_from_log
initlog logstart nlog s =
    recover_from_log
      (record s { core = record (s.core) { lock = initlock }; start = logstart; size = nlog })

-- A round of write_log(): the cached copy of a block goes to the log.
log_block : ℕ → Log → Log
log_block tail s = let to = s.start + tail + 1 in bwrite to (store to (s.view (s.lh.block tail)) s)

log_loop : ℕ → ℕ → Log → Log
log_loop zero tail s = s
log_loop (suc k) tail s = log_loop k (tail + 1) (log_block tail s)

pub write_log : Log → Log
unfolding log_loop log_block
write_log s = log_loop s.lh.n 0 s

pub commit : Log → Log
commit s =
    if ltb 0 s.lh.n then write_head (clear (install_trans false (write_head (write_log s)))) else s

abbrev on_core : {A : Type 0} → Cmd Core A → Cmd Log A
on_core = zoom (λ s. s.core) (λ s c. record s { core = c })

-- Whether begin_op() sleeps: a commit is running, or this operation might exhaust the log space.
pub must_wait : Log → Bool
must_wait s =
    let need = (s.lh.n + (s.outstanding + 1) * max_op_blocks) % 2 ^ 32 in
    s.committing || (ltb log_size need && not (is_negative need))

-- begin_op(); where it sleeps on the log it has released the lock, and starts again when woken.
pub begin_op : Cmd Log (Unit {0})
begin_op = do
  on_core acquire
  wait ← gets must_wait
  if wait
      then (on_core release >> blocked)
      else do modify (λ s. record s { outstanding = (s.outstanding + 1) % 2 ^ 32 }); on_core release

-- end_op(). The wakeup() calls change no field of the log.
pub end_op : Cmd Log (Unit {0})
end_op = do
  on_core acquire
  modify (λ s. record s { outstanding = (s.outstanding + 2 ^ 32 - 1) % 2 ^ 32 })
  committing ← gets (λ s. s.committing)
  if committing then panicking else pure tt
  do_commit ← gets (λ s. s.outstanding == 0)
  if do_commit then modify (λ s. record s { committing = true }) else pure tt
  on_core release
  if not do_commit then pure tt else do
    modify commit
    on_core acquire
    modify (λ s. record s { committing = false })
    on_core release

-- The loop of log_write(): the first index from `i` on that holds `b`, or `n`.
find : ℕ → ℕ → ℕ → (ℕ → ℕ) → ℕ
find zero i b block = i
find (suc k) i b block = let rest = find k (i + 1) b block in if block i == b then i else rest

abbrev append : ℕ → Log → Log
append b s = let t = bpin b s in record t { lh = record (t.lh) { n = t.lh.n + 1 } }

-- log_write() of the buffer of block `b`.
pub log_write : ℕ → Cmd Log (Unit {0})
unfolding find
log_write b = do
  on_core acquire
  full ← gets (λ s. leb log_size s.lh.n || leb (s.size - 1) s.lh.n)
  if full then panicking else pure tt
  outside ← gets (λ s. ltb s.outstanding 1 || is_negative s.outstanding)
  if outside then panicking else pure tt
  i ← gets (λ s. find s.lh.n 0 b s.lh.block)
  modify (λ s. record s { lh = record (s.lh) { block = update s.lh.block i b } })
  fresh ← gets (λ s. i == s.lh.n)
  if fresh then modify (append b) else pure tt
  on_core release
