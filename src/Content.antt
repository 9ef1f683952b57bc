-- ===== src/Content.antt =====
-- The content of inodes, xv6-os/kernel/fs.c and xv6-os/kernel/fs.h: bmap, itrunc, iupdate, the
-- reading of an inode in ilock(), readi and writei. The caller holds the inode's lock, so one
-- inode is the state, beside the blocks of Fs and the memory `M` that is copied to and from.
pub mod Words
pub mod Dinode
pub mod Map
pub mod Rounds
pub mod Read
pub mod Write
pub mod Back
pub mod Kernel
mod Tests
use os_advanced_course.Base.{
  ℕ, zero, suc, ◌+◌, ◌-◌, ◌*◌, ◌/◌, ◌%◌, ◌^◌, Bool, true, false, not, ◌&&◌, ◌||◌, Option, none,
  some, List, ◌∷◌, ltb, leb, ◌==◌, if◌then◌else◌, update, ℤ, pos, negsuc, to_int, out_of_fuel, Cmd,
  gets, modify, panicking, pure, ◌>>=◌, ◌>>◌, zoom,
}
use os_advanced_course.Buddy.{Array}
use os_advanced_course.Fs.{Fs, bsize, log_write, balloc, bfree}
use os_advanced_course.Inode.{Inode}

abbrev pub ndirect : ℕ
ndirect = 12

abbrev pub nindirect : ℕ
nindirect = bsize / 4

abbrev pub maxfile : ℕ
maxfile = ndirect + nindirect

-- sizeof(struct dinode), and the inodes of a block.
abbrev pub dinode_size : ℕ
dinode_size = 64

abbrev pub ipb : ℕ
ipb = bsize / dinode_size

abbrev pub iblock : ℕ → Fs → ℕ
iblock i s = i / ipb + s.inodestart

-- Little-endian words in bytes.
abbrev pub get16 : Array → ℕ → ℕ
get16 d a = d a + 256 * d (a + 1)

abbrev pub get32 : Array → ℕ → ℕ
get32 d a = d a + 256 * d (a + 1) + 65536 * d (a + 2) + 16777216 * d (a + 3)

abbrev pub byte_of : ℕ → ℕ → ℕ
byte_of v k = v / 256 ^ k % 256

-- `n` bytes of `v` from `a` on.
abbrev pub put_bytes : ℕ → ℕ → ℕ → Array → Array
put_bytes n a v d i = if leb a i && ltb i (a + n) then byte_of v (i - a) else d i

-- `n` words from `a` on.
abbrev pub put_words : ℕ → ℕ → (ℕ → ℕ) → Array → Array
put_words n a w d i =
    if leb a i && ltb i (a + 4 * n) then byte_of (w ((i - a) / 4)) ((i - a) % 4) else d i

pub record Node (M : Type 0) : Type 0 where
  pub fs : Fs
  pub ip : Inode
  pub mem : M

-- The place of an inode in its block, and its bytes there.
abbrev pub dinode_at : ℕ → ℕ
dinode_at inum = inum % ipb * dinode_size

pub encode : ℕ → Inode → Array → Array
encode a x d = put_words 13 (a + 12) x.addrs (
    put_bytes 4 (a + 8) x.size (
      put_bytes 2 (a + 6) x.nlink
        (put_bytes 2 (a + 4) x.minor (put_bytes 2 (a + 2) x.major (put_bytes 2 a x.type d)))))

pub decode : ℕ → Array → Inode → Inode
decode a d x = record x {
  type = get16 d a;
  major = get16 d (a + 2);
  minor = get16 d (a + 4);
  nlink = get16 d (a + 6);
  size = get32 d (a + 8);
  addrs = λ i. if ltb i 13 then get32 d (a + 12 + 4 * i) else x.addrs i;
}

module _ {M : Type 0} where
  abbrev pub on_fs : {A : Type 0} → Cmd Fs A → Cmd (Node M) A
  on_fs = zoom (λ s. s.fs) (λ s f. record s { fs = f })

  abbrev pub on_mem : {A : Type 0} → Cmd M A → Cmd (Node M) A
  on_mem = zoom (λ s. s.mem) (λ s m. record s { mem = m })

  abbrev pub set_addr : ℕ → ℕ → Cmd (Node M) (Unit {0})
  set_addr i b = modify (λ s. record s { ip = record (s.ip) { addrs = update s.ip.addrs i b } })

  pub iupdate : Cmd (Node M) (Unit {0})
  unfolding encode
  iupdate = do
    s ← gets (λ s. s)
    let b = iblock s.ip.inum s.fs
    on_fs (log_write b (encode (dinode_at s.ip.inum) s.ip (s.fs.bytes b)))

  -- ilock() with the sleep lock taken.
  pub ilock_read : Cmd (Node M) (Unit {0})
  unfolding decode
  ilock_read = do
    s ← gets (λ s. s)
    let x = decode (dinode_at s.ip.inum) (s.fs.bytes (iblock s.ip.inum s.fs)) s.ip
    if s.ip.valid then pure tt else (do
      modify (λ s. record s { ip = record x { valid = true } })
      if x.type == 0 then panicking else pure tt)

  -- bmap() of a direct block.
  pub bmap_direct : ℕ → Cmd (Node M) ℕ
  bmap_direct bn = do
    s ← gets (λ s. s)
    if not (s.ip.addrs bn == 0) then pure (s.ip.addrs bn) else (do
      addr ← on_fs balloc
      if addr == 0 then pure 0 else (do set_addr bn addr; pure addr))

  -- bmap() of entry `bn` of the indirect block `b`.
  pub bmap_indirect : ℕ → ℕ → Cmd (Node M) ℕ
  bmap_indirect b bn = do
    s ← gets (λ s. s)
    let addr = get32 (s.fs.bytes b) (4 * bn)
    if not (addr == 0) then pure addr else (do
      addr ← on_fs balloc
      t ← gets (λ s. s)
      if addr == 0 then pure tt else on_fs (log_write b (put_bytes 4 (4 * bn) addr (t.fs.bytes b)))
      pure addr)

  pub bmap : ℕ → Cmd (Node M) ℕ
  unfolding bmap_direct bmap_indirect
  bmap bn =
      if ltb bn ndirect
      then bmap_direct bn
      else if ltb (bn - ndirect) nindirect
      then (do b ← bmap_direct ndirect; if b == 0 then pure 0 else bmap_indirect b (bn - ndirect))
      else panicking

  -- The loops of itrunc() over the direct blocks, and over the entries of the indirect block `b`.
  pub itrunc_direct : ℕ → ℕ → Cmd (Node M) (Unit {0})
  itrunc_direct zero i = pure tt
  itrunc_direct (suc k) i = do
    s ← gets (λ s. s)
    if s.ip.addrs i == 0 then pure tt else (do on_fs (bfree (s.ip.addrs i)); set_addr i 0)
    itrunc_direct k (i + 1)

  pub itrunc_indirect : ℕ → ℕ → ℕ → Cmd (Node M) (Unit {0})
  itrunc_indirect b zero j = pure tt
  itrunc_indirect b (suc k) j = do
    s ← gets (λ s. s)
    let addr = get32 (s.fs.bytes b) (4 * j)
    if addr == 0 then pure tt else on_fs (bfree addr)
    itrunc_indirect b k (j + 1)

  pub itrunc : Cmd (Node M) (Unit {0})
  unfolding itrunc_direct itrunc_indirect iupdate
  itrunc = do
    itrunc_direct ndirect 0
    s ← gets (λ s. s)
    let b = s.ip.addrs ndirect
    if b == 0
        then pure tt
        else (do itrunc_indirect b nindirect 0; on_fs (bfree b); set_addr ndirect 0)
    modify (λ s. record s { ip = record (s.ip) { size = 0 } })
    iupdate

-- The bytes of a round of readi() and writei() from `off` on, with `left` bytes to go.
abbrev pub round_size : ℕ → ℕ → ℕ
round_size off left = let m = bsize - off % bsize in if ltb left m then left else m

-- `copyout` and `copyin` are either_copyout() and either_copyin(): `m` bytes at an address of the
-- memory become those of the array from index 0 on; the bytes of the array become those from an
-- address on, as far as they can be copied, and the flag says whether that is all `m`.
module _ {M : Type 0} (copyout : ℕ → ℕ → Array → Cmd M Bool) where
  -- The loop of readi(), on fuel.
  pub readi_loop : ℕ → ℕ → ℕ → ℕ → ℕ → Cmd (Node M) ℤ
  unfolding bmap
  readi_loop zero dst off n tot = λ s. out_of_fuel
  readi_loop (suc k) dst off n tot =
      let m = round_size off (n - tot) in
      let rest = readi_loop k (dst + m) (off + m) n (tot + m) in
      let round = (do
        addr ← bmap (off / bsize)
        if addr == 0 then pure (to_int tot) else (do
          s ← gets (λ s. s)
          copied ← on_mem (copyout dst m (λ i. s.fs.bytes addr (off % bsize + i)))
          if copied then rest else pure (negsuc 0))) in
      if ltb tot n then round else pure (to_int tot)

  -- A round reads a byte at least, and one more is for the last test.
  pub readi : ℕ → ℕ → ℕ → Cmd (Node M) ℤ
  unfolding readi_loop
  readi dst off n = do
    s ← gets (λ s. s)
    let n' = if ltb s.ip.size ((off + n) % 2 ^ 32) then s.ip.size - off else n
    if ltb s.ip.size off || ltb ((off + n) % 2 ^ 32) off
        then pure (pos 0)
        else readi_loop (n' + 1) dst off n' 0

-- The bytes of a block once `m` of them from `a` on are replaced.
abbrev pub overwrite : ℕ → ℕ → Array → Array → Array
overwrite a m new d i = if leb a i && ltb i (a + m) then new (i - a) else d i

module _ {M : Type 0} where
  -- The bytes come into the buffer also where the copy fails on the way.
  abbrev pub store_bytes : ℕ → ℕ → ℕ → Bool × Array → Cmd (Node M) Bool
  store_bytes addr a m r = do
    s ← gets (λ s. s)
    let d = overwrite a m r.1 (s.fs.bytes addr)
    if r.0
        then on_fs (log_write addr d)
        else modify (λ s. record s { fs = record (s.fs) { bytes = update s.fs.bytes addr d } })
    pure r.0

  abbrev pub grow : ℕ → Cmd (Node M) (Unit {0})
  grow off =
      modify (λ s. record s {
        ip = record (s.ip) { size = if ltb s.ip.size off then off else s.ip.size };
      })

module _ {M : Type 0} (copyin : ℕ → ℕ → Array → Cmd M (Bool × Array)) where
  -- The loop of writei(), on fuel: the bytes written.
  pub writei_loop : ℕ → ℕ → ℕ → ℕ → ℕ → Cmd (Node M) ℕ
  unfolding bmap
  writei_loop zero src off n tot = λ s. out_of_fuel
  writei_loop (suc k) src off n tot =
      let m = round_size off (n - tot) in
      let rest = writei_loop k (src + m) (off + m) n (tot + m) in
      let round = (do
        addr ← bmap (off / bsize)
        if addr == 0 then pure tot else (do
          s ← gets (λ s. s)
          new ← on_mem (copyin src m (λ i. s.fs.bytes addr (off % bsize + i)))
          stored ← store_bytes addr (off % bsize) m new
          if stored then rest else pure tot)) in
      if ltb tot n then round else pure tot

  pub writei : ℕ → ℕ → ℕ → Cmd (Node M) ℤ
  unfolding writei_loop iupdate
  writei src off n = do
    s ← gets (λ s. s)
    if ltb s.ip.size off || ltb ((off + n) % 2 ^ 32) off
        then pure (negsuc 0)
        else if ltb (maxfile * bsize) ((off + n) % 2 ^ 32)
        then pure (negsuc 0)
        else (do
          tot ← writei_loop (n + 1) src off n 0
          grow (off + tot)
          iupdate
          pure (to_int tot))
