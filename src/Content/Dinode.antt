-- ===== src/Content/Dinode.antt =====
-- The inode on disk: what iupdate() writes, ilock() reads.
use os_advanced_course.Content.Words.{
  get16-put_bytes, get32-put_bytes, get32-put_words, get16_out, get16_before, get32_before,
}
use os_advanced_course.Base.{
  ℕ, ◌≡◌, ◌<◌, ◌+◌, ◌^◌, refl, arith, true, false, Returns, ne→==, ◌≢◌, lt→ltb, sym, ◌∙◌, Cmd,
  modify, ◌>>◌, ==_refl, panic, update,
}
use os_advanced_course.Buddy.{Array}
use os_advanced_course.Inode.{Inode}
use os_advanced_course.Content.{
  put_bytes, encode, decode, Node, iupdate, ilock_read, dinode_at, iblock,
}

-- The fields fit the words of `struct dinode`.
pub record Fits (x : Inode) : Type 0 where
  pub type : x.type < 2 ^ 16
  pub major : x.major < 2 ^ 16
  pub minor : x.minor < 2 ^ 16
  pub nlink : x.nlink < 2 ^ 16
  pub size : x.size < 2 ^ 32
  pub addrs : (i : ℕ) → i < 13 → x.addrs i < 2 ^ 32

-- The fields that are on disk are the same.
pub record SameOnDisk (x y : Inode) : Type 0 where
  pub type : x.type ≡ y.type
  pub major : x.major ≡ y.major
  pub minor : x.minor ≡ y.minor
  pub nlink : x.nlink ≡ y.nlink
  pub size : x.size ≡ y.size
  pub addrs : (i : ℕ) → i < 13 → x.addrs i ≡ y.addrs i

pub decode-encode :
    (a : ℕ) (x y : Inode) (d : Array) → Fits x → SameOnDisk (decode a (encode a x d) y) x
unfolding decode encode
decode-encode a x y d h =
    let d1 : Array = put_bytes 2 a x.type d in
    let d2 : Array = put_bytes 2 (a + 2) x.major d1 in
    let d3 : Array = put_bytes 2 (a + 4) x.minor d2 in
    let d4 : Array = put_bytes 2 (a + 6) x.nlink d3 in
    let d5 : Array = put_bytes 4 (a + 8) x.size d4 in
    record {
      type =
          get16_before 13 (a + 12) a x.addrs d5 (omega arith)
          ∙ get16_out 4 (a + 8) a x.size d4 (omega arith)
          ∙ get16_out 2 (a + 6) a x.nlink d3 (omega arith)
          ∙ get16_out 2 (a + 4) a x.minor d2 (omega arith)
          ∙ get16_out 2 (a + 2) a x.major d1 (omega arith)
          ∙ get16-put_bytes a x.type d h.type;
      major =
          get16_before 13 (a + 12) (a + 2) x.addrs d5 (omega arith)
          ∙ get16_out 4 (a + 8) (a + 2) x.size d4 (omega arith)
          ∙ get16_out 2 (a + 6) (a + 2) x.nlink d3 (omega arith)
          ∙ get16_out 2 (a + 4) (a + 2) x.minor d2 (omega arith)
          ∙ get16-put_bytes (a + 2) x.major d1 h.major;
      minor =
          get16_before 13 (a + 12) (a + 4) x.addrs d5 (omega arith)
          ∙ get16_out 4 (a + 8) (a + 4) x.size d4 (omega arith)
          ∙ get16_out 2 (a + 6) (a + 4) x.nlink d3 (omega arith)
          ∙ get16-put_bytes (a + 4) x.minor d2 h.minor;
      nlink =
          get16_before 13 (a + 12) (a + 6) x.addrs d5 (omega arith)
          ∙ get16_out 4 (a + 8) (a + 6) x.size d4 (omega arith)
          ∙ get16-put_bytes (a + 6) x.nlink d3 h.nlink;
      size =
          get32_before 13 (a + 12) (a + 8) x.addrs d5 (omega arith)
          ∙ get32-put_bytes (a + 8) x.size d4 h.size;
      addrs = λ i l. rw (lt→ltb i 13 l) (get32-put_words 13 (a + 12) i x.addrs d5 l (h.addrs i l));
    }

module _ {M : Type 0} where
  -- Another entry of the table in the place of the inode.
  abbrev pub set_ip : Inode → Cmd (Node M) (Unit {0})
  set_ip y = modify (λ s. record s { ip = y })

  ilock_read-SameOnDisk :
      (t : Node M) (x : Inode)
      → t.ip.valid ≡ false
      → x.type ≢ 0
      → SameOnDisk (decode (dinode_at t.ip.inum) (t.fs.bytes (iblock t.ip.inum t.fs)) t.ip) x
      → Returns (ilock_read t) (λ _ t'. SameOnDisk t'.ip x × (t'.ip.valid ≡ true))
  unfolding ilock_read decode
  ilock_read-SameOnDisk t x v n h =
      rw (v, ne→== _ 0 (λ e. n (sym h.type ∙ e)))
        (
          record {
            type = h.type;
            major = h.major;
            minor = h.minor;
            nlink = h.nlink;
            size = h.size;
            addrs = h.addrs;
          },
          refl,
        )

  ilock_read-free :
      (t : Node M) (x : Inode)
      → t.ip.valid ≡ false
      → x.type ≡ 0
      → SameOnDisk (decode (dinode_at t.ip.inum) (t.fs.bytes (iblock t.ip.inum t.fs)) t.ip) x
      → ilock_read t ≡ panic
  unfolding ilock_read decode
  ilock_read-free t x v z h = rw (v, h.type, z) refl

  -- The inode that iupdate() has written is the one that is read.
  read_back :
      (s : Node M) (y : Inode)
      → Fits s.ip
      → y.inum ≡ s.ip.inum
      → SameOnDisk
          (decode
            (dinode_at y.inum)
            ((update s.fs.bytes
                (iblock s.ip.inum s.fs)
                (encode (dinode_at s.ip.inum) s.ip (s.fs.bytes (iblock s.ip.inum s.fs))))
              (iblock y.inum s.fs))
            y)
          s.ip
  read_back s y h e =
      rw (e, ==_refl (iblock s.ip.inum s.fs))
        (decode-encode (dinode_at s.ip.inum) s.ip (record y { inum = s.ip.inum })
          (s.fs.bytes (iblock s.ip.inum s.fs)) h)

  -- Of an inode whose fields fit their words on disk: what iupdate() writes, ilock() reads into an
  -- entry of the same number that is not valid. If its type is not 0, the fields on disk are the
  -- same, and the entry is valid; if it is 0, as iput() writes it of a file it frees, ilock()
  -- panics.
  pub iupdate-ilock_read :
      (s : Node M) (y : Inode)
      → Fits s.ip
      → y.inum ≡ s.ip.inum
      → y.valid ≡ false
      → (s.ip.type ≢ 0
          → Returns
              ((iupdate >> set_ip y >> ilock_read) s)
              (λ _ t. SameOnDisk t.ip s.ip × (t.ip.valid ≡ true)))
        × (s.ip.type ≡ 0 → (iupdate >> set_ip y >> ilock_read) s ≡ panic)
  unfolding iupdate
  iupdate-ilock_read s y h e v = (
    λ n. ilock_read-SameOnDisk _ s.ip v n (read_back s y h e),
    λ z. ilock_read-free _ s.ip v z (read_back s y h e),
  )
