-- ===== src/Content/Write/Finish.antt =====
-- writei() as a whole: what is written is read back, and the inode is on disk.
use mathlib.Core.Path.{subst}
use os_advanced_course.Base.{
  ℕ, ◌≡◌, ◌≢◌, ◌<◌, ◌≤◌, ◌+◌, ◌*◌, ◌%◌, ◌-◌, ◌^◌, refl, sym, ap, ◌∙◌, arith, ltb, le→ltb,
  if◌then◌else◌, ◌⊎◌, inl, inr, Returns, Returns_bind, Returns_mono, ℤ, to_int, pure, ◌>>◌, ==_refl,
  ◌∷◌,
}
use os_advanced_course.Fs.{Fs, bsize}
use os_advanced_course.Fs.Bitmap.{is_used}
use os_advanced_course.Inode.{Inode}
use os_advanced_course.Content.{
  Node, maxfile, writei, iupdate, grow, iblock, dinode_at, decode, encode, writei_loop,
}
use os_advanced_course.Content.Words.{encode-IsBytes}
use os_advanced_course.Content.Dinode.{Fits, SameOnDisk, decode-encode}
use os_advanced_course.Content.Map.{eq_or, slot, IsFile, IsOutside, content}
use os_advanced_course.Content.Map.Direct.{place, slot-place}
use os_advanced_course.Content.Map.Elsewhere.{used_same, elsewhere-IsFile, content-elsewhere}
use os_advanced_course.Content.Write.{CopyIn, Written}
use os_advanced_course.Content.Write.Loop.{source, IsFull, CopyFails, Outcome, writei_loop-Outcome}

-- The addresses of a file fit their words.
addrs_fit : (f : Fs) (a : ℕ → ℕ) → IsFile f a → (i : ℕ) → i < 13 → a i < 2 ^ 32
addrs_fit f a h i l = elim (eq_or (a i) 0) [
  | inl z ↦ rw z (omega arith)
  | inr z ↦ omega (arith, below z, h.fit)
]
  where
    at : slot f a (place i) ≡ a i
    at = slot-place i f a (omega arith)

    below : a i ≢ 0 → a i < f.size
    below z = subst (λ x. x < f.size) at (h.below (place i) (ground arith) (λ e. z (sym at ∙ e)))

module _ {M : Type 0} where
  -- The inode of `s`, as its block on disk has it, is that of `s`.
  abbrev pub IsSaved : Node M → Type 0
  IsSaved s =
      (y : Inode)
      → SameOnDisk (decode (dinode_at s.ip.inum) (s.fs.bytes (iblock s.ip.inum s.fs)) y) s.ip

  -- iupdate() of a file, whose inode is in a block of something else.
  iupdate-IsSaved :
      (s : Node M)
      → IsFile s.fs s.ip.addrs
      → IsOutside (iblock s.ip.inum s.fs) s.fs s.ip.addrs
      → Fits s.ip
      → Returns (iupdate s) (λ _ t.
        IsSaved t
        × IsFile t.fs t.ip.addrs
        × (t.ip ≡ s.ip)
        × (t.mem ≡ s.mem)
        × ((i : ℕ) → i < maxfile * bsize → content t.fs t.ip.addrs i ≡ content s.fs s.ip.addrs i)
        × ((x : ℕ) → x < s.fs.size → is_used t.fs x ≡ is_used s.fs x)
        × (t.fs.size ≡ s.fs.size))
  unfolding iupdate
  iupdate-IsSaved s h o fit = (
    (λ y.
        rw (==_refl (iblock s.ip.inum s.fs))
          (decode-encode (dinode_at s.ip.inum) s.ip y (s.fs.bytes (iblock s.ip.inum s.fs)) fit)),
    elsewhere-IsFile (iblock s.ip.inum s.fs) s.fs s.ip.addrs
        (encode (dinode_at s.ip.inum) s.ip (s.fs.bytes (iblock s.ip.inum s.fs)))
        (iblock s.ip.inum s.fs ∷ s.fs.logged) h o
        (encode-IsBytes (dinode_at s.ip.inum) s.ip (s.fs.bytes (iblock s.ip.inum s.fs))
          (h.sound.bytes (iblock s.ip.inum s.fs))),
    refl,
    refl,
    content-elsewhere (iblock s.ip.inum s.fs) s.fs s.ip.addrs
        (encode (dinode_at s.ip.inum) s.ip (s.fs.bytes (iblock s.ip.inum s.fs)))
        (iblock s.ip.inum s.fs ∷ s.fs.logged) h o
        (encode-IsBytes (dinode_at s.ip.inum) s.ip (s.fs.bytes (iblock s.ip.inum s.fs))
          (h.sound.bytes (iblock s.ip.inum s.fs))),
    used_same (iblock s.ip.inum s.fs) s.fs s.ip.addrs
        (encode (dinode_at s.ip.inum) s.ip (s.fs.bytes (iblock s.ip.inum s.fs)))
        (iblock s.ip.inum s.fs ∷ s.fs.logged) h o
        (encode-IsBytes (dinode_at s.ip.inum) s.ip (s.fs.bytes (iblock s.ip.inum s.fs))
          (h.sound.bytes (iblock s.ip.inum s.fs))),
    refl,
  )

  -- `got` bytes of the file from `off` on are those of `f`, and the bytes before them and `reach`
  -- bytes after `off` are as they were; the file has grown to its new end, its blocks are still
  -- its own, and its inode is on disk.
  pub record Finished (s t : Node M) (off got reach : ℕ) (f : ℕ → ℕ) : Type 0 where
    pub file : IsFile t.fs t.ip.addrs
    pub inside : (i : ℕ) → i < got → content t.fs t.ip.addrs (off + i) ≡ f i
    pub outside :
        (x : ℕ)
        → x < maxfile * bsize
        → (x < off) ⊎ (off + reach ≤ x)
        → content t.fs t.ip.addrs x ≡ content s.fs s.ip.addrs x
    pub size : t.ip.size ≡ (if ltb s.ip.size (off + got) then off + got else s.ip.size)
    pub saved : IsSaved t
    pub mem : t.mem ≡ s.mem

  grown : ℕ → Node M → Node M
  grown e s = record s { ip = record (s.ip) { size = if ltb s.ip.size e then e else s.ip.size } }

  grown-Fits :
      (s t : Node M) (off got reach : ℕ) (f : ℕ → ℕ)
      → Written s t off got reach f
      → Fits s.ip
      → off + got < 2 ^ 32
      → Fits (grown (off + got) t).ip
  unfolding grown
  grown-Fits s t off got reach f w h l =
      let new : ℕ = if ltb s.ip.size (off + got) then off + got else s.ip.size in
      subst (λ x. Fits x) (sym (ap (λ (q : Node M). (grown (off + got) q).ip) w.rest))
        (record {
          type = h.type;
          major = h.major;
          minor = h.minor;
          nlink = h.nlink;
          size = (ground (arith, l, h.size));
          addrs = addrs_fit t.fs t.ip.addrs w.file;
        })

  finish_lem :
      (s t : Node M) (off got reach : ℕ) (f : ℕ → ℕ)
      → Written s t off got reach f
      → IsOutside (iblock s.ip.inum s.fs) s.fs s.ip.addrs
      → Fits s.ip
      → off + got ≤ maxfile * bsize
      → Returns ((grow (off + got) >> iupdate) t) (λ _ u.
        Finished s u off got reach f
        × ((x : ℕ) → x < t.fs.size → is_used u.fs x ≡ is_used t.fs x)
        × (u.fs.size ≡ t.fs.size))
  unfolding grown
  finish_lem s t off got reach f w o fit l =
      Returns_mono _ (iupdate (grown (off + got) t))
        (iupdate-IsSaved (grown (off + got) t) w.file
          (subst (λ b. IsOutside b t.fs t.ip.addrs)
            (sym (ap (λ (q : Node M). iblock q.ip.inum q.fs) w.rest)) (w.others _ o).0)
          (grown-Fits s t off got reach f w fit (omega (arith, l))))
        (λ _ u (saved, file, ip, mem, same, used, size). (
          record {
            file = file;
            inside = λ i k. same (off + i) (omega (arith, k, l)) ∙ w.inside i k;
            outside = λ x b e. same x b ∙ w.outside x b e;
            size = ap (λ x. x.size) ip ∙ ap (λ (q : Node M). (grown (off + got) q).ip.size) w.rest;
            saved = saved;
            mem = mem ∙ ap (λ (q : Node M). q.mem) w.rest;
          },
          used,
          size,
        ))

module _ {M : Type 0} (c : CopyIn M) where
  -- What writei() does of `n` bytes from `off` on.
  abbrev pub WriteOutcome : Node M → ℕ → ℕ → ℕ → ℤ → Node M → Type 0
  WriteOutcome s src off n r u =
      (got : ℕ) × (reach : ℕ) × (got ≤ reach)
      × (reach ≤ n)
      × (r ≡ to_int got)
      × Finished s u off got reach (source c s src)
      × (((got ≡ n) ⊎ (IsFull c u × (reach ≡ got))) ⊎ CopyFails c s src n)

  last_steps :
      (src off n : ℕ) (s : Node M) (r : ℕ) (t : Node M)
      → IsOutside (iblock s.ip.inum s.fs) s.fs s.ip.addrs
      → Fits s.ip
      → off + n ≤ maxfile * bsize
      → Outcome c s src off (n - 0) 0 r t
      → Returns ((grow (off + r) >> (iupdate >> pure (to_int r))) t) (WriteOutcome s src off n)
  last_steps src off n s r t o fit b (got, reach, lo, hi, e, w, end) = rw (counted e) (
      Returns_bind _ (iupdate _) _
        (finish_lem s t off got reach (source c s src) w o fit (omega (arith, lo, hi, b)))
        (λ x u (f, used, size).
          (got, reach, lo, omega (arith, hi), refl, f, ending u used size end)))
    where
      counted : r ≡ 0 + got → r ≡ got
      counted e = omega (arith, e)

      ending :
          (u : Node M)
          → ((x : ℕ) → x < t.fs.size → is_used u.fs x ≡ is_used t.fs x)
          → u.fs.size ≡ t.fs.size
          → ((got ≡ n - 0) ⊎ (IsFull c t × (reach ≡ got))) ⊎ CopyFails c s src (n - 0)
          → ((got ≡ n) ⊎ (IsFull c u × (reach ≡ got))) ⊎ CopyFails c s src n
      ending u used size (inl (inl all)) = inl (inl (omega (arith, all)))
      ending u used size (inl (inr (full, same))) = inl (
          inr
            (λ x k. let m : x < t.fs.size = subst (λ y. x < y) size k in used x m ∙ full x m, same))
      ending u used size (inr fail) = inr (subst (λ x. CopyFails c s src x) (omega arith) fail)

  -- writei() at an offset up to the size of the file and within its greatest size returns: the
  -- bytes it counts are those of the memory, the others are as they were, but for what a failed
  -- copy has left behind the count in the same call's range; it counts all bytes, unless the disk
  -- is full or a copy fails. The file has grown where it ends later, its blocks are distinct and
  -- in use, and its inode is on disk.
  pub writei-Finished :
      (src off n : ℕ) (s : Node M)
      → IsFile s.fs s.ip.addrs
      → IsOutside (iblock s.ip.inum s.fs) s.fs s.ip.addrs
      → Fits s.ip
      → off ≤ s.ip.size
      → off + n ≤ maxfile * bsize
      → Returns (writei c.copyin src off n s) (WriteOutcome s src off n)
  unfolding writei
  writei-Finished src off n s h o fit l b =
      rw
        (
          wrap,
          le→ltb s.ip.size off l,
          le→ltb (off + n) off (omega arith),
          le→ltb (maxfile * bsize) (off + n) b,
        )
        (Returns_bind _ (writei_loop c.copyin (n + 1) src off n 0 s) _
          (writei_loop-Outcome c (n + 1) src off n 0 s h (omega arith) (omega arith)
            (omega (arith, b)))
          (λ r t. last_steps src off n s r t o fit b))
    where
      wrap : (off + n) % 2 ^ 32 ≡ off + n
      wrap = omega arith
