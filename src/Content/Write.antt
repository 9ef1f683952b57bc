-- ===== src/Content/Write.antt =====
-- writei() on a file.
pub mod Loop
pub mod Finish
use os_advanced_course.Base.{
  ◌∷◌, lt→ltb, ◌>>=◌, ℕ, ◌≡◌, ◌≢◌, ◌<◌, ◌≤◌, ◌+◌, ◌*◌, ◌/◌, ◌%◌, ◌-◌, refl, sym, ap, ◌∙◌, arith,
  true, false, leb, ltb, ◌&&◌, if◌then◌else◌, ◌⊎◌, inl, inr, Bool-cases, Bool, Cmd, Returns,
  Returns_mono, ne→==, ltb→lt, ok, pure, List, update, ◌==◌, gets, suc,
}
use os_advanced_course.Buddy.{Array}
use os_advanced_course.Buddy.Bits.{IsBytes}
use os_advanced_course.Fs.{Fs, bsize}
use os_advanced_course.Fs.Bitmap.{is_used}
use os_advanced_course.Content.{
  Node, maxfile, store_bytes, overwrite, writei_loop, round_size, on_mem,
}
use os_advanced_course.Content.Map.{slot, IsFile, IsOutside, content, eq_or}
use os_advanced_course.Content.Map.Bmap.{Mapped}
use os_advanced_course.Content.Map.Replace.{
  replaced-IsFile, replaced-IsOutside, content-replaced, content-others,
}

-- A memory seen as bytes by address, and either_copyin() on it.
pub record CopyIn (M : Type 0) : Type 0 where
  pub peek : M → ℕ → ℕ
  pub copyin : ℕ → ℕ → Array → Cmd M (Bool × Array)
  pub copied :
      (src n : ℕ) (old : Array) (s : M)
      → Returns (copyin src n old s) (λ r t.
        (t ≡ s)
        × ((i : ℕ) → i < n → r.1 i < 256)
        × (r.0 ≡ true → (i : ℕ) → i < n → r.1 i ≡ peek s (src + i)))

-- `n` bytes of the file from `off` on are those of `f`, and the bytes before them and `reach`
-- bytes after `off` are as they were, as is all but the blocks of the file.
pub record Written {M : Type 0} (s t : Node M) (off n reach : ℕ) (f : ℕ → ℕ) : Type 0 where
  pub file : IsFile t.fs t.ip.addrs
  pub inside : (i : ℕ) → i < n → content t.fs t.ip.addrs (off + i) ≡ f i
  pub outside :
      (x : ℕ)
      → x < maxfile * bsize
      → (x < off) ⊎ (off + reach ≤ x)
      → content t.fs t.ip.addrs x ≡ content s.fs s.ip.addrs x
  pub others :
      (x : ℕ)
      → IsOutside x s.fs s.ip.addrs
      → IsOutside x t.fs t.ip.addrs × (t.fs.bytes x ≡ s.fs.bytes x)
  pub rest : t ≡ record s {
    fs = record (s.fs) { bytes = t.fs.bytes; logged = t.fs.logged };
    ip = record (s.ip) { addrs = t.ip.addrs };
  }

out_of : (lo hi y : ℕ) → (y < lo) ⊎ (hi ≤ y) → (leb lo y && ltb y hi) ≡ false
out_of lo hi y h = ground arith

module _ {M : Type 0} where
  pub Written-step :
      (s t u : Node M) (off m n reach : ℕ) (f g h : ℕ → ℕ)
      → off + m + n ≤ maxfile * bsize
      → n ≤ reach
      → Written s t off m m f
      → Written t u (off + m) n reach g
      → ((i : ℕ) → i < m → f i ≡ h i)
      → ((i : ℕ) → i < n → g i ≡ h (m + i))
      → Written s u off (m + n) (m + reach) h
  Written-step s t u off m n reach f g h fits l first second low high = record {
    file = second.file;
    inside = λ i b. elim (Bool-cases (ltb i m)) [
      | inl y ↦
          second.outside (off + i) (ground arith) (ground arith)
          ∙ first.inside i (ltb→lt i m y)
          ∙ low i (ltb→lt i m y)
      | inr y ↦
          ap (content u.fs u.ip.addrs) (ground (arith, y))
          ∙ second.inside (i - m) (ground arith)
          ∙ high (i - m) (ground arith)
          ∙ ap h (ground arith)
    ];
    outside = λ x b o. second.outside x b (omega arith) ∙ first.outside x b (omega arith);
    others = λ x o.
        let one = first.others x o in let two = second.others x one.0 in (two.0, two.1 ∙ one.1);
    rest =
        second.rest
        ∙ ap
            (λ (y : Node M). record y {
              fs = record (y.fs) { bytes = u.fs.bytes; logged = u.fs.logged };
              ip = record (y.ip) { addrs = u.ip.addrs };
            })
            first.rest;
  }

  -- The bytes of a file of which `m` bytes of the block of `off` are now those of `new`.
  module _ (t : Node M) (off m : ℕ) (new : Array) (l : List ℕ) (h : IsFile t.fs t.ip.addrs)
      (z : slot t.fs t.ip.addrs (off / bsize) ≢ 0) (fits : off + m ≤ maxfile * bsize) (some : 0 < m)
      (b : off % bsize + m ≤ bsize) (k : (i : ℕ) → i < m → new i < 256) where
    abbrev block : ℕ
    block = slot t.fs t.ip.addrs (off / bsize)

    abbrev written : Array
    written = overwrite (off % bsize) m new (t.fs.bytes block)

    abbrev stored : Fs
    stored = record (t.fs) { bytes = update t.fs.bytes block written; logged = l }

    written-IsBytes : IsBytes written
    written-IsBytes i = elim (Bool-cases (leb (off % bsize) i && ltb i (off % bsize + m))) [
      | inl y ↦ rw y (k (i - off % bsize) (ground (arith, some)))
      | inr y ↦ rw y (h.sound.bytes block i)
    ]

    in_file : off / bsize < maxfile
    in_file = omega arith

    written_inside : (i : ℕ) → i < m → content stored t.ip.addrs (off + i) ≡ new i
    written_inside i w =
        content-replaced (off / bsize) t.fs t.ip.addrs written l h in_file z written-IsBytes
          (off + i) (omega arith)
        ∙ rw (rest, lower, upper) (ap new (omega arith))
      where
        rest : (off + i) % bsize ≡ off % bsize + i
        rest = omega arith

        lower : leb (off % bsize) (off % bsize + i) ≡ true
        lower = ground arith

        upper : ltb (off % bsize + i) (off % bsize + m) ≡ true
        upper = lt→ltb _ _ (omega arith)

    written_outside :
        (x : ℕ)
        → x < maxfile * bsize
        → (x < off) ⊎ (off + m ≤ x)
        → content stored t.ip.addrs x ≡ content t.fs t.ip.addrs x
    unfolding content
    written_outside x w o = elim (eq_or (x / bsize) (off / bsize)) [
      | inr ne ↦
          content-others (off / bsize) t.fs t.ip.addrs written l h in_file z written-IsBytes x w ne
      | inl e ↦
          content-replaced (off / bsize) t.fs t.ip.addrs written l h in_file z written-IsBytes x e
          ∙ rw (beyond e, e, ne→== block 0 z) refl
    ]
      where
        beyond :
            x / bsize ≡ off / bsize
            → (leb (off % bsize) (x % bsize) && ltb (x % bsize) (off % bsize + m)) ≡ false
        beyond e = out_of (off % bsize) (off % bsize + m) (x % bsize) (omega arith)

    overwrite-Written :
        (s : Node M) (n : ℕ) (f : ℕ → ℕ)
        → Mapped (off / bsize) s block t
        → n ≤ m
        → ((i : ℕ) → i < n → new i ≡ f i)
        → Written s (record t { fs = stored }) off n m f
    overwrite-Written s n f g small e = record {
      file = replaced-IsFile (off / bsize) t.fs t.ip.addrs written l h in_file z written-IsBytes;
      inside = λ i w. written_inside i (omega (arith, w, small)) ∙ e i w;
      outside = λ x w o. written_outside x w o ∙ g.same x w;
      others = λ x o.
          let one = g.others x o in
          let two =
            replaced-IsOutside (off / bsize) t.fs t.ip.addrs written l h in_file z written-IsBytes x
              one.0 in
          (two.0, two.1 ∙ one.1);
      rest =
          ap
            (λ (y : Node M). record y {
              fs = record (y.fs) { bytes = update t.fs.bytes block written; logged = l };
            })
            g.rest;
    }

  pub stored-Written :
      (s t : Node M) (off m n r : ℕ) (new : Array) (l : List ℕ) (f : ℕ → ℕ)
      → Mapped (off / bsize) s r t
      → r ≢ 0
      → off + m ≤ maxfile * bsize
      → 0 < m
      → off % bsize + m ≤ bsize
      → n ≤ m
      → ((i : ℕ) → i < m → new i < 256)
      → ((i : ℕ) → i < n → new i ≡ f i)
      → Written s
          (record t {
            fs = record (t.fs) {
              bytes = update t.fs.bytes r (overwrite (off % bsize) m new (t.fs.bytes r));
              logged = l;
            };
          })
          off
          n
          m
          f
  stored-Written s t off m n r new l f h z fits some b small k e = rw (sym (h.at z)) (
      overwrite-Written t off m new l h.file (λ o. z (sym (h.at z) ∙ o)) fits some b k s n f
        (rw (h.at z) h) small e)
