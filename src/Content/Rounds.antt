-- ===== src/Content/Rounds.antt =====
-- What the rounds of readi() and writei() share: their sizes, what they leave as it was, and the
-- memory that is copied to.
use os_advanced_course.Base.{
  ℕ, ◌≡◌, ◌≢◌, ◌<◌, ◌≤◌, ◌+◌, ◌*◌, ◌/◌, ◌%◌, ◌-◌, refl, ap, ◌∙◌, arith, true, ltb, ◌⊎◌, inl, inr,
  Bool-cases, Bool, Cmd, Returns, ne→==, ltb→lt, sym,
}
use os_advanced_course.Buddy.{Array}
use os_advanced_course.Fs.{bsize}
use os_advanced_course.Content.{Node, maxfile, round_size}
use os_advanced_course.Content.Map.{IsFile, IsOutside, content}
use os_advanced_course.Content.Map.Bmap.{Mapped}

pub round_size_lem :
    (off left : ℕ)
    → 0 < left
    → (0 < round_size off left)
      × (round_size off left ≤ left)
      × (off % bsize + round_size off left ≤ bsize)
round_size_lem off left l = elim (Bool-cases (ltb left (bsize - off % bsize))) [
  | inl c ↦ rw c (l, omega arith, ground arith)
  | inr c ↦ rw c (omega arith, ground arith, omega arith)
]

-- The file is as it was, but for holes that have become blocks of zeros.
pub record Kept {M : Type 0} (s t : Node M) : Type 0 where
  pub file : IsFile t.fs t.ip.addrs
  pub same : (i : ℕ) → i < maxfile * bsize → content t.fs t.ip.addrs i ≡ content s.fs s.ip.addrs i
  pub others :
      (x : ℕ)
      → IsOutside x s.fs s.ip.addrs
      → IsOutside x t.fs t.ip.addrs × (t.fs.bytes x ≡ s.fs.bytes x)
  pub rest : t ≡ record s {
    fs = record (s.fs) { bytes = t.fs.bytes; logged = t.fs.logged };
    ip = record (s.ip) { addrs = t.ip.addrs };
    mem = t.mem;
  }

module _ {M : Type 0} where
  pub Kept-refl : (s : Node M) (m : M) → IsFile s.fs s.ip.addrs → Kept s (record s { mem = m })
  Kept-refl s m h = record { file = h; same = λ i l. refl; others = λ x o. (o, refl); rest = refl }

  pub Mapped-Kept :
      (q r : ℕ) (s t : Node M) (m : M) → Mapped q s r t → Kept s (record t { mem = m })
  Mapped-Kept q r s t m h = record {
    file = h.file;
    same = h.same;
    others = h.others;
    rest = ap (λ (y : Node M). record y { mem = m }) h.rest;
  }

  pub Kept-trans : (s t u : Node M) → Kept s t → Kept t u → Kept s u
  Kept-trans s t u h k = record {
    file = k.file;
    same = λ i m. k.same i m ∙ h.same i m;
    others = λ x o.
        let first = h.others x o in
        let second = k.others x first.0 in (second.0, second.1 ∙ first.1);
    rest =
        k.rest
        ∙ ap
            (λ (y : Node M). record y {
              fs = record (y.fs) { bytes = u.fs.bytes; logged = u.fs.logged };
              ip = record (y.ip) { addrs = u.ip.addrs };
              mem = u.mem;
            })
            h.rest;
  }

  -- The bytes of a mapped block are those of the content.
  pub content-block :
      (r off i : ℕ) (s t : Node M)
      → Mapped (off / bsize) s r t
      → r ≢ 0
      → off % bsize + i < bsize
      → off + i < maxfile * bsize
      → t.fs.bytes r (off % bsize + i) ≡ content s.fs s.ip.addrs (off + i)
  unfolding content
  content-block r off i s t h z l m = sym block ∙ h.same (off + i) m
    where
      div : (off + i) / bsize ≡ off / bsize
      div = omega arith

      rest : (off + i) % bsize ≡ off % bsize + i
      rest = omega arith

      block : content t.fs t.ip.addrs (off + i) ≡ t.fs.bytes r (off % bsize + i)
      block = rw (div, rest, h.at z, ne→== r 0 z) refl

-- `n` bytes from `dst` on are those of `f`, and nothing else has changed.
pub record Copied (before after : ℕ → ℕ) (dst n : ℕ) (f : ℕ → ℕ) : Type 0 where
  pub inside : (i : ℕ) → i < n → after (dst + i) ≡ f i
  pub outside : (x : ℕ) → (x < dst) ⊎ (dst + n ≤ x) → after x ≡ before x

pub Copied-none : (before : ℕ → ℕ) (dst : ℕ) (f : ℕ → ℕ) → Copied before before dst 0 f
Copied-none before dst f = record { inside = λ i l. absurd (omega arith); outside = λ x h. refl }

-- A memory seen as bytes by address, and either_copyout() on it.
pub record CopyOut (M : Type 0) : Type 0 where
  pub peek : M → ℕ → ℕ
  pub copyout : ℕ → ℕ → Array → Cmd M Bool
  pub copied :
      (dst n : ℕ) (src : Array) (s : M)
      → ((i : ℕ) → i < n → src i < 256)
      → Returns (copyout dst n src s) (λ done t. done ≡ true → Copied (peek s) (peek t) dst n src)

pub Copied-step :
    {b c d : ℕ → ℕ} {dst m n : ℕ} {f g h : ℕ → ℕ}
    → Copied b c dst m f
    → Copied c d (dst + m) n g
    → ((i : ℕ) → i < m → f i ≡ h i)
    → ((i : ℕ) → i < n → g i ≡ h (m + i))
    → Copied b d dst (m + n) h
Copied-step {b} {c} {d} {dst} {m} {n} {f} {g} {h} first second low high = record {
  inside = λ i l. elim (Bool-cases (ltb i m)) [
    | inl y ↦
        second.outside (dst + i) (ground arith)
        ∙ first.inside i (ltb→lt i m y)
        ∙ low i (ltb→lt i m y)
    | inr y ↦
        ap d (ground (arith, y))
        ∙ second.inside (i - m) (ground arith)
        ∙ high (i - m) (ground arith)
        ∙ ap h (ground arith)
  ];
  outside = λ x l. second.outside x (omega arith) ∙ first.outside x (omega arith);
}
