-- ===== src/Content/Map/Indirect.antt =====
-- A new entry of the indirect block of a file.
use os_advanced_course.Base.{
  ℕ, ◌≡◌, ◌≢◌, ◌<◌, ◌≤◌, ◌+◌, ◌*◌, ◌-◌, refl, sym, ap, ◌∙◌, arith, ltb, ◌==◌, inl, inr, Bool-cases,
  update, ne→==, ◌∷◌, le→ltb, ==_refl,
}
use os_advanced_course.Buddy.{Array}
use os_advanced_course.Buddy.Bits.{IsBytes}
use os_advanced_course.Fs.{Fs, bsize, bblock}
use os_advanced_course.Fs.Bitmap.{is_used}
use os_advanced_course.Fs.Alloc.{IsSound}
use os_advanced_course.Content.{get32, put_bytes, ndirect, nindirect, maxfile}
use os_advanced_course.Content.Words.{put_bytes-IsBytes, get32-put_bytes, get32_out}
use os_advanced_course.Content.Map.{
  slot, content, IsFile, IsFresh, IsOutside, Linked, link-IsFile, link-content, link-IsOutside,
}

pub slot-entry :
    (f : Fs) (a : ℕ → ℕ) (bn : ℕ)
    → bn < nindirect
    → a ndirect ≢ 0
    → slot f a (bn + ndirect) ≡ get32 (f.bytes (a ndirect)) (4 * bn)
unfolding slot
slot-entry f a bn m z =
    rw
      (
        le→ltb (bn + ndirect) ndirect (omega arith),
        ne→== (bn + ndirect) maxfile (λ e. absurd (omega (arith, e, m))),
        ne→== (a ndirect) 0 z,
      )
      (ap (λ x. get32 (f.bytes (a ndirect)) (4 * x)) (omega arith))

module _ (bn r : ℕ) (f : Fs) (a : ℕ → ℕ) (h : IsFile f a) (n : IsFresh r f a) (m : bn < nindirect)
    (z : a ndirect ≢ 0) (e : get32 (f.bytes (a ndirect)) (4 * bn) ≡ 0) where
  abbrev pub entered : ℕ → Array
  entered = update f.bytes (a ndirect) (put_bytes 4 (4 * bn) r (f.bytes (a ndirect)))

  abbrev pub g : Fs
  g = record f { bytes = entered; logged = a ndirect ∷ f.logged }

  indirect_off : (q : ℕ) → q ≤ maxfile → q ≢ maxfile → slot f a q ≢ 0 → slot f a q ≢ a ndirect
  unfolding slot
  indirect_off q l ne w e = ne (h.distinct q maxfile l (omega arith) w e)

  indirect_apart : (x : ℕ) → x < f.size → a ndirect ≢ bblock x f
  unfolding slot
  indirect_apart x l = h.apart maxfile x (omega arith) l z

  indirect_new : a ndirect ≢ r
  unfolding slot
  indirect_new = n.new maxfile (omega arith)

  other_entry : (q : ℕ) → q ≢ bn + ndirect → slot g a q ≡ slot f a q
  unfolding slot
  other_entry q ne = elim (Bool-cases (ltb q ndirect)) [
    | inl l ↦ rw l refl
    | inr l ↦ elim (Bool-cases (q == maxfile)) [
      | inl y ↦ rw (l, y) refl
      | inr y ↦
          rw (l, y, ne→== (a ndirect) 0 z, ==_refl (a ndirect))
            (get32_out 4 (4 * bn) (4 * (q - ndirect)) r (f.bytes (a ndirect))
              (ground (arith, l, ne)))
    ]
  ]

  entry-Linked : Linked (bn + ndirect) r f a g a
  entry-Linked = record {
    empty = slot-entry f a bn m z ∙ e;
    set =
        slot-entry g a bn m z
        ∙ rw (==_refl (a ndirect))
            (get32-put_bytes (4 * bn) r (f.bytes (a ndirect)) (omega (arith, n.below, h.fit)));
    others = λ q l. other_entry q;
  }

  same_used : (x : ℕ) → x < f.size → is_used g x ≡ is_used f x
  same_used x l = rw (ne→== (a ndirect) (bblock x f) (indirect_apart x l)) refl

  entered-IsBytes : (k : ℕ) → IsBytes (entered k)
  entered-IsBytes k = elim (Bool-cases (a ndirect == k)) [
    | inl c ↦ rw c (put_bytes-IsBytes 4 (4 * bn) r _ (h.sound.bytes (a ndirect)))
    | inr c ↦ rw c (h.sound.bytes k)
  ]

  entered-IsSound : IsSound g
  entered-IsSound = record {
    bytes = entered-IsBytes;
    meta_used = λ q l. same_used (bblock q f) (h.inside q l) ∙ h.sound.meta_used q l;
  }

  pub entered-at : slot g a (bn + ndirect) ≡ r
  entered-at = entry-Linked.set

  pub entered-IsFile : IsFile g a
  entered-IsFile =
      link-IsFile (bn + ndirect) r f a a entered _ h n entry-Linked entered-IsSound same_used

  pub entered-content : (i : ℕ) → i < maxfile * bsize → content g a i ≡ content f a i
  entered-content =
      link-content (bn + ndirect) r f a a entered _ h n entry-Linked
        (λ q l w.
          rw
            (ne→== (a ndirect) (slot f a q)
              (λ e. indirect_off q (omega arith) (λ b. absurd (omega (arith, b))) w (sym e)))
            refl)
        (λ i l. rw (ne→== (a ndirect) r indirect_new) (n.zeroed i l))

  pub entered-IsOutside :
      (x : ℕ) → x ≢ r → IsOutside x f a → IsOutside x g a × (entered x ≡ f.bytes x)
  unfolding slot
  entered-IsOutside x ne o = (
    link-IsOutside (bn + ndirect) r f a a entered _ h n entry-Linked same_used x ne o,
    rw (ne→== (a ndirect) x (o.off maxfile (omega arith))) refl,
  )
