-- ===== src/Content/Map/Replace.antt =====
-- New bytes in a block of a file.
use os_advanced_course.Base.{
  ℕ, ◌≡◌, ◌≢◌, ◌<◌, ◌*◌, ◌/◌, ◌%◌, refl, sym, ◌∙◌, arith, ◌==◌, inl, inr, Bool-cases, update, ne→==,
  ==_refl, List,
}
use os_advanced_course.Buddy.{Array}
use os_advanced_course.Buddy.Bits.{IsBytes}
use os_advanced_course.Fs.{Fs, bsize, bblock}
use os_advanced_course.Fs.Bitmap.{is_used}
use os_advanced_course.Content.{ndirect, maxfile}
use os_advanced_course.Content.Map.{slot, content, IsFile, IsOutside, eq_or}

module _ (q : ℕ) (f : Fs) (a : ℕ → ℕ) (v : Array) (l : List ℕ) (h : IsFile f a) (m : q < maxfile)
    (z : slot f a q ≢ 0) (w : IsBytes v) where
  abbrev g : Fs
  g = record f { bytes = update f.bytes (slot f a q) v; logged = l }

  not_indirect : a ndirect ≢ 0 → slot f a q ≢ a ndirect
  unfolding slot
  not_indirect n e = absurd (omega (arith, h.distinct q maxfile (omega arith) (omega arith) z e))

  slot_same : (p : ℕ) → slot g a p ≡ slot f a p
  unfolding slot
  slot_same p = elim (eq_or (a ndirect) 0) [
    | inl y ↦ rw y refl
    | inr y ↦ rw (ne→== _ (a ndirect) (not_indirect y)) refl
  ]

  same_used : (x : ℕ) → x < f.size → is_used g x ≡ is_used f x
  same_used x k = rw (ne→== (slot f a q) (bblock x f) (h.apart q x (omega arith) k z)) refl

  replaced-IsBytes : (k : ℕ) → IsBytes (g.bytes k)
  replaced-IsBytes k = elim (Bool-cases (slot f a q == k)) [
    | inl c ↦ rw c w
    | inr c ↦ rw c (h.sound.bytes k)
  ]

  pub replaced-IsFile : IsFile g a
  replaced-IsFile = record {
    sound = record {
      bytes = replaced-IsBytes;
      meta_used = λ x k. same_used (bblock x f) (h.inside x k) ∙ h.sound.meta_used x k;
    };
    inside = h.inside;
    fit = h.fit;
    boot = same_used 0 (omega (arith, h.below q (omega arith) z)) ∙ h.boot;
    below = λ p n. rw (slot_same p) (h.below p n);
    used = λ p n. rw (slot_same p) (λ y. same_used _ (h.below p n y) ∙ h.used p n y);
    apart = λ p x n k. rw (slot_same p) (h.apart p x n k);
    distinct = λ p r n k. rw (slot_same p, slot_same r) (h.distinct p r n k);
  }

  pub replaced-IsOutside : (x : ℕ) → IsOutside x f a → IsOutside x g a × (g.bytes x ≡ f.bytes x)
  replaced-IsOutside x o = (
    record {
      below = o.below;
      used = same_used x o.below ∙ o.used;
      apart = o.apart;
      off = λ p n. rw (slot_same p) (o.off p n);
    },
    rw (ne→== (slot f a q) x (o.off q (omega arith))) refl,
  )

  pub content-replaced : (i : ℕ) → i / bsize ≡ q → content g a i ≡ v (i % bsize)
  unfolding content
  content-replaced i e = rw (e, slot_same q, ne→== (slot f a q) 0 z, ==_refl (slot f a q)) refl

  pub content-others : (i : ℕ) → i < maxfile * bsize → i / bsize ≢ q → content g a i ≡ content f a i
  unfolding content
  content-others i k ne = rw (slot_same (i / bsize)) (elim (eq_or (slot f a (i / bsize)) 0) [
    | inl y ↦ rw y refl
    | inr y ↦
        rw
          (ne→== (slot f a q) (slot f a (i / bsize))
            (λ e. ne (sym (h.distinct q (i / bsize) (omega arith) (omega arith) z e))))
          refl
  ])
