-- ===== src/Content/Map/Elsewhere.antt =====
-- New bytes in a block that is not of the file.
use os_advanced_course.Base.{
  ℕ, ◌≡◌, ◌<◌, ◌*◌, ◌/◌, refl, sym, ◌∙◌, arith, ◌==◌, inl, inr, Bool-cases, update, ne→==, List,
}
use os_advanced_course.Buddy.{Array}
use os_advanced_course.Buddy.Bits.{IsBytes}
use os_advanced_course.Fs.{Fs, bsize, bblock}
use os_advanced_course.Fs.Bitmap.{is_used}
use os_advanced_course.Content.{ndirect, maxfile}
use os_advanced_course.Content.Map.{slot, content, IsFile, IsOutside}

module _ (b : ℕ) (f : Fs) (a : ℕ → ℕ) (v : Array) (l : List ℕ) (h : IsFile f a)
    (o : IsOutside b f a) (w : IsBytes v) where
  abbrev g : Fs
  g = record f { bytes = update f.bytes b v; logged = l }

  same_slot : (p : ℕ) → slot g a p ≡ slot f a p
  unfolding slot
  same_slot p = rw (ne→== b (a ndirect) (λ e. o.off maxfile (omega arith) (sym e))) refl

  pub used_same : (x : ℕ) → x < f.size → is_used g x ≡ is_used f x
  used_same x k = rw (ne→== b (bblock x f) (o.apart x k)) refl

  elsewhere-IsBytes : (k : ℕ) → IsBytes (g.bytes k)
  elsewhere-IsBytes k = elim (Bool-cases (b == k)) [
    | inl c ↦ rw c w
    | inr c ↦ rw c (h.sound.bytes k)
  ]

  pub elsewhere-IsFile : IsFile g a
  elsewhere-IsFile = record {
    sound = record {
      bytes = elsewhere-IsBytes;
      meta_used = λ x k. used_same (bblock x f) (h.inside x k) ∙ h.sound.meta_used x k;
    };
    inside = h.inside;
    fit = h.fit;
    boot = used_same 0 (omega (arith, o.below)) ∙ h.boot;
    below = λ p n. rw (same_slot p) (h.below p n);
    used = λ p n. rw (same_slot p) (λ y. used_same _ (h.below p n y) ∙ h.used p n y);
    apart = λ p x n k. rw (same_slot p) (h.apart p x n k);
    distinct = λ p r n k. rw (same_slot p, same_slot r) (h.distinct p r n k);
  }

  pub elsewhere-IsOutside : (x : ℕ) → IsOutside x f a → IsOutside x g a
  elsewhere-IsOutside x k = record {
    below = k.below;
    used = used_same x k.below ∙ k.used;
    apart = k.apart;
    off = λ p n. rw (same_slot p) (k.off p n);
  }

  pub content-elsewhere : (i : ℕ) → i < maxfile * bsize → content g a i ≡ content f a i
  unfolding content
  content-elsewhere i k =
      rw
        (
          same_slot (i / bsize),
          ne→== b (slot f a (i / bsize)) (λ e. o.off (i / bsize) (omega arith) (sym e)),
        )
        refl
