-- ===== src/Content/Map.antt =====
-- The blocks of a file and its content, and what a new block does to them.
pub mod Direct
pub mod Indirect
pub mod Bmap
pub mod Replace
pub mod Elsewhere
use os_advanced_course.Base.{
  ℕ, ◌≡◌, ◌≢◌, ◌<◌, ◌≤◌, ◌+◌, ◌*◌, ◌/◌, ◌%◌, ◌^◌, ◌-◌, refl, sym, ap, ◌∙◌, arith, true, false, ltb,
  ◌==◌, if◌then◌else◌, ◌⊎◌, inl, inr, Bool-cases, update, ne→==, ==_iff, List, lt→ltb, ==_refl,
}
use mathlib.Core.Path.{subst}
use os_advanced_course.Buddy.{Array}
use os_advanced_course.Fs.{Fs, bsize, bblock}
use os_advanced_course.Fs.Bitmap.{is_used}
use os_advanced_course.Fs.Alloc.{IsSound, Took}
use os_advanced_course.Content.{get32, ndirect, maxfile}

-- The block at index `q` of a file whose inode has the addresses `a`, or 0; its indirect block is
-- at index `maxfile`.
unfoldable pub slot : Fs → (ℕ → ℕ) → ℕ → ℕ
slot f a q =
    if ltb q ndirect
    then a q
    else if q == maxfile
    then a ndirect
    else if a ndirect == 0
    then 0
    else get32 (f.bytes (a ndirect)) (4 * (q - ndirect))

-- The bytes of a file; those of a block that it does not have are 0.
unfoldable pub content : Fs → (ℕ → ℕ) → ℕ → ℕ
content f a i = if slot f a (i / bsize) == 0 then 0 else f.bytes (slot f a (i / bsize)) (i % bsize)

-- The blocks of a file are in use, are not those of the bitmap, and are distinct; block 0 and the
-- bitmap are in use.
pub record IsFile (f : Fs) (a : ℕ → ℕ) : Type 0 where
  pub sound : IsSound f
  pub inside : (q : ℕ) → q < f.size → bblock q f < f.size
  pub fit : f.size ≤ 2 ^ 32
  pub boot : is_used f 0 ≡ true
  pub below : (q : ℕ) → q ≤ maxfile → slot f a q ≢ 0 → slot f a q < f.size
  pub used : (q : ℕ) → q ≤ maxfile → slot f a q ≢ 0 → is_used f (slot f a q) ≡ true
  pub apart : (q x : ℕ) → q ≤ maxfile → x < f.size → slot f a q ≢ 0 → slot f a q ≢ bblock x f
  pub distinct :
      (p q : ℕ) → p ≤ maxfile → q ≤ maxfile → slot f a p ≢ 0 → slot f a p ≡ slot f a q → p ≡ q

-- A block that the file can take: in use, zeroed, and no block of the file or the bitmap.
pub record IsFresh (b : ℕ) (f : Fs) (a : ℕ → ℕ) : Type 0 where
  pub nonzero : b ≢ 0
  pub below : b < f.size
  pub used : is_used f b ≡ true
  pub apart : (x : ℕ) → x < f.size → b ≢ bblock x f
  pub new : (q : ℕ) → q ≤ maxfile → slot f a q ≢ b
  pub zeroed : (i : ℕ) → i < bsize → f.bytes b i ≡ 0

-- A block of something else: in use, and no block of the file or the bitmap.
pub record IsOutside (x : ℕ) (f : Fs) (a : ℕ → ℕ) : Type 0 where
  pub below : x < f.size
  pub used : is_used f x ≡ true
  pub apart : (y : ℕ) → y < f.size → x ≢ bblock y f
  pub off : (q : ℕ) → q ≤ maxfile → slot f a q ≢ x

-- The file `(g, c)` is `(f, a)` with block `b` at the empty index `k`.
pub record Linked (k b : ℕ) (f : Fs) (a : ℕ → ℕ) (g : Fs) (c : ℕ → ℕ) : Type 0 where
  pub empty : slot f a k ≡ 0
  pub set : slot g c k ≡ b
  pub others : (q : ℕ) → q ≤ maxfile → q ≢ k → slot g c q ≡ slot f a q

pub eq_or : (p q : ℕ) → (p ≡ q) ⊎ (p ≢ q)
eq_or p q = ground arith

module _ (k b : ℕ) (f : Fs) (a c : ℕ → ℕ) (d : ℕ → Array) (l : List ℕ) (h : IsFile f a)
    (n : IsFresh b f a) (e : Linked k b f a (record f { bytes = d; logged = l }) c) where
  abbrev g : Fs
  g = record f { bytes = d; logged = l }

  at_slot :
      (P : ℕ → Type 0)
      → P b
      → ((q : ℕ) → q ≤ maxfile → slot f a q ≢ 0 → P (slot f a q))
      → (q : ℕ) → q ≤ maxfile
      → slot g c q ≢ 0
      → P (slot g c q)
  at_slot P new old q m z = elim (eq_or q k) [
    | inl at ↦ subst (λ x. P (slot g c x)) (sym at) (subst P (sym e.set) new)
    | inr off ↦ subst P (sym (e.others q m off)) (old q m (λ o. z (e.others q m off ∙ o)))
  ]

  old_or_new : (q : ℕ) → q ≤ maxfile → (q ≡ k) ⊎ ((q ≢ k) × (slot g c q ≡ slot f a q))
  old_or_new q m = elim (eq_or q k) [ inl at ↦ inl at | inr off ↦ inr (off, e.others q m off) ]

  distinct_slots :
      (p q : ℕ) → p ≤ maxfile → q ≤ maxfile → slot g c p ≢ 0 → slot g c p ≡ slot g c q → p ≡ q
  distinct_slots p q lp lq z same = elim (old_or_new p lp) [
    | inl p_at ↦ elim (old_or_new q lq) [
      | inl q_at ↦ p_at ∙ sym q_at
      | inr (q_off, q_old) ↦
          absurd (n.new q lq (sym (sym (ap (slot g c) p_at ∙ e.set) ∙ same ∙ q_old)))
    ]
    | inr (p_off, p_old) ↦ elim (old_or_new q lq) [
      | inl q_at ↦ absurd (n.new p lp (sym p_old ∙ same ∙ ap (slot g c) q_at ∙ e.set))
      | inr (q_off, q_old) ↦ h.distinct p q lp lq (λ o. z (p_old ∙ o)) (sym p_old ∙ same ∙ q_old)
    ]
  ]

  pub link-IsFile : IsSound g → ((x : ℕ) → x < f.size → is_used g x ≡ is_used f x) → IsFile g c
  link-IsFile sound same = record {
    sound = sound;
    inside = h.inside;
    fit = h.fit;
    boot = same 0 (omega (arith, n.below)) ∙ h.boot;
    below = at_slot (λ x. x < f.size) n.below h.below;
    used =
        at_slot (λ x. is_used g x ≡ true) (same b n.below ∙ n.used)
          (λ q m z. same _ (h.below q m z) ∙ h.used q m z);
    apart = λ q x m lx z.
        at_slot (λ y. y ≢ bblock x f) (n.apart x lx) (λ p lp zp. h.apart p x lp lx zp) q m z;
    distinct = distinct_slots;
  }

  pub link-IsOutside :
      ((x : ℕ) → x < f.size → is_used g x ≡ is_used f x)
      → (x : ℕ) → x ≢ b
      → IsOutside x f a
      → IsOutside x g c
  link-IsOutside same x ne o = record {
    below = o.below;
    used = same x o.below ∙ o.used;
    apart = o.apart;
    off = λ q m. elim (old_or_new q m) [
      | inl at ↦ λ w. ne (sym w ∙ ap (slot g c) at ∙ e.set)
      | inr (off, old) ↦ λ w. o.off q m (sym old ∙ w)
    ];
  }

  pub link-content :
      ((q : ℕ) → q < maxfile → slot f a q ≢ 0 → d (slot f a q) ≡ f.bytes (slot f a q))
      → ((i : ℕ) → i < bsize → d b i ≡ 0)
      → (i : ℕ) → i < maxfile * bsize
      → content g c i ≡ content f a i
  unfolding content
  link-content old zero i m = elim (old_or_new (i / bsize) (omega arith)) [
    | inl at ↦ rw (at, e.set, e.empty, ne→== b 0 n.nonzero) (zero (i % bsize) (omega arith))
    | inr (off, same) ↦ rw same (elim (Bool-cases (slot f a (i / bsize) == 0)) [
      | inl z ↦ rw z refl
      | inr z ↦ rw z (
          ap (λ x. x (i % bsize))
            (old (i / bsize) (omega arith) (λ o. absurd (ground (arith, z, o)))))
    ])
  ]

-- The file once balloc() has taken block `b`.
module _ (b : ℕ) (f : Fs) (a : ℕ → ℕ) (d : ℕ → Array) (l : List ℕ) (h : IsFile f a)
    (k : Took b f (record f { bytes = d; logged = l })) where
  abbrev after : Fs
  after = record f { bytes = d; logged = l }

  not_taken : (x : ℕ) → is_used f x ≡ true → x ≢ b
  not_taken x u e = absurd (ground (arith, k.free, ap (is_used f) e, u))

  unwritten : (q : ℕ) → q ≤ maxfile → slot f a q ≢ 0 → d (slot f a q) ≡ f.bytes (slot f a q)
  unwritten q m z = k.others (slot f a q) (not_taken _ (h.used q m z)) (h.apart q b m k.below z)

  pub slot_kept : (q : ℕ) → slot after a q ≡ slot f a q
  unfolding slot
  slot_kept q = elim (eq_or (a ndirect) 0) [
    | inl z ↦ rw z refl
    | inr z ↦ rw (unwritten maxfile (omega arith) z) refl
  ]

  used_kept : (x : ℕ) → x < f.size → is_used f x ≡ true → is_used after x ≡ true
  used_kept x m u = k.bits x m ∙ rw u (ground arith)

  pub Took-IsFile : IsFile after a
  Took-IsFile = record {
    sound = k.sound h.inside;
    inside = h.inside;
    fit = h.fit;
    boot = used_kept 0 (omega (arith, k.below)) h.boot;
    below = λ q m. rw (slot_kept q) (h.below q m);
    used = λ q m. rw (slot_kept q) (λ z. used_kept _ (h.below q m z) (h.used q m z));
    apart = λ q x m lx. rw (slot_kept q) (h.apart q x m lx);
    distinct = λ p q lp lq. rw (slot_kept p, slot_kept q) (h.distinct p q lp lq);
  }

  pub Took-IsFresh : IsFresh b after a
  Took-IsFresh = record {
    nonzero = λ z. not_taken 0 h.boot (sym z);
    below = k.below;
    used = k.bits b k.below ∙ rw (==_refl b) refl;
    apart = λ x m e. not_taken (bblock x f) (h.sound.meta_used x m) (sym e);
    new = λ q m e. elim (eq_or (slot f a q) 0) [
      | inl z ↦ not_taken 0 h.boot (sym z ∙ sym (slot_kept q) ∙ e)
      | inr z ↦ not_taken _ (h.used q m z) (sym (slot_kept q) ∙ e)
    ];
    zeroed = k.zeroed;
  }

  pub Took-IsOutside : (x : ℕ) → IsOutside x f a → IsOutside x after a × (x ≢ b) × (d x ≡ f.bytes x)
  Took-IsOutside x o = (
    record {
      below = o.below;
      used = used_kept x o.below o.used;
      apart = o.apart;
      off = λ q m. rw (slot_kept q) (o.off q m);
    },
    not_taken x o.used,
    k.others x (not_taken x o.used) (o.apart b k.below),
  )

  pub Took-content : (i : ℕ) → i < maxfile * bsize → content after a i ≡ content f a i
  unfolding content
  Took-content i m = rw (slot_kept (i / bsize)) (elim (eq_or (slot f a (i / bsize)) 0) [
    | inl z ↦ rw z refl
    | inr z ↦ rw (ne→== _ 0 z) (ap (λ x. x (i % bsize)) (unwritten (i / bsize) (omega arith) z))
  ])
