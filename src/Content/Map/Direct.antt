-- ===== src/Content/Map/Direct.antt =====
-- A new address in an inode.
use mathlib.Core.Path.{subst}
use os_advanced_course.Base.{
  ℕ, ◌≡◌, ◌≢◌, ◌<◌, ◌≤◌, ◌+◌, ◌*◌, ◌-◌, refl, sym, ap, ◌∙◌, arith, ltb, if◌then◌else◌, inl, inr,
  Bool-cases, update, ne→==, ==_refl, ltb→lt,
}
use os_advanced_course.Fs.{Fs, bsize}
use os_advanced_course.Content.{get32, ndirect, maxfile}
use os_advanced_course.Content.Map.{slot, IsFresh, Linked}

pub slot-indirect : (f : Fs) (a : ℕ → ℕ) (b : ℕ) → slot f a maxfile ≡ b → a ndirect ≡ b
unfolding slot
slot-indirect f a b e = e

-- The index of the entry `bn` of the addresses of the inode.
abbrev pub place : ℕ → ℕ
place bn = if ltb bn ndirect then bn else maxfile

pub slot-place : (bn : ℕ) (f : Fs) (a : ℕ → ℕ) → bn ≤ ndirect → slot f a (place bn) ≡ a bn
unfolding slot
slot-place bn f a m = elim (Bool-cases (ltb bn ndirect)) [
  | inl l ↦ rw (l, l) refl
  | inr g ↦ rw g (ap a (ground (arith, m, g)))
]

entry_zero :
    (b j : ℕ) (f : Fs)
    → ((i : ℕ) → i < bsize → f.bytes b i ≡ 0)
    → 4 * j + 4 ≤ bsize
    → get32 (f.bytes b) (4 * j) ≡ 0
entry_zero b j f h m =
    rw
      (
        h (4 * j) (omega arith),
        h (4 * j + 1) (omega arith),
        h (4 * j + 2) (omega arith),
        h (4 * j + 3) (omega arith),
      )
      refl

-- Only the direct block has changed.
direct_others :
    (bn b q : ℕ) (f : Fs) (a : ℕ → ℕ)
    → bn < ndirect
    → q ≢ bn
    → slot f (update a bn b) q ≡ slot f a q
unfolding slot
direct_others bn b q f a m ne =
    rw (ne→== bn q (λ e. ne (sym e)), ne→== bn ndirect (λ e. absurd (omega (arith, m, e)))) refl

-- The entries of the new indirect block are 0, as when there was none.
indirect_others :
    (b q : ℕ) (f : Fs) (a : ℕ → ℕ)
    → a ndirect ≡ 0
    → IsFresh b f a
    → q ≤ maxfile
    → q ≢ maxfile
    → slot f (update a ndirect b) q ≡ slot f a q
unfolding slot
indirect_others b q f a z n m ne = elim (Bool-cases (ltb q ndirect)) [
  | inl l ↦ rw (l, ne→== ndirect q (λ e. absurd (ground (arith, l, e)))) refl
  | inr g ↦
      rw (g, ne→== q maxfile ne, z, ne→== b 0 n.nonzero)
        (entry_zero b (q - ndirect) f n.zeroed (omega arith))
]

pub direct-Linked :
    (bn b : ℕ) (f : Fs) (a : ℕ → ℕ)
    → bn ≤ ndirect
    → a bn ≡ 0
    → IsFresh b f a
    → Linked (place bn) b f a f (update a bn b)
direct-Linked bn b f a m z n = record {
  empty = slot-place bn f a m ∙ z;
  set = slot-place bn f (update a bn b) m ∙ rw (==_refl bn) refl;
  others = λ q l. elim (Bool-cases (ltb bn ndirect)) [
    | inl d ↦ rw d (direct_others bn b q f a (ltb→lt _ _ d))
    | inr u ↦ rw u (upper q l (ground (arith, m, u)))
  ];
}
  where
    upper :
        (q : ℕ) → q ≤ maxfile → bn ≡ ndirect → q ≢ maxfile → slot f (update a bn b) q ≡ slot f a q
    upper q l e =
        subst (λ x. a x ≡ 0 → q ≢ maxfile → slot f (update a x b) q ≡ slot f a q) (sym e)
          (λ z. indirect_others b q f a z n l) z
