-- ===== src/Fs/Alloc.antt =====
-- balloc() and bfree().
use mathlib.Core.Path.{subst}
use os_advanced_course.Base.{
  ℕ, zero, suc, ◌+◌, ◌*◌, ◌/◌, ◌%◌, ◌≡◌, ◌≢◌, ◌≤◌, ◌<◌, ◌⊎◌, refl, ap, ◌∙◌, Bool-cases, inl, inr,
  true, false, not, ◌==◌, if◌then◌else◌, ltb, update, arith, panic, Option, some, none, Returns,
  Returns_bind, Returns_mono, ==_iff, ne→==, ◌∷◌, sym, ltb→lt, Cmd,
}
use os_advanced_course.Buddy.Bits.{IsBytes, bit_set_lem}
use os_advanced_course.Buddy.{bit_set}
use os_advanced_course.Fs.{
  found_or, Fs, bsize, bpb, bblock, bit_free, mark, bzero, balloc_block, balloc_loop, balloc, bfree,
}
use os_advanced_course.Fs.Bitmap.{is_used, bitmap_of, marked-is_used, unmarked-is_used}

-- The blocks hold bytes, and those of the bitmap are in use.
pub record IsSound (s : Fs) : Type 0 where
  pub bytes : (k : ℕ) → IsBytes (s.bytes k)
  pub meta_used : (q : ℕ) → q < s.size → is_used s (bblock q s) ≡ true

-- Block `b`, which was free, is in use and zeroed; nothing else has changed, and the two blocks
-- that have been written are logged.
pub record Took (b : ℕ) (s t : Fs) : Type 0 where
  pub below : b < s.size
  pub free : is_used s b ≡ false
  pub bits : (q : ℕ) → q < s.size → is_used t q ≡ (if b == q then true else is_used s q)
  pub zeroed : (i : ℕ) → i < bsize → t.bytes b i ≡ 0
  pub others : (k : ℕ) → k ≢ b → k ≢ bblock b s → t.bytes k ≡ s.bytes k
  pub logged : t.logged ≡ b ∷ bblock b s ∷ s.logged
  pub sound : ((q : ℕ) → q < s.size → bblock q s < s.size) → IsSound t
  pub rest : t ≡ record s { bytes = t.bytes; logged = t.logged }

-- The state once balloc() has set bit `bi` of block `k` and zeroed block `b`.
abbrev stored : ℕ → ℕ → ℕ → Fs → Fs
stored k bi b s =
    let marked = update s.bytes k (mark (s.bytes k) bi) in
    record s {
      bytes = update marked b (λ i. if ltb i bsize then 0 else marked b i);
      logged = b ∷ k ∷ s.logged;
    }

abbrev taken : ℕ → Fs → Fs
taken b s = stored (bblock b s) (b % bpb) b s

stored_bytes :
    (k bi b : ℕ) (s : Fs)
    → ((j : ℕ) → IsBytes (s.bytes j))
    → (j : ℕ) → IsBytes ((stored k bi b s).bytes j)
unfolding bit_set
stored_bytes k bi b s h j i = elim (Bool-cases (b == j)) [
  | inl e ↦
      rw e
        (elim (Bool-cases (ltb i bsize)) [ inl z ↦ rw z (omega arith) | inr z ↦ rw z (marked b i) ])
  | inr e ↦ rw e (marked j i)
]
  where
    marked : (j : ℕ) → IsBytes (update s.bytes k (mark (s.bytes k) bi) j)
    marked j i = elim (Bool-cases (k == j)) [
      | inl e ↦ rw e ((bit_set_lem (s.bytes k) bi (h k)).1 i)
      | inr e ↦ rw e (h j i)
    ]

taken-Took : (b : ℕ) (s : Fs) → IsSound s → b < s.size → is_used s b ≡ false → Took b s (taken b s)
taken-Took b s c l free = record {
  below = l;
  free = free;
  bits = bits;
  zeroed = λ i m. ground arith;
  others = λ k n m. rw (ne→== b k (λ h. n (sym h)), ne→== (bblock b s) k (λ h. m (sym h))) refl;
  logged = refl;
  sound = λ inside. record {
    bytes = stored_bytes (bblock b s) (b % bpb) b s c.bytes;
    meta_used = λ q m. bits (bblock q s) (inside q m) ∙ rw (c.meta_used q m) (ground arith);
  };
  rest = refl;
}
  where
    not_meta : (q : ℕ) → q < s.size → (b == bblock q s) ≡ false
    not_meta q m =
        ne→== b (bblock q s) (λ h. absurd (ground (arith, free, c.meta_used q m, ap (is_used s) h)))

    bits : (q : ℕ) → q < s.size → is_used (taken b s) q ≡ (if b == q then true else is_used s q)
    bits q m = rw (not_meta q m) (marked-is_used b q s c.bytes)

-- What balloc() does: it takes the first free block from `b` on, or finds none before `last`.
abbrev pub Search : ℕ → ℕ → Fs → Option ℕ → Fs → Type 0
Search b last s r t =
    ((x : ℕ) × (r ≡ some x) × Took x s t × ((q : ℕ) → b ≤ q → q < x → is_used s q ≡ true))
    ⊎ ((r ≡ none) × (t ≡ s) × ((q : ℕ) → b ≤ q → q < last → q < s.size → is_used s q ≡ true))

at_bit : (b bi : ℕ) (s : Fs) → b % bpb ≡ 0 → bi < bpb → bblock (b + bi) s ≡ bblock b s
at_bit b bi s al l = omega arith

bit_of : (b bi : ℕ) → b % bpb ≡ 0 → bi < bpb → (b + bi) % bpb ≡ bi
bit_of b bi al l = omega arith

used_at :
    (b bi : ℕ) (s : Fs)
    → b % bpb ≡ 0
    → bi < bpb
    → is_used s (b + bi) ≡ not (bit_free (s.bytes (bblock b s)) bi)
used_at b bi s al l = rw (at_bit b bi s al l, bit_of b bi al l) refl

stored-Took :
    (b bi : ℕ) (s : Fs)
    → IsSound s
    → b % bpb ≡ 0
    → bi < bpb
    → b + bi < s.size
    → bit_free (s.bytes (bblock b s)) bi ≡ true
    → Took (b + bi) s (stored (bblock b s) bi (b + bi) s)
stored-Took b bi s c al l below hit =
    subst (λ (t : Fs). Took (b + bi) s t) same
      (taken-Took (b + bi) s c below (used_at b bi s al l ∙ rw hit refl))
  where
    same : taken (b + bi) s ≡ stored (bblock b s) bi (b + bi) s
    same = rw (at_bit b bi s al l, bit_of b bi al l) refl

at_or_after :
    (x q : ℕ) (s : Fs)
    → is_used s x ≡ true
    → x ≤ q
    → (x < q → is_used s q ≡ true)
    → is_used s q ≡ true
at_or_after x q s used lo later = elim (Bool-cases (x == q)) [
  | inl same ↦ rw (sym ((==_iff x q).0 same)) used
  | inr other ↦ later (ground (arith, lo, other))
]

Search-suc :
    (x y last : ℕ) (s : Fs) (r : Option ℕ) (t : Fs)
    → y ≡ x + 1
    → is_used s x ≡ true
    → Search y last s r t
    → Search x last s r t
Search-suc x y last s r t e used (inl (z, h, k, b)) =
    inl (z, h, k, λ q lo hi. at_or_after x q s used lo (λ l. b q (omega (arith, e)) hi))
Search-suc x y last s r t e used (inr (h, k, b)) =
    inr (h, k, λ q lo hi m. at_or_after x q s used lo (λ l. b q (omega (arith, e)) hi m))

balloc_block-Search :
    (k b bi : ℕ) (s : Fs)
    → IsSound s
    → b % bpb ≡ 0
    → bi + k ≡ bpb
    → Returns (balloc_block k b bi s) (Search (b + bi) (b + bpb) s)
unfolding balloc_block bzero
balloc_block-Search zero b bi s c al e = inr (refl, refl, λ q lo hi. absurd (omega arith))
balloc_block-Search (suc k) b bi s c al e = elim (Bool-cases (ltb (b + bi) s.size)) [
  | inr past ↦ rw past (inr (refl, refl, λ q lo hi l. absurd (ground arith)))
  | inl before ↦ elim (Bool-cases (bit_free (s.bytes (bblock b s)) bi)) [
    | inl hit ↦
        rw (before, hit)
          (inl (
            b + bi,
            refl,
            stored-Took b bi s c al (omega arith) (ltb→lt _ _ before) hit,
            λ q lo hi. absurd (omega arith),
          ))
    | inr miss ↦
        rw (before, miss)
          (Returns_mono _ (balloc_block k b (bi + 1) s)
            (balloc_block-Search k b (bi + 1) s c al (omega arith))
            (λ r t.
              Search-suc (b + bi) (b + (bi + 1)) (b + bpb) s r t (omega arith)
                (used_at b bi s al (omega arith) ∙ rw miss refl)))
  ]
]

-- The same of the whole search, whose result is 0 where it finds none.
abbrev pub Allocated : ℕ → Fs → ℕ → Fs → Type 0
Allocated b s r t =
    (Took r s t × ((q : ℕ) → b ≤ q → q < r → is_used s q ≡ true))
    ⊎ ((r ≡ 0) × (t ≡ s) × ((q : ℕ) → b ≤ q → q < s.size → is_used s q ≡ true))

near_or_far :
    (b q : ℕ) (s : Fs)
    → b ≤ q
    → (q < b + bpb → is_used s q ≡ true)
    → (b + bpb ≤ q → is_used s q ≡ true)
    → is_used s q ≡ true
near_or_far b q s lo near far = elim (Bool-cases (ltb q (b + bpb))) [
  | inl l ↦ near (ltb→lt _ _ l)
  | inr l ↦ far (ground arith)
]

Allocated-before :
    (b : ℕ) (s : Fs) (r : ℕ) (t : Fs)
    → ((q : ℕ) → b ≤ q → q < b + bpb → q < s.size → is_used s q ≡ true)
    → Allocated (b + bpb) s r t
    → Allocated b s r t
Allocated-before b s r t h (inl (k, g)) =
    inl
      (k, λ q lo hi. near_or_far b q s lo (λ l. h q lo l (omega (arith, k.below))) (λ l. g q l hi))
Allocated-before b s r t h (inr (z, k, g)) =
    inr (z, k, λ q lo hi. near_or_far b q s lo (λ l. h q lo l hi) (λ l. g q l hi))

round-Allocated :
    (b : ℕ) (s : Fs) (rest : Cmd Fs ℕ) (r : Option ℕ) (t : Fs)
    → Returns (rest s) (Allocated (b + bpb) s)
    → Search (b + 0) (b + bpb) s r t
    → Returns (found_or rest r t) (Allocated b s)
round-Allocated b s rest r t h (inl (x, e, k, g)) = rw e (inl (k, λ q lo hi. g q (omega arith) hi))
round-Allocated b s rest r t h (inr (e, same, g)) =
    rw (e, same)
      (Returns_mono _ (rest s) h (λ x u. Allocated-before b s x u (λ q lo. g q (omega arith))))

balloc_loop-Allocated :
    (k b : ℕ) (s : Fs)
    → IsSound s
    → b % bpb ≡ 0
    → b < s.size + bpb
    → s.size + bpb ≤ b + k * bpb
    → Returns (balloc_loop k b s) (Allocated b s)
unfolding balloc_loop
balloc_loop-Allocated zero b s c al lo hi = absurd (omega arith)
balloc_loop-Allocated (suc k) b s c al lo hi = elim (Bool-cases (ltb b s.size)) [
  | inr past ↦ rw past (inr (refl, refl, λ q l m. absurd (ground arith)))
  | inl before ↦ rw before (
      Returns_bind _ (balloc_block bpb b 0 s) _ (balloc_block-Search bpb b 0 s c al refl) (λ r t.
        round-Allocated b s (balloc_loop k (b + bpb)) r t (
          balloc_loop-Allocated k (b + bpb) s c (omega arith)
            (omega (arith, ltb→lt b s.size before)) (omega arith))))
]

-- On sound blocks, where each block of the bitmap is itself in use: balloc() takes the first
-- block that is not in use, zeroes it and marks it, changes the bit of no other block, writes no
-- block but this one and its block of the bitmap, and logs both; or it finds all blocks in use,
-- returns 0 and changes nothing.
pub balloc-Allocated : (s : Fs) → IsSound s → Returns (balloc s) (Allocated 0 s)
unfolding balloc
balloc-Allocated s c =
    balloc_loop-Allocated (s.size / bpb + 2) 0 s c refl (omega arith) (omega arith)

-- Where the blocks hold bytes and those of the bitmap are in use, bfree() of a block in use takes
-- its bit away and changes no other bit; it writes and logs the
-- block of the bitmap alone. Of a block that is free, it panics.
pub bfree_cases :
    (b : ℕ) (s : Fs)
    → IsSound s
    → (is_used s b ≡ true
        → Returns (bfree b s) (λ _ t.
          ((q : ℕ) → is_used t q ≡ (if b == q then false else is_used s q))
          × ((k : ℕ) → k ≢ bblock b s → t.bytes k ≡ s.bytes k)
          × (t.logged ≡ bblock b s ∷ s.logged)))
      × (is_used s b ≡ false → bfree b s ≡ panic)
unfolding bfree
bfree_cases b s c = (
  λ used. rw (in_use used) (
    (λ q. unmarked-is_used b q s c.bytes),
    (λ k ne. rw (ne→== (bblock b s) k (λ h. ne (sym h))) refl),
    refl,
  ),
  λ free. rw (not_in_use free) refl,
)
  where
    in_use : is_used s b ≡ true → bit_free (bitmap_of b s) (b % bpb) ≡ false
    in_use h = ground arith

    not_in_use : is_used s b ≡ false → bit_free (bitmap_of b s) (b % bpb) ≡ true
    not_in_use h = ground arith
