-- ===== src/File/Table.antt =====
-- The file table under its lock.
use os_advanced_course.Base.{
  ℕ, zero, suc, ◌+◌, ◌-◌, ◌≡◌, ◌≢◌, ◌≤◌, ◌<◌, ◌⊎◌, inl, inr, refl, true, false, ◌==◌, ltb,
  Bool-cases, arith, ok, Returns, Returns_mono, Option, some, none, ==_refl, ==_iff, sym, ==_iff,
  sym, put_back,
}
use os_advanced_course.Spinlock.Nesting.{IsIdle, held, cycled, acquire-held, release-cycled}
use os_advanced_course.File.{
  Backends, Ftable, fd_none, nfile, set_file, set_ref, filealloc, filealloc_loop, filedup,
  fileclose, close_last,
}

module _ {M : Type 0} where
  -- The table while the lock is held, and once it is free again.
  abbrev busy : Ftable M → Ftable M
  busy s = record s { core = held s.core }

  abbrev pub rested : Ftable M → Ftable M
  rested s = record s { core = cycled s.core }

  -- The outcome of a search among the `k` files from `f` on: the first that nobody refers to, or
  -- none.
  abbrev pub Opened : ℕ → ℕ → Ftable M → Option ℕ → Ftable M → Type 0
  Opened f k s r t =
      ((j : ℕ) × (r ≡ some j)
        × (j < f + k)
        × ((s.file j).ref ≡ 0)
        × ((q : ℕ) → f ≤ q → q < j → (s.file q).ref ≢ 0)
        × (t ≡ set_ref j 1 (rested s)))
      ⊎ (((q : ℕ) → f ≤ q → q < f + k → (s.file q).ref ≢ 0) × (r ≡ none) × (t ≡ rested s))

  after :
      (f q : ℕ) (s : Ftable M)
      → (s.file f).ref ≢ 0
      → f ≤ q
      → (f + 1 ≤ q → (s.file q).ref ≢ 0)
      → (s.file q).ref ≢ 0
  after f q s ne lo h = elim (Bool-cases (f == q)) [
    | inl same ↦ rw (sym ((==_iff f q).0 same)) ne
    | inr other ↦ h (ground (arith, lo, other))
  ]

  Opened-suc :
      (f k : ℕ) (s : Ftable M) (r : Option ℕ) (t : Ftable M)
      → (s.file f).ref ≢ 0
      → Opened (f + 1) k s r t
      → Opened f (suc k) s r t
  Opened-suc f k s r t ne (inl (j, e, l, z, h, g)) =
      inl (j, e, omega arith, z, (λ q lo hi. after f q s ne lo (λ m. h q m hi)), g)
  Opened-suc f k s r t ne (inr (h, e, g)) =
      inr ((λ q lo hi. after f q s ne lo (λ m. h q m (omega arith))), e, g)

  filealloc_loop-Opened :
      (k f : ℕ) (s : Ftable M)
      → IsIdle s.core
      → Returns (filealloc_loop k f (busy s)) (Opened f k s)
  unfolding filealloc_loop
  filealloc_loop-Opened zero f s i =
      rw (release-cycled i) (inr ((λ q lo hi. absurd (omega arith)), refl, refl))
  filealloc_loop-Opened (suc k) f s i = elim (Bool-cases ((s.file f).ref == 0)) [
    | inl hit ↦
        rw (hit, release-cycled i)
          (inl (f, refl, omega arith, ground arith, (λ q lo hi. absurd (omega arith)), refl))
    | inr miss ↦ rw miss (
        Returns_mono _ (filealloc_loop k (f + 1) (busy s)) (filealloc_loop-Opened k (f + 1) s i)
          (λ r t. Opened-suc f k s r t (λ h. absurd (ground arith))))
  ]

  -- With the lock free, filealloc() hands out the first file that nobody refers to, with one
  -- reference, and changes nothing else; it returns null only where all are referred to. The lock
  -- is free again.
  pub filealloc-Opened : (s : Ftable M) → IsIdle s.core → Returns (filealloc s) (Opened 0 nfile s)
  unfolding filealloc
  filealloc-Opened s i = rw (acquire-held i) (filealloc_loop-Opened nfile 0 s i)

  pub filedup_lem :
      (f : ℕ) (s : Ftable M)
      → IsIdle s.core
      → 0 < (s.file f).ref
      → filedup f s ≡ ok f (set_ref f ((s.file f).ref + 1) (rested s))
  unfolding filedup
  filedup_lem f s i l = rw (acquire-held i, live, release-cycled i) refl
    where
      live : ltb (s.file f).ref 1 ≡ false
      live = ground arith

  -- The table when the last reference to a file is gone.
  abbrev pub closed : ℕ → Ftable M → Ftable M
  closed f s =
      set_file f (record (s.file f) { type = fd_none; ref = 0 })
        (set_ref f ((s.file f).ref - 1) (rested s))

  module _ (v : Backends M) (f : ℕ) (s : Ftable M) (i : IsIdle s.core) where
    pub fileclose-shared :
        1 < (s.file f).ref → fileclose v f s ≡ ok tt (set_ref f ((s.file f).ref - 1) (rested s))
    unfolding fileclose
    fileclose-shared l = rw (acquire-held i, live, more, release-cycled i) refl
      where
        live : ltb (s.file f).ref 1 ≡ false
        live = ground arith

        more : ltb 0 ((s.file f).ref - 1) ≡ true
        more = ground arith

    pub fileclose-last :
        (s.file f).ref ≡ 1
        → fileclose v f s
          ≡ put_back
              (λ x m. record x { mem = m })
              (closed f s)
              (close_last v (record (s.file f) { ref = (s.file f).ref - 1 }) s.mem)
    unfolding fileclose
    fileclose-last l = rw (acquire-held i, live, none_left, release-cycled i, ==_refl f) refl
      where
        live : ltb (s.file f).ref 1 ≡ false
        live = ground arith

        none_left : ltb 0 ((s.file f).ref - 1) ≡ false
        none_left = ground arith
