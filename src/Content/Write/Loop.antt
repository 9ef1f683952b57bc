-- ===== src/Content/Write/Loop.antt =====
-- The loop of writei().
use mathlib.Core.Path.{subst}
use os_advanced_course.Base.{
  ◌∷◌, gets, ◌>>=◌, ℕ, zero, suc, ◌≡◌, ◌≢◌, ◌<◌, ◌≤◌, ◌+◌, ◌*◌, ◌/◌, ◌%◌, ◌-◌, refl, ap, ◌∙◌, arith,
  true, false, ltb, ◌==◌, if◌then◌else◌, ◌⊎◌, inl, inr, Bool-cases, Bool, Cmd, Returns, Returns_run,
  Returns_bind, Returns_mono, ne→==, ok, pure,
}
use os_advanced_course.Buddy.{Array}
use os_advanced_course.Fs.{bsize}
use os_advanced_course.Fs.Bitmap.{is_used}
use os_advanced_course.Content.{Node, maxfile, round_size, bmap, writei_loop, on_mem, store_bytes}
use os_advanced_course.Content.Map.{IsFile, eq_or}
use os_advanced_course.Content.Map.Bmap.{Mapped, bmap-Mapped}
use os_advanced_course.Content.Rounds.{round_size_lem}
use os_advanced_course.Content.Write.{CopyIn, Written, Written-step, stored-Written}

module _ {M : Type 0} (c : CopyIn M) where
  -- The bytes of the memory from `src` on.
  abbrev pub source : Node M → ℕ → ℕ → ℕ
  source s src i = c.peek s.mem (src + i)

  abbrev pub IsFull : Node M → Type 0
  IsFull s = (x : ℕ) → x < s.fs.size → is_used s.fs x ≡ true

  -- A call of either_copyin() fails that is to copy some of `left` bytes at `src`.
  pub record CopyFails (s : Node M) (src left : ℕ) : Type 0 where
    pub done : ℕ
    pub at : ℕ
    pub n : ℕ
    pub old : Array
    pub place : at ≡ src + done
    pub within : done + n ≤ left
    pub fails : Returns (c.copyin at n old s.mem) (λ r _. r.0 ≡ false)

  -- The outcome of the loop that has written `tot` bytes and is to write `left` more.
  abbrev pub Outcome : Node M → ℕ → ℕ → ℕ → ℕ → ℕ → Node M → Type 0
  Outcome s src off left tot r t =
      (got : ℕ) × (reach : ℕ) × (got ≤ reach)
      × (reach ≤ left)
      × (r ≡ tot + got)
      × Written s t off got reach (source s src)
      × (((got ≡ left) ⊎ (IsFull t × (reach ≡ got))) ⊎ CopyFails s src left)

  Outcome-step :
      (s t u : Node M) (src off left tot m r : ℕ)
      → m ≤ left
      → off + left ≤ maxfile * bsize
      → Written s t off m m (source s src)
      → Outcome t (src + m) (off + m) (left - m) (tot + m) r u
      → Outcome s src off left tot r u
  Outcome-step s t u src off left tot m r l fits w (got, reach, a, b, e, x, end) = (
    m + got,
    m + reach,
    omega (arith, a),
    omega (arith, b, l),
    e ∙ omega arith,
    Written-step s t u off m got reach (source s src) (source t (src + m)) (source s src)
        (omega (arith, a, b, l, fits)) a w x (λ i _. refl)
        (λ i _.
          ap (λ (q : Node M). c.peek q.mem (src + m + i)) w.rest ∙ ap (c.peek s.mem) (omega arith)),
    elim end [
      | inl (inl d) ↦ inl (inl (omega (arith, d, l)))
      | inl (inr (full, same)) ↦ inl (inr (full, omega (arith, same)))
      | inr fail ↦ inr (record {
        done = m + fail.done;
        at = fail.at;
        n = fail.n;
        old = fail.old;
        place = fail.place ∙ omega arith;
        within = omega (arith, fail.within, l);
        fails =
            subst (λ (q : M). Returns (c.copyin fail.at fail.n fail.old q) (λ r _. r.0 ≡ false))
              (ap (λ (q : Node M). q.mem) w.rest) fail.fails;
      })
    ],
  )

  after_copy :
      (s t : Node M) (src off left tot m r : ℕ) (rest : Cmd (Node M) ℕ) (done : Bool) (new : Array)
      → 0 < m
      → m ≤ left
      → off % bsize + m ≤ bsize
      → off + left ≤ maxfile * bsize
      → r ≢ 0
      → Mapped (off / bsize) s r t
      → c.copyin src m (λ i. t.fs.bytes r (off % bsize + i)) t.mem ≡ ok (done, new) t.mem
      → ((i : ℕ) → i < m → new i < 256)
      → (done ≡ true → (i : ℕ) → i < m → new i ≡ c.peek t.mem (src + i))
      → ((t' : Node M)
          → IsFile t'.fs t'.ip.addrs
          → Returns (rest t') (Outcome t' (src + m) (off + m) (left - m) (tot + m)))
      → Returns
          ((do
            stored ← store_bytes r (off % bsize) m (done, new)
            if stored then rest else pure tot)
            t)
          (Outcome s src off left tot)
  after_copy s t src off left tot m r rest true new some l b fits z h e byte same next =
      let w =
        stored-Written s t off m m r new (r ∷ t.fs.logged) (source s src) h z
          (omega (arith, l, fits)) some b (omega arith) byte
          (λ i k. same refl i k ∙ ap (λ (q : Node M). c.peek q.mem (src + i)) h.rest) in
      Returns_mono _ (rest _) (next _ w.file)
        (λ a u. Outcome-step s _ u src off left tot m a l fits w)
  after_copy s t src off left tot m r rest false new some l b fits z h e byte same next = (
    0,
    m,
    omega arith,
    l,
    omega arith,
    stored-Written s t off m 0 r new t.fs.logged (source s src) h z (omega (arith, l, fits)) some b
        (omega arith) byte (λ i k. absurd (omega (arith, k))),
    inr (record {
      done = 0;
      at = src;
      n = m;
      old = λ i. t.fs.bytes r (off % bsize + i);
      place = omega arith;
      within = omega (arith, l);
      fails =
          subst
            (λ (q : M).
              Returns (c.copyin src m (λ i. t.fs.bytes r (off % bsize + i)) q) (λ r _. r.0 ≡ false))
            (ap (λ (q : Node M). q.mem) h.rest) (rw e refl);
    }),
  )

  after_map :
      (s : Node M) (src off left tot m r : ℕ) (t : Node M) (rest : Cmd (Node M) ℕ)
      → 0 < m
      → m ≤ left
      → off % bsize + m ≤ bsize
      → off + left ≤ maxfile * bsize
      → Mapped (off / bsize) s r t
      → ((t' : Node M)
          → IsFile t'.fs t'.ip.addrs
          → Returns (rest t') (Outcome t' (src + m) (off + m) (left - m) (tot + m)))
      → Returns
          ((if r == 0 then pure tot else (do
            t ← gets (λ s. s)
            new ← on_mem (c.copyin src m (λ i. t.fs.bytes r (off % bsize + i)))
            stored ← store_bytes r (off % bsize) m new
            if stored then rest else pure tot))
            t)
          (Outcome s src off left tot)
  after_map s src off left tot m r t rest some l b fits h next = elim (eq_or r 0) [
    | inl z ↦ rw z (
      0,
      0,
      omega arith,
      omega arith,
      omega arith,
      record {
        file = h.file;
        inside = λ i k. absurd (omega (arith, k));
        outside = λ x k _. h.same x k;
        others = h.others;
        rest = h.rest;
      },
      inl (inr ((λ x w. h.full z x (subst (λ y. x < y) (ap (λ q. q.fs.size) h.rest) w)), refl)),
    )
    | inr z ↦
        let old : Array = λ i. t.fs.bytes r (off % bsize + i) in
        let (new, x, e, (same, byte, copy)) =
          Returns_run (c.copyin src m old t.mem) (c.copied src m old t.mem) in
        rw (ne→== r 0 z, e, same)
          (after_copy s t src off left tot m r rest new.0 new.1 some l b fits z h
            (e ∙ ap (ok new) same) byte copy next)
  ]

  pub writei_loop-Outcome :
      (k src off n tot : ℕ) (s : Node M)
      → IsFile s.fs s.ip.addrs
      → tot ≤ n
      → n < k + tot
      → off + (n - tot) ≤ maxfile * bsize
      → Returns (writei_loop c.copyin k src off n tot s) (Outcome s src off (n - tot) tot)
  unfolding writei_loop
  writei_loop-Outcome zero src off n tot s h l fuel fits = absurd (omega arith)
  writei_loop-Outcome (suc k) src off n tot s h l fuel fits = elim (Bool-cases (ltb tot n)) [
    | inr past ↦ rw past (
      0,
      0,
      omega arith,
      omega arith,
      omega arith,
      record {
        file = h;
        inside = λ i k. absurd (omega (arith, k));
        outside = λ x k _. refl;
        others = λ x o. (o, refl);
        rest = refl;
      },
      inl (inl (ground arith)),
    )
    | inl more ↦
        let m = round_size off (n - tot) in
        let size = round_size_lem off (n - tot) (ground arith) in
        rw more (
          Returns_bind _ (bmap (off / bsize) s) _ (bmap-Mapped (off / bsize) s h (omega arith))
            (λ r t g.
              after_map s src off (n - tot) tot m r t
                (writei_loop c.copyin k (src + m) (off + m) n (tot + m)) size.0 size.1 size.2 fits g
                (λ t' file.
                  subst
                    (λ left.
                      Returns (writei_loop c.copyin k (src + m) (off + m) n (tot + m) t')
                        (Outcome t' (src + m) (off + m) left (tot + m)))
                    (omega (arith, size.1))
                    (writei_loop-Outcome k (src + m) (off + m) n (tot + m) t' file
                      (omega (arith, size.1)) (omega (arith, size.0)) (omega (arith, size.1))))))
  ]
