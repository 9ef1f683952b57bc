-- ===== src/Content/Read.antt =====
-- readi() on a file.
use mathlib.Core.Path.{subst}
use os_advanced_course.Base.{
  le→ltb, gets, ◌>>=◌, ℕ, zero, suc, ◌≡◌, ◌≢◌, ◌<◌, ◌≤◌, ◌+◌, ◌*◌, ◌/◌, ◌%◌, ◌-◌, ◌^◌, refl, ap,
  ◌∙◌, arith, true, false, ltb, ◌==◌, if◌then◌else◌, ◌⊎◌, inl, inr, Bool-cases, Bool, Cmd, Returns,
  Returns_run, Returns_bind, Returns_mono, ne→==, ℤ, negsuc, to_int, ok, pure,
}
use os_advanced_course.Buddy.{Array}
use os_advanced_course.Fs.{bsize}
use os_advanced_course.Fs.Bitmap.{is_used}
use os_advanced_course.Content.{Node, maxfile, round_size, bmap, readi_loop, readi, on_mem}
use os_advanced_course.Content.Map.{IsFile, content, eq_or}
use os_advanced_course.Content.Map.Bmap.{Mapped, bmap-Mapped}
use os_advanced_course.Content.Rounds.{
  round_size_lem, Kept, Kept-refl, Mapped-Kept, Kept-trans, content-block, CopyOut, Copied,
  Copied-step, Copied-none,
}

-- The bytes that readi() is to read.
abbrev pub to_read : {M : Type 0} → Node M → ℕ → ℕ → ℕ
to_read s off n = if ltb (s.ip.size - off) n then s.ip.size - off else n

module _ {M : Type 0} (c : CopyOut M) where
  -- `n` bytes of the file from `off` on are in the memory at `dst`.
  abbrev pub Fetched : Node M → ℕ → ℕ → ℕ → Node M → Type 0
  Fetched s dst off n t =
      Copied (c.peek s.mem) (c.peek t.mem) dst n (λ i. content s.fs s.ip.addrs (off + i))

  abbrev pub IsFull : Node M → Type 0
  IsFull s = (x : ℕ) → x < s.fs.size → is_used s.fs x ≡ true

  -- A call of either_copyout() fails that is to copy some of `left` bytes at `dst`, once `done`
  -- bytes have been copied.
  pub record CopyFails (s : Node M) (dst off left : ℕ) : Type 0 where
    pub done : ℕ
    pub at : ℕ
    pub n : ℕ
    pub src : Array
    pub mem : M
    pub place : at ≡ dst + done
    pub within : done + n ≤ left
    pub so_far :
        Copied (c.peek s.mem) (c.peek mem) dst done (λ i. content s.fs s.ip.addrs (off + i))
    pub fails : Returns (c.copyout at n src mem) (λ copied _. copied ≡ false)

  -- The outcome of the loop that has read `tot` bytes and is to read `left` more.
  abbrev pub Outcome : Node M → ℕ → ℕ → ℕ → ℕ → ℤ → Node M → Type 0
  Outcome s dst off left tot r t =
      Kept s t
      × (((got : ℕ) × (got ≤ left)
            × (r ≡ to_int (tot + got))
            × Fetched s dst off got t
            × ((got ≡ left) ⊎ IsFull t))
          ⊎ ((r ≡ negsuc 0) × CopyFails s dst off left))

  Outcome-step :
      (s t u : Node M) (dst off left tot m : ℕ) (r : ℤ)
      → m ≤ left
      → off + left ≤ maxfile * bsize
      → Kept s t
      → Fetched s dst off m t
      → Outcome t (dst + m) (off + m) (left - m) (tot + m) r u
      → Outcome s dst off left tot r u
  Outcome-step s t u dst off left tot m r l fits h f (k, inr (e, fail)) = (
    Kept-trans s t u h k,
    inr (
      e,
      record {
        done = m + fail.done;
        at = fail.at;
        n = fail.n;
        src = fail.src;
        mem = fail.mem;
        place = fail.place ∙ omega arith;
        within = omega (arith, fail.within, l);
        so_far =
            Copied-step f fail.so_far (λ i _. refl)
              (λ i b.
                h.same _ (omega (arith, b, fail.within, fits, l))
                ∙ ap (content s.fs s.ip.addrs) (omega arith));
        fails = fail.fails;
      },
    ),
  )
  Outcome-step s t u dst off left tot m r l fits h f (k, inl (got, le, e, g, end)) = (
    Kept-trans s t u h k,
    inl (
      m + got,
      omega arith,
      e ∙ ap to_int (omega arith),
      Copied-step f g (λ i _. refl)
          (λ i b. h.same _ (omega arith) ∙ ap (content s.fs s.ip.addrs) (omega arith)),
      elim end [ inl e ↦ inl (omega (arith, e, l)) | inr full ↦ inr full ],
    ),
  )

  after_copy :
      (s t : Node M) (dst off left tot m r : ℕ) (rest : Cmd (Node M) ℤ) (done : Bool) (x : M)
      → m ≤ left
      → off % bsize + m ≤ bsize
      → off + left ≤ maxfile * bsize
      → r ≢ 0
      → Mapped (off / bsize) s r t
      → c.copyout dst m (λ i. t.fs.bytes r (off % bsize + i)) t.mem ≡ ok done x
      → (done ≡ true → Copied (c.peek t.mem) (c.peek x) dst m (λ i. t.fs.bytes r (off % bsize + i)))
      → ((t' : Node M)
          → IsFile t'.fs t'.ip.addrs
          → Returns (rest t') (Outcome t' (dst + m) (off + m) (left - m) (tot + m)))
      → Returns
          ((if done then rest else pure (negsuc 0)) (record t { mem = x }))
          (Outcome s dst off left tot)
  after_copy s t dst off left tot m r rest true x l b fits z h e f next =
      let t' : Node M = record t { mem = x } in
      Returns_mono _ (rest t') (next t' h.file) (λ a u.
        Outcome-step s t' u dst off left tot m a l fits (Mapped-Kept _ r s t x h)
          (fetched (f refl)))
    where
      fetched :
          Copied (c.peek t.mem) (c.peek x) dst m (λ i. t.fs.bytes r (off % bsize + i))
          → Fetched s dst off m (record t { mem = x })
      fetched k = record {
        inside = λ i w. k.inside i w ∙ content-block r off i s t h z (omega arith) (omega arith);
        outside = λ y w. k.outside y w ∙ ap (λ q. c.peek q.mem y) h.rest;
      }
  after_copy s t dst off left tot m r rest false x l b fits z h e f next = (
    Mapped-Kept _ r s t x h,
    inr (
      refl,
      record {
        done = 0;
        at = dst;
        n = m;
        src = λ i. t.fs.bytes r (off % bsize + i);
        mem = t.mem;
        place = omega arith;
        within = omega (arith, l);
        so_far = record {
          inside = λ i w. absurd (omega (arith, w));
          outside = λ y w. ap (λ q. c.peek q.mem y) h.rest;
        };
        fails = rw e refl;
      },
    ),
  )

  after_map :
      (s : Node M) (dst off left tot m r : ℕ) (t : Node M) (rest : Cmd (Node M) ℤ)
      → m ≤ left
      → off % bsize + m ≤ bsize
      → off + left ≤ maxfile * bsize
      → Mapped (off / bsize) s r t
      → ((t' : Node M)
          → IsFile t'.fs t'.ip.addrs
          → Returns (rest t') (Outcome t' (dst + m) (off + m) (left - m) (tot + m)))
      → Returns
          ((if r == 0 then pure (to_int tot) else (do
            t ← gets (λ s. s)
            copied ← on_mem (c.copyout dst m (λ i. t.fs.bytes r (off % bsize + i)))
            if copied then rest else pure (negsuc 0)))
            t)
          (Outcome s dst off left tot)
  after_map s dst off left tot m r t rest l b fits h next = elim (eq_or r 0) [
    | inl z ↦ rw z (
      Mapped-Kept (off / bsize) r s t t.mem h,
      inl (
        0,
        omega arith,
        ap to_int (omega arith),
        record {
          inside = λ i w. absurd (omega arith);
          outside = λ x w. ap (λ q. c.peek q.mem x) h.rest;
        },
        inr (λ x w. h.full z x (subst (λ y. x < y) (ap (λ q. q.fs.size) h.rest) w)),
      ),
    )
    | inr z ↦
        let (done, x, e, f) =
          Returns_run (c.copyout dst m (λ i. t.fs.bytes r (off % bsize + i)) t.mem)
            (c.copied dst m _ t.mem (λ i _. h.file.sound.bytes r (off % bsize + i))) in
        rw (ne→== r 0 z, e) (after_copy s t dst off left tot m r rest done x l b fits z h e f next)
  ]

  readi_loop-Outcome :
      (k dst off n tot : ℕ) (s : Node M)
      → IsFile s.fs s.ip.addrs
      → tot ≤ n
      → n < k + tot
      → off + (n - tot) ≤ maxfile * bsize
      → Returns (readi_loop c.copyout k dst off n tot s) (Outcome s dst off (n - tot) tot)
  unfolding readi_loop
  readi_loop-Outcome zero dst off n tot s h l fuel fits = absurd (omega arith)
  readi_loop-Outcome (suc k) dst off n tot s h l fuel fits = elim (Bool-cases (ltb tot n)) [
    | inr past ↦ rw past (
      Kept-refl s s.mem h,
      inl (0, omega arith, ap to_int (omega arith), Copied-none _ dst _, inl (ground arith)),
    )
    | inl more ↦
        let m = round_size off (n - tot) in
        let size = round_size_lem off (n - tot) (ground arith) in
        rw more (
          Returns_bind _ (bmap (off / bsize) s) _ (bmap-Mapped (off / bsize) s h (omega arith))
            (λ r t g.
              after_map s dst off (n - tot) tot m r t
                (readi_loop c.copyout k (dst + m) (off + m) n (tot + m)) size.1 size.2 fits g
                (λ t' file.
                  subst
                    (λ left.
                      Returns (readi_loop c.copyout k (dst + m) (off + m) n (tot + m) t')
                        (Outcome t' (dst + m) (off + m) left (tot + m)))
                    (omega (arith, size.1))
                    (readi_loop-Outcome k (dst + m) (off + m) n (tot + m) t' file
                      (omega (arith, size.1)) (omega (arith, size.0)) (omega (arith, size.1))))))
  ]

  -- readi() of a file within its greatest size, at an offset up to its size, returns: the file is
  -- as it was, and the result is the number of the bytes read, which are those of the content, at
  -- their place in the memory, where nothing else has changed; they are all the bytes asked for
  -- up to the end of the file, unless the disk is full; or a call of either_copyout() for some of
  -- these bytes fails, and the result is -1.
  pub readi-Outcome :
      (dst off n : ℕ) (s : Node M)
      → IsFile s.fs s.ip.addrs
      → s.ip.size ≤ maxfile * bsize
      → off ≤ s.ip.size
      → off + n < 2 ^ 32
      → Returns (readi c.copyout dst off n s) (Outcome s dst off (to_read s off n) 0)
  unfolding readi
  readi-Outcome dst off n s h fits l w =
      rw (wrap, le→ltb s.ip.size off l, le→ltb (off + n) off (omega arith), count)
        (loop (to_read s off n) (ground arith))
    where
      wrap : (off + n) % 2 ^ 32 ≡ off + n
      wrap = omega arith

      count : (if ltb s.ip.size (off + n) then s.ip.size - off else n) ≡ to_read s off n
      count = ground arith

      loop :
          (m : ℕ)
          → off + m ≤ maxfile * bsize
          → Returns (readi_loop c.copyout (m + 1) dst off m 0 s) (Outcome s dst off m 0)
      loop m b =
          subst
            (λ left.
              Returns (readi_loop c.copyout (m + 1) dst off m 0 s) (Outcome s dst off left 0))
            (omega arith)
            (readi_loop-Outcome (m + 1) dst off m 0 s h (omega arith) (omega arith)
              (omega (arith, b)))
