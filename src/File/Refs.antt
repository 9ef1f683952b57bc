-- ===== src/File/Refs.antt =====
-- The reference counts over any sequence of calls.
use os_advanced_course.Base.{
  ℕ, ◌+◌, ◌-◌, ◌≡◌, ◌≢◌, ◌<◌, inl, inr, refl, ◌∙◌, sym, ◌==◌, Bool-cases, update, arith, ok, panic,
  blocked, out_of_fuel, Run, Returns_ok, some, none, put_back,
}
use os_advanced_course.Spinlock.Nesting.{IsIdle, cycled-IsIdle}
use os_advanced_course.File.{Backends, Ftable, nfile, set_ref, filealloc, filedup, fileclose}
use os_advanced_course.File.Table.{
  rested, closed, Opened, filealloc-Opened, filedup_lem, fileclose-shared, fileclose-last,
}

module _ {M : Type 0} (v : Backends M) where
  -- The file table, and how many references to each file its clients hold.
  pub record World : Type 0 where
    pub table : Ftable M
    pub refs : ℕ → ℕ

  -- A client opens a file, or duplicates or closes a reference that it holds.
  pub data Step (w u : World) : Type 0 where
    opens :
        (j : ℕ) (t : Ftable M)
        → filealloc w.table ≡ ok (some j) t
        → u ≡ record { table = t; refs = update w.refs j (w.refs j + 1) }
        → Step w u
    fails :
        (t : Ftable M)
        → filealloc w.table ≡ ok none t
        → u ≡ record { table = t; refs = w.refs }
        → Step w u
    dups :
        (f g : ℕ) (t : Ftable M)
        → 0 < w.refs f
        → filedup f w.table ≡ ok g t
        → u ≡ record { table = t; refs = update w.refs f (w.refs f + 1) }
        → Step w u
    closes :
        (f : ℕ) (t : Ftable M)
        → 0 < w.refs f
        → fileclose v f w.table ≡ ok tt t
        → u ≡ record { table = t; refs = update w.refs f (w.refs f - 1) }
        → Step w u

  pub data Reach (w : World) : World → Type 0 where
    here : Reach w w
    next : {u x : World} → Reach w u → Step u x → Reach w x

  -- The lock is free, and the table counts the references.
  pub record IsCounted (w : World) : Type 0 where
    pub idle : IsIdle w.table.core
    pub counts : (j : ℕ) → (w.table.file j).ref ≡ w.refs j

  opens-IsCounted :
      (w : World) (j : ℕ) (t : Ftable M)
      → IsCounted w
      → Opened 0 nfile w.table (some j) t
      → IsCounted (record { table = t; refs = update w.refs j (w.refs j + 1) })
  opens-IsCounted w j t c (inl (i, e, l, z, h, g)) = record {
    idle = rw g (cycled-IsIdle c.idle);
    counts = λ q. rw g (ground (arith, e, z, c.counts q, c.counts i));
  }
  opens-IsCounted w j t c (inr (h, e, g)) = absurd (ground (arith, e))

  fails-IsCounted :
      (w : World) (t : Ftable M)
      → IsCounted w
      → Opened 0 nfile w.table none t
      → IsCounted (record { table = t; refs = w.refs })
  fails-IsCounted w t c (inl (i, e, l, z, h, g)) = absurd (ground (arith, e))
  fails-IsCounted w t c (inr (h, e, g)) = record {
    idle = rw g (cycled-IsIdle c.idle);
    counts = λ q. rw g (c.counts q);
  }

  dups-IsCounted :
      (w : World) (f : ℕ) (t : Ftable M)
      → IsCounted w
      → t ≡ set_ref f ((w.table.file f).ref + 1) (rested w.table)
      → IsCounted (record { table = t; refs = update w.refs f (w.refs f + 1) })
  dups-IsCounted w f t c g = record {
    idle = rw g (cycled-IsIdle c.idle);
    counts = λ q. rw g (ground (arith, c.counts q, c.counts f));
  }

  put_back-ok :
      (s : Ftable M) (run : Run M (Unit {0})) (t : Ftable M)
      → put_back (λ x m. record x { mem = m }) s run ≡ ok tt t
      → (t.core ≡ s.core) × (t.file ≡ s.file)
  put_back-ok s (ok a m) t h =
      Returns_ok (λ _ x. (x.core ≡ s.core) × (x.file ≡ s.file)) _ tt t h (refl, refl)
  put_back-ok s panic t h = absurd (ground (arith, h))
  put_back-ok s (blocked m) t h = absurd (ground (arith, h))
  put_back-ok s out_of_fuel t h = absurd (ground (arith, h))

  closes-IsCounted :
      (w : World) (f : ℕ) (t : Ftable M)
      → IsCounted w
      → 0 < w.refs f
      → fileclose v f w.table ≡ ok tt t
      → IsCounted (record { table = t; refs = update w.refs f (w.refs f - 1) })
  closes-IsCounted w f t c l call = elim (Bool-cases ((w.table.file f).ref == 1)) [
    | inl last ↦
        let e =
          put_back-ok (closed f w.table) _ t
            (sym (fileclose-last v f w.table c.idle (ground arith)) ∙ call) in
        record {
          idle = rw e.0 (cycled-IsIdle c.idle);
          counts = λ q. rw e.1 (ground (arith, last, c.counts q, c.counts f));
        }
    | inr more ↦
        let e =
          Returns_ok (λ _ x. x ≡ set_ref f ((w.table.file f).ref - 1) (rested w.table)) _ tt t call
            (rw (fileclose-shared v f w.table c.idle (ground (arith, more, l, c.counts f))) refl) in
        record {
          idle = rw e (cycled-IsIdle c.idle);
          counts = λ q. rw e (ground (arith, c.counts q, c.counts f));
        }
  ]

  Step-IsCounted : {w u : World} → Step w u → IsCounted w → IsCounted u
  Step-IsCounted {w} (opens j t e g) c = rw g (
      opens-IsCounted w j t c
        (Returns_ok _ (filealloc w.table) (some j) t e (filealloc-Opened w.table c.idle)))
  Step-IsCounted {w} (fails t e g) c = rw g (
      fails-IsCounted w t c
        (Returns_ok _ (filealloc w.table) none t e (filealloc-Opened w.table c.idle)))
  Step-IsCounted {w} (dups f h t l e g) c = rw g (
      dups-IsCounted w f t c (
        Returns_ok (λ _ x. x ≡ set_ref f ((w.table.file f).ref + 1) (rested w.table)) _ h t e
          (rw (filedup_lem f w.table c.idle (rw (c.counts f) l)) refl)))
  Step-IsCounted {w} (closes f t l e g) c = rw g (closes-IsCounted w f t c l e)

  Reach-IsCounted : {w u : World} → IsCounted w → Reach w u → IsCounted u
  Reach-IsCounted c here = c
  Reach-IsCounted c (next r s) = Step-IsCounted s (Reach-IsCounted c r)

  Opened-unused : (j : ℕ) (s t : Ftable M) → Opened 0 nfile s (some j) t → (s.file j).ref ≡ 0
  Opened-unused j s t (inl (i, e, l, z, h, g)) = ground (arith, e, z)
  Opened-unused j s t (inr (h, e, g)) = absurd (ground (arith, e))

  -- From a file table with its lock free and no file referred to, after any sequence of
  -- filealloc(), filedup() and fileclose() calls that return, in which clients duplicate and
  -- close only references that they hold: the count of each file is the number of references held
  -- to it; filealloc() never hands out a file to which one is held; and filedup() of a file to
  -- which one is held does not panic.
  pub refs_counted :
      {w u : World}
      → IsIdle w.table.core
      → ((j : ℕ) → (w.table.file j).ref ≡ 0)
      → ((j : ℕ) → w.refs j ≡ 0)
      → Reach w u
      → ((j : ℕ) → (u.table.file j).ref ≡ u.refs j)
        × ((j : ℕ) (t : Ftable M) → filealloc u.table ≡ ok (some j) t → u.refs j ≡ 0)
        × ((f : ℕ) → 0 < u.refs f → filedup f u.table ≢ panic)
  refs_counted {w} {u} i unused none_held r = (
    c.counts,
    handed,
    λ f l h. absurd (ground (arith, sym (filedup_lem f u.table c.idle (rw (c.counts f) l)) ∙ h)),
  )
    where
      c : IsCounted u
      c = Reach-IsCounted (record { idle = i; counts = λ j. unused j ∙ sym (none_held j) }) r

      handed : (j : ℕ) (t : Ftable M) → filealloc u.table ≡ ok (some j) t → u.refs j ≡ 0
      handed j t e =
          sym (c.counts j)
          ∙ Opened-unused j u.table t
              (Returns_ok _ (filealloc u.table) (some j) t e (filealloc-Opened u.table c.idle))
