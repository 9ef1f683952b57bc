-- ===== src/Content/Map/Bmap.antt =====
-- bmap() on a file.
use mathlib.Core.Path.{subst}
use os_advanced_course.Base.{
  gets, ◌>>=◌, ◌>>◌, Returns_mono, Returns_bind, ℕ, ◌≡◌, ◌≢◌, ◌<◌, ◌≤◌, ◌+◌, ◌*◌, ◌-◌, refl, sym,
  ap, ◌∙◌, arith, true, ltb, ◌==◌, if◌then◌else◌, inl, inr, Bool-cases, update, ne→==, ==_iff, List,
  Returns, Returns_run, pure, ◌>>◌, lt→ltb, ◌∷◌,
}
use os_advanced_course.Buddy.{Array}
use os_advanced_course.Fs.{Fs, bsize, balloc}
use os_advanced_course.Fs.Bitmap.{is_used}
use os_advanced_course.Fs.Alloc.{Took, Allocated, balloc-Allocated}
use os_advanced_course.Content.{
  on_fs, get32, ndirect, maxfile, Node, bmap_direct, set_addr, bmap, bmap_indirect, nindirect,
  put_bytes, log_write,
}
use os_advanced_course.Content.Map.Direct.{slot-indirect, place, slot-place, direct-Linked}
use os_advanced_course.Content.Map.Indirect.{
  slot-entry, entered-IsFile, entered-content, entered-at, entered-IsOutside,
}
use os_advanced_course.Content.Map.{
  eq_or, slot_kept, slot, content, IsFile, IsFresh, IsOutside, Linked, link-IsFile, link-content,
  link-IsOutside, Took-IsFile, Took-IsFresh, Took-content, Took-IsOutside,
}

-- What bmap() makes of the file `s`, with its result `r` for the index `q`: the content is the
-- same, the block at the index is `r` unless all blocks of the disk are in use, and no block of
-- anything else has changed.
pub record Mapped {M : Type 0} (q : ℕ) (s : Node M) (r : ℕ) (t : Node M) : Type 0 where
  pub file : IsFile t.fs t.ip.addrs
  pub same : (i : ℕ) → i < maxfile * bsize → content t.fs t.ip.addrs i ≡ content s.fs s.ip.addrs i
  pub at : r ≢ 0 → slot t.fs t.ip.addrs q ≡ r
  pub full : r ≡ 0 → (x : ℕ) → x < s.fs.size → is_used t.fs x ≡ true
  pub others :
      (x : ℕ)
      → IsOutside x s.fs s.ip.addrs
      → IsOutside x t.fs t.ip.addrs × (t.fs.bytes x ≡ s.fs.bytes x)
  pub rest : t ≡ record s {
    fs = record (s.fs) { bytes = t.fs.bytes; logged = t.fs.logged };
    ip = record (s.ip) { addrs = t.ip.addrs };
  }

module _ {M : Type 0} where
  Mapped-refl :
      (q r : ℕ) (s : Node M)
      → IsFile s.fs s.ip.addrs
      → (r ≢ 0 → slot s.fs s.ip.addrs q ≡ r)
      → (r ≡ 0 → (x : ℕ) → x < s.fs.size → is_used s.fs x ≡ true)
      → Mapped q s r s
  Mapped-refl q r s h at full = record {
    file = h;
    same = λ i m. refl;
    at = at;
    full = full;
    others = λ x o. (o, refl);
    rest = refl;
  }

  Mapped-trans : (p q b r : ℕ) (s t u : Node M) → Mapped p s b t → Mapped q t r u → Mapped q s r u
  Mapped-trans p q b r s t u h k = record {
    file = k.file;
    same = λ i m. k.same i m ∙ h.same i m;
    at = k.at;
    full = λ z x m. k.full z x (subst (λ y. x < y) (sym (ap (λ y. y.fs.size) h.rest)) m);
    others = λ x o.
        let first = h.others x o in
        let second = k.others x first.0 in (second.0, second.1 ∙ first.1);
    rest =
        k.rest
        ∙ ap
            (λ (y : Node M). record y {
              fs = record (y.fs) { bytes = u.fs.bytes; logged = u.fs.logged };
              ip = record (y.ip) { addrs = u.ip.addrs };
            })
            h.rest;
  }

module _ {M : Type 0} where
  -- The state once balloc() has given `r`, with new blocks `d`, and it is the address at `bn`.
  linked_direct :
      (bn r : ℕ) (s : Node M) (d : ℕ → Array) (l : List ℕ)
      → IsFile s.fs s.ip.addrs
      → bn ≤ ndirect
      → s.ip.addrs bn ≡ 0
      → Took r s.fs (record (s.fs) { bytes = d; logged = l })
      → Mapped (place bn) s r (record s {
        fs = record (s.fs) { bytes = d; logged = l };
        ip = record (s.ip) { addrs = update s.ip.addrs bn r };
      })
  linked_direct bn r s d l h m z k =
      let a = s.ip.addrs in
      let g : Fs = record (s.fs) { bytes = d; logged = l } in
      let file : IsFile g a = Took-IsFile r s.fs a d l h k in
      let fresh : IsFresh r g a = Took-IsFresh r s.fs a d l h k in
      let link : Linked (place bn) r g a g (update a bn r) = direct-Linked bn r g a m z fresh in
      record {
        file =
            link-IsFile (place bn) r g a (update a bn r) d l file fresh link file.sound
              (λ x _. refl);
        same = λ i n.
            link-content (place bn) r g a (update a bn r) d l file fresh link (λ q _ _. refl)
              fresh.zeroed i n
            ∙ Took-content r s.fs a d l h k i n;
        at = λ _. link.set;
        full = λ e. absurd (fresh.nonzero e);
        others = λ x o.
            let kept = Took-IsOutside r s.fs a d l h k x o in
            (
              link-IsOutside (place bn) r g a (update a bn r) d l file fresh link (λ x _. refl) x
                  kept.1 kept.0,
              kept.2,
            );
        rest = refl;
      }

  direct_after :
      (bn : ℕ) (s : Node M) (r : ℕ) (f : Fs)
      → IsFile s.fs s.ip.addrs
      → bn ≤ ndirect
      → s.ip.addrs bn ≡ 0
      → Allocated 0 s.fs r f
      → Returns
          ((if r == 0 then pure 0 else (do set_addr bn r; pure r)) (record s { fs = f }))
          (Mapped (place bn) s)
  direct_after bn s r f h m z (inr (none, same, full)) =
      rw (none, same)
        (Mapped-refl (place bn) 0 s h (λ ne. absurd (ne refl)) (λ _ x l. full x (omega arith) l))
  direct_after bn s r f h m z (inl (k, _)) =
      rw (ne→== r 0 (λ e. absurd (ground (arith, k.free, h.boot, ap (is_used s.fs) e))), k.rest)
        (linked_direct bn r s f.bytes f.logged h m z (subst (Took r s.fs) k.rest k))

  bmap_direct-Mapped :
      (bn : ℕ) (s : Node M)
      → IsFile s.fs s.ip.addrs
      → bn ≤ ndirect
      → Returns (bmap_direct bn s) (Mapped (place bn) s)
  unfolding bmap_direct
  bmap_direct-Mapped bn s h m = elim (Bool-cases (s.ip.addrs bn == 0)) [
    | inr z ↦ rw z (
        Mapped-refl (place bn) (s.ip.addrs bn) s h (λ _. slot-place bn s.fs s.ip.addrs m)
          (λ e. absurd (ground (arith, z, e))))
    | inl z ↦
        let (r, f, e, al) = Returns_run (balloc s.fs) (balloc-Allocated s.fs h.sound) in
        rw (z, e) (direct_after bn s r f h m ((==_iff (s.ip.addrs bn) 0).0 z) al)
  ]

  linked_entry :
      (bn r : ℕ) (s : Node M) (d : ℕ → Array) (l : List ℕ)
      → IsFile s.fs s.ip.addrs
      → bn < nindirect
      → s.ip.addrs ndirect ≢ 0
      → get32 (s.fs.bytes (s.ip.addrs ndirect)) (4 * bn) ≡ 0
      → Took r s.fs (record (s.fs) { bytes = d; logged = l })
      → Mapped (bn + ndirect) s r (record s {
        fs = record (s.fs) {
          bytes = update d (s.ip.addrs ndirect) (put_bytes 4 (4 * bn) r (d (s.ip.addrs ndirect)));
          logged = s.ip.addrs ndirect ∷ l;
        };
      })
  linked_entry bn r s d l h m w z k =
      let a = s.ip.addrs in
      let g : Fs = record (s.fs) { bytes = d; logged = l } in
      let file : IsFile g a = Took-IsFile r s.fs a d l h k in
      let fresh : IsFresh r g a = Took-IsFresh r s.fs a d l h k in
      let empty : get32 (d (a ndirect)) (4 * bn) ≡ 0 =
        sym (slot-entry g a bn m w)
        ∙ slot_kept r s.fs a d l h k (bn + ndirect)
        ∙ slot-entry s.fs a bn m w
        ∙ z in
      record {
        file = entered-IsFile bn r g a file fresh m w empty;
        same = λ i n.
            entered-content bn r g a file fresh m w empty i n ∙ Took-content r s.fs a d l h k i n;
        at = λ _. entered-at bn r g a file fresh m w empty;
        full = λ e. absurd (fresh.nonzero e);
        others = λ x o.
            let kept = Took-IsOutside r s.fs a d l h k x o in
            let last = entered-IsOutside bn r g a file fresh m w empty x kept.1 kept.0 in
            (last.0, last.1 ∙ kept.2);
        rest = refl;
      }

  entry_after :
      (bn : ℕ) (s : Node M) (r : ℕ) (f : Fs)
      → IsFile s.fs s.ip.addrs
      → bn < nindirect
      → s.ip.addrs ndirect ≢ 0
      → get32 (s.fs.bytes (s.ip.addrs ndirect)) (4 * bn) ≡ 0
      → Allocated 0 s.fs r f
      → Returns
          ((do
            t ← gets (λ s. s)
            if r == 0
                then pure tt
                else on_fs (
                    log_write
                      (s.ip.addrs ndirect)
                      (put_bytes 4 (4 * bn) r (t.fs.bytes (s.ip.addrs ndirect))))
            pure r)
            (record s { fs = f }))
          (Mapped (bn + ndirect) s)
  entry_after bn s r f h m w z (inr (none, same, full)) =
      rw (none, same)
        (Mapped-refl (bn + ndirect) 0 s h (λ ne. absurd (ne refl))
          (λ _ x l. full x (omega arith) l))
  entry_after bn s r f h m w z (inl (k, _)) =
      rw (ne→== r 0 (λ e. absurd (ground (arith, k.free, h.boot, ap (is_used s.fs) e))), k.rest)
        (linked_entry bn r s f.bytes f.logged h m w z (subst (Took r s.fs) k.rest k))

  bmap_indirect-Mapped :
      (bn : ℕ) (s : Node M)
      → IsFile s.fs s.ip.addrs
      → bn < nindirect
      → s.ip.addrs ndirect ≢ 0
      → Returns (bmap_indirect (s.ip.addrs ndirect) bn s) (Mapped (bn + ndirect) s)
  unfolding bmap_indirect
  bmap_indirect-Mapped bn s h m w =
      elim (Bool-cases (get32 (s.fs.bytes (s.ip.addrs ndirect)) (4 * bn) == 0)) [
        | inr z ↦ rw z (
            Mapped-refl (bn + ndirect) _ s h (λ _. slot-entry s.fs s.ip.addrs bn m w)
              (λ e. absurd (ground (arith, z, e))))
        | inl z ↦
            let (r, f, e, al) = Returns_run (balloc s.fs) (balloc-Allocated s.fs h.sound) in
            rw (z, e)
              (entry_after bn s r f h m w
                ((==_iff (get32 (s.fs.bytes (s.ip.addrs ndirect)) (4 * bn)) 0).0 z) al)
      ]

  indirect_after :
      (bn : ℕ) (s : Node M) (b : ℕ) (t : Node M)
      → bn < nindirect
      → Mapped maxfile s b t
      → Returns ((if b == 0 then pure 0 else bmap_indirect b bn) t) (Mapped (bn + ndirect) s)
  indirect_after bn s b t m k = elim (eq_or b 0) [
    | inl z ↦ rw z (record {
      file = k.file;
      same = k.same;
      at = λ ne. absurd (ne refl);
      full = λ _. k.full z;
      others = k.others;
      rest = k.rest;
    })
    | inr z ↦ rw (ne→== b 0 z) (
        subst (λ x. Returns (bmap_indirect x bn t) (Mapped (bn + ndirect) s))
          (slot-indirect t.fs t.ip.addrs b (k.at z))
          (Returns_mono _ (bmap_indirect (t.ip.addrs ndirect) bn t)
            (bmap_indirect-Mapped bn t k.file m
              (λ e. z (sym (slot-indirect t.fs t.ip.addrs b (k.at z)) ∙ e)))
            (λ r u. Mapped-trans maxfile (bn + ndirect) b r s t u k)))
  ]

  -- On a file, bmap() of any index a file can have returns: the content of the file is the same,
  -- the block at the index is the result unless the disk is full, the blocks of the file stay
  -- distinct, in use and off the bitmap, and no block of anything else changes.
  pub bmap-Mapped :
      (bn : ℕ) (s : Node M)
      → IsFile s.fs s.ip.addrs
      → bn < maxfile
      → Returns (bmap bn s) (Mapped bn s)
  unfolding bmap
  bmap-Mapped bn s h m = elim (Bool-cases (ltb bn ndirect)) [
    | inl l ↦ rw l (low l)
    | inr g ↦
        rw (g, lt→ltb (bn - ndirect) nindirect (ground arith))
          (high (bn - ndirect) (omega arith) (ground arith))
  ]
    where
      low : ltb bn ndirect ≡ true → Returns (bmap_direct bn s) (Mapped bn s)
      low l =
          subst (λ q. Returns (bmap_direct bn s) (Mapped q s)) (rw l refl)
            (bmap_direct-Mapped bn s h (ground arith))

      high :
          (j : ℕ)
          → j < nindirect
          → bn ≡ j + ndirect
          → Returns
              ((do b ← bmap_direct ndirect; if b == 0 then pure 0 else bmap_indirect b j) s)
              (Mapped bn s)
      high j l e = rw e (
          Returns_bind _ (bmap_direct ndirect s) _ (bmap_direct-Mapped ndirect s h (omega arith))
            (λ b t. indirect_after j s b t l))
