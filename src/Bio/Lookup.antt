-- ===== src/Bio/Lookup.antt =====
-- The order of the buffers, and the search of bget().
use os_advanced_course.Base.{
  Returns, ◌%◌, ◌^◌, ℕ, zero, suc, ◌≡◌, ◌≢◌, refl, Bool, true, false, ◌==◌, if◌then◌else◌, List, [],
  ◌∷◌, ==_refl, ◌++◌, some, has, has-append, length, All, arith, ◌<◌, Returns, ◌+◌, ◌%◌, ◌^◌, ok,
  update, ◌&&◌, ◌-◌, panic, Bool-cases, inl, inr,
}
use os_advanced_course.ListC.{Nodes, lst_push, lst_remove}
use os_advanced_course.ListC.Ring.{
  Distinct, Seg, IsRing, lst_push-IsRing, lst_remove-IsRing, next-mem, Seg-split,
}
use os_advanced_course.Spinlock.{Core, initlock}
use os_advanced_course.Spinlock.Nesting.{
  cycled-IsIdle, cycled, IsIdle, cycled, acquire-held, release-cycled, cycled-IsIdle, IsNested,
}
use os_advanced_course.Sleeplock.Exclusion.{sleeplock_cases}
use os_advanced_course.Sleeplock.{Sleeplock, acquiresleep, releasesleep, holdingsleep}
use os_advanced_course.Bio.{on_buf, scan, to_front, Bcache, bget, is_block, brelse}

Distinct-middle :
    (ys : List ℕ) (b : ℕ) (zs : List ℕ) → Distinct (ys ++ b ∷ zs) → has b (ys ++ zs) ≡ false
Distinct-middle [] b zs d = d.0
Distinct-middle (y ∷ ys) b zs d =
    ground (arith, has-append y ys (b ∷ zs), d.0, Distinct-middle ys b zs d.1)

to_front-lst_push :
    (head b : ℕ) (m : Nodes) → m.next b ≢ b → to_front head b m ≡ lst_push head b (lst_remove b m)
unfolding to_front lst_push lst_remove
to_front-lst_push head b m ne = rw (other, same) refl
  where
    other : (m.next b == b) ≡ false
    other = ground arith

    same : (if m.prev b == b then m.next b else m.next b) ≡ m.next b
    same = ground arith

-- Put in front, a buffer becomes the first of the list, and the others keep their order.
to_front-IsRing :
    (m : Nodes) (head b : ℕ) (ys zs : List ℕ)
    → IsRing m head (ys ++ b ∷ zs)
    → IsRing (to_front head b m) head (b ∷ (ys ++ zs))
to_front-IsRing m head b ys zs r = rw (to_front-lst_push head b m elsewhere) (
    lst_push-IsRing (lst_remove b m) head b (ys ++ zs) (lst_remove-IsRing m head b ys zs r) other
      alone)
  where
    alone : has b (ys ++ zs) ≡ false
    alone = Distinct-middle ys b zs r.distinct

    other : b ≢ head
    other = ground (arith, has-append head ys (b ∷ zs), r.apart)

    elsewhere : m.next b ≢ b
    elsewhere = ground (
      arith,
      next-mem m b zs head (Seg-split m head ys b zs head r.seg).1,
      has-append b ys zs,
      alone,
      other,
    )

-- Along the links, the search stops at the first buffer that passes the test.
pub scan-first :
    (m : Nodes) (test : ℕ → Bool) (head a b : ℕ) (ys zs : List ℕ)
    → Seg m a (ys ++ b ∷ zs) head
    → has head (ys ++ b ∷ zs) ≡ false
    → All (λ y. test y ≡ false) ys
    → test b ≡ true
    → (f : ℕ) → length ys < f
    → scan m.next test head f (m.next a) ≡ some b
unfolding scan
scan-first m test head a b [] zs s out misses hit (suc f) l = ground (arith, s, out)
scan-first m test head a b (y ∷ ys) zs s out misses hit (suc f) l = ground (
  arith,
  s,
  out,
  misses,
  scan-first m test head y b ys zs s.2 (ground (arith, out)) misses.1 hit f (omega (arith, l)),
)
scan-first m test head a b ys zs s out misses hit zero l = absurd (omega arith)

-- Each buffer's spin lock is free, and the list has the buffers `xs`.
pub record IsCache (s : Bcache) (xs : List ℕ) : Type 0 where
  pub idle : IsIdle s.core
  pub ring : IsRing s.nodes s.head xs
  pub free : (b : ℕ) → (s.buf b).lk ≡ initlock

-- acquiresleep() of a buffer that is not locked.
lock_buf :
    (s : Bcache) (self b : ℕ)
    → IsNested s.core.cpu
    → (s.buf b).lk ≡ initlock
    → (s.buf b).locked ≡ false
    → on_buf b (acquiresleep self) s
      ≡ ok tt (record s {
        core = record { cpu = (cycled s.core).cpu; lock = s.core.lock };
        buf = update s.buf b (record (s.buf b) { lk = initlock; locked = true; pid = self });
      })
lock_buf s self b n f u =
    rw ((sleeplock_cases l self (record { nested = n; unlocked = f })).0 u) refl
  where
    l : Sleeplock
    l = record {
      core = record { cpu = s.core.cpu; lock = (s.buf b).lk };
      locked = (s.buf b).locked;
      pid = (s.buf b).pid;
    }

-- The cache when the hit has been counted and the lock released.
abbrev counted : Bcache → ℕ → Bcache
counted s b = record s {
  core = cycled s.core;
  buf = update s.buf b (record (s.buf b) { refcnt = ((s.buf b).refcnt + 1) % 2 ^ 32 });
}

relocked :
    {c : Core} → IsIdle c → IsIdle (record { cpu = (cycled (cycled c)).cpu; lock = initlock })
relocked h = cycled-IsIdle (cycled-IsIdle h)

not_head : (b head : ℕ) (ys zs : List ℕ) → has head (ys ++ b ∷ zs) ≡ false → (b == head) ≡ false
not_head b head ys zs h = ground (arith, has-append head ys (b ∷ zs))

-- Where a list of buffers has one for the block, and `b` is the first such buffer and not locked,
-- bget() returns it, locked by the caller and with one reference more, and leaves the list and
-- the other buffers alone, and the locks of the cache are free again.
pub bget_hit :
    (s : Bcache) (self dev blockno b fuel : ℕ) (ys zs : List ℕ)
    → IsCache s (ys ++ b ∷ zs)
    → All (λ y. is_block s dev blockno y ≡ false) ys
    → is_block s dev blockno b ≡ true
    → (s.buf b).locked ≡ false
    → length ys < fuel
    → Returns (bget fuel self dev blockno s) (λ r t.
      (r ≡ b)
      × (t.nodes ≡ s.nodes)
      × ((c : ℕ)
          → t.buf c ≡ (
              if b == c
              then record (s.buf b) {
                lk = initlock;
                locked = true;
                pid = self;
                refcnt = ((s.buf b).refcnt + 1) % 2 ^ 32;
              }
              else s.buf c))
      × IsCache t (ys ++ b ∷ zs))
unfolding bget
bget_hit s self dev blockno b fuel ys zs h misses hit u l =
    rw
      (
        acquire-held h.idle,
        scan-first s.nodes (is_block s dev blockno) s.head s.head b ys zs h.ring.seg h.ring.apart
            misses hit fuel l,
        not_head b s.head ys zs h.ring.apart,
        release-cycled h.idle,
      )
      (rw
        (lock_buf (counted s b) self b (cycled-IsIdle h.idle).nested (ground (arith, h.free b))
          (ground (arith, u)))
        (
          refl,
          refl,
          λ c. ground arith,
          record { idle = relocked h.idle; ring = h.ring; free = λ c. ground (arith, h.free c) },
        ))

-- holdingsleep() and releasesleep() of a buffer whose spin lock is free.
hold_buf :
    (s : Bcache) (self b : ℕ)
    → IsNested s.core.cpu
    → (s.buf b).lk ≡ initlock
    → on_buf b (holdingsleep self) s
      ≡ ok ((s.buf b).locked && ((s.buf b).pid == self)) (record s {
        core = record { cpu = (cycled s.core).cpu; lock = s.core.lock };
        buf = update s.buf b (record (s.buf b) { lk = initlock });
      })
hold_buf s self b n f = rw ((sleeplock_cases l self (record { nested = n; unlocked = f })).3) refl
  where
    l : Sleeplock
    l = record {
      core = record { cpu = s.core.cpu; lock = (s.buf b).lk };
      locked = (s.buf b).locked;
      pid = (s.buf b).pid;
    }

free_buf :
    (s : Bcache) (b : ℕ)
    → IsNested s.core.cpu
    → (s.buf b).lk ≡ initlock
    → on_buf b releasesleep s
      ≡ ok tt (record s {
        core = record { cpu = (cycled s.core).cpu; lock = s.core.lock };
        buf = update s.buf b (record (s.buf b) { lk = initlock; locked = false; pid = 0 });
      })
free_buf s b n f = rw ((sleeplock_cases l 0 (record { nested = n; unlocked = f })).2) refl
  where
    l : Sleeplock
    l = record {
      core = record { cpu = s.core.cpu; lock = (s.buf b).lk };
      locked = (s.buf b).locked;
      pid = (s.buf b).pid;
    }

-- The cache when holdingsleep() has returned.
abbrev held_buf : Bcache → ℕ → Bcache
held_buf s b = record s {
  core = record { cpu = (cycled s.core).cpu; lock = s.core.lock };
  buf = update s.buf b (record (s.buf b) { lk = initlock });
}

again : {c : Core} → IsIdle c → IsIdle (record { cpu = (cycled (cycled c)).cpu; lock = c.lock })
again h = record { nested = (cycled-IsIdle (cycled-IsIdle h)).nested; unlocked = h.unlocked }

-- The references of a buffer when one is dropped.
abbrev pub fewer : Bcache → ℕ → ℕ
fewer s b = ((s.buf b).refcnt + 2 ^ 32 - 1) % 2 ^ 32

-- On a cache whose list has the buffer and whose locks are free: brelse() by a process that has
-- not locked the buffer panics. By the one that has, it unlocks the buffer and drops a reference
-- to it, and changes no other buffer; if that was the last reference, the buffer becomes the
-- first of the list and the others keep their order, and else the list is as it was. The locks of
-- the cache and of the buffers are free again.
pub brelse_cases :
    (s : Bcache) (self b : ℕ) (ys zs : List ℕ)
    → IsCache s (ys ++ b ∷ zs)
    → (((s.buf b).locked && ((s.buf b).pid == self)) ≡ false → brelse self b s ≡ panic)
      × (((s.buf b).locked && ((s.buf b).pid == self)) ≡ true
          → Returns (brelse self b s) (λ _ t.
            IsCache t (if fewer s b == 0 then b ∷ (ys ++ zs) else ys ++ b ∷ zs)
            × ((c : ℕ)
                → t.buf c ≡ (
                    if b == c
                    then record (s.buf b) {
                      lk = initlock;
                      locked = false;
                      pid = 0;
                      refcnt = fewer s b;
                    }
                    else s.buf c))))
unfolding brelse
brelse_cases s self b ys zs h = (
  λ other. rw (hold_buf s self b h.idle.nested (h.free b), other) refl,
  λ mine.
      rw
        (
          hold_buf s self b h.idle.nested (h.free b),
          mine,
          free_buf (held_buf s b) b (cycled-IsIdle h.idle).nested (ground arith),
          acquire-held (again h.idle),
          ==_refl b,
        )
        (elim (Bool-cases (fewer s b == 0)) [
          | inl last ↦
              rw (last, release-cycled (again h.idle))
                (
                  record {
                    idle = cycled-IsIdle (again h.idle);
                    ring = to_front-IsRing s.nodes s.head b ys zs h.ring;
                    free = λ c. ground (arith, h.free c);
                  },
                  λ c. ground arith,
                )
          | inr more ↦
              rw (more, release-cycled (again h.idle))
                (
                  record {
                    idle = cycled-IsIdle (again h.idle);
                    ring = h.ring;
                    free = λ c. ground (arith, h.free c);
                  },
                  λ c. ground arith,
                )
        ]),
)
