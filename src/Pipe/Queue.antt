-- ===== src/Pipe/Queue.antt =====
-- The ring buffer of a pipe as a queue of bytes.
use os_advanced_course.Base.{
  ℕ, zero, suc, ◌+◌, ◌-◌, ◌%◌, ◌^◌, ◌≤◌, ◌<◌, ◌≡◌, refl, false, List, [], ◌∷◌, ◌++◌, ◌==◌, update,
  arith, true,
}
use os_advanced_course.Spinlock.{Core}
use os_advanced_course.Pipe.{Pipe, pipesize, is_full, put, drop, first}

-- `k` bytes of the ring from position `r` on.
pub ring : ℕ → ℕ → (ℕ → ℕ) → List ℕ
ring zero r m = []
ring (suc k) r m = m (r % pipesize) ∷ ring k ((r + 1) % 2 ^ 32) m

abbrev pub count : Pipe → ℕ
count p = (p.nwrite + 2 ^ 32 - p.nread) % 2 ^ 32

-- The bytes written and not yet read, the oldest first.
pub contents : Pipe → List ℕ
unfolding ring
contents p = ring (count p) p.nread p.bytes

pub record IsPipe (p : Pipe) : Type 0 where
  pub nread : p.nread < 2 ^ 32
  pub nwrite : p.nwrite < 2 ^ 32
  pub count : count p ≤ pipesize

ap2_cons : {x y : ℕ} {xs ys : List ℕ} → x ≡ y → xs ≡ ys → (x ∷ xs) ≡ (y ∷ ys)
ap2_cons h t = rw (h, t)

-- A byte written after the last one of a range that is not full.
ring-put :
    (k r w b : ℕ) (m : ℕ → ℕ)
    → r < 2 ^ 32
    → w ≡ (r + k) % 2 ^ 32
    → k < pipesize
    → ring (suc k) r (update m (w % pipesize) b) ≡ ring k r m ++ b ∷ []
unfolding ring
ring-put zero r w b m h e l = ground arith
ring-put (suc k) r w b m h e l =
    ap2_cons (ground (arith))
      (ring-put k ((r + 1) % 2 ^ 32) w b m (omega arith) (omega arith) (omega arith))

-- In a valid pipe that is not full, a byte that is put goes behind all others, and the pipe stays
-- valid, also where a counter wraps around.
pub contents-put :
    (p : Pipe) (b : ℕ)
    → IsPipe p
    → count p < pipesize
    → (contents (put b p) ≡ contents p ++ b ∷ []) × IsPipe (put b p)
unfolding put contents
contents-put p b h l = rw (more) (
  ring-put (count p) p.nread p.nwrite b p.bytes h.nread (omega (arith, h.nread, h.nwrite)) l,
  record { nread = h.nread; nwrite = omega arith; count = omega (arith, more) },
)
  where
    more : count (put b p) ≡ suc (count p)
    more = omega (arith, h.nread, h.nwrite)

pub contents-drop :
    (p : Pipe)
    → IsPipe p
    → (p.nread == p.nwrite) ≡ false
    → (contents p ≡ first p ∷ contents (drop p)) × IsPipe (drop p)
unfolding drop first contents
contents-drop p h e = (
  rw (less) refl,
  record { nread = omega arith; nwrite = h.nwrite; count = omega (arith, less, h.count) },
)
  where
    less : count p ≡ suc (count (drop p))
    less = ground (arith, h.nread, h.nwrite)

pub contents-core : (p : Pipe) (c : Core) → contents (record p { core = c }) ≡ contents p
unfolding contents
contents-core p c = refl

pub full-count : (p : Pipe) → IsPipe p → is_full p ≡ true → count p ≡ pipesize
full-count p h e = ground (arith, h.nread, h.nwrite)

pub room-count : (p : Pipe) → IsPipe p → is_full p ≡ false → count p < pipesize
room-count p h e = ground (arith, h.nread, h.nwrite, h.count)

pub empty-contents : (p : Pipe) → (p.nread == p.nwrite) ≡ true → IsPipe p → contents p ≡ []
unfolding contents ring
empty-contents p e h = rw (none_left) refl
  where
    none_left : count p ≡ 0
    none_left = ground (arith, h.nread, h.nwrite)
