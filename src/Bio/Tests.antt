-- ===== src/Bio/Tests.antt =====
-- A cache with two buffers.
use os_advanced_course.Base.{
  ◌+◌, ℕ, ◌≡◌, ◌&&◌, Returns, panic, refl, true, false, if◌then◌else◌, ◌==◌, [], ◌∷◌,
}
use os_advanced_course.Spinlock.{initlock}
use os_advanced_course.Spinlock.Nesting.{idle_core, idle_core-IsIdle}
use os_advanced_course.ListC.{Nodes}
use os_advanced_course.ListC.Ring.{IsRing}
use os_advanced_course.Bio.{Bcache, brelse}
use os_advanced_course.Bio.Lookup.{IsCache, fewer, brelse_cases}

-- The head is 0, and the list is 1, 2.
abbrev links : Nodes
links = record {
  next = λ a. if a == 0 then 1 else if a == 1 then 2 else 0;
  prev = λ a. if a == 0 then 2 else if a == 2 then 1 else 0;
}

links-IsRing : IsRing links 0 (1 ∷ 2 ∷ [])
links-IsRing = record {
  seg = (refl, refl, (refl, refl, (refl, refl)));
  apart = refl;
  distinct = (refl, (refl, tt));
}

abbrev cache : Bcache
cache = record {
  core = idle_core;
  nodes = links;
  head = 0;
  buf = λ b. record {
    valid = true;
    dev = 1;
    blockno = b + 30;
    lk = initlock;
    locked = b == 2;
    pid = if b == 2 then 5 else 0;
    refcnt = if b == 2 then 1 else 0;
  };
}

cache-IsCache : IsCache cache (1 ∷ 2 ∷ [])
cache-IsCache = record { idle = idle_core-IsIdle; ring = links-IsRing; free = λ b. refl }

brelse_cases_example :
    (((cache.buf 2).locked && ((cache.buf 2).pid == 5)) ≡ false → brelse 5 2 cache ≡ panic)
    × (((cache.buf 2).locked && ((cache.buf 2).pid == 5)) ≡ true
        → Returns (brelse 5 2 cache) (λ _ t.
          IsCache t (if fewer cache 2 == 0 then 2 ∷ 1 ∷ [] else 1 ∷ 2 ∷ [])
          × ((c : ℕ)
              → t.buf c ≡ (
                  if 2 == c
                  then record (cache.buf 2) {
                    lk = initlock;
                    locked = false;
                    pid = 0;
                    refcnt = fewer cache 2;
                  }
                  else cache.buf c))))
brelse_cases_example = brelse_cases cache 5 2 (1 ∷ []) [] cache-IsCache
