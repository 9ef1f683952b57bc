-- ===== src/Bio.antt =====
-- The list of buffers of xv6-os/kernel/bio.c: bget(), brelse(), bpin() and bunpin(). A buffer is the
-- address of its `struct buf`; the fields are functions of it. `self` is myproc()->pid.
pub mod Lookup
mod Tests
use os_advanced_course.Base.{
  ℕ, zero, suc, ◌+◌, ◌-◌, ◌%◌, ◌^◌, Bool, true, false, not, ◌&&◌, ◌==◌, Option, none, some,
  if◌then◌else◌, update, Run, ok, out_of_fuel, blocked, Cmd, gets, modify, panicking, pure, ◌>>=◌,
  ◌>>◌, zoom,
}
use os_advanced_course.Spinlock.{Core, Spinlock, acquire, release}
use os_advanced_course.ListC.{Nodes, set_next, set_prev}
use os_advanced_course.Sleeplock.{Sleeplock, acquiresleep, releasesleep, holdingsleep}

-- `struct buf` without its contents, its list fields, and the field `disk` of the disk driver.
pub record Buf : Type 0 where
  pub valid : Bool
  pub dev : ℕ
  pub blockno : ℕ
  pub lk : Spinlock
  pub locked : Bool
  pub pid : ℕ
  pub refcnt : ℕ

-- `bcache`, with the CPU that runs the code beside its lock; `head` is the address of its list's
-- head.
pub record Bcache : Type 0 where
  pub core : Core
  pub nodes : Nodes
  pub head : ℕ
  pub buf : ℕ → Buf

abbrev on_core : {A : Type 0} → Cmd Core A → Cmd Bcache A
on_core = zoom (λ s. s.core) (λ s c. record s { core = c })

-- The sleep lock of buffer `b`.
abbrev on_buf : {A : Type 0} → ℕ → Cmd Sleeplock A → Cmd Bcache A
on_buf b =
    zoom
      (λ s. record {
        core = record { cpu = s.core.cpu; lock = (s.buf b).lk };
        locked = (s.buf b).locked;
        pid = (s.buf b).pid;
      })
      (λ s l. record s {
        core = record { cpu = l.core.cpu; lock = s.core.lock };
        buf =
            update s.buf b (record (s.buf b) { lk = l.core.lock; locked = l.locked; pid = l.pid });
      })

-- A loop of bget() from `b` on, on fuel: the first buffer on the way along `link` that passes the
-- test, or the head.
pub scan : (ℕ → ℕ) → (ℕ → Bool) → ℕ → ℕ → ℕ → Option ℕ
scan link test head zero b = none
scan link test head (suc f) b =
    let rest = scan link test head f (link b) in
    if b == head then some head else if test b then some b else rest

abbrev pub is_block : Bcache → ℕ → ℕ → ℕ → Bool
is_block s dev blockno b = ((s.buf b).dev == dev) && ((s.buf b).blockno == blockno)

abbrev pub is_unused : Bcache → ℕ → Bool
is_unused s b = (s.buf b).refcnt == 0

abbrev set_buf : ℕ → Buf → Bcache → Bcache
set_buf b v s = record s { buf = update s.buf b v }

abbrev or_fuel : Option ℕ → Cmd Bcache ℕ
or_fuel none s = out_of_fuel
or_fuel (some b) s = ok b s

-- bget(), with fuel for each loop.
pub bget : ℕ → ℕ → ℕ → ℕ → Cmd Bcache ℕ
unfolding scan
bget fuel self dev blockno = do
  on_core acquire
  hit ← (λ s.
      or_fuel (scan s.nodes.next (is_block s dev blockno) s.head fuel (s.nodes.next s.head)) s)
  found ← gets (λ s. not (hit == s.head))
  if found
      then (do
        modify
            (λ s. set_buf hit (record (s.buf hit) { refcnt = ((s.buf hit).refcnt + 1) % 2 ^ 32 }) s)
        on_core release
        on_buf hit (acquiresleep self)
        pure hit)
      else (do
        b ← (λ s. or_fuel (scan s.nodes.prev (is_unused s) s.head fuel (s.nodes.prev s.head)) s)
        none_left ← gets (λ s. b == s.head)
        if none_left then panicking else pure tt
        modify (λ s.
            set_buf b (record (s.buf b) { dev = dev; blockno = blockno; valid = false; refcnt = 1 })
              s)
        on_core release
        on_buf b (acquiresleep self)
        pure b)

-- The end of brelse() for a buffer that nobody waits for: it goes to the front.
pub to_front : ℕ → ℕ → Nodes → Nodes
to_front head b m =
    let m1 = set_prev (m.next b) (m.prev b) m in
    let m2 = set_next (m1.prev b) (m1.next b) m1 in
    let m3 = set_next b (m2.next head) m2 in
    let m4 = set_prev b head m3 in let m5 = set_prev (m4.next head) b m4 in set_next head b m5

pub brelse : ℕ → ℕ → Cmd Bcache (Unit {0})
unfolding to_front
brelse self b = do
  mine ← on_buf b (holdingsleep self)
  if not mine then panicking else pure tt
  on_buf b releasesleep
  on_core acquire
  modify (λ s. set_buf b (record (s.buf b) { refcnt = ((s.buf b).refcnt + 2 ^ 32 - 1) % 2 ^ 32 }) s)
  idle ← gets (λ s. (s.buf b).refcnt == 0)
  if idle then modify (λ s. record s { nodes = to_front s.head b s.nodes }) else pure tt
  on_core release
