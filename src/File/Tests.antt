-- ===== src/File/Tests.antt =====
-- The file table at concrete states, over a backend that does nothing.
use os_advanced_course.Base.{ℕ, ◌≡◌, ◌≢◌, ◌<◌, refl, true, pos, update, none, some, ok, panic, pure}
use os_advanced_course.Spinlock.Nesting.{idle_core, idle_core-IsIdle, acquire-held, release-cycled}
use os_advanced_course.File.{Backends, Ftable, fd_none, filealloc, filedup, set_ref}
use os_advanced_course.File.Table.{rested}
use os_advanced_course.File.Refs.{World, Reach, here, next, opens, refs_counted}

abbrev nowhere : Backends (Unit {0})
nowhere = record {
  pipeclose = λ p w. pure tt;
  piperead = λ p a n. pure (pos 0);
  pipewrite = λ p a n. pure (pos 0);
  begin_op = pure tt;
  end_op = pure tt;
  ilock = λ i. pure tt;
  iunlock = λ i. pure tt;
  iput = λ i. pure tt;
  stati = λ i. pure 0;
  copyout = λ a x. pure true;
  readi = λ i a o n. pure (pos 0);
  writei = λ i a o n. pure (pos n);
  devsw_read = λ d. none;
  devsw_write = λ d. none;
}

abbrev empty : Ftable (Unit {0})
empty = record {
  core = idle_core;
  file = λ j. record {
    type = fd_none;
    ref = 0;
    readable = true;
    writable = true;
    pipe = 0;
    ip = 0;
    off = 0;
    major = 0;
  };
  mem = tt;
}

abbrev world0 : World nowhere
world0 = record { table = empty; refs = λ j. 0 }

abbrev opened0 : Ftable (Unit {0})
opened0 = set_ref 0 1 (rested empty)

abbrev world1 : World nowhere
world1 = record { table = opened0; refs = update (λ j. 0) 0 1 }

opens0 : filealloc empty ≡ ok (some 0) opened0
unfolding filealloc
opens0 = rw (acquire-held idle_core-IsIdle, release-cycled idle_core-IsIdle) refl

world-Reach : Reach nowhere world0 world1
world-Reach = next here (opens 0 opened0 opens0 refl)

refs_counted_example :
    ((j : ℕ) → (world1.table.file j).ref ≡ world1.refs j)
    × ((j : ℕ) (t : Ftable (Unit {0})) → filealloc world1.table ≡ ok (some j) t → world1.refs j ≡ 0)
    × ((f : ℕ) → 0 < world1.refs f → filedup f world1.table ≢ panic)
refs_counted_example =
    refs_counted nowhere {w = world0} {u = world1} idle_core-IsIdle (λ j. refl) (λ j. refl)
      world-Reach
