-- ===== src/Log/Tests.antt =====
-- The log at concrete states.
use os_advanced_course.Base.{
  ℕ, ◌+◌, ◌*◌, ◌≤◌, ◌<◌, ◌≡◌, refl, sym, ◌⊎◌, inl, inr, true, false, [], update, All, arith, ok,
  blocked, Returns,
}
use os_advanced_course.Spinlock.Nesting.{IsIdle, cycled, idle_core, idle_core-IsIdle}
use os_advanced_course.Log.{
  Block, Disk, Log, max_op_blocks, log_size, store, begin_op, log_write, end_op, commit, initlog,
  write_head, install_trans, read_head, write_log,
}
use os_advanced_course.Log.Crash.{Outside, Quiet, Stands, quiet}
use os_advanced_course.Log.Install.{update-ne}
use os_advanced_course.Log.Recover.{
  Left, Recovered, first, Reboots-Stands, initlog-Recovered, again,
}
use os_advanced_course.Log.Commit.{Either, IsReady, commit_atomic, crash_recovery}
use os_advanced_course.Log.Record.{IsWritable, Distinct, store-log_write-IsReady}
use os_advanced_course.Log.Transaction.{IsReserved, begin_op_cases, end_op_cases}

abbrev zeros : Disk
zeros = λ b w. 0

abbrev sevens : Block
sevens = λ w. 7

-- The log of ten blocks from block 2 on; block 40 has a new value that is not on the disk.
abbrev one_block : Log
one_block = record {
  core = idle_core;
  start = 2;
  size = 10;
  outstanding = 1;
  committing = false;
  lh = record { n = 1; block = λ i. 40 };
  view = update zeros 40 sevens;
  refcnt = λ b. 1;
  disk = zeros;
  past = [];
}

-- The same disk, as a machine that has just started sees it.
abbrev booted : Log
booted = record one_block { view = zeros; lh = record { n = 0; block = λ i. 0 }; outstanding = 0 }

one_block-IsReady : IsReady one_block
one_block-IsReady = record {
  fit = record { fits = omega arith; outside = λ i h. inr (omega arith) };
  empty = refl;
  clean = λ b o not_in. sym (update-ne zeros 40 b sevens (not_in 0 (omega arith)));
  past = refl;
}

one_block-IsWritable : IsWritable one_block
one_block-IsWritable = record {
  idle = idle_core-IsIdle;
  room = omega arith;
  space = omega arith;
  active = omega arith;
  sane = omega arith;
}

one_block-Distinct : Distinct one_block
one_block-Distinct = λ i j hi hj e. omega arith

zeros-Quiet : Quiet 2 10 zeros zeros
zeros-Quiet = record { empty = refl; home = λ b o. refl }

commit_example : (commit one_block).disk 40 0 ≡ 7
unfolding commit write_head install_trans write_log
commit_example = refl

commit_atomic_example :
    Quiet 2 10 one_block.view (commit one_block).disk
    × All (Either 2 10 zeros one_block.view) (commit one_block).past
commit_atomic_example = commit_atomic one_block one_block-IsReady

-- The crash comes just before the first write.
zeros-Left : Left zeros (commit one_block)
unfolding commit write_head install_trans write_log
zeros-Left = inr (inr (inr (inr (inl refl))))

crash_recovery_example :
    ((k : ℕ) → Outside 2 10 k → (initlog 2 10 booted).disk k ≡ zeros k)
    ⊎ ((k : ℕ) → Outside 2 10 k → (initlog 2 10 booted).disk k ≡ one_block.view k)
crash_recovery_example =
    crash_recovery one_block one_block-IsReady zeros zeros booted zeros-Left first refl refl refl

initlog-Recovered_example : Recovered 2 10 zeros (initlog 2 10 booted)
initlog-Recovered_example =
    initlog-Recovered 2 10 zeros zeros (omega arith) booted refl refl refl (quiet zeros-Quiet)

zeros-Left_again : Left zeros (initlog 2 10 booted)
unfolding initlog write_head install_trans read_head
zeros-Left_again = inr (inl refl)

Reboots-Stands_example : Stands 2 10 zeros zeros
Reboots-Stands_example =
    Reboots-Stands 2 10 zeros (omega arith) (quiet zeros-Quiet)
      (again booted zeros first refl refl refl zeros-Left_again)

store-log_write-IsReady_example :
    Returns
      (log_write 41 (store 41 sevens one_block))
      (λ _ t. IsReady t × IsIdle t.core × Distinct t)
store-log_write-IsReady_example =
    store-log_write-IsReady 41 sevens one_block one_block-IsReady one_block-IsWritable
      one_block-Distinct (inr (omega arith))

one_block-IsReserved : IsReserved one_block
one_block-IsReserved = record { idle = idle_core-IsIdle; room = omega arith }

begin_op_cases_example :
    ((false ≡ false)
      → 1 + (1 + 1) * max_op_blocks ≤ log_size
      → Returns
          (begin_op one_block)
          (λ _ t. IsReserved t × (t ≡ record one_block { core = t.core; outstanding = 1 + 1 })))
    × ((false ≡ true) ⊎ (log_size < 1 + (1 + 1) * max_op_blocks)
        → begin_op one_block ≡ blocked (record one_block { core = cycled idle_core }))
begin_op_cases_example = begin_op_cases one_block one_block-IsReserved

end_op_cases_example :
    ((1 < 1)
      → end_op one_block ≡ ok tt (record one_block { core = cycled idle_core; outstanding = 0 }))
    × (◌≡◌ {A = ℕ} 1 1
        → Returns (end_op one_block) (λ _ t.
          Quiet 2 10 one_block.view t.disk
          × IsIdle t.core
          × (t.outstanding ≡ 0)
          × (t.committing ≡ false)
          × (t.lh.n ≡ 0)))
end_op_cases_example = end_op_cases one_block one_block-IsReady idle_core-IsIdle refl (omega arith)
