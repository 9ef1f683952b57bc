-- ===== src/Log/Transaction.antt =====
-- begin_op() and end_op(): how the operations of a transaction share the log.
use os_advanced_course.Base.{
  ℕ, zero, suc, ◌+◌, ◌-◌, ◌*◌, ◌%◌, ◌^◌, ◌≤◌, ◌<◌, ◌≡◌, refl, ap, ◌∙◌, ◌⊎◌, inl, inr, true, false,
  ltb, ◌==◌, Bool-cases, arith, ok, blocked, Returns,
}
use os_advanced_course.Spinlock.Nesting.{
  IsIdle, cycled, acquire-held, release-cycled, cycled-IsIdle,
}
use os_advanced_course.Log.{
  Log, max_op_blocks, log_size, log_loop, log_block, install_loop, install_block, write_head,
  write_log, install_trans, must_wait, begin_op, end_op, commit,
}
use os_advanced_course.Log.Crash.{Quiet}
use os_advanced_course.Log.Commit.{IsReady, commit_atomic}

-- Each operation in progress has room for its blocks.
pub record IsReserved (s : Log) : Type 0 where
  pub idle : IsIdle s.core
  pub room : s.lh.n + s.outstanding * max_op_blocks ≤ log_size

goes :
    (s : Log)
    → s.committing ≡ false
    → s.lh.n + (s.outstanding + 1) * max_op_blocks ≤ log_size
    → must_wait s ≡ false
unfolding must_wait
goes s c h = ground arith

waits :
    (s : Log)
    → s.lh.n + s.outstanding * max_op_blocks ≤ log_size
    → (s.committing ≡ true) ⊎ (log_size < s.lh.n + (s.outstanding + 1) * max_op_blocks)
    → must_wait s ≡ true
unfolding must_wait
waits s room h = ground arith

-- On a log with its lock free and room for the operations in progress: begin_op() lets an
-- operation in exactly when no commit is running and the log has room for the blocks of one more
-- operation, and then reserves them. Otherwise it sleeps, with the lock free and the log
-- unchanged.
pub begin_op_cases :
    (s : Log)
    → IsReserved s
    → ((s.committing ≡ false)
        → s.lh.n + (s.outstanding + 1) * max_op_blocks ≤ log_size
        → Returns (begin_op s) (λ _ t.
          IsReserved t × (t ≡ record s { core = t.core; outstanding = s.outstanding + 1 })))
      × ((s.committing ≡ true) ⊎ (log_size < s.lh.n + (s.outstanding + 1) * max_op_blocks)
          → begin_op s ≡ blocked (record s { core = cycled s.core }))
unfolding begin_op must_wait
begin_op_cases s r = (
  λ c h.
      rw (acquire-held r.idle, goes s c h, release-cycled r.idle)
        (
          record { idle = cycled-IsIdle r.idle; room = omega arith },
          ap (λ o. record s { core = cycled s.core; outstanding = o }) (omega arith),
        ),
  λ h. rw (acquire-held r.idle, waits s r.room h, release-cycled r.idle),
)

down : (n : ℕ) → 1 < n → n < 2 ^ 32 → (n + 2 ^ 32 - 1) % 2 ^ 32 ≡ n - 1
down n h l = omega arith

log_loop-keeps :
    (k t : ℕ) (s : Log)
    → ((log_loop k t s).core ≡ s.core) × ((log_loop k t s).outstanding ≡ s.outstanding)
unfolding log_loop log_block
log_loop-keeps zero t s = (refl, refl)
log_loop-keeps (suc k) t s = log_loop-keeps k (t + 1) (log_block t s)

install_loop-keeps :
    (k t : ℕ) (s : Log)
    → ((install_loop false k t s).core ≡ s.core)
      × ((install_loop false k t s).outstanding ≡ s.outstanding)
unfolding install_loop install_block
install_loop-keeps zero t s = (refl, refl)
install_loop-keeps (suc k) t s = install_loop-keeps k (t + 1) (install_block false t s)

-- commit() holds no lock and leaves the count of operations alone; afterwards the log is empty.
commit-keeps :
    (s : Log)
    → ((commit s).core ≡ s.core) × ((commit s).outstanding ≡ s.outstanding) × ((commit s).lh.n ≡ 0)
unfolding commit write_head write_log install_trans
commit-keeps s = elim (Bool-cases (ltb 0 s.lh.n)) [
  | inl more ↦ rw more (
    (install_loop-keeps ((write_head (write_log s)).lh.n) 0 (write_head (write_log s))).0
        ∙ (log_loop-keeps s.lh.n 0 s).0,
    (install_loop-keeps ((write_head (write_log s)).lh.n) 0 (write_head (write_log s))).1
        ∙ (log_loop-keeps s.lh.n 0 s).1,
    refl,
  )
  | inr none ↦ rw none (refl, refl, ground arith)
]

-- The state in which the last end_op() calls commit().
abbrev closing : Log → Log
closing s = record s { core = cycled s.core; outstanding = 0; committing = true }

end_op-last :
    (s : Log)
    → IsIdle s.core
    → s.committing ≡ false
    → s.outstanding ≡ 1
    → end_op s
      ≡ ok tt (record (commit (closing s)) { core = cycled (cycled s.core); committing = false })
unfolding end_op
end_op-last s i c one = rw (
  acquire-held i,
  c,
  one,
  release-cycled i,
  (commit-keeps (closing s)).0,
  acquire-held (cycled-IsIdle i),
  release-cycled (cycled-IsIdle i),
)

-- On a log with a transaction that is ready to commit, with the lock free and no commit running:
-- end_op() of an operation that is not the last gives its reservation back and commits nothing.
-- That of the last one commits, and leaves the log free for the next transaction: the disk has the
-- cached contents, and no transaction is pending on it.
pub end_op_cases :
    (s : Log)
    → IsReady s
    → IsIdle s.core
    → s.committing ≡ false
    → s.outstanding < 2 ^ 31
    → ((1 < s.outstanding)
        → end_op s ≡ ok tt (record s { core = cycled s.core; outstanding = s.outstanding - 1 }))
      × ((s.outstanding ≡ 1)
          → Returns (end_op s) (λ _ t.
            Quiet s.start s.size s.view t.disk
            × IsIdle t.core
            × (t.outstanding ≡ 0)
            × (t.committing ≡ false)
            × (t.lh.n ≡ 0)))
unfolding end_op
end_op_cases s r i c small = (
  λ h. rw (acquire-held i, c, down s.outstanding h (omega arith), more h, release-cycled i),
  λ h. rw (end_op-last s i c h) (
    (commit_atomic (closing s) ready).0,
    cycled-IsIdle (cycled-IsIdle i),
    (commit-keeps (closing s)).1,
    refl,
    (commit-keeps (closing s)).2,
  ),
)
  where
    more : 1 < s.outstanding → (s.outstanding - 1 == 0) ≡ false
    more h = ground arith

    ready : IsReady (closing s)
    ready = record { fit = r.fit; empty = r.empty; clean = r.clean; past = r.past }
