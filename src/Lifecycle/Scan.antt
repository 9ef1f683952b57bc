-- ===== src/Lifecycle/Scan.antt =====
-- The scan of wait() up to the first zombie child.
use os_advanced_course.Base.{
  ==_iff, Bool-cases, inl, inr, ℕ, zero, suc, ◌≡◌, ◌+◌, ◌<◌, ◌≤◌, refl, ap, sym, Bool, true, false,
  ◌&&◌, ◌==◌, arith,
}
use os_advanced_course.Proc.{Proc, Table, is_zombie, is_proc}
use os_advanced_course.Proc.Locks.{
  IsCalm, settle, settle-settle, taken, acquire-taken, taken_self, freed, release-freed,
}
use os_advanced_course.Proc.Wakeup.{Maps, Maps-Maps, Maps-IsCalm}
use os_advanced_course.Proc.Kill.{missed}
use os_advanced_course.Lifecycle.{Services, Kernel, wait_found, wait_loop}

module _ {M : Type 0} (v : Services M) (address : ℕ → ℕ) where
  abbrev pub at_table : Kernel v address → Table → Kernel v address
  at_table s t = record s { table = t }

  -- A child of `i` that is a zombie.
  abbrev pub is_ready : ℕ → Proc → Bool
  is_ready i p = is_proc p.parent i && is_zombie p.state

  look :
      (i : ℕ) (s : Table) (b : Bool)
      → is_zombie (s.procs i).state ≡ b
      → is_zombie ((taken i s).procs i).state ≡ b
  look i s b h = ground arith

  -- The scan goes to the first zombie child.
  pub wait_loop-wait_found :
      (i dst k n j : ℕ) (h : Bool) (s : Kernel v address)
      → IsCalm s.table
      → s.table.cpu ≡ settle s.table.cpu
      → n ≤ j
      → j < n + k
      → ((q : ℕ) → n ≤ q → q < j → is_ready i (s.table.procs q) ≡ false)
      → is_ready i (s.table.procs j) ≡ true
      → (u : Table) × Maps (λ q p. p) s.table u
        × (wait_loop v address i dst k n h s
            ≡ wait_found v address i dst j (at_table s (taken j u)))
  unfolding wait_loop
  wait_loop-wait_found i dst zero n j h s c e lo hi before here = absurd (omega arith)
  wait_loop-wait_found i dst (suc k) n j h s c e lo hi before here = elim (Bool-cases (n == j)) [
    | inl at ↦ (
      s.table,
      record { rest = ap (λ x. record (s.table) { cpu = x }) e; procs = λ q. refl },
      rw (
        (==_iff n j).0 at,
        child here,
        acquire-taken j s.table c,
        look j s.table true (dead here),
      ),
    )
    | inr past ↦ elim (Bool-cases (is_proc (s.table.procs n).parent i)) [
      | inl kin ↦
          let u = freed s.table.cpu n (taken n s.table) in
          let same = missed n s.table c in
          let rest =
            wait_loop-wait_found i dst k (n + 1) j true (at_table s u)
              (Maps-IsCalm same (λ q p. refl) c) (sym (settle-settle s.table.cpu)) (ground arith)
              (omega arith) (λ q l r. rw (same.procs q) (before q (omega arith) r))
              (rw (same.procs j) here) in
          (
            rest.0,
            Maps-Maps _ _ _ (λ q p. refl) same rest.1,
            rw
                (
                  kin,
                  acquire-taken n s.table c,
                  look n s.table false (alive n kin (before n (omega arith) (ground arith))),
                  release-freed n (taken n s.table) (taken_self n s.table c),
                )
                rest.2,
          )
      | inr other ↦ rw other (
          wait_loop-wait_found i dst k (n + 1) j h s c e (ground arith) (omega arith)
            (λ q l. before q (omega arith)) here)
    ]
  ]
    where
      child : is_ready i (s.table.procs j) ≡ true → is_proc (s.table.procs j).parent i ≡ true
      child r = ground arith

      dead : is_ready i (s.table.procs j) ≡ true → is_zombie (s.table.procs j).state ≡ true
      dead r = ground arith

      alive :
          (n : ℕ)
          → is_proc (s.table.procs n).parent i ≡ true
          → is_ready i (s.table.procs n) ≡ false
          → is_zombie (s.table.procs n).state ≡ false
      alive n p r = ground arith
