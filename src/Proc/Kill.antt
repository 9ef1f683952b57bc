-- ===== src/Proc/Kill.antt =====
-- What kill() does to the process table.
use os_advanced_course.Base.{
  ==_iff, ==_refl, ℕ, zero, suc, ◌≡◌, ◌≢◌, ◌+◌, ◌<◌, ◌≤◌, ◌⊎◌, refl, ap, sym, true, false, ◌==◌,
  if◌then◌else◌, Bool-cases, inl, inr, arith, Returns, Returns_mono, ℤ, pos, negsuc,
}
use os_advanced_course.Proc.{
  Proc, Table, runnable, set_proc, set_state, is_sleeping, nproc, kill_loop, kill, kill_hit,
}
use os_advanced_course.Proc.Locks.{
  settle, IsCalm, settle-settle, taken, acquire-taken, freed, release-freed,
}
use os_advanced_course.Proc.Wakeup.{Maps, Maps-IsCalm, Maps-Maps}

-- A process as kill() leaves it.
abbrev pub doomed : Proc → Proc
doomed p = record p { killed = true; state = if is_sleeping p.state then runnable else p.state }

abbrev only : ℕ → (Proc → Proc) → ℕ → Proc → Proc
only i f j p = if i == j then f p else p

-- What the loop of kill() over the `k` processes from `i` on may do.
abbrev pub Killed : ℕ → ℕ → ℕ → Table → ℤ → Table → Type 0
Killed pid k i s r t =
    ((j : ℕ) × (i ≤ j)
      × (j < i + k)
      × ((s.procs j).pid ≡ pid)
      × ((q : ℕ) → i ≤ q → q < j → (s.procs q).pid ≢ pid)
      × (r ≡ pos 0)
      × Maps (only j doomed) s t)
    ⊎ (((q : ℕ) → i ≤ q → q < i + k → (s.procs q).pid ≢ pid) × (r ≡ negsuc 0) × Maps (λ j p. p) s t)

abbrev marked : ℕ → Table → Table
marked i s = set_proc i (record ((taken i s).procs i) { killed = true }) (taken i s)

-- kill() of the process whose lock it has.
kill_hit-only :
    (i : ℕ) (s : Table)
    → IsCalm s
    → Returns (kill_hit i (taken i s)) (λ r t. (r ≡ pos 0) × Maps (only i doomed) s t)
unfolding kill_hit
kill_hit-only i s c = elim (Bool-cases (is_sleeping ((marked i s).procs i).state)) [
  | inl asleep ↦
      rw
        (
          asleep,
          release-freed {c = s.cpu} i (set_state i runnable (marked i s))
              (record { nested = c.nested; cpu = refl; lock = ground arith }),
        )
        (refl, record { rest = refl; procs = λ j. ground (arith, c.free j, asleep) })
  | inr awake ↦
      rw
        (
          awake,
          release-freed {c = s.cpu} i (marked i s)
              (record { nested = c.nested; cpu = refl; lock = ground arith }),
        )
        (refl, record { rest = refl; procs = λ j. ground (arith, c.free j, awake) })
]

-- Taking and freeing a lock changes nothing else.
pub missed : (i : ℕ) (s : Table) → IsCalm s → Maps (λ j p. p) s (freed s.cpu i (taken i s))
missed i s c = record { rest = refl; procs = λ j. ground (arith, c.free j) }

elsewhere :
    (pid i q : ℕ) (s u : Table)
    → Maps (λ j p. p) s u
    → ((s.procs i).pid == pid) ≡ false
    → i ≤ q
    → (i + 1 ≤ q → (u.procs q).pid ≢ pid)
    → (s.procs q).pid ≢ pid
elsewhere pid i q s u m miss l h e = elim (Bool-cases (i == q)) [
  | inl same ↦
      absurd (ground (arith, (==_iff i q).0 same, ap (λ x. (s.procs x).pid) ((==_iff i q).0 same)))
  | inr other ↦ h (ground arith) (rw (m.procs q) e)
]

Killed-suc :
    (pid k i : ℕ) (s u : Table) (r : ℤ) (t : Table)
    → Maps (λ j p. p) s u
    → ((s.procs i).pid == pid) ≡ false
    → Killed pid k (i + 1) u r t
    → Killed pid (suc k) i s r t
Killed-suc pid k i s u r t m miss (inl (j, l, b, e, none_before, z, n)) = inl (
  j,
  omega arith,
  omega arith,
  rw (m.procs j) at e,
  (λ q lo hi. elsewhere pid i q s u m miss lo (λ h. none_before q h hi)),
  z,
  Maps-Maps _ _ _ (λ q p. refl) m n,
)
Killed-suc pid k i s u r t m miss (inr (none_here, z, n)) = inr (
  (λ q lo hi. elsewhere pid i q s u m miss lo (λ h. none_here q h (omega arith))),
  z,
  Maps-Maps _ _ _ (λ q p. refl) m n,
)

kill_loop-Killed :
    (pid k i : ℕ) (s : Table)
    → IsCalm s
    → s.cpu ≡ settle s.cpu
    → Returns (kill_loop pid k i s) (Killed pid k i s)
unfolding kill_loop
kill_loop-Killed pid zero i s c e = inr (
  λ q l m. absurd (omega arith),
  refl,
  record { rest = ap (λ x. record s { cpu = x }) e; procs = λ j. refl },
)
kill_loop-Killed pid (suc k) i s c e = elim (Bool-cases ((s.procs i).pid == pid)) [
  | inl hit ↦
      rw (acquire-taken i s c, ==_refl i, hit)
        (Returns_mono _ (kill_hit i (taken i s)) (kill_hit-only i s c) (λ r t m. inl (
          i,
          omega arith,
          omega arith,
          (==_iff _ _).0 hit,
          (λ q l n. absurd (omega arith)),
          m.0,
          m.1,
        )))
  | inr miss ↦
      rw
        (
          acquire-taken i s c,
          ==_refl i,
          miss,
          release-freed {c = s.cpu} i (taken i s)
              (record { nested = c.nested; cpu = refl; lock = ground arith }),
        )
        (Returns_mono _ (kill_loop pid k (i + 1) (freed s.cpu i (taken i s)))
          (kill_loop-Killed pid k (i + 1) (freed s.cpu i (taken i s))
            (Maps-IsCalm (missed i s c) (λ j p. refl) c) (sym (settle-settle s.cpu)))
          (λ r t. Killed-suc pid k i s _ r t (missed i s c) miss))
]

Killed-IsCalm :
    (pid k i : ℕ) (s : Table) (r : ℤ) (t : Table) → IsCalm s → Killed pid k i s r t → IsCalm t
Killed-IsCalm pid k i s r t c (inl (j, l, b, e, n, z, m)) = Maps-IsCalm m (λ q p. ground arith) c
Killed-IsCalm pid k i s r t c (inr (n, z, m)) = Maps-IsCalm m (λ q p. refl) c

-- With no process's lock held, and the CPU as after an acquire() and a release(), kill() of a pid
-- that some process has marks the first such process as killed, makes it runnable if it sleeps,
-- changes no other process, and returns 0; of any other pid it changes nothing and returns -1.
-- The locks are free again.
pub kill-Killed :
    (pid : ℕ) (s : Table)
    → IsCalm s
    → s.cpu ≡ settle s.cpu
    → Returns (kill pid s) (λ r t. Killed pid nproc 0 s r t × IsCalm t)
unfolding kill
kill-Killed pid s c e =
    Returns_mono _ (kill_loop pid nproc 0 s) (kill_loop-Killed pid nproc 0 s c e)
      (λ r t k. (k, Killed-IsCalm pid nproc 0 s r t c k))
