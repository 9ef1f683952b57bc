-- ===== src/Proc/Trip.antt =====
-- A process sleeps, is woken, and runs again.
use os_advanced_course.Base.{
  ℕ, ◌≡◌, ◌<◌, ◌∙◌, ap, ◌==◌, ltb, if◌then◌else◌, arith, Cmd, ◌>>=◌, ◌>>◌, Returns, Returns_bind,
  Returns_mono, some, none,
}
use os_advanced_course.Proc.{Table, running, nproc, wakeup}
use os_advanced_course.Proc.Wakeup.{woken, wakeup-Maps}
use os_advanced_course.Proc.Switch.{IsRunning, go_to_sleep, go_to_sleep_lem, resume, resume_lem}

-- Process `i` sleeps on the channel; some code without a process calls wakeup(); the scheduler
-- picks `i`.
abbrev pub trip : ℕ → ℕ → Cmd Table (Unit {0})
trip i chan = do b ← go_to_sleep i chan; wakeup chan; resume i b

-- Where this CPU runs the process, which holds the lock that it passes to sleep() and no other, with
-- noff 1, interrupts off, and the locks of all processes free, and where on this CPU three things
-- happen one after the other and nothing between them, sleep() up to its switch, a wakeup() on the
-- channel by code with no current process, and the scheduler's pick of the process with the rest of
-- sleep(): then the process runs again with the lock it gave up, and with its interrupt state; the
-- other processes that sleep on the channel are runnable, and all else of each process is as before.
pub sleep_trip :
    (i chan : ℕ) (s : Table)
    → i < nproc
    → IsRunning i s
    → Returns (trip i chan s) (λ _ t.
      IsRunning i t
      × (t.current ≡ some i)
      × (t.cpu.intena ≡ s.cpu.intena)
      × ((j : ℕ)
          → t.procs j ≡ (
              if i == j
              then record (s.procs j) { chan = 0; state = running }
              else if ltb j nproc
              then woken chan none j (s.procs j)
              else s.procs j)))
sleep_trip i chan s l r =
    Returns_bind _ (go_to_sleep i chan s) _ (go_to_sleep_lem i chan s r) (λ b t p.
      Returns_bind _ (wakeup chan t) _
        (wakeup-Maps chan t (record {
          nested = record { off = λ h. absurd (omega (arith, p.3)) };
          free = λ j. ground (arith, p.4 j, r.free j);
        }))
        (λ _ u q.
          Returns_mono _ (resume i b u)
            (resume_lem i b u q.1 (ap (λ x. x.cpu.noff) q.0.rest ∙ p.3)
              (ap (λ x. x.lk) q.0.rest ∙ p.1) (rw (q.0.procs i, p.2, p.4 i) (ground arith)))
            (λ _ v w.
              (w.0, w.1, w.2 ∙ p.0, λ j. rw (w.3 j, q.0.procs j, p.2, p.4 j) (ground arith)))))
