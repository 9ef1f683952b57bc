-- ===== src/Lifecycle/Parents.antt =====
-- reparent(): the children of an exiting process go to init.
use mathlib.Core.Path.{subst}
use os_advanced_course.Base.{
  ℕ, zero, suc, ◌≡◌, ◌≢◌, ◌+◌, ◌⊎◌, refl, ap, ◌∙◌, sym, Bool, true, false, ◌&&◌, ◌||◌, ◌==◌, ltb,
  leb, if◌then◌else◌, Bool-cases, inl, inr, arith, Run, Returns, Returns_bind, Returns_mono, Option,
  some,
}
use os_advanced_course.Spinlock.{Cpu}
use os_advanced_course.Proc.{
  Proc, Table, ProcState, runnable, set_proc, is_proc, is_sleeping, nproc, wakeup,
}
use os_advanced_course.Proc.Locks.{IsCalm}
use os_advanced_course.Proc.Wakeup.{wakeup-Maps}
use os_advanced_course.Lifecycle.{Services, reparent_loop, reparent}

-- The state of process `p`, after some wakeup() calls on a channel, in `q`.
abbrev pub Roused : ℕ → Proc → Proc → Type 0
Roused chan p q =
    (q.state ≡ p.state) ⊎ ((is_sleeping p.state ≡ true) × (p.chan ≡ chan) × (q.state ≡ runnable))

abbrev heir : ℕ → ℕ → Proc → Option ℕ
heir i init p = if is_proc p.parent i then some init else p.parent

-- A process, its parent replaced if `moved`, in state `x`.
abbrev pass : ℕ → ℕ → Bool → ProcState → Proc → Proc
pass i init moved x p = record p { parent = if moved then heir i init p else p.parent; state = x }

pass_twice :
    (i init : ℕ) (d e : Bool) (x y : ProcState) (p : Proc)
    → i ≢ init
    → pass i init e y (pass i init d x p) ≡ pass i init (d || e) y p
pass_twice i init d e x y p ne = ground arith

-- From `s` to `t` the children of process `i`, of those that `done` tells, have gone to init,
-- which may have been woken on `chan`; nothing else has happened.
pub record Passed (i chan : ℕ) (done : ℕ → Bool) (s t : Table) : Type 0 where
  pub rest : t ≡ record s { cpu = t.cpu; procs = t.procs }
  pub procs : (j : ℕ) → t.procs j ≡ pass i s.initproc (done j) (t.procs j).state (s.procs j)
  pub state : (j : ℕ) → Roused chan (s.procs j) (t.procs j)
  pub calm : IsCalm t

Roused-trans :
    (chan : ℕ) (p q r : Proc)
    → q.chan ≡ p.chan
    → Roused chan p q
    → Roused chan q r
    → Roused chan p r
Roused-trans chan p q r e a b = ground (arith, e, a, b)

abbrev renew : Cpu → (ℕ → Proc) → Table → Table
renew cpu procs s = record s { cpu = cpu; procs = procs }

abbrev from_to : ℕ → ℕ → ℕ → Bool
from_to j k q = leb j q && ltb q (j + k)

module _ {M : Type 0} (v : Services M) (address : ℕ → ℕ) where
  -- A round at a child of `i`.
  reparent_one-Passed :
      (i j : ℕ) (s : Table)
      → IsCalm s
      → is_proc (s.procs j).parent i ≡ true
      → Returns
          (wakeup
            (address s.initproc)
            (set_proc j (record (s.procs j) { parent = some s.initproc }) s))
          (λ _ t. Passed i (address s.initproc) (λ q. j == q) s t)
  reparent_one-Passed i j s c child =
      Returns_mono _ (wakeup (address s.initproc) u)
        (wakeup-Maps (address s.initproc) u
          (record { nested = c.nested; free = λ q. ground (arith, c.free q, c.free j) }))
        (λ _ t m. record {
          rest =
              m.0.rest
              ∙ ap (λ c. record s { cpu = c; procs = t.procs }) (sym (ap (λ x. x.cpu) m.0.rest));
          procs = λ q. rw (m.0.procs q) (ground (arith, child));
          state = λ q. rw (m.0.procs q) (ground (arith, child));
          calm = m.1;
        })
    where
      u : Table
      u = set_proc j (record (s.procs j) { parent = some s.initproc }) s

  Passed-trans :
      (i chan : ℕ) (d e f : ℕ → Bool) {s t u : Table}
      → i ≢ s.initproc
      → ((q : ℕ) → f q ≡ (d q || e q))
      → Passed i chan d s t
      → Passed i chan e t u
      → Passed i chan f s u
  Passed-trans i chan d e f {s} {t} {u} ne h a b = record {
    rest = b.rest ∙ ap (renew u.cpu u.procs) a.rest;
    procs = λ q.
        b.procs q
        ∙ ap (pass i t.initproc (e q) (u.procs q).state) (a.procs q)
        ∙ rw (ap (λ x. x.initproc) a.rest, h q)
            (pass_twice i s.initproc (d q) (e q) (t.procs q).state (u.procs q).state (s.procs q)
              ne);
    state = λ q.
        Roused-trans chan (s.procs q) (t.procs q) (u.procs q) (ap (λ p. p.chan) (a.procs q))
          (a.state q) (b.state q);
    calm = b.calm;
  }

  -- A round at any other process.
  reparent_other-Passed :
      (i j chan : ℕ) (s : Table)
      → IsCalm s
      → is_proc (s.procs j).parent i ≡ false
      → Passed i chan (λ q. j == q) s s
  reparent_other-Passed i j chan s c other = record {
    rest = refl;
    procs = λ q. ground (arith, other);
    state = λ q. inl refl;
    calm = c;
  }

  -- The rounds from `j` on, once that at `j` is done.
  reparent_rest-Passed :
      (i init k j : ℕ) (s u : Table) (r : Run Table (Unit {0}))
      → s.initproc ≡ init
      → i ≢ init
      → Passed i (address init) (λ q. j == q) s u
      → Returns r (λ _ t. Passed i (address init) (from_to (j + 1) k) u t)
      → Returns r (λ _ t. Passed i (address init) (from_to j (suc k)) s t)
  reparent_rest-Passed i init k j s u r e ne p later = Returns_mono _ r later (λ _ t n.
      Passed-trans i (address init) (λ q. j == q) (from_to (j + 1) k) (from_to j (suc k)) (rw e ne)
        (λ q. ground arith) p n)

  reparent_loop-Passed :
      (i init k j : ℕ) (s : Table)
      → s.initproc ≡ init
      → IsCalm s
      → i ≢ init
      → Returns (reparent_loop v address i k j s) (λ _ t. Passed i (address init) (from_to j k) s t)
  unfolding reparent_loop
  reparent_loop-Passed i init zero j s e c ne = record {
    rest = refl;
    procs = λ q. ground arith;
    state = λ q. inl refl;
    calm = c;
  }
  reparent_loop-Passed i init (suc k) j s e c ne =
      elim (Bool-cases (is_proc (s.procs j).parent i)) [
        | inl child ↦ rw (child) (
            Returns_bind _ (wakeup (address s.initproc) _) _ (reparent_one-Passed i j s c child)
              (λ _ u p.
                let q : Passed i (address init) (λ q. j == q) s u =
                  subst (λ (x : ℕ). Passed i (address x) (λ q. j == q) s u) e p in
                reparent_rest-Passed i init k j s u _ e ne q (
                  reparent_loop-Passed i init k (j + 1) u (ap (λ x. x.initproc) q.rest ∙ e) q.calm
                    ne)))
        | inr other ↦ rw (other) (
            reparent_rest-Passed i init k j s s _ e ne
              (reparent_other-Passed i j (address init) s c other)
              (reparent_loop-Passed i init k (j + 1) s e c ne))
      ]

  -- With no process's lock held, reparent() of a process other than init gives each of its
  -- children to init, and changes no other parent; the only other effect is that processes that
  -- sleep on init's channel may be runnable.
  pub reparent-Passed :
      (i : ℕ) (s : Table)
      → IsCalm s
      → i ≢ s.initproc
      → Returns
          (reparent v address i s)
          (λ _ t. Passed i (address s.initproc) (λ j. ltb j nproc) s t)
  unfolding reparent
  reparent-Passed i s c ne =
      Returns_mono _ (reparent_loop v address i nproc 0 s)
        (reparent_loop-Passed i s.initproc nproc 0 s refl c ne)
        (λ _ t p. record {
          rest = p.rest;
          procs = λ j. p.procs j ∙ ground arith;
          state = p.state;
          calm = p.calm;
        })
