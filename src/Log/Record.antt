-- ===== src/Log/Record.antt =====
-- log_write(): a modified block joins the transaction.
use os_advanced_course.Base.{
  ℕ, zero, suc, ◌+◌, ◌-◌, ◌%◌, ◌^◌, ◌≤◌, ◌<◌, ◌≡◌, ◌≢◌, refl, sym, ap, ◌∙◌, ◌⊎◌, inl, inr, false,
  ◌||◌, ltb, leb, ◌==◌, Bool-cases, if◌then◌else◌, update, arith, ltb→lt, ok, panic, blocked, Run,
  out_of_fuel, Returns, Returns_mono,
}
use os_advanced_course.Spinlock.Nesting.{
  IsIdle, cycled, acquire-held, release-cycled, cycled-IsIdle,
}
use os_advanced_course.Log.{Block, Log, log_size, is_negative, store, find, log_write}
use os_advanced_course.Log.Crash.{Outside}
use os_advanced_course.Log.Install.{update-ne}
use os_advanced_course.Log.Commit.{IsReady}

-- What log_write() needs: the log is not in use, it has room, and an operation is in progress.
pub record IsWritable (s : Log) : Type 0 where
  pub idle : IsIdle s.core
  pub room : s.lh.n < log_size
  pub space : s.lh.n + 1 < s.size
  pub active : 0 < s.outstanding
  pub sane : s.outstanding < 2 ^ 31

-- The first index that holds `b`, or the end.
find_lem :
    (k i b : ℕ) (block : ℕ → ℕ)
    → (i ≤ find k i b block)
      × (find k i b block ≤ i + k)
      × (find k i b block < i + k → block (find k i b block) ≡ b)
unfolding find
find_lem zero i b block = omega arith
find_lem (suc k) i b block = elim (Bool-cases (block i == b)) [
  | inl e ↦ rw e (omega arith, omega arith, λ h. ground arith)
  | inr e ↦ rw e (
    omega (arith, find_lem k (i + 1) b block),
    omega (arith, find_lem k (i + 1) b block),
    λ h. (find_lem k (i + 1) b block).2 (omega arith),
  )
]

find_before : (k i b : ℕ) (block : ℕ → ℕ) (j : ℕ) → i ≤ j → j < find k i b block → block j ≢ b
unfolding find
find_before zero i b block j h l = absurd (omega arith)
find_before (suc k) i b block j h l = elim (Bool-cases (block i == b)) [
  | inl e ↦ absurd (omega (arith, (rw e at l)))
  | inr e ↦ elim (Bool-cases (i == j)) [
    | inl same ↦ λ q. absurd (ground arith)
    | inr other ↦ find_before k (i + 1) b block j (ground arith) (rw e at l)
  ]
]

-- The log records each block once.
abbrev pub Distinct : Log → Type 0
Distinct s = (i j : ℕ) → i < s.lh.n → j < s.lh.n → s.lh.block i ≡ s.lh.block j → i ≡ j

-- The state in which log_write() returns.
abbrev slot : ℕ → Log → ℕ
slot b s = find s.lh.n 0 b s.lh.block

abbrev absorbed : ℕ → Log → Log
absorbed b s = record s {
  core = cycled s.core;
  lh = record { n = s.lh.n; block = update s.lh.block (slot b s) b };
}

abbrev appended : ℕ → Log → Log
appended b s = record s {
  core = cycled s.core;
  lh = record { n = s.lh.n + 1; block = update s.lh.block (slot b s) b };
  refcnt = update s.refcnt b ((s.refcnt b + 1) % 2 ^ 32);
}

log_write-eq :
    (b : ℕ) (s : Log)
    → IsWritable s
    → log_write b s ≡ ok tt (if slot b s == s.lh.n then appended b s else absorbed b s)
unfolding log_write
log_write-eq b s w = elim (Bool-cases (slot b s == s.lh.n)) [
  | inl e ↦ rw (acquire-held w.idle, space, active, e, release-cycled w.idle)
  | inr e ↦ rw (acquire-held w.idle, space, active, e, release-cycled w.idle)
]
  where
    space : (leb log_size s.lh.n || leb (s.size - 1) s.lh.n) ≡ false
    space = ground (arith, w.room, w.space)

    active : (ltb s.outstanding 1 || is_negative s.outstanding) ≡ false
    active = ground (arith, w.active, w.sane)

-- The blocks that were in the transaction keep their places.
kept : (b : ℕ) (s : Log) (i : ℕ) → i < s.lh.n → update s.lh.block (slot b s) b i ≡ s.lh.block i
kept b s i h = elim (Bool-cases (slot b s == i)) [
  | inl e ↦ ground (arith, find_lem s.lh.n 0 b s.lh.block)
  | inr e ↦ ground arith
]

-- What a log_write() of block `b` does to the transaction.
pub record Joined (b : ℕ) (s t : Log) : Type 0 where
  pub idle : IsIdle t.core
  pub index : ℕ
  pub in_range : index < t.lh.n
  pub joined : t.lh.block index ≡ b
  pub old : (i : ℕ) → i < s.lh.n → t.lh.block i ≡ s.lh.block i
  pub only : (i : ℕ) → s.lh.n ≤ i → i < t.lh.n → t.lh.block i ≡ b
  pub distinct : Distinct t
  pub rest :
      ((t.lh.n ≡ s.lh.n) × (t.refcnt ≡ s.refcnt))
      ⊎ ((t.lh.n ≡ s.lh.n + 1)
          × ((i : ℕ) → i < s.lh.n → s.lh.block i ≢ b)
          × (t.refcnt ≡ update s.refcnt b ((s.refcnt b + 1) % 2 ^ 32)))

absorbed-Joined :
    (b : ℕ) (s : Log) → IsWritable s → Distinct s → slot b s < s.lh.n → Joined b s (absorbed b s)
absorbed-Joined b s w d h = record {
  idle = cycled-IsIdle w.idle;
  index = slot b s;
  in_range = h;
  joined = ground arith;
  old = kept b s;
  only = λ i l u. absurd (omega arith);
  distinct = λ i j hi hj e. d i j hi hj (sym (kept b s i hi) ∙ e ∙ kept b s j hj);
  rest = inl (refl, refl);
}

apart_append :
    (p n b : ℕ) (block : ℕ → ℕ)
    → p ≡ n
    → ((i : ℕ) → i < n → block i ≢ b)
    → ((i j : ℕ) → i < n → j < n → block i ≡ block j → i ≡ j)
    → (i j : ℕ) → i < n + 1
    → j < n + 1
    → update block p b i ≡ update block p b j
    → i ≡ j
apart_append p n b block pn new d i j hi hj e = ground (arith, new i, new j, d i j)

appended-Joined :
    (b : ℕ) (s : Log) → IsWritable s → Distinct s → slot b s ≡ s.lh.n → Joined b s (appended b s)
appended-Joined b s w d h = record {
  idle = cycled-IsIdle w.idle;
  index = s.lh.n;
  in_range = omega arith;
  joined = ground (arith, h);
  old = kept b s;
  only = λ i l u. ground (arith, h);
  distinct = λ i j hi hj e.
      apart_append (slot b s) s.lh.n b s.lh.block h
        (λ k hk. find_before s.lh.n 0 b s.lh.block k (omega arith) (omega arith)) d i j hi hj e;
  rest = inr (refl, λ i hi. find_before s.lh.n 0 b s.lh.block i (omega arith) (omega arith), refl);
}

-- log_write() on a log with room that records each block once returns, with the lock free. The
-- block is then part of the transaction, at one place only; the others keep theirs. A block that
-- was in it already is absorbed: the count and the reference counts stay. A new one is appended
-- and pinned.
pub log_write-Joined :
    (b : ℕ) (s : Log) → IsWritable s → Distinct s → Returns (log_write b s) (λ _ t. Joined b s t)
log_write-Joined b s w d = elim (Bool-cases (slot b s == s.lh.n)) [
  | inl e ↦ rw (log_write-eq b s w, e) (appended-Joined b s w d (ground arith))
  | inr e ↦
      rw (log_write-eq b s w, e)
        (absorbed-Joined b s w d (ground (arith, find_lem s.lh.n 0 b s.lh.block)))
]

-- The fields that log_write() does not touch.
log_write-frame :
    (b : ℕ) (s : Log)
    → IsWritable s
    → Returns (log_write b s) (λ _ t. t ≡ record s { core = t.core; lh = t.lh; refcnt = t.refcnt })
log_write-frame b s w = elim (Bool-cases (slot b s == s.lh.n)) [
  | inl e ↦ rw (log_write-eq b s w, e) refl
  | inr e ↦ rw (log_write-eq b s w, e) refl
]

Returns_both :
    {S A : Type 0} (P Q : A → S → Type 0) (r : Run S A)
    → Returns r P
    → Returns r Q
    → Returns r (λ a s. P a s × Q a s)
Returns_both P Q (ok a s) p q = (p, q)
Returns_both P Q panic p q = p
Returns_both P Q (blocked s) p q = p
Returns_both P Q out_of_fuel p q = p

Joined-IsReady :
    (b : ℕ) (v : Block) (s t : Log)
    → IsReady s
    → IsWritable s
    → Outside s.start s.size b
    → t ≡ record (store b v s) { core = t.core; lh = t.lh; refcnt = t.refcnt }
    → Joined b s t
    → IsReady t
Joined-IsReady b v s t r w o same j = record {
  fit = record {
    fits = rw e_size (omega (arith, grown, w.space));
    outside = λ i h.
        rw (e_start, e_size)
          (elim (Bool-cases (ltb i s.lh.n)) [
            | inl e ↦ rw (j.old i (ltb→lt i s.lh.n e)) (r.fit.outside i (ltb→lt i s.lh.n e))
            | inr e ↦ rw (j.only i (ground arith) h) o
          ]);
  };
  empty = rw (e_disk, e_start) r.empty;
  clean = λ k ok not_in.
      rw (e_disk, e_view, update-ne s.view b k v (λ e. not_in j.index j.in_range (j.joined ∙ e)))
        (r.clean k (rw (e_start, e_size) at ok)
          (λ i h e. not_in i (omega (arith, grown)) (j.old i h ∙ e)));
  past = rw e_past r.past;
}
  where
    e_start : t.start ≡ s.start
    e_start = ap (λ u. u.start) same

    e_size : t.size ≡ s.size
    e_size = ap (λ u. u.size) same

    e_disk : t.disk ≡ s.disk
    e_disk = ap (λ u. u.disk) same

    e_view : t.view ≡ update s.view b v
    e_view = ap (λ u. u.view) same

    e_past : t.past ≡ s.past
    e_past = ap (λ u. u.past) same

    grown : (s.lh.n ≤ t.lh.n) × (t.lh.n ≤ s.lh.n + 1)
    grown = (ground (arith, j.rest), ground (arith, j.rest))

-- On a log with a transaction that is ready to commit and records each block once, and with room
-- for a block: an operation that stores to a block outside the log and calls log_write() leaves
-- such a transaction again, with the lock free.
pub store-log_write-IsReady :
    (b : ℕ) (v : Block) (s : Log)
    → IsReady s
    → IsWritable s
    → Distinct s
    → Outside s.start s.size b
    → Returns (log_write b (store b v s)) (λ _ t. IsReady t × IsIdle t.core × Distinct t)
store-log_write-IsReady b v s r w d o =
    Returns_mono _ (log_write b s')
      (Returns_both (λ _ t. Joined b s' t) _ (log_write b s') (log_write-Joined b s' w' d)
        (log_write-frame b s' w'))
      λ _ t (j, same). (
        Joined-IsReady b v s t r w o same (record {
          idle = j.idle;
          index = j.index;
          in_range = j.in_range;
          joined = j.joined;
          old = j.old;
          only = j.only;
          distinct = j.distinct;
          rest = j.rest;
        }),
        j.idle,
        j.distinct,
      )
  where
    s' : Log
    s' = store b v s

    w' : IsWritable s'
    w' = record { idle = w.idle; room = w.room; space = w.space; active = w.active; sane = w.sane }
