-- ===== src/Log/Commit.antt =====
-- commit(): all or nothing, whenever the machine crashes.
use os_advanced_course.Base.{
  ℕ, zero, suc, ◌+◌, ◌<◌, ◌≡◌, ◌≢◌, refl, ap, ◌∙◌, ◌⊎◌, inl, inr, false, [], ◌∷◌, ltb, ◌==◌,
  Bool-cases, All, arith,
}
use os_advanced_course.Log.{
  Disk, Log, clear, write_head, log_block, log_loop, write_log, install_trans, commit, initlog,
}
use os_advanced_course.Log.Crash.{Outside, Quiet, IsTransaction, Pending, Stands, quiet, pending}
use os_advanced_course.Log.Install.{
  Installing, header, header-count, header-entries, write_head-disk, update-ne,
  install_trans-Installing, finish,
}
use os_advanced_course.Log.Recover.{Left, All-Among, Reboots, Reboots-Stands, initlog-Recovered}

-- The old contents or the new.
abbrev pub Either : ℕ → ℕ → Disk → Disk → Disk → Type 0
Either start size old c d = Stands start size old d ⊎ Stands start size c d

module _ (start size n : ℕ) (block : ℕ → ℕ) (old c : Disk)
    (fit : IsTransaction start size n block) where
  -- The blocks below `t` have been copied to the log.
  record Logging (t : ℕ) (s : Log) : Type 0 where
    at_start : s.start ≡ start
    count : s.lh.n ≡ n
    entries : (i : ℕ) → i < n → s.lh.block i ≡ block i
    view_home : (b : ℕ) → Outside start size b → s.view b ≡ c b
    view_slots : (i : ℕ) → i < t → s.view (start + i + 1) ≡ c (block i)
    disk_slots : (i : ℕ) → i < t → s.disk (start + i + 1) ≡ c (block i)
    disk : Quiet start size old s.disk
    past : All (Either start size old c) s.past

  log_block-Logging : (t : ℕ) (s : Log) → t < n → Logging t s → Logging (t + 1) (log_block t s)
  unfolding log_block
  log_block-Logging t s h x = record {
    at_start = x.at_start;
    count = x.count;
    entries = x.entries;
    view_home = λ b o. rw (update-ne s.view to b v (apart b o)) (x.view_home b o);
    view_slots = λ i l. elim (Bool-cases (i == t)) [
      | inl e ↦ ground (arith, value, x.at_start)
      | inr e ↦
          rw (update-ne s.view to (start + i + 1) v (λ q. absurd (ground (arith, x.at_start))))
            (x.view_slots i (ground arith))
    ];
    disk_slots = λ i l. elim (Bool-cases (i == t)) [
      | inl e ↦ ground (arith, value, x.at_start)
      | inr e ↦
          rw (update-ne s.disk to (start + i + 1) _ (λ q. absurd (ground (arith, x.at_start))))
            (x.disk_slots i (ground arith))
    ];
    disk = record {
      empty =
          rw (update-ne s.disk to start _ (λ q. absurd (ground (arith, x.at_start)))) x.disk.empty;
      home = λ b o. rw (update-ne s.disk to b _ (apart b o)) (x.disk.home b o);
    };
    past = (inl (quiet x.disk), x.past);
  }
    where
      to : ℕ
      to = s.start + t + 1

      v : ℕ → ℕ
      v = s.view (s.lh.block t)

      value : v ≡ c (block t)
      value = ap s.view (x.entries t h) ∙ x.view_home (block t) (fit.outside t h)

      apart : (b : ℕ) → Outside start size b → to ≢ b
      apart b o = rw x.at_start (omega (arith, fit.fits))

  log_loop-Logging : (k t : ℕ) (s : Log) → k + t ≡ n → Logging t s → Logging n (log_loop k t s)
  unfolding log_loop
  log_loop-Logging zero t s e x = let q : t ≡ n = omega arith in rw q at x
  log_loop-Logging (suc k) t s e x =
      log_loop-Logging k (t + 1) (log_block t s) (omega arith)
        (log_block-Logging t s (omega arith) x)

  -- The write of the header commits the transaction.
  header-Installing :
      (s : Log)
      → ((b : ℕ) → Outside start size b → ((i : ℕ) → i < n → block i ≢ b) → old b ≡ c b)
      → Logging n s
      → Installing start size n block c fit
          (Either start size old c)
          (λ d p. inr (pending n block fit p))
          0
          (write_head s)
  unfolding write_head
  header-Installing s same x = record {
    at_start = x.at_start;
    entries = x.entries;
    slots = λ i h.
        rw (update-ne s.view s.start (start + i + 1) (header s) (apart i)) (x.view_slots i h);
    disk = rw (write_head-disk s) (record {
      count = ground (arith, header-count s, x.at_start, x.count);
      entries = λ i h. ground (arith, header-entries s i, x.entries i h, x.at_start, x.count);
      slots = λ i h.
          rw (update-ne s.disk s.start (start + i + 1) (header s) (apart i)) (x.disk_slots i h);
      home = λ b o not_in.
          rw
            (update-ne s.disk s.start b (header s)
              (λ q. absurd (omega (arith, x.at_start, fit.fits))))
            (x.disk.home b o ∙ same b o (λ i h. not_in i (omega arith) h));
    });
    past = (inl (quiet x.disk), x.past);
  }
    where
      apart : (i : ℕ) → s.start ≢ start + i + 1
      apart i = omega (arith, x.at_start)

-- A log with a transaction that is ready to commit: the logged blocks fit the log and lie outside
-- it, the disk's header is empty, and no other block differs from its cached copy.
pub record IsReady (s : Log) : Type 0 where
  pub fit : IsTransaction s.start s.size s.lh.n s.lh.block
  pub empty : s.disk s.start 0 ≡ 0
  pub clean :
      (b : ℕ)
      → Outside s.start s.size b
      → ((i : ℕ) → i < s.lh.n → s.lh.block i ≢ b)
      → s.disk b ≡ s.view b
  pub past : s.past ≡ []

module _ (s : Log) (r : IsReady s) where
  commit_steps :
      Quiet s.start s.size s.view
        (write_head (clear (install_trans false (write_head (write_log s))))).disk
      × All
          (Either s.start s.size s.disk s.view)
          (write_head (clear (install_trans false (write_head (write_log s))))).past
  unfolding write_log write_head
  commit_steps =
      finish start size n block c r.fit (Either start size old c) keep (install_trans false s2) (
        install_trans-Installing start size n block c r.fit (Either start size old c) keep false s2
          logged.count (header-Installing start size n block old c r.fit s1 r.clean logged))
    where
      start : ℕ
      start = s.start

      size : ℕ
      size = s.size

      n : ℕ
      n = s.lh.n

      block : ℕ → ℕ
      block = s.lh.block

      old : Disk
      old = s.disk

      c : Disk
      c = s.view

      keep : (d : Disk) → Pending start size n block c 0 d → Either start size old c d
      keep d p = inr (pending n block r.fit p)

      s1 : Log
      s1 = write_log s

      s2 : Log
      s2 = write_head s1

      logged : Logging start size n block old c r.fit n s1
      logged = log_loop-Logging start size n block old c r.fit n 0 s (omega arith) (record {
        at_start = refl;
        count = refl;
        entries = λ i h. refl;
        view_home = λ b o. refl;
        view_slots = λ i h. absurd (omega arith);
        disk_slots = λ i h. absurd (omega arith);
        disk = record { empty = r.empty; home = λ b o. refl };
        past = rw r.past tt;
      })

  -- On a log with a transaction that is ready to commit: commit() writes the cached contents to
  -- the disk and leaves no transaction behind; and the disk before each of its writes stands for
  -- the old contents or for the new, never for a mixture.
  pub commit_atomic :
      Quiet s.start s.size s.view (commit s).disk
      × All (Either s.start s.size s.disk s.view) (commit s).past
  unfolding commit
  commit_atomic = elim (Bool-cases (ltb 0 s.lh.n)) [
    | inl more ↦ rw more commit_steps
    | inr none ↦
        rw (none, r.past)
          (record { empty = r.empty; home = λ b o. r.clean b o (λ i h. absurd (ground arith)) }, tt)
  ]

  Either-Left : (v : Disk) → Left v (commit s) → Either s.start s.size s.disk s.view v
  Either-Left v left =
      All-Among (Either s.start s.size s.disk s.view) v ((commit s).disk ∷ (commit s).past)
        (inr (quiet commit_atomic.0), commit_atomic.1) left

  -- On a log with a transaction that is ready to commit: a crash at any moment of commit(), then
  -- any number of crashes during recovery, then a recovery that returns: the blocks outside the
  -- log all have their old contents, or all have the new.
  pub crash_recovery :
      (v w : Disk) (b : Log)
      → Left v (commit s)
      → Reboots s.start s.size v w
      → b.disk ≡ w
      → b.view ≡ w
      → b.past ≡ []
      → ((k : ℕ) → Outside s.start s.size k → (initlog s.start s.size b).disk k ≡ s.disk k)
        ⊎ ((k : ℕ) → Outside s.start s.size k → (initlog s.start s.size b).disk k ≡ s.view k)
  crash_recovery v w b left reboots ed ev ep = elim (Either-Left v left) [
    | inl st ↦
        inl
          (initlog-Recovered s.start s.size s.disk w some_size b ed ev ep
            (Reboots-Stands s.start s.size s.disk some_size st reboots)).0.home
    | inr st ↦
        inr
          (initlog-Recovered s.start s.size s.view w some_size b ed ev ep
            (Reboots-Stands s.start s.size s.view some_size st reboots)).0.home
  ]
    where
      some_size : 0 < s.size
      some_size = omega (arith, r.fit.fits)
