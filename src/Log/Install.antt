-- ===== src/Log/Install.antt =====
-- install_trans() on a committed transaction, when it commits and when it recovers.
use os_advanced_course.Base.{
  ℕ, zero, suc, ◌+◌, ◌≤◌, ◌<◌, ◌≡◌, ◌≢◌, refl, ap, inl, inr, Bool, true, false, ◌==◌, Bool-cases,
  update, ◌∷◌, All, arith,
}
use os_advanced_course.Log.{
  Block, Disk, Log, install_block, install_loop, install_trans, bwrite, store, clear, write_head,
  write_entries,
}
use os_advanced_course.Log.Crash.{Outside, Quiet, IsTransaction, Pending, write_entries-eq}

pub update_self : (d : Disk) (p : ℕ) (v : Block) → update d p v p ≡ v
update_self d p v = ground arith

pub update-ne : (d : Disk) (p q : ℕ) (v : Block) → p ≢ q → update d p v q ≡ d q
update-ne d p q v h = ground arith

-- The header block that write_head() writes.
abbrev pub header : Log → Block
header s = write_entries s.lh.n 0 s.lh.block (update (s.view s.start) 0 s.lh.n)

pub header-count : (s : Log) → header s 0 ≡ s.lh.n
header-count s =
    ground (arith, write_entries-eq s.lh.n 0 0 s.lh.block (update (s.view s.start) 0 s.lh.n))

pub header-entries : (s : Log) (i : ℕ) → i < s.lh.n → header s (i + 1) ≡ s.lh.block i
header-entries s i h =
    ground (arith, write_entries-eq s.lh.n 0 (i + 1) s.lh.block (update (s.view s.start) 0 s.lh.n))

pub write_head-disk : (s : Log) → (write_head s).disk ≡ update s.disk s.start (header s)
unfolding write_head
write_head-disk s = ap (λ v. update s.disk s.start v) (update_self s.view s.start (header s))

pub write_head-past : (s : Log) → (write_head s).past ≡ s.disk ∷ s.past
unfolding write_head
write_head-past s = refl

pub install_trans_zero : (r : Bool) (s : Log) → s.lh.n ≡ 0 → install_trans r s ≡ s
unfolding install_trans install_loop
install_trans_zero r s e = ap (λ k. install_loop r k 0 s) e

-- A header without entries makes a disk quiet.
pub Quiet-header :
    (start size : ℕ) (c d : Disk) (p : ℕ) (h : Block) {n : ℕ}
    → n < size
    → p ≡ start
    → h 0 ≡ 0
    → ((b : ℕ) → Outside start size b → d b ≡ c b)
    → Quiet start size c (update d p h)
Quiet-header start size c d p h fits e z home = record {
  empty = ground arith;
  home = λ b o. rw (update-ne d p b h (omega arith)) (home b o);
}

-- `P` is what the disks before each write are known to meet.
module _ (start size n : ℕ) (block : ℕ → ℕ) (c : Disk) (fit : IsTransaction start size n block)
    (P : Disk → Type 0) (keep : (d : Disk) → Pending start size n block c 0 d → P d) where
  -- The transaction is on the disk, its blocks below `t` are installed.
  pub record Installing (t : ℕ) (s : Log) : Type 0 where
    pub at_start : s.start ≡ start
    pub entries : (i : ℕ) → i < n → s.lh.block i ≡ block i
    pub slots : (i : ℕ) → i < n → s.view (start + i + 1) ≡ c (block i)
    pub disk : Pending start size n block c t s.disk
    pub past : All P s.past

  Pending-zero :
      {t : ℕ} (d : Disk) → Pending start size n block c t d → Pending start size n block c 0 d
  Pending-zero d p = record {
    count = p.count;
    entries = p.entries;
    slots = p.slots;
    home = λ b o not_in. p.home b o (λ i _ h. not_in i (omega arith) h);
  }

  -- A block outside the log is neither its header nor one of its slots.
  not_header : (b : ℕ) → Outside start size b → b ≢ start
  not_header b o = omega (arith, fit.fits)

  not_slot : (b i : ℕ) → Outside start size b → i < n → b ≢ start + i + 1
  not_slot b i o h = omega (arith, fit.fits)

  not_pending :
      (t b : ℕ)
      → block t ≢ b
      → ((i : ℕ) → t + 1 ≤ i → i < n → block i ≢ b)
      → (i : ℕ) → t ≤ i
      → i < n
      → block i ≢ b
  not_pending t b ne not_in i l h e = elim (Bool-cases (i == t)) [
    | inl same ↦ ne (ground arith)
    | inr other ↦ not_in i (ground arith) h e
  ]

  Pending-install :
      (t : ℕ) (d : Disk)
      → t < n
      → Pending start size n block c t d
      → Pending start size n block c (t + 1) (update d (block t) (c (block t)))
  Pending-install t d h p = record {
    count = rw (update-ne d (block t) start (c (block t)) (not_header _ out)) p.count;
    entries =
        λ i l. rw (update-ne d (block t) start (c (block t)) (not_header _ out)) (p.entries i l);
    slots = λ i l.
        rw (update-ne d (block t) (start + i + 1) (c (block t)) (not_slot _ i out l)) (p.slots i l);
    home = λ b o not_in. elim (Bool-cases (block t == b)) [
      | inl e ↦ ground arith
      | inr e ↦
          rw (update-ne d (block t) b (c (block t)) (λ q. absurd (ground arith)))
            (p.home b o (not_pending t b (λ q. absurd (ground arith)) not_in))
    ];
  }
    where
      out : Outside start size (block t)
      out = fit.outside t h

  -- A round of the loop installs one more block.
  install_block-Installing :
      (r : Bool) (t : ℕ) (s : Log)
      → t < n
      → Installing t s
      → Installing (t + 1) (install_block r t s)
  unfolding install_block
  install_block-Installing r t s h x = elim r as (λ r. Installing (t + 1) (install_block r t s)) [
    | true ↦ step
    | false ↦ record {
      at_start = step.at_start;
      entries = step.entries;
      slots = step.slots;
      disk = step.disk;
      past = step.past;
    }
  ]
    where
      out : Outside start size (block t)
      out = fit.outside t h

      same : s.lh.block t ≡ block t
      same = x.entries t h

      value : s.view (s.start + t + 1) ≡ c (block t)
      value = rw x.at_start (x.slots t h)

      step :
          Installing
            (t + 1)
            (bwrite (s.lh.block t) (store (s.lh.block t) (s.view (s.start + t + 1)) s))
      step = record {
        at_start = x.at_start;
        entries = x.entries;
        slots = λ i l.
            rw (same, update-ne s.view (block t) (start + i + 1) _ (not_slot _ i out l))
              (x.slots i l);
        disk =
            rw (same, value, update_self s.view (block t) (c (block t)))
              (Pending-install t s.disk h x.disk);
        past = (keep s.disk (Pending-zero s.disk x.disk), x.past);
      }

  install_loop-Installing :
      (r : Bool) (k t : ℕ) (s : Log)
      → k + t ≡ n
      → Installing t s
      → Installing n (install_loop r k t s)
  unfolding install_loop
  install_loop-Installing r zero t s e x = let q : t ≡ n = omega arith in rw q at x
  install_loop-Installing r (suc k) t s e x =
      install_loop-Installing r k (t + 1) (install_block r t s) (omega arith)
        (install_block-Installing r t s (omega arith) x)

  -- When all blocks are installed, the header without entries ends the transaction.
  pub finish :
      (s : Log)
      → Installing n s
      → Quiet start size c (write_head (clear s)).disk × All P (write_head (clear s)).past
  unfolding write_head
  finish s x = (
    rw (write_head-disk (clear s)) (
        Quiet-header start size c s.disk s.start (header (clear s)) fit.fits x.at_start
          (header-count (clear s)) λ b o. x.disk.home b o (λ i l h. absurd (omega arith))),
    (keep s.disk (Pending-zero s.disk x.disk), x.past),
  )

  pub install_trans-Installing :
      (r : Bool) (s : Log) → s.lh.n ≡ n → Installing 0 s → Installing n (install_trans r s)
  unfolding install_trans
  install_trans-Installing r s e x = install_loop-Installing r s.lh.n 0 s (omega arith) x
