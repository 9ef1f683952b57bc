-- ===== src/Log/Recover.antt =====
-- recover_from_log(), when the machine starts on whatever disk a crash has left.
use os_advanced_course.Base.{ℕ, ◌<◌, ◌≡◌, refl, ◌⊎◌, inl, inr, true, List, [], ◌∷◌, All, arith}
use os_advanced_course.Log.{Disk, Log, clear, read_head, install_trans, recover_from_log, initlog}
use os_advanced_course.Log.Crash.{
  Quiet, IsTransaction, Pending, Stands, quiet, pending, read_entries-eq,
}
use os_advanced_course.Log.Install.{
  Installing, header, header-count, write_head-disk, install_trans-Installing, Quiet-header,
  write_head-past, install_trans_zero, finish,
}

-- The kernel has just started: nothing is cached, and it has written nothing.
pub record IsBooted (start size : ℕ) (d : Disk) (s : Log) : Type 0 where
  pub at_start : s.start ≡ start
  pub of_size : s.size ≡ size
  pub disk : s.disk ≡ d
  pub view : s.view ≡ d
  pub past : s.past ≡ []

-- Recovery has brought the disk to `c`, and every disk on the way still stands for `c`.
abbrev pub Recovered : ℕ → ℕ → Disk → Log → Type 0
Recovered start size c s = Quiet start size c s.disk × All (Stands start size c) s.past

-- A disk that a crash may leave: the one that stands, or one from before a write.
abbrev pub Among : Disk → List Disk → Type 0
Among d [] = ⊥
Among d (x ∷ xs) = (d ≡ x) ⊎ Among d xs

abbrev pub Left : Disk → Log → Type 0
Left d s = Among d (s.disk ∷ s.past)

pub All-Among : (P : Disk → Type 0) (d : Disk) (xs : List Disk) → All P xs → Among d xs → P d
All-Among P d [] h a = absurd a
All-Among P d (x ∷ xs) h (inl e) = rw e h.0
All-Among P d (x ∷ xs) h (inr a) = All-Among P d xs h.1 a

module _ (start size : ℕ) (c d : Disk) (fits : 0 < size) where
  recover-Quiet :
      (s : Log)
      → IsBooted start size d s
      → Quiet start size c d
      → Recovered start size c (recover_from_log s)
  unfolding recover_from_log read_head
  recover-Quiet s x q = (
    rw (nothing, write_head-disk (clear s'), x.disk)
        (Quiet-header start size c d s.start (header (clear s')) fits x.at_start
          (header-count (clear s')) q.home),
    rw (nothing, write_head-past (clear s'), x.disk, x.past) (quiet q, tt),
  )
    where
      s' : Log
      s' = read_head s

      nothing : install_trans true s' ≡ s'
      nothing = install_trans_zero true s' (rw (x.at_start, x.view) q.empty)

  recover-Pending :
      (s : Log) (n : ℕ) (block : ℕ → ℕ)
      → IsBooted start size d s
      → IsTransaction start size n block
      → Pending start size n block c 0 d
      → Recovered start size c (recover_from_log s)
  unfolding recover_from_log read_head
  recover-Pending s n block x fit p =
      finish start size n block c fit (Stands start size c) (λ d' p'. pending n block fit p')
        (install_trans true (read_head s))
        (install_trans-Installing start size n block c fit (Stands start size c)
          (λ d' p'. pending n block fit p') true (read_head s) count loaded)
    where
      count : (read_head s).lh.n ≡ n
      count = rw (x.at_start, x.view) p.count

      block_of : (i : ℕ) → i < n → (read_head s).lh.block i ≡ block i
      block_of i h = ground (
        arith,
        read_entries-eq (s.view s.start 0) 0 i (s.view s.start) s.lh.block,
        p.entries i h,
        p.count,
      )

      loaded :
          Installing start size n block c fit
            (Stands start size c)
            (λ d' p'. pending n block fit p')
            0
            (read_head s)
      loaded = record {
        at_start = x.at_start;
        entries = block_of;
        slots = λ i h. rw x.view (p.slots i h);
        disk = rw x.disk p;
        past = rw x.past tt;
      }

  recover_from_log-Recovered :
      (s : Log)
      → IsBooted start size d s
      → Stands start size c d
      → Recovered start size c (recover_from_log s)
  recover_from_log-Recovered s x (quiet q) = recover-Quiet s x q
  recover_from_log-Recovered s x (pending n block fit p) = recover-Pending s n block x fit p

  -- On a log area of at least one block, with nothing cached: initlog() on a disk that stands for
  -- the contents `c`, committed but not installed or quiet: afterwards no transaction is pending,
  -- every block outside the log has the contents `c`, and a crash at any write of the recovery
  -- leaves a disk that still stands for `c`.
  pub initlog-Recovered :
      (s : Log)
      → s.disk ≡ d
      → s.view ≡ d
      → s.past ≡ []
      → Stands start size c d
      → Recovered start size c (initlog start size s)
  unfolding initlog
  initlog-Recovered s ed ev ep st =
      recover_from_log-Recovered _
        (record { at_start = refl; of_size = refl; disk = ed; view = ev; past = ep }) st

-- The machine crashes in the middle of recovery, and starts again, any number of times.
pub data Reboots (start size : ℕ) (d : Disk) : Disk → Type 0 where
  first : Reboots start size d d
  again :
      {u : Disk} (s : Log) (v : Disk)
      → Reboots start size d u
      → s.disk ≡ u
      → s.view ≡ u
      → s.past ≡ []
      → Left v (initlog start size s)
      → Reboots start size d v

-- On a log area of at least one block: however often recovery is cut short, a disk that stands for
-- some contents still stands for them.
pub Reboots-Stands :
    (start size : ℕ) (c : Disk) {d v : Disk}
    → 0 < size
    → Stands start size c d
    → Reboots start size d v
    → Stands start size c v
Reboots-Stands start size c fits st first = st
Reboots-Stands start size c fits st (again {u} s v r ed ev ep left) =
    let s' = initlog start size s in
    let done =
      initlog-Recovered start size c u fits s ed ev ep (Reboots-Stands start size c fits st r) in
    All-Among (Stands start size c) v (s'.disk ∷ s'.past) (quiet done.0, done.1) left
