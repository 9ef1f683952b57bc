-- ===== src/Log/Crash.antt =====
-- What a disk stands for, if the machine crashes and recover_from_log() runs on it.
use os_advanced_course.Base.{
  ℕ, zero, suc, ◌+◌, ◌-◌, ◌≤◌, ◌<◌, ◌≡◌, ◌≢◌, ◌⊎◌, ◌&&◌, ltb, leb, if◌then◌else◌, update, arith,
}
use os_advanced_course.Log.{Block, Disk, read_entries, write_entries}

-- The blocks that are no part of the log.
abbrev pub Outside : ℕ → ℕ → ℕ → Type 0
Outside start size b = (b < start) ⊎ (start + size ≤ b)

-- No committed transaction, and the contents `c`.
pub record Quiet (start size : ℕ) (c d : Disk) : Type 0 where
  pub empty : d start 0 ≡ 0
  pub home : (b : ℕ) → Outside start size b → d b ≡ c b

-- A transaction of `n` blocks that fits the log and writes only outside it.
pub record IsTransaction (start size n : ℕ) (block : ℕ → ℕ) : Type 0 where
  pub fits : n < size
  pub outside : (i : ℕ) → i < n → Outside start size (block i)

-- A committed transaction that leads to the contents `c`, its blocks below `t` installed.
pub record Pending (start size n : ℕ) (block : ℕ → ℕ) (c : Disk) (t : ℕ) (d : Disk) : Type 0 where
  pub count : d start 0 ≡ n
  pub entries : (i : ℕ) → i < n → d start (i + 1) ≡ block i
  pub slots : (i : ℕ) → i < n → d (start + i + 1) ≡ c (block i)
  pub home : (b : ℕ) → Outside start size b → ((i : ℕ) → t ≤ i → i < n → block i ≢ b) → d b ≡ c b

-- Recovery brings the disk to the contents `c`.
pub data Stands (start size : ℕ) (c d : Disk) : Type 0 where
  quiet : Quiet start size c d → Stands start size c d
  pending :
      (n : ℕ) (block : ℕ → ℕ)
      → IsTransaction start size n block
      → Pending start size n block c 0 d
      → Stands start size c d

pub read_entries-eq :
    (k i j : ℕ) (buf : Block) (block : ℕ → ℕ)
    → read_entries k i buf block j ≡ (if leb i j && ltb j (i + k) then buf (j + 1) else block j)
unfolding read_entries
read_entries-eq zero i j buf block = ground arith
read_entries-eq (suc k) i j buf block =
    ground (arith, read_entries-eq k (i + 1) j buf (update block i (buf (i + 1))))

pub write_entries-eq :
    (k i j : ℕ) (block : ℕ → ℕ) (buf : Block)
    → write_entries k i block buf j ≡ (if ltb i j && leb j (i + k) then block (j - 1) else buf j)
unfolding write_entries
write_entries-eq zero i j block buf = ground arith
write_entries-eq (suc k) i j block buf =
    ground (arith, write_entries-eq k (i + 1) j block (update buf (i + 1) (block i)))
