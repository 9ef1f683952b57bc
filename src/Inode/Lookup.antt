-- ===== src/Inode/Lookup.antt =====
-- iget() finds or fills one entry for each inode.
use os_advanced_course.Base.{ℕ, ◌≡◌, ◌≢◌, ◌<◌, ◌⊎◌, true, false, Option, none, some}
use os_advanced_course.Spinlock.Nesting.{held, cycled}
use os_advanced_course.Inode.{ninode, Itable, one_more, fill_entry, is_entry}

abbrev busy : Itable → Itable
busy s = record s { core = held s.core }

abbrev pub rested : Itable → Itable
rested s = record s { core = cycled s.core }

-- None of the first `n` entries is the inode.
abbrev pub Absent : ℕ → ℕ → ℕ → Itable → Type 0
Absent dev inum n s = (q : ℕ) → q < n → is_entry dev inum (s.inode q) ≡ false

-- What the loop knows of the empty entries before `i`.
abbrev Noted : ℕ → Option ℕ → Itable → Type 0
Noted i none s = (q : ℕ) → q < i → (s.inode q).ref ≢ 0
Noted i (some e) s = (e < i) × ((s.inode e).ref ≡ 0)

-- iget() has found the inode at `r`, or, where it was nowhere, has filled an empty entry.
abbrev pub Got : ℕ → ℕ → Itable → ℕ → Itable → Type 0
Got dev inum s r t =
    ((r < ninode) × (is_entry dev inum (s.inode r) ≡ true) × (t ≡ one_more r (rested s)))
    ⊎ (Absent dev inum ninode s
        × (r < ninode)
        × ((s.inode r).ref ≡ 0)
        × (t ≡ fill_entry dev inum r (rested s)))

-- Neither is the inode in the table, nor is an entry empty.
abbrev pub IsFull : ℕ → ℕ → Itable → Type 0
IsFull dev inum s = Absent dev inum ninode s × ((q : ℕ) → q < ninode → (s.inode q).ref ≢ 0)

-- No inode is in two entries.
abbrev pub IsUnique : Itable → Type 0
IsUnique s =
    (i j : ℕ)
    → i < ninode
    → j < ninode
    → 0 < (s.inode i).ref
    → 0 < (s.inode j).ref
    → (s.inode i).dev ≡ (s.inode j).dev
    → (s.inode i).inum ≡ (s.inode j).inum
    → i ≡ j
