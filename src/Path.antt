-- ===== src/Path.antt =====
-- Path names, skipelem() and namex() of xv6-os/kernel/fs.c. A string of C is the list of the
-- characters before its null.
pub mod Elements
mod Tests
use os_advanced_course.Base.{
  ℕ, zero, suc, ◌+◌, Bool, true, false, not, ◌&&◌, Option, none, some, List, [], ◌∷◌, ◌++◌, ltb,
  ◌==◌, if◌then◌else◌, length, out_of_fuel, Cmd, pure, ◌>>=◌, ◌>>◌,
}

abbrev pub dirsiz : ℕ
dirsiz = 14

abbrev pub slash : ℕ
slash = b'/'

-- The loops over slashes, and over the characters of an element, which are those before the
-- path's rest.
pub skip_slashes : List ℕ → List ℕ
skip_slashes [] = []
skip_slashes (c ∷ s) = let rest = skip_slashes s in if c == slash then rest else c ∷ s

pub element : List ℕ → List ℕ × List ℕ
element [] = ([], [])
element (c ∷ s) = let (e, rest) = element s in if c == slash then ([], c ∷ s) else (c ∷ e, rest)

-- What name[] holds of an element: at most `dirsiz` characters.
pub take_name : ℕ → List ℕ → List ℕ
take_name zero s = []
take_name (suc n) [] = []
take_name (suc n) (c ∷ s) = c ∷ take_name n s

-- skipelem() of a path that begins with no slash.
pub skip_first : List ℕ → Option (List ℕ × List ℕ)
unfolding element take_name skip_slashes
skip_first [] = none
skip_first (c ∷ s) = let (e, rest) = element (c ∷ s) in some (take_name dirsiz e, skip_slashes rest)

-- The name and the path after it, or none where there is no element.
pub skipelem : List ℕ → Option (List ℕ × List ℕ)
unfolding skip_slashes skip_first
skipelem path = skip_first (skip_slashes path)

-- What namex() uses of inodes and directories, over a state `S`; inodes are their indices in the
-- table.
pub record Inodes (S : Type 0) : Type 0 where
  pub iget_root : Cmd S ℕ
  pub idup_cwd : Cmd S ℕ
  pub ilock : ℕ → Cmd S (Unit {0})
  pub is_dir : ℕ → Cmd S Bool
  pub dirlookup : ℕ → List ℕ → Cmd S (Option ℕ)
  pub iunlock : ℕ → Cmd S (Unit {0})
  pub iput : ℕ → Cmd S (Unit {0})

module _ {S : Type 0} (i : Inodes S) (parent : Bool) where
  abbrev pub iunlockput : ℕ → Cmd S (Unit {0})
  iunlockput ip = do i.iunlock ip; i.iput ip

  -- The end of namex(), with the name of the last element.
  pub namex_end : ℕ → List ℕ → Cmd S (Option (ℕ × List ℕ))
  namex_end ip name = if parent then (do i.iput ip; pure none) else pure (some (ip, name))

  -- A round with `name`, where `last` tells that no path is left, and `go` is the next round.
  pub visit : ℕ → List ℕ → Bool → (ℕ → Cmd S (Option (ℕ × List ℕ))) → Cmd S (Option (ℕ × List ℕ))
  visit ip name last go = do
    i.ilock ip
    dir ← i.is_dir ip
    if not dir
        then (do iunlockput ip; pure none)
        else if parent && last
        then (do i.iunlock ip; pure (some (ip, name)))
        else (do
          next ← i.dirlookup ip name
          iunlockput ip
          elim next [ none ↦ pure none | some n ↦ go n ])

  -- A round with what skipelem() has given.
  abbrev pub round :
      ℕ
      → List ℕ
      → (ℕ → List ℕ → List ℕ → Cmd S (Option (ℕ × List ℕ)))
      → Option (List ℕ × List ℕ)
      → Cmd S (Option (ℕ × List ℕ))
  round ip name go none = namex_end ip name
  round ip name go (some (e, rest)) = visit ip e (length rest == 0) (λ n. go n e rest)

  -- The loop, on fuel.
  pub namex_loop : ℕ → ℕ → List ℕ → List ℕ → Cmd S (Option (ℕ × List ℕ))
  unfolding skipelem
  namex_loop zero ip name path = λ s. out_of_fuel
  namex_loop (suc k) ip name path = round ip name (namex_loop k) (skipelem path)

  abbrev pub starts : List ℕ → Cmd S ℕ
  starts [] = i.idup_cwd
  starts (c ∷ s) = if c == slash then i.iget_root else i.idup_cwd

  -- A round takes a character at least, and one more is for the last test.
  pub namex : List ℕ → Cmd S (Option (ℕ × List ℕ))
  unfolding namex_loop
  namex path = do ip ← starts path; namex_loop (length path + 1) ip [] path
