-- ===== src/Path/Elements.antt =====
-- The names of a path, and the walk along them.
use os_advanced_course.Base.{
  ◌>>=◌, ◌>>◌, not, pure, ℕ, false, List, [], ◌∷◌, map, ◌==◌, if◌then◌else◌, Bool, Cmd, none,
  Option, some,
}
use os_advanced_course.Path.{dirsiz, slash, take_name, Inodes}

abbrev add_word : List ℕ → List (List ℕ) → List (List ℕ)
add_word [] ws = ws
add_word (c ∷ w) ws = (c ∷ w) ∷ ws

-- The characters before the first slash, and the words after it.
pub cut : List ℕ → List ℕ × List (List ℕ)
cut [] = ([], [])
cut (c ∷ s) = let (w, ws) = cut s in if c == slash then ([], add_word w ws) else (c ∷ w, ws)

-- The parts of a path between its slashes that are not empty.
pub words : List ℕ → List (List ℕ)
unfolding cut
words s = add_word (cut s).0 (cut s).1

-- Their first `dirsiz` characters.
abbrev pub names : List ℕ → List (List ℕ)
names s = map (take_name dirsiz) (words s)

pub is_absolute : List ℕ → Bool
is_absolute [] = false
is_absolute (c ∷ s) = c == slash

module _ {S : Type 0} (i : Inodes S) (parent : Bool) where
  -- The inode that a walk begins at.
  abbrev pub origin : List ℕ → Cmd S ℕ
  origin path = if is_absolute path then i.iget_root else i.idup_cwd

  -- Where the last name is not to be looked up, a walk ends one level early.
  pub stops_early : List (List ℕ) → Bool
  stops_early [] = parent
  stops_early (e ∷ es) = false

  -- It unlocks an inode and drops its reference.
  abbrev leave : ℕ → Cmd S (Unit {0})
  leave ip = do i.iunlock ip; i.iput ip

  -- The walk along a list of names from an inode of which it has a reference, with the name before
  -- them, call by call: it locks each inode, and leaves it unlocked and with no reference when it
  -- goes on or gives up, and unlocked, with its reference, when it stops there.
  pub resolve : ℕ → List ℕ → List (List ℕ) → Cmd S (Option (ℕ × List ℕ))
  resolve ip name [] = if parent then i.iput ip >>= (λ _. pure none) else pure (some (ip, name))
  resolve ip name (e ∷ es) =
      let rest : ℕ → Cmd S (Option (ℕ × List ℕ)) = (λ n. resolve n e es) in
      (do
        i.ilock ip
        dir ← i.is_dir ip
        if not dir
            then (do leave ip; pure none)
            else if stops_early es
            then (do i.iunlock ip; pure (some (ip, e)))
            else (do
              next ← i.dirlookup ip e
              leave ip
              elim next [ none ↦ pure none | some n ↦ rest n ]))
