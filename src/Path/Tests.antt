-- ===== src/Path/Tests.antt =====
-- Path names in a small tree.
use os_advanced_course.Base.{
  ℕ, ◌≡◌, refl, true, false, none, some, List, [], ◌∷◌, ◌==◌, if◌then◌else◌, length, pure, ok, ◌+◌,
}
use os_advanced_course.Path.{Inodes, skipelem, namex, visit, namex_end}

-- The root is 1, and its directory with a name of one letter is 2; the state counts the calls of
-- iput().
tree : Inodes ℕ
tree = record {
  iget_root = pure 1;
  idup_cwd = pure 2;
  ilock = λ ip. pure tt;
  is_dir = λ ip. pure (ip == 1);
  dirlookup = λ ip name. pure (if length name == 1 then some 2 else none);
  iunlock = λ ip. pure tt;
  iput = λ ip s. ok tt (s + 1);
}

-- "/a//b"
abbrev path : List ℕ
path = b'/' ∷ b'a' ∷ b'/' ∷ b'/' ∷ b'b' ∷ []

first_element : skipelem path ≡ some (b'a' ∷ [], b'b' ∷ [])
unfolding skipelem
first_element = refl

not_a_directory : namex tree true path 0 ≡ ok none 2
unfolding namex visit tree
not_a_directory = refl

found : namex tree false (b'/' ∷ b'a' ∷ []) 0 ≡ ok (some (2, b'a' ∷ [])) 1
unfolding namex visit namex_end tree
found = refl
