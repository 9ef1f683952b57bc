-- ===== src/Content/Words.antt =====
-- Little-endian words in the bytes of a block.
use os_advanced_course.Buddy.Bits.{IsBytes}
use os_advanced_course.Base.{
  ltb, leb, ◌&&◌, Bool-cases, inl, inr, ℕ, ◌≡◌, ◌<◌, ◌≤◌, ◌+◌, ◌*◌, ◌/◌, ◌%◌, ◌^◌, ◌-◌, refl, arith,
  true, ltb, leb, lt→ltb, ◌⊎◌,
}
use os_advanced_course.Buddy.{Array}
use os_advanced_course.Inode.{Inode}
use os_advanced_course.Content.{byte_of, put_bytes, put_words, get16, get32, encode}

put_in : (n a i k v : ℕ) (d : Array) → i ≡ a + k → k < n → put_bytes n a v d i ≡ byte_of v k
put_in n a i k v d e l = rw (lower, upper, rest) refl
  where
    lower : leb a i ≡ true
    lower = ground (arith, e)

    upper : ltb i (a + n) ≡ true
    upper = ground (arith, e)

    rest : i - a ≡ k
    rest = omega (arith, e)

put_out : (n a i v : ℕ) (d : Array) → (i < a) ⊎ (a + n ≤ i) → put_bytes n a v d i ≡ d i
put_out n a i v d h = ground arith

put_words_in :
    (n a i w k : ℕ) (f : ℕ → ℕ) (d : Array)
    → i ≡ a + 4 * w + k
    → w < n
    → k < 4
    → put_words n a f d i ≡ byte_of (f w) k
put_words_in n a i w k f d e l m = rw (lower, upper, quot, rest) refl
  where
    lower : leb a i ≡ true
    lower = ground (arith, e)

    upper : ltb i (a + 4 * n) ≡ true
    upper = lt→ltb _ _ (omega (arith, e))

    quot : (i - a) / 4 ≡ w
    quot = omega (arith, e)

    rest : (i - a) % 4 ≡ k
    rest = omega (arith, e)

put_words_before : (n a i : ℕ) (f : ℕ → ℕ) (d : Array) → i < a → put_words n a f d i ≡ d i
put_words_before n a i f d l = ground arith

bytes16 : (v : ℕ) → v < 2 ^ 16 → byte_of v 0 + 256 * byte_of v 1 ≡ v
bytes16 v l = omega arith

bytes32 :
    (v : ℕ)
    → v < 2 ^ 32
    → byte_of v 0 + 256 * byte_of v 1 + 65536 * byte_of v 2 + 16777216 * byte_of v 3 ≡ v
bytes32 v l = omega arith

pub get16-put_bytes : (a v : ℕ) (d : Array) → v < 2 ^ 16 → get16 (put_bytes 2 a v d) a ≡ v
get16-put_bytes a v d l =
    rw (put_in 2 a a 0 v d (omega arith) (omega arith), put_in 2 a (a + 1) 1 v d refl (omega arith))
      (bytes16 v l)

pub get32-put_bytes : (a v : ℕ) (d : Array) → v < 2 ^ 32 → get32 (put_bytes 4 a v d) a ≡ v
get32-put_bytes a v d l =
    rw
      (
        put_in 4 a a 0 v d (omega arith) (omega arith),
        put_in 4 a (a + 1) 1 v d refl (omega arith),
        put_in 4 a (a + 2) 2 v d refl (omega arith),
        put_in 4 a (a + 3) 3 v d refl (omega arith),
      )
      (bytes32 v l)

pub get32-put_words :
    (n a w : ℕ) (f : ℕ → ℕ) (d : Array)
    → w < n
    → f w < 2 ^ 32
    → get32 (put_words n a f d) (a + 4 * w) ≡ f w
get32-put_words n a w f d l m =
    rw
      (
        at (a + 4 * w) 0 (omega arith) (omega arith),
        at (a + 4 * w + 1) 1 refl (omega arith),
        at (a + 4 * w + 2) 2 refl (omega arith),
        at (a + 4 * w + 3) 3 refl (omega arith),
      )
      (bytes32 (f w) m)
  where
    at : (i k : ℕ) → i ≡ a + 4 * w + k → k < 4 → put_words n a f d i ≡ byte_of (f w) k
    at i k e h = put_words_in n a i w k f d e l h

-- A word outside the bytes that are put_bytes is as before.
pub get16_out :
    (n a b v : ℕ) (d : Array) → (b + 2 ≤ a) ⊎ (a + n ≤ b) → get16 (put_bytes n a v d) b ≡ get16 d b
get16_out n a b v d h =
    rw (put_out n a b v d (omega arith), put_out n a (b + 1) v d (omega arith)) refl

pub get32_out :
    (n a b v : ℕ) (d : Array) → (b + 4 ≤ a) ⊎ (a + n ≤ b) → get32 (put_bytes n a v d) b ≡ get32 d b
get32_out n a b v d h =
    rw
      (
        put_out n a b v d (omega arith),
        put_out n a (b + 1) v d (omega arith),
        put_out n a (b + 2) v d (omega arith),
        put_out n a (b + 3) v d (omega arith),
      )
      refl

pub get16_before :
    (n a b : ℕ) (f : ℕ → ℕ) (d : Array) → b + 2 ≤ a → get16 (put_words n a f d) b ≡ get16 d b
get16_before n a b f d h =
    rw (put_words_before n a b f d (omega arith), put_words_before n a (b + 1) f d (omega arith))
      refl

pub get32_before :
    (n a b : ℕ) (f : ℕ → ℕ) (d : Array) → b + 4 ≤ a → get32 (put_words n a f d) b ≡ get32 d b
get32_before n a b f d h =
    rw
      (
        put_words_before n a b f d (omega arith),
        put_words_before n a (b + 1) f d (omega arith),
        put_words_before n a (b + 2) f d (omega arith),
        put_words_before n a (b + 3) f d (omega arith),
      )
      refl

byte_of_lt : (v k : ℕ) → byte_of v k < 256
byte_of_lt v k = omega arith

pub put_bytes-IsBytes : (n i v : ℕ) (d : Array) → IsBytes d → IsBytes (put_bytes n i v d)
put_bytes-IsBytes n i v d h j = elim (Bool-cases (leb i j && ltb j (i + n))) [
  | inl c ↦ rw c (byte_of_lt v (j - i))
  | inr c ↦ rw c (h j)
]

put_words-IsBytes : (n a : ℕ) (f : ℕ → ℕ) (d : Array) → IsBytes d → IsBytes (put_words n a f d)
put_words-IsBytes n a f d h j = elim (Bool-cases (leb a j && ltb j (a + 4 * n))) [
  | inl c ↦ rw c (byte_of_lt (f ((j - a) / 4)) ((j - a) % 4))
  | inr c ↦ rw c (h j)
]

pub encode-IsBytes : (a : ℕ) (x : Inode) (d : Array) → IsBytes d → IsBytes (encode a x d)
unfolding encode
encode-IsBytes a x d h = put_words-IsBytes 13 (a + 12) x.addrs _ (
    put_bytes-IsBytes 4 (a + 8) x.size _ (
      put_bytes-IsBytes 2 (a + 6) x.nlink _ (
        put_bytes-IsBytes 2 (a + 4) x.minor _
          (put_bytes-IsBytes 2 (a + 2) x.major _ (put_bytes-IsBytes 2 a x.type d h)))))
