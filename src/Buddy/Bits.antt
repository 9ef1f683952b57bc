-- ===== src/Buddy/Bits.antt =====
-- The bit arrays of the buddy allocator.
use Prim.Native.Nat.{bit_and, bit_or}
use os_advanced_course.Base.{
  ltb→lt, ==_iff, ◌∙◌, ap, inl, inr, Bool-cases, ltb, ℕ, zero, suc, ◌-◌, ◌^◌, ◌<◌, ◌≡◌, refl, Bool,
  true, false, not, ◌&&◌, ◌==◌, if◌then◌else◌, arith, update, ◌%◌, ◌/◌,
}
use os_advanced_course.Buddy.{Array, bit_isset, bit_set, bit_clear}

-- A test that every number under a bound passes.
passes : (ℕ → Bool) → ℕ → Bool
passes test zero = true
passes test (suc bound) = if test bound then passes test bound else false

passes-at : (test : ℕ → Bool) (bound k : ℕ) → k < bound → passes test bound ≡ true → test k ≡ true
unfolding passes
passes-at test zero k l ok = absurd (omega arith)
passes-at test (suc bound) k l ok = ground (arith, passes-at test bound k)

same : Bool → Bool → Bool
same true b = b
same false b = not b

same-eq : (a b : Bool) → same a b ≡ true → a ≡ b
unfolding same
same-eq a b h = ground arith

abbrev has_bit : ℕ → ℕ → Bool
has_bit b i = bit_and b (2 ^ i) == 2 ^ i

abbrev set_ok : ℕ → ℕ → ℕ → Bool
set_ok b i j = same (has_bit (bit_or b (2 ^ i)) j) (if i == j then true else has_bit b j)

abbrev clear_ok : ℕ → ℕ → ℕ → Bool
clear_ok b i j = same (has_bit (bit_and b (255 - 2 ^ i)) j) (if i == j then false else has_bit b j)

abbrev byte_ok : ℕ → ℕ → Bool
byte_ok b i = ltb (bit_or b (2 ^ i)) 256 && ltb (bit_and b (255 - 2 ^ i)) 256

-- What one byte and two of its bits are to satisfy.
abbrev pair_ok : ℕ → ℕ → ℕ → Bool
pair_ok b i j = set_ok b i j && clear_ok b i j

abbrev bit_ok : ℕ → ℕ → Bool
bit_ok b i = byte_ok b i && passes (pair_ok b i) 8

abbrev value_ok : ℕ → Bool
value_ok b = passes (bit_ok b) 8

every_byte : passes value_ok 256 ≡ true
unfolding passes same
every_byte = refl

and-left : (a b : Bool) → (a && b) ≡ true → (a ≡ true) × (b ≡ true)
and-left a b h = (ground arith, ground arith)

row :
    (b i j : ℕ)
    → b < 256
    → i < 8
    → j < 8
    → (byte_ok b i ≡ true) × (set_ok b i j ≡ true) × (clear_ok b i j ≡ true)
row b i j hb hi hj = (at_i.0, both.0, both.1)
  where
    at_i : (byte_ok b i ≡ true) × (passes (pair_ok b i) 8 ≡ true)
    at_i =
        and-left (byte_ok b i) _
          (passes-at (bit_ok b) 8 i hi (passes-at value_ok 256 b hb every_byte))

    both : (set_ok b i j ≡ true) × (clear_ok b i j ≡ true)
    both = and-left (set_ok b i j) _ (passes-at (pair_ok b i) 8 j hj at_i.1)

-- The values of an array of char.
abbrev pub IsBytes : Array → Type 0
IsBytes array = (i : ℕ) → array i < 256

set_row :
    (b i j : ℕ)
    → b < 256
    → has_bit (bit_or b (2 ^ (i % 8))) (j % 8)
      ≡ (if i % 8 == j % 8 then true else has_bit b (j % 8))
set_row b i j h = same-eq _ _ (row b (i % 8) (j % 8) h (omega arith) (omega arith)).1

clear_row :
    (b i j : ℕ)
    → b < 256
    → has_bit (bit_and b (255 - 2 ^ (i % 8))) (j % 8)
      ≡ (if i % 8 == j % 8 then false else has_bit b (j % 8))
clear_row b i j h = same-eq _ _ (row b (i % 8) (j % 8) h (omega arith) (omega arith)).2

byte_row :
    (b i : ℕ) → b < 256 → (bit_or b (2 ^ (i % 8)) < 256) × (bit_and b (255 - 2 ^ (i % 8)) < 256)
byte_row b i h =
    let both =
      and-left (ltb (bit_or b (2 ^ (i % 8))) 256) (ltb (bit_and b (255 - 2 ^ (i % 8))) 256)
        (row b (i % 8) 0 h (omega arith) (omega arith)).0 in
    (ltb→lt _ 256 both.0, ltb→lt _ 256 both.1)

-- Two indices are one when they have the same byte and the same bit.
index-eq : (i j : ℕ) → (i / 8 == j / 8) ≡ true → (i % 8 == j % 8) ≡ (i == j)
index-eq i j e = ground arith

index-ne : (i j : ℕ) → (i / 8 == j / 8) ≡ false → (i == j) ≡ false
index-ne i j e = ground arith

-- A write of one byte changes the bits of that byte alone.
write_bit :
    (array : Array) (i v : ℕ) (b : Bool)
    → ((j : ℕ)
        → has_bit v (j % 8) ≡ (if i % 8 == j % 8 then b else has_bit (array (i / 8)) (j % 8)))
    → (j : ℕ) → bit_isset (update array (i / 8) v) j ≡ (if i == j then b else bit_isset array j)
unfolding bit_isset
write_bit array i v b h j = elim (Bool-cases (i / 8 == j / 8)) [
  | inl e ↦
      rw (e, ← index-eq i j e)
        (h j ∙ ap (λ x. if i % 8 == j % 8 then b else has_bit (array x) (j % 8)) ((==_iff _ _).0 e))
  | inr e ↦ rw (e, index-ne i j e)
]

write_byte : (array : Array) (i v : ℕ) → IsBytes array → v < 256 → IsBytes (update array i v)
write_byte array i v h l k = ground (arith, h k)

-- On an array of bytes, bit_set() sets the bit at its index and changes no other, and the array
-- stays one of bytes.
pub bit_set_lem :
    (array : Array) (i : ℕ)
    → IsBytes array
    → ((j : ℕ) → bit_isset (bit_set array i) j ≡ (if i == j then true else bit_isset array j))
      × IsBytes (bit_set array i)
unfolding bit_set
bit_set_lem array i h = (
  write_bit array i _ true (λ j. set_row (array (i / 8)) i j (h (i / 8))),
  write_byte array (i / 8) _ h (byte_row (array (i / 8)) i (h (i / 8))).0,
)

-- On an array of bytes, bit_clear() clears the bit at its index and changes no other, and the array
-- stays one of bytes.
pub bit_clear_lem :
    (array : Array) (i : ℕ)
    → IsBytes array
    → ((j : ℕ) → bit_isset (bit_clear array i) j ≡ (if i == j then false else bit_isset array j))
      × IsBytes (bit_clear array i)
unfolding bit_clear
bit_clear_lem array i h = (
  write_bit array i _ false (λ j. clear_row (array (i / 8)) i j (h (i / 8))),
  write_byte array (i / 8) _ h (byte_row (array (i / 8)) i (h (i / 8))).1,
)

zero_ok : ℕ → ℕ → Bool
zero_ok b i = same (bit_and b (2 ^ i) == 0) (not (has_bit b i))

abbrev byte_zero_ok : ℕ → Bool
byte_zero_ok b = passes (zero_ok b) 8

every_zero : passes byte_zero_ok 256 ≡ true
unfolding passes same zero_ok
every_zero = refl

-- The test of a bit against 0.
abbrev pub bit_off : Array → ℕ → Bool
bit_off array i = bit_and (array (i / 8)) (2 ^ (i % 8)) == 0

bit_off-bit_isset :
    (array : Array) (i : ℕ) → IsBytes array → bit_off array i ≡ not (bit_isset array i)
unfolding bit_isset zero_ok
bit_off-bit_isset array i h = same-eq _ _ (
    passes-at (zero_ok (array (i / 8))) 8 (i % 8) (omega arith)
      (passes-at byte_zero_ok 256 (array (i / 8)) (h (i / 8)) every_zero))

-- Setting and clearing a bit, by that test.
pub bit_off_set :
    (array : Array) (i j : ℕ)
    → IsBytes array
    → bit_off (bit_set array i) j ≡ (if i == j then false else bit_off array j)
bit_off_set array i j h =
    rw
      (
        bit_off-bit_isset (bit_set array i) j (bit_set_lem array i h).1,
        (bit_set_lem array i h).0 j,
        bit_off-bit_isset array j h,
      )
      (ground arith)

pub bit_off_clear :
    (array : Array) (i j : ℕ)
    → IsBytes array
    → bit_off (bit_clear array i) j ≡ (if i == j then true else bit_off array j)
bit_off_clear array i j h =
    rw
      (
        bit_off-bit_isset (bit_clear array i) j (bit_clear_lem array i h).1,
        (bit_clear_lem array i h).0 j,
        bit_off-bit_isset array j h,
      )
      (ground arith)
