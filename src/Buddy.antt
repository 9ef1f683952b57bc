-- ===== src/Buddy.antt =====
-- The arithmetic and the bit arrays of the buddy allocator, xv6-os/kernel/buddy.c. An array of char
-- is a function from its index; char is unsigned on RISC-V. An int is the 64-bit word that it widens
-- to; the index of a bit is not negative.
pub mod Bits
pub mod Sizes
pub mod Blocks
mod Tests
use os_advanced_course.Base.{
  ℕ, zero, suc, ◌+◌, ◌-◌, ◌*◌, ◌/◌, ◌%◌, ◌^◌, Bool, not, Option, none, some, ltb, ◌==◌,
  if◌then◌else◌, update,
}
use Prim.Native.Nat.{bit_and, bit_or}
use os_advanced_course.Riscv.{word_size}

abbrev pub Array : Type 0
Array = ℕ → ℕ

abbrev mask : ℕ → ℕ
mask index = 2 ^ (index % 8)

pub bit_isset : Array → ℕ → Bool
bit_isset array index = bit_and (array (index / 8)) (mask index) == mask index

unfoldable pub bit_set : Array → ℕ → Array
bit_set array index = update array (index / 8) (bit_or (array (index / 8)) (mask index))

unfoldable pub bit_clear : Array → ℕ → Array
bit_clear array index = update array (index / 8) (bit_and (array (index / 8)) (255 - mask index))

abbrev pub leaf_size : ℕ
leaf_size = 16

abbrev pub blk_size : ℕ → ℕ
blk_size k = 2 ^ k * leaf_size

-- The loop of firstk(), on fuel; `size` is a uint64.
firstk_loop : ℕ → ℕ → ℕ → ℕ → Option ℕ
firstk_loop zero k size n = none
firstk_loop (suc f) k size n =
    let rest = firstk_loop f (k + 1) (size * 2 % word_size) n in if ltb size n then rest else some k

pub firstk : ℕ → ℕ → Option ℕ
unfolding firstk_loop
firstk fuel n = firstk_loop fuel 0 leaf_size n

-- _log2(), on fuel.
log2_loop : ℕ → ℕ → ℕ → Option ℕ
log2_loop zero k n = none
log2_loop (suc f) k n = let rest = log2_loop f (k + 1) (n / 2) in if ltb 1 n then rest else some k

pub log2 : ℕ → ℕ → Option ℕ
unfolding log2_loop
log2 fuel n = log2_loop fuel 0 n

-- A long stored in an int, as the 64-bit word that the int widens to.
pub int_of : ℕ → ℕ
int_of x = let m = x % 2 ^ 32 in if ltb m (2 ^ 31) then m else m + (2 ^ 64 - 2 ^ 32)

-- The quotient and the remainder of a long by a positive size; those of a negative number are the
-- negatives of those of its magnitude, and the remainder is tested for 0 alone.
pub div_size : ℕ → ℕ → ℕ
div_size x size = if ltb x (2 ^ 63) then x / size else (2 ^ 64 - (2 ^ 64 - x) / size) % 2 ^ 64

pub is_multiple : ℕ → ℕ → Bool
is_multiple x size = if ltb x (2 ^ 63) then x % size == 0 else (2 ^ 64 - x) % size == 0

-- `base` is bd_base.
module _ (base : ℕ) where
  -- p - bd_base, as a word.
  pub offset : ℕ → ℕ
  offset p = (p + 2 ^ 64 - base) % 2 ^ 64

  pub blk_index : ℕ → ℕ → ℕ
  unfolding int_of div_size offset
  blk_index k p = let n = int_of (offset p) in int_of (div_size n (blk_size k))

  pub addr : ℕ → ℕ → ℕ
  unfolding int_of
  addr k bi = let n = int_of (bi * blk_size k) in (base + n) % 2 ^ 64

  pub blk_index_next : ℕ → ℕ → ℕ
  unfolding int_of div_size is_multiple offset
  blk_index_next k p =
      let n = int_of (div_size (offset p) (blk_size k)) in
      if not (is_multiple (offset p) (blk_size k)) then int_of (n + 1) else n
