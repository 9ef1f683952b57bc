-- ===== src/Buddy/Blocks.antt =====
-- Block numbers of the buddy allocator.
use native.Mathlib.Nat.{
  add-mul, mod-lt, mul-add-div_right, div-eq_of_lt, div-div-eq-div-mul, div-le_self,
}
use os_advanced_course.Base.{
  ◌∙◌, lt→ltb, ℕ, ◌+◌, ◌-◌, ◌*◌, ◌/◌, ◌%◌, ◌^◌, ◌<◌, ◌≤◌, ◌≡◌, inl, inr, refl, if◌then◌else◌, arith,
  Bool-cases, not, ◌==◌,
}
use os_advanced_course.Buddy.{
  blk_size, blk_index, addr, blk_index_next, int_of, offset, div_size, is_multiple,
}
use os_advanced_course.Buddy.Sizes.{pow_pos, blk_size-suc}

blk_pos : (k : ℕ) → 0 < blk_size k
blk_pos k = omega (arith, pow_pos k)

number : (base bi off size : ℕ) → off < size → (base + bi * size + off - base) / size ≡ bi
number base bi off size h =
    rw from_base (mul-add-div_right (omega arith) bi off ∙ rw (div-eq_of_lt h) (omega arith))
  where
    from_base : base + bi * size + off - base ≡ bi * size + off
    from_base = omega arith

round_up :
    (base p size : ℕ)
    → 0 < size
    → base ≤ p
    → let q = (p - base) / size in
      let n = (if not ((p - base) % size == 0) then q + 1 else q) in
      (p ≤ base + n * size) × base + n * size < p + size
round_up base p size pos h = elim (Bool-cases ((p - base) % size == 0)) [
  | inl e ↦ rw (e) (ground arith, ground arith)
  | inr e ↦ rw (e) (
    ground (arith, add-mul ((p - base) / size) 1 size, mod-lt (p - base) pos),
    ground (arith, add-mul ((p - base) / size) 1 size),
  )
]

int_of_small : (x : ℕ) → x < 2 ^ 31 → int_of x ≡ x
unfolding int_of
int_of_small x h = ground (arith, h)

offset_lem : (base p : ℕ) → base ≤ p → p < base + 2 ^ 31 → offset base p ≡ p - base
unfolding offset
offset_lem base p h l = omega (arith, h, l)

div_size_small : (x size : ℕ) → x < 2 ^ 31 → div_size x size ≡ x / size
unfolding div_size
div_size_small x size h = rw (lt→ltb x (2 ^ 63) (omega (arith, h))) refl

is_multiple_small : (x size : ℕ) → x < 2 ^ 31 → is_multiple x size ≡ (x % size == 0)
unfolding is_multiple
is_multiple_small x size h = rw (lt→ltb x (2 ^ 63) (omega (arith, h))) refl

addr_lem :
    (base k bi : ℕ)
    → bi * blk_size k < 2 ^ 31
    → base + 2 ^ 31 ≤ 2 ^ 64
    → addr base k bi ≡ base + bi * blk_size k
unfolding addr
addr_lem base k bi h l = rw (int_of_small (bi * blk_size k) h) (omega (arith, h, l))

blk_index_lem :
    (base k p : ℕ) → base ≤ p → p < base + 2 ^ 31 → blk_index base k p ≡ (p - base) / blk_size k
unfolding blk_index
blk_index_lem base k p h l =
    rw
      (
        offset_lem base p h l,
        int_of_small (p - base) (omega (arith, h, l)),
        div_size_small (p - base) (blk_size k) (omega (arith, h, l)),
      )
      (int_of_small ((p - base) / blk_size k)
        (omega (arith, div-le_self (p - base) (blk_size k), h, l)))

blk_index_next_lem :
    (base k p : ℕ)
    → base ≤ p
    → p + blk_size k ≤ base + 2 ^ 31
    → blk_index_next base k p
      ≡ (let q = (p - base) / blk_size k in if not ((p - base) % blk_size k == 0) then q + 1 else q)
unfolding blk_index_next
blk_index_next_lem base k p h l =
    rw
      (
        offset_lem base p h near,
        div_size_small (p - base) (blk_size k) low,
        is_multiple_small (p - base) (blk_size k) low,
        int_of_small ((p - base) / blk_size k) (omega (arith, less, low)),
        int_of_small ((p - base) / blk_size k + 1) (omega (arith, less, h, l, size)),
      )
      refl
  where
    size : 16 ≤ blk_size k
    size = omega (arith, pow_pos k)

    near : p < base + 2 ^ 31
    near = omega (arith, l, size)

    low : p - base < 2 ^ 31
    low = omega (arith, h, near)

    less : (p - base) / blk_size k ≤ p - base
    less = div-le_self (p - base) (blk_size k)

-- A block's number is the number of each address in it; its parent of the next size has half that
-- number.
pub blk_index-addr :
    (base k bi off : ℕ)
    → off < blk_size k
    → bi * blk_size k + off < 2 ^ 31
    → base + 2 ^ 31 ≤ 2 ^ 64
    → (blk_index base k (addr base k bi + off) ≡ bi)
      × (blk_index base (k + 1) (addr base k bi + off) ≡ bi / 2)
blk_index-addr base k bi off h l w = rw (addr_lem base k bi (omega (arith, l)) w) (
  blk_index_lem base k (base + bi * blk_size k + off) (omega arith) (omega (arith, l))
      ∙ number base bi off (blk_size k) h,
  blk_index_lem base (k + 1) (base + bi * blk_size k + off) (omega arith) (omega (arith, l))
      ∙ rw
          (
            blk_size-suc k,
            ← div-div-eq-div-mul (base + bi * blk_size k + off - base) (blk_size k) 2,
            number base bi off (blk_size k) h,
          )
          refl,
)

-- The number of the first block of a size that starts at or after `p`.
abbrev next_number : ℕ → ℕ → ℕ → ℕ
next_number base p size =
    let q = (p - base) / size in if not ((p - base) % size == 0) then q + 1 else q

at_start :
    (base p size : ℕ) → base ≤ p → (p - base) % size ≡ 0 → base + next_number base p size * size ≡ p
at_start base p size h e = rw e (ground (arith, h, e))

-- Of an address at or above the base, with a block's size after it at most 2^31 above the base, and
-- the base at least 2^31 below 2^64: blk_index_next() is the number of the first block that starts
-- at or after the address, so of an address at which a block starts it is that block, and addr() of
-- the number is where the block starts.
pub addr-blk_index_next :
    (base k p : ℕ)
    → base ≤ p
    → p + blk_size k ≤ base + 2 ^ 31
    → base + 2 ^ 31 ≤ 2 ^ 64
    → (p ≤ addr base k (blk_index_next base k p))
      × (addr base k (blk_index_next base k p) < p + blk_size k)
      × ((p - base) % blk_size k ≡ 0 → addr base k (blk_index_next base k p) ≡ p)
addr-blk_index_next base k p h l w =
    let r = round_up base p (blk_size k) (blk_pos k) h in
    rw
      (
        blk_index_next_lem base k p h l,
        addr_lem base k (next_number base p (blk_size k)) (omega (arith, r.1, l)) w,
      )
      (r.0, r.1, λ e. at_start base p (blk_size k) h e)
