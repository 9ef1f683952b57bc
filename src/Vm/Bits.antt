-- ===== src/Vm/Bits.antt =====
-- The flags and the page number of an entry that is put together with `|`.
use Prim.Native.Nat.{bit_or, bit_or-bitwise, digits, max}
use os_advanced_course.Base.{
  ℕ, zero, suc, ◌+◌, ◌*◌, ◌/◌, ◌%◌, ◌^◌, ◌≤◌, ◌<◌, ◌≡◌, refl, ◌∙◌, ap, true, arith, sym,
}
use os_advanced_course.Riscv.{pgsize}
use os_advanced_course.Vm.{pa2pte, pte2pa, pte_v, has_flag, pte_u}

abbrev merged : ℕ → ℕ → ℕ → ℕ
merged n a b = digits (λ b. b) max n a b

bit_or-merged : (a b : ℕ) → bit_or a b ≡ merged a a b
bit_or-merged a b = bit_or-bitwise a b

merged_none : (n b : ℕ) → merged n 0 b ≡ b
merged_none zero b = refl
merged_none (suc n) b = refl

-- Any count of digits that is large enough gives the same.
merged_stable : (n m a b : ℕ) → a ≤ n → a ≤ m → merged n a b ≡ merged m a b
merged_stable n m zero b l k = rw (merged_none n b, merged_none m b) refl
merged_stable (suc n) (suc m) (suc a) b l k =
    ap (λ x. x * 2 + max (suc a % 2) (b % 2))
      (merged_stable n m (suc a / 2) (b / 2) (omega arith) (omega arith))
merged_stable zero m (suc a) b l k = absurd (omega arith)
merged_stable (suc n) zero (suc a) b l k = absurd (omega arith)

max_bit : (a b : ℕ) → max (a % 2) (b % 2) < 2
max_bit a b = ground arith

max_zero : (a : ℕ) → max a 0 ≡ a
max_zero a = omega arith

merged_zero : (n a : ℕ) → a ≤ n → merged n a 0 ≡ a
merged_zero n zero l = merged_none n 0
merged_zero zero (suc a) l = absurd (omega arith)
merged_zero (suc n) (suc a) l =
    rw (merged_zero n (suc a / 2) (omega arith), max_zero (suc a % 2)) (omega arith)

bit_or-suc : (a b : ℕ) → bit_or (suc a) b ≡ bit_or (suc a / 2) (b / 2) * 2 + max (suc a % 2) (b % 2)
bit_or-suc a b =
    rw (bit_or-merged (suc a) b, bit_or-merged (suc a / 2) (b / 2))
      (ap (λ x. x * 2 + max (suc a % 2) (b % 2))
        (merged_stable a (suc a / 2) (suc a / 2) (b / 2) (omega arith) (omega arith)))

pub bit_or_zero : (a : ℕ) → bit_or a 0 ≡ a
bit_or_zero a = bit_or-merged a 0 ∙ merged_zero a a (omega arith)

bit_or_none : (b : ℕ) → bit_or 0 b ≡ b
bit_or_none b = bit_or-merged 0 b

bit_or_half : (a b : ℕ) → bit_or a b / 2 ≡ bit_or (a / 2) (b / 2)
bit_or_half zero b = rw (bit_or_none b, bit_or_none (b / 2)) refl
bit_or_half (suc a) b = rw (bit_or-suc a b) (omega (arith, max_bit (suc a) b))

bit_or_low : (a b : ℕ) → bit_or a b % 2 ≡ max (a % 2) (b % 2)
bit_or_low zero b = rw (bit_or_none b) (omega arith)
bit_or_low (suc a) b = rw (bit_or-suc a b) (omega (arith, max_bit (suc a) b))

-- The number without its lowest `k` digits.
abbrev shifted : ℕ → ℕ → ℕ
shifted zero x = x
shifted (suc k) x = shifted k (x / 2)

shifted-bit_or : (k a b : ℕ) → shifted k (bit_or a b) ≡ bit_or (shifted k a) (shifted k b)
shifted-bit_or zero a b = refl
shifted-bit_or (suc k) a b = ap (shifted k) (bit_or_half a b) ∙ shifted-bit_or k (a / 2) (b / 2)

shifted_4 : (x : ℕ) → shifted 4 x ≡ x / 16
shifted_4 x = omega arith

shifted_10 : (x : ℕ) → shifted 10 x ≡ x / 2 ^ 10
shifted_10 x = omega arith

bit_or_10 : (a b : ℕ) → bit_or a b / 2 ^ 10 ≡ bit_or (a / 2 ^ 10) (b / 2 ^ 10)
bit_or_10 a b =
    rw (sym (shifted_10 (bit_or a b)), sym (shifted_10 a), sym (shifted_10 b))
      (shifted-bit_or 10 a b)

bit_or_4 : (a b : ℕ) → bit_or a b / 16 % 2 ≡ max (a / 16 % 2) (b / 16 % 2)
bit_or_4 a b =
    ap (λ x. x % 2)
      (sym (shifted_4 (bit_or a b)) ∙ shifted-bit_or 4 a b ∙ rw (shifted_4 a, shifted_4 b) refl)
    ∙ bit_or_low (a / 16) (b / 16)

-- An entry of mappages(), and of walk() where `perm` is 0.
abbrev pub entry : ℕ → ℕ → ℕ
entry pa perm = bit_or (bit_or (pa2pte pa) perm) pte_v

pub entry_valid : (pa perm : ℕ) → has_flag (entry pa perm) pte_v ≡ true
entry_valid pa perm = ground (arith, bit_or_low (bit_or (pa2pte pa) perm) pte_v)

entry_number : (pa perm : ℕ) → perm < 2 ^ 10 → entry pa perm / 2 ^ 10 ≡ pa2pte pa / 2 ^ 10
entry_number pa perm small =
    bit_or_10 (bit_or (pa2pte pa) perm) pte_v
    ∙ bit_or_zero _
    ∙ bit_or_10 (pa2pte pa) perm
    ∙ ap (bit_or (pa2pte pa / 2 ^ 10)) flags_only
    ∙ bit_or_zero _
  where
    flags_only : perm / 2 ^ 10 ≡ 0
    flags_only = omega arith

pub pte2pa-entry :
    (pa perm : ℕ) → pa % pgsize ≡ 0 → pa < 2 ^ 56 → perm < 2 ^ 10 → pte2pa (entry pa perm) ≡ pa
pte2pa-entry pa perm al lt small = omega (arith, entry_number pa perm small)

pub entry_user :
    (pa perm : ℕ) → pa < 2 ^ 56 → has_flag perm pte_u ≡ true → has_flag (entry pa perm) pte_u ≡ true
entry_user pa perm lt u =
    ground (arith, bit_or_4 (bit_or (pa2pte pa) perm) pte_v, bit_or_4 (pa2pte pa) perm)
