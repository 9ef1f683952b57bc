-- ===== src/Printf.antt =====
-- The printing of numbers, printint() of xv6-os/kernel/printf.c and of xv6-os/user/printf.c, and
-- their reading, atoi() of xv6-os/user/ulib.c. Numbers of the machine are patterns of bits. The
-- array of a printint() is a function of the index, so that a store past its end shows as a count
-- above its size.
pub mod Digits
mod Tests
use os_advanced_course.Base.{
  ℕ, zero, suc, ◌+◌, ◌-◌, ◌*◌, ◌/◌, ◌%◌, ◌^◌, Bool, true, false, not, ◌&&◌, List, [], ◌∷◌, leb, ltb,
  ◌==◌, if◌then◌else◌, update,
}

-- The size of the array `buf`, and digits[], whose letters begin at `letter`: the kernel's are
-- small, the user's capital.
abbrev pub buf_size : ℕ
buf_size = 16

abbrev pub digits : ℕ → ℕ → ℕ
digits letter d = if ltb d 10 then b'0' + d else letter + (d - 10)

-- The array and the count of the characters in it.
pub record Text : Type 0 where
  pub buf : ℕ → ℕ
  pub i : ℕ

abbrev pub push : ℕ → Text → Text
push c t = record { buf = update t.buf t.i c; i = t.i + 1 }

-- The loop that stores the digits of `x`, the lowest first; a number of 64 bits has no more than
-- 64 of them.
pub store_digits : ℕ → ℕ → ℕ → ℕ → Text → Text
store_digits letter zero x base t = t
store_digits letter (suc k) x base t =
    let more = store_digits letter k (x / base) base (push (digits letter (x % base)) t) in
    if not (x / base == 0) then more else push (digits letter (x % base)) t

-- The loop that prints the characters, the last one first.
pub print_buf : (ℕ → ℕ) → ℕ → List ℕ
print_buf buf zero = []
print_buf buf (suc i) = buf i ∷ print_buf buf i

-- The characters of a number `xx` of `bits` bits, in the array.
pub text_of : ℕ → ℕ → ℕ → ℕ → Bool → Text
unfolding store_digits
text_of letter bits xx base sign =
    let minus = sign && not (ltb xx (2 ^ (bits - 1))) in
    let x = if minus then (2 ^ bits - xx) % 2 ^ bits else xx in
    let t = store_digits letter 64 x base (record { buf = λ i. 0; i = 0 }) in
    if minus then push b'-' t else t

-- printint() of the kernel, of a long long, and that of the user's library, of an int.
pub printint : ℕ → ℕ → Bool → List ℕ
unfolding text_of print_buf
printint xx base sign =
    print_buf (text_of b'a' 64 xx base sign).buf (text_of b'a' 64 xx base sign).i

pub user_printint : ℕ → ℕ → Bool → List ℕ
unfolding text_of print_buf
user_printint xx base sgn =
    print_buf (text_of b'A' 32 xx base sgn).buf (text_of b'A' 32 xx base sgn).i

-- The loop of atoi(), on the characters before the null.
pub atoi_loop : ℕ → List ℕ → ℕ
atoi_loop n [] = n
atoi_loop n (c ∷ s) =
    let rest = atoi_loop ((n * 10 + c - b'0') % 2 ^ 32) s in
    if leb b'0' c && leb c b'9' then rest else n

pub atoi : List ℕ → ℕ
unfolding atoi_loop
atoi s = atoi_loop 0 s
