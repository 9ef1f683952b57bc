-- ===== src/Printf/Digits.antt =====
-- The digits of a number: how many there are, and what atoi() makes of them.
use mathlib.Core.Path.{subst}
use os_advanced_course.Base.{
  ◌↔◌, ℕ, zero, suc, ◌+◌, ◌-◌, ◌*◌, ◌/◌, ◌%◌, ◌^◌, ◌≤◌, ◌<◌, ◌≡◌, ◌≢◌, refl, sym, ap, ◌∙◌, arith,
  true, false, ◌&&◌, List, [], ◌∷◌, ◌++◌, leb, ltb, ◌==◌, Bool-cases, inl, inr, ==_refl, ne→==,
  ==_iff, All,
}
use os_advanced_course.Printf.{
  Text, push, digits, store_digits, print_buf, text_of, user_printint, atoi_loop, atoi, buf_size,
}

-- `c` characters from index `i` on, the last one first.
part : (ℕ → ℕ) → ℕ → ℕ → List ℕ
part buf i zero = []
part buf i (suc c) = buf (i + c) ∷ part buf i c

part-last : (buf : ℕ → ℕ) (i c : ℕ) → part buf i (suc c) ≡ part buf (i + 1) c ++ buf i ∷ []
unfolding part
part-last buf i zero = ap (λ x. x ∷ []) (rw none refl)
  where
    none : i + 0 ≡ i
    none = omega arith
part-last buf i (suc c) = rw (more, sym (part-last buf i c)) refl
  where
    more : i + suc c ≡ i + 1 + c
    more = omega arith

part-print_buf : (buf : ℕ → ℕ) (c : ℕ) → print_buf buf c ≡ part buf 0 c
unfolding part print_buf
part-print_buf buf zero = refl
part-print_buf buf (suc c) = rw (plain, part-print_buf buf c) refl
  where
    plain : 0 + c ≡ c
    plain = omega arith

IsDigit : ℕ → Type 0
IsDigit c = (b'0' ≤ c) × (c ≤ b'9')

digit_test : (d : ℕ) → IsDigit d → (leb b'0' d && leb d b'9') ≡ true
unfolding IsDigit
digit_test d (l, m) = ground (arith, l, m)

atoi_loop-last :
    (n : ℕ) (xs : List ℕ) (d : ℕ)
    → All IsDigit xs
    → IsDigit d
    → atoi_loop n (xs ++ d ∷ []) ≡ (atoi_loop n xs * 10 + d - b'0') % 2 ^ 32
unfolding atoi_loop
atoi_loop-last n [] d h g = rw (digit_test d g) refl
atoi_loop-last n (x ∷ xs) d h g =
    rw (digit_test x h.0) (atoi_loop-last ((n * 10 + x - b'0') % 2 ^ 32) xs d h.1 g)

last-All : (xs : List ℕ) (d : ℕ) → All IsDigit xs → IsDigit d → All IsDigit (xs ++ d ∷ [])
last-All [] d h g = (g, tt)
last-All (x ∷ xs) d h g = (h.0, last-All xs d h.1 g)

abbrev pub pow10 : ℕ → ℕ
pow10 zero = 1
pow10 (suc k) = 10 * pow10 k

-- What store_digits() does of `x` at the base 10: it puts `rest` digits and one more behind the
-- text, as many as `x` needs, and they are the number.
record Stored (x : ℕ) (t u : Text) : Type 0 where
  rest : ℕ
  at : u.i ≡ t.i + suc rest
  kept : (j : ℕ) → j < t.i → u.buf j ≡ t.buf j
  digit : All IsDigit (part u.buf t.i (suc rest))
  value : x < 2 ^ 32 → atoi_loop 0 (part u.buf t.i (suc rest)) ≡ x
  needed : (0 < rest) → pow10 rest ≤ x
  enough : x < pow10 (suc rest)

digit_of : (letter d : ℕ) → d < 10 → (digits letter d ≡ b'0' + d)
digit_of letter d l = ground (arith, l)

digits-IsDigit : (letter d : ℕ) → d < 10 → IsDigit (digits letter d)
unfolding IsDigit
digits-IsDigit letter d l = rw (digit_of letter d l) (omega arith, omega (arith, l))

one-Stored : (letter x : ℕ) (t : Text) → x < 10 → Stored x t (push (digits letter x) t)
unfolding part atoi_loop
one-Stored letter x t l = record {
  rest = 0;
  at = omega arith;
  kept = λ j m. rw (ne→== t.i j (λ e. absurd (omega (arith, e, m)))) refl;
  digit = rw (start, ==_refl t.i) (digits-IsDigit letter x l, tt);
  value = λ b.
      rw
        (
          start,
          ==_refl t.i,
          digit_test (digits letter x) (digits-IsDigit letter x l),
          digit_of letter x l,
        )
        (omega (arith, b));
  needed = λ m. absurd (omega (arith, m));
  enough = l;
}
  where
    start : t.i + 0 ≡ t.i
    start = omega arith

needed_lem : (r x : ℕ) → (0 < r → pow10 r ≤ x / 10) → x / 10 ≢ 0 → 10 * pow10 r ≤ x
needed_lem zero x h z = omega (arith, z)
needed_lem (suc r) x h z = omega (arith, h (omega arith))

left : (k x : ℕ) → x < 10 * pow10 k → x / 10 ≢ 0 → 0 < k
left zero x l z = absurd (omega (arith, l, z))
left (suc k) x l z = omega arith

small : (x : ℕ) → x / 10 ≡ 0 → x % 10 ≡ x
small x z = omega (arith, z)

more-Stored :
    (letter x : ℕ) (t u : Text)
    → x / 10 ≢ 0
    → Stored (x / 10) (push (digits letter (x % 10)) t) u
    → Stored x t u
more-Stored letter x t u z h = record {
  rest = suc h.rest;
  at = h.at ∙ omega arith;
  kept = λ j m.
      h.kept j (omega (arith, m)) ∙ rw (ne→== t.i j (λ e. absurd (omega (arith, e, m)))) refl;
  digit =
      rw (part-last u.buf t.i (suc h.rest))
        (last-All _ (u.buf t.i) h.digit (rw last (digits-IsDigit letter (x % 10) (omega arith))));
  value = λ b.
      rw
        (
          part-last u.buf t.i (suc h.rest),
          atoi_loop-last 0 (part u.buf (t.i + 1) (suc h.rest)) (u.buf t.i) h.digit
              (rw last (digits-IsDigit letter (x % 10) (omega arith))),
          h.value (omega (arith, b)),
          last,
          digit_of letter (x % 10) (omega arith),
        )
        (omega (arith, b));
  needed = λ _. needed_lem h.rest x h.needed z;
  enough = omega (arith, h.enough);
}
  where
    last : u.buf t.i ≡ digits letter (x % 10)
    last = h.kept t.i (omega arith) ∙ rw (==_refl t.i) refl

store_digits-Stored :
    (letter k x : ℕ) (t : Text) → x < pow10 k → 0 < k → Stored x t (store_digits letter k x 10 t)
unfolding store_digits
store_digits-Stored letter zero x t l p = absurd (omega (arith, p))
store_digits-Stored letter (suc k) x t l p = elim (Bool-cases (x / 10 == 0)) [
  | inl z ↦
      rw (z, small x ((==_iff (x / 10) 0).0 z))
        (one-Stored letter x t (omega (arith, (==_iff (x / 10) 0).0 z)))
  | inr nz ↦ rw nz (
      more-Stored letter x t _ (λ e. absurd (ground (arith, e, nz)))
        (store_digits-Stored letter k (x / 10) (push (digits letter (x % 10)) t) (omega (arith, l))
          (left k x l (λ e. absurd (ground (arith, e, nz))))))
]

abbrev empty : Text
empty = record { buf = λ i. 0; i = 0 }

read_back :
    (x : ℕ) (u : Text) → Stored x empty u → x < 2 ^ 32 → atoi_loop 0 (print_buf u.buf u.i) ≡ x
read_back x u h l = rw (part-print_buf u.buf u.i, h.at, plain) (h.value l)
  where
    plain : 0 + suc h.rest ≡ suc h.rest
    plain = omega arith

pow10_mono : (a d : ℕ) → pow10 a ≤ pow10 (d + a)
pow10_mono a zero = rw plain (omega arith)
  where
    plain : 0 + a ≡ a
    plain = omega arith
pow10_mono a (suc d) = rw plain (omega (arith, pow10_mono a d))
  where
    plain : suc d + a ≡ suc (d + a)
    plain = omega arith

pow10_le : (a b : ℕ) → a ≤ b → pow10 a ≤ pow10 b
pow10_le a b l = subst (λ x. pow10 a ≤ pow10 x) (omega (arith, l)) (pow10_mono a (b - a))

fits_lem : (x : ℕ) (u : Text) → Stored x empty u → (u.i ≤ buf_size) ↔ (x < pow10 16)
fits_lem x u h = (
  (λ l. omega (arith, h.enough, pow10_le (suc h.rest) 16 (omega (arith, h.at, l)))),
  (λ l. elim (Bool-cases (ltb h.rest 16)) [
    | inl y ↦ ground (arith, h.at, y)
    | inr y ↦
        absurd
          (omega (arith, l, h.needed (ground (arith, y)), pow10_le 16 h.rest (ground (arith, y))))
  ]),
)

-- What the user's printint() prints of an unsigned int, atoi() reads back.
pub user_printint-atoi : (x : ℕ) → x < 2 ^ 32 → atoi (user_printint x 10 false) ≡ x
unfolding atoi user_printint text_of
user_printint-atoi x l =
    read_back x (store_digits b'A' 64 x 10 empty)
      (store_digits-Stored b'A' 64 x empty (omega arith) (omega arith)) l

-- The array of the kernel's printint() is large enough for an unsigned number at the base 10
-- where it is below 10 ^ 16, and for no other: more characters are stored past its end.
pub text_of_fits :
    (x : ℕ) → x < 2 ^ 64 → ((text_of b'a' 64 x 10 false).i ≤ buf_size) ↔ (x < 10 ^ 16)
unfolding text_of
text_of_fits x l =
    fits_lem x (store_digits b'a' 64 x 10 empty)
      (store_digits-Stored b'a' 64 x empty (omega (arith, l)) (omega arith))
