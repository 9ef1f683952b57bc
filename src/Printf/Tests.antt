-- ===== src/Printf/Tests.antt =====
-- Numbers printed and read.
use os_advanced_course.Base.{◌-◌, ◌≡◌, ◌≤◌, ◌<◌, ◌^◌, refl, [], ◌∷◌, true, false, arith, ◌↔◌}
use os_advanced_course.Printf.{printint, user_printint, atoi, text_of, buf_size}
use os_advanced_course.Printf.Digits.{user_printint-atoi, text_of_fits}

user_printint-atoi_example : atoi (user_printint 40967 10 false) ≡ 40967
user_printint-atoi_example = user_printint-atoi 40967 (omega arith)

text_of_fits_example : ((text_of b'a' 64 (2 ^ 63) 10 false).i ≤ buf_size) ↔ (2 ^ 63 < 10 ^ 16)
text_of_fits_example = text_of_fits (2 ^ 63) (omega arith)

minus_five : printint (2 ^ 64 - 5) 10 true ≡ b'-' ∷ b'5' ∷ []
unfolding printint
minus_five = refl

in_hex : user_printint 255 16 false ≡ b'F' ∷ b'F' ∷ []
unfolding user_printint
in_hex = refl

seventeen : (text_of b'a' 64 (10 ^ 16) 10 false).i ≡ 17
unfolding text_of
seventeen = refl
