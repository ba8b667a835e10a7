-- ===== src/Core/Stoi.antt =====
-- `std::stoi` in base 10, which sources/core/sentinel.cpp reads a port with.
use cpp_redis.Prelude.{
  ℕ, ◌+◌, ◌-◌, ◌*◌, ◌≤◌, Bool, true, false, ◌||◌, ◌&&◌, [], ◌∷◌, ◌≡◌, ◌≢◌, refl, arith, Bytes, ltb,
  leb, ◌==◌, if◌then◌else◌, ℤ, pos, negate, to_string, AllDigits, value, value-to_string,
  to_string-AllDigits, to_string-nonempty, ◌∙◌, ap,
}
use cpp_redis.Error.{Result, ok, throw, invalid_argument, out_of_range}
use cpp_redis.Builders.IntegerBuilder.{is_digit}
use cpp_redis.Builders.BulkStringBuilder.{max_int}

-- `std::isspace` in the C locale.
abbrev is_space : ℕ → Bool
is_space c = c == b' ' || (leb 9 c && leb c 13)

abbrev skip_spaces : Bytes → Bytes
skip_spaces [] = []
skip_spaces (c ∷ s) = if is_space c then skip_spaces s else c ∷ s

-- The digits at the front, behind the number `n` that the ones before spell.
unfoldable pub leading_digits : ℕ → Bytes → ℕ
leading_digits n [] = n
leading_digits n (c ∷ s) = elim (is_digit c) [
  | true ↦ leading_digits (n * 10 + (c - b'0')) s
  | false ↦ n
]

-- The range of `int` is checked on the sign and the absolute value.
unfoldable pub to_int_checked : Bool → ℕ → Result ℤ
to_int_checked negative n =
    if ltb (if negative then max_int + 1 else max_int) n
    then throw out_of_range
    else ok (if negative then negate n else pos n)

unfoldable pub signed_digits : Bool → Bytes → Result ℤ
unfolding to_int_checked leading_digits
signed_digits negative [] = throw invalid_argument
signed_digits negative (c ∷ s) =
    if is_digit c
    then to_int_checked negative (leading_digits 0 (c ∷ s))
    else throw invalid_argument

unfoldable pub stoi_sign : Bytes → Result ℤ
unfolding signed_digits
stoi_sign [] = throw invalid_argument
stoi_sign (c ∷ s) =
    if c == b'-'
    then signed_digits true s
    else if c == b'+'
    then signed_digits false s
    else signed_digits false (c ∷ s)

unfoldable pub stoi : Bytes → Result ℤ
unfolding stoi_sign
stoi s = stoi_sign (skip_spaces s)

leading_digits_lem : (s : Bytes) (n : ℕ) → AllDigits s → leading_digits n s ≡ value n s
unfolding leading_digits
leading_digits_lem [] n d = refl
leading_digits_lem (c ∷ s) n (lo, hi, d) =
    ground (arith, leading_digits_lem s (n * 10 + (c - b'0')) d)

stoi_digits :
    (s : Bytes) → s ≢ [] → AllDigits s → value 0 s ≤ max_int → stoi s ≡ ok (pos (value 0 s))
unfolding stoi stoi_sign signed_digits to_int_checked
stoi_digits [] ne d h = absurd (ne refl)
stoi_digits (c ∷ s) ne (lo, hi, d) h = ground (arith, leading_digits_lem (c ∷ s) 0 (lo, hi, d))

-- Every number in the range of `int` is read back from its print.
pub stoi-to_string : (n : ℕ) → n ≤ max_int → stoi (to_string n) ≡ ok (pos n)
stoi-to_string n h =
    stoi_digits (to_string n) (to_string-nonempty n) (to_string-AllDigits n)
      (ground (arith, value-to_string n))
    ∙ ap (λ k. ok (pos k)) (value-to_string n)
