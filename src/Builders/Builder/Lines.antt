-- ===== src/Builders/Builder/Lines.antt =====
-- The lines of the protocol: what the builders of lines read from the bytes of one.
use cpp_redis.Prelude.{
  ℕ, suc, ◌+◌, ◌-◌, ◌*◌, ◌≤◌, ◌++◌, ◌∙◌, true, [], ◌∷◌, ◌≡◌, refl, arith, Bytes, length, ap, drop,
  take-length, crlf, NoCr, ℤ, pos, negsuc, nat_abs, is_negative, int_to_string, to_string,
  AllDigits, AllDigits-NoCr, value, value-to_string, to_string-AllDigits, find_crlf_line,
}
use cpp_redis.Reply.{StringType, reply_integer, reply_string}
use cpp_redis.Builders.Fed.{returned}
use cpp_redis.Builders.IntegerBuilder.{
  IntegerBuilder, integer_builder, max_int64, get_integer, goes_on, read_digit, read_digits,
  finish_integer, read_integer, feed_integer,
}
use cpp_redis.Builders.SimpleStringBuilder.{simple_string_builder, read_line, feed_simple_string}
use cpp_redis.Builders.ErrorBuilder.{error_builder, line_read, feed_error}

pub drop_line : (s rest : Bytes) → drop (length s + 2) (s ++ (crlf ++ rest)) ≡ rest
drop_line [] rest = refl
drop_line (c ∷ s) rest = ground (arith, drop_line s rest)

value_grows : (front : ℕ) (line : Bytes) → front ≤ value front line
value_grows front [] = omega arith
value_grows front (digit ∷ line) = ground (arith, value_grows (front * 10 + (digit - b'0')) line)

-- A digit that is not the first byte, or any digit at all: the sign is not among them.
read_digit_lem :
    (i c : ℕ) (b : IntegerBuilder)
    → b'0' ≤ c
    → c ≤ b'9'
    → b.nbr * 10 + (c - b'0') ≤ max_int64
    → read_digit i c b ≡ goes_on (record b { nbr = b.nbr * 10 + (c - b'0') })
unfolding read_digit
read_digit_lem i c b lo hi fits = ground arith

read_digits_lem :
    (i : ℕ) (s : Bytes) (b : IntegerBuilder)
    → AllDigits s
    → value b.nbr s ≤ max_int64
    → read_digits i s b ≡ goes_on (record b { nbr = value b.nbr s })
unfolding read_digits
read_digits_lem i [] b d fits = refl
read_digits_lem i (c ∷ s) b (lo, hi, d) fits =
    rw
      (
        read_digit_lem i c b lo hi (omega (arith, value_grows (b.nbr * 10 + (c - b'0')) s, fits)),
        read_digits,
      )
      (read_digits_lem (suc i) s (record b { nbr = b.nbr * 10 + (c - b'0') }) d fits)

-- The builder behind the line of the integer `n`.
abbrev pub integer_read : ℤ → IntegerBuilder
integer_read n = record {
  nbr = nat_abs n;
  negative = is_negative n;
  reply_ready = true;
  reply = reply_integer n;
}

int_to_string-NoCr : (n : ℤ) → NoCr (int_to_string n)
unfolding int_to_string
int_to_string-NoCr (pos n) = AllDigits-NoCr (to_string n) (to_string-AllDigits n)
int_to_string-NoCr (negsuc n) =
    (ground arith, AllDigits-NoCr (to_string (suc n)) (to_string-AllDigits (suc n)))

read_digits-int_to_string :
    (n : ℤ)
    → nat_abs n ≤ max_int64
    → read_digits 0 (int_to_string n) integer_builder
      ≡ goes_on (record integer_builder { nbr = nat_abs n; negative = is_negative n })
unfolding int_to_string
read_digits-int_to_string (pos n) h =
    rw
      (read_digits_lem 0 (to_string n) integer_builder (to_string-AllDigits n)
        (rw (value-to_string n) h))
      (rw (value-to_string n))
read_digits-int_to_string (negsuc n) h =
    read_minus
    ∙ read_digits_lem 1 (to_string (suc n)) (record integer_builder { negative = true })
        (to_string-AllDigits (suc n)) (rw (value-to_string (suc n)) h)
    ∙ ap (λ (k : ℕ). goes_on (record integer_builder { nbr = k; negative = true }))
        (value-to_string (suc n))
  where
    read_minus :
        read_digits 0 (b'-' ∷ to_string (suc n)) integer_builder
        ≡ read_digits 1 (to_string (suc n)) (record integer_builder { negative = true })
    read_minus = unfold read_digits read_digit in refl

get_integer_read :
    (n : ℤ) → get_integer (record integer_builder { nbr = nat_abs n; negative = is_negative n }) ≡ n
unfolding get_integer
get_integer_read (pos n) = refl
get_integer_read (negsuc n) = refl

pub get_integer-integer_read : (n : ℤ) → get_integer (integer_read n) ≡ n
unfolding get_integer
get_integer-integer_read (pos n) = refl
get_integer-integer_read (negsuc n) = refl

pub feed_integer_line :
    (n : ℤ) (rest : Bytes)
    → nat_abs n ≤ max_int64
    → feed_integer integer_builder (int_to_string n ++ (crlf ++ rest))
      ≡ returned (integer_read n) rest
unfolding feed_integer read_integer finish_integer
feed_integer_line n rest h =
    let s = int_to_string n in
    rw (
      find_crlf_line s rest (int_to_string-NoCr n),
      read_integer,
      take-length s (crlf ++ rest),
      read_digits-int_to_string n h,
      finish_integer,
      get_integer_read n,
      drop_line s rest,
    )

pub feed_simple_string_line :
    (s rest : Bytes)
    → NoCr s
    → feed_simple_string simple_string_builder (s ++ (crlf ++ rest))
      ≡ returned
          (record { str = s; reply_ready = true; reply = reply_string s StringType.simple_string })
          rest
unfolding feed_simple_string
feed_simple_string_line s rest h =
    rw (find_crlf_line s rest h)
      (unfold read_line in rw (take-length s (crlf ++ rest), drop_line s rest))

pub feed_error_line :
    (s rest : Bytes)
    → NoCr s
    → feed_error error_builder (s ++ (crlf ++ rest))
      ≡ returned
          (record {
            string_builder = record {
              str = s;
              reply_ready = true;
              reply = reply_string s StringType.simple_string;
            };
            reply = reply_string s StringType.error;
          })
          rest
unfolding feed_error line_read
feed_error_line s rest h = rw (feed_simple_string_line s rest h)
