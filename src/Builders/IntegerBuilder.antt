-- ===== src/Builders/IntegerBuilder.antt =====
-- The class `integer_builder` (sources/builders/integer_builder.cpp).
use cpp_redis.Prelude.{
  ℕ, suc, ◌+◌, ◌-◌, ◌*◌, ◌^◌, Bool, true, false, not, ◌&&◌, Option, none, some, [], ◌∷◌, Bytes, ltb,
  leb, ◌==◌, if◌then◌else◌, ℤ, pos, negate, find_crlf, take, drop,
}
use cpp_redis.Error.{Exception, redis_error, undefined}
use cpp_redis.Reply.{Reply, reply_null, set_integer}
use cpp_redis.Builders.Fed.{Fed, returned, threw}

abbrev pub max_int64 : ℕ
max_int64 = 2 ^ 63 - 1

-- `m_nbr` never falls below 0, so it is a number; `negative` stands for an
-- `m_negative_multiplicator` of -1.
pub record IntegerBuilder : Type 0 where
  pub nbr : ℕ
  pub negative : Bool
  pub reply_ready : Bool
  pub reply : Reply

abbrev pub integer_builder : IntegerBuilder
integer_builder = record { nbr = 0; negative = false; reply_ready = false; reply = reply_null }

unfoldable pub get_integer : IntegerBuilder → ℤ
get_integer b = if b.negative then negate b.nbr else pos b.nbr

-- `std::isdigit` in the C locale.
abbrev pub is_digit : ℕ → Bool
is_digit c = leb b'0' c && leb c b'9'

-- One round of the loop over the line goes on or throws.
pub data Round : Type 0 where
  goes_on : IntegerBuilder → Round
  throws : IntegerBuilder → Exception → Round

-- The body of the loop, at the byte `c` of index `i`. A byte from 128 is a negative `char`, on which
-- `std::isdigit` is undefined. The product and the sum are computed in `int64_t`, where an overflow
-- is undefined.
unfoldable pub read_digit : ℕ → ℕ → IntegerBuilder → Round
read_digit i c b =
    if i == 0 && (not b.negative && c == b'-')
    then goes_on (record b { negative = true })
    else if leb 128 c
    then throws b undefined
    else if not (is_digit c)
    then throws b (redis_error "Invalid character for integer redis reply")
    else if ltb max_int64 (b.nbr * 10 + (c - b'0'))
    then throws b undefined
    else goes_on (record b { nbr = b.nbr * 10 + (c - b'0') })

-- The loop, over the bytes before the end of the line.
unfoldable pub read_digits : ℕ → Bytes → IntegerBuilder → Round
read_digits i [] b = goes_on b
read_digits i (c ∷ cs) b = elim (read_digit i c b) [
  | goes_on b' ↦ read_digits (suc i) cs b'
  | throws b' e ↦ throws b' e
]

unfoldable pub finish_integer : ℕ → Bytes → Round → Fed IntegerBuilder
finish_integer end_sequence buffer (throws b e) = threw b buffer e
finish_integer end_sequence buffer (goes_on b) =
    returned (record b { reply_ready = true; reply = set_integer b.reply (get_integer b) })
      (drop (end_sequence + 2) buffer)

unfoldable pub read_integer : IntegerBuilder → Bytes → Option ℕ → Fed IntegerBuilder
read_integer b buffer none = returned b buffer
read_integer b buffer (some end_sequence) =
    finish_integer end_sequence buffer (read_digits 0 (take end_sequence buffer) b)

-- `operator<<`
unfoldable pub feed_integer : IntegerBuilder → Bytes → Fed IntegerBuilder
unfolding read_integer
feed_integer b buffer =
    if b.reply_ready then returned b buffer else read_integer b buffer (find_crlf buffer)
