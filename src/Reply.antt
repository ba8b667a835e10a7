-- ===== src/Reply.antt =====
-- The class `reply` (includes/cpp_redis/core/reply.hpp, sources/core/reply.cpp).
pub mod Access
use cpp_redis.Prelude.{
  ℕ, zero, suc, ◌+◌, Bool, true, false, not, ◌&&◌, ◌||◌, Option, none, some, [], ◌++◌, Bytes, codes,
  ℤ, pos, int_to_string, if◌then◌else◌, to_string,
}
use cpp_redis.Error.{Exception, redis_error, undefined, Result, ok, throw, ◌>>=◌}

-- `reply::type`
pub data ReplyType : Type 0 where
  error bulk_string simple_string null integer array : ReplyType

-- `reply::string_type`
pub data StringType : Type 0 where
  error bulk_string simple_string : StringType

-- The members `m_type`, `m_rows`, `m_strval` and `m_intval`. `m_intval` has no initialiser, so it is
-- `none` until it is set.
mutual
  pub data Reply : Type 0 where
    reply : ReplyType → Rows → Bytes → Option ℤ → Reply

  -- `std::vector<reply>`
  pub data Rows : Type 0 where
    nil : Rows
    cons : Reply → Rows → Rows

abbrev pub m_type : Reply → ReplyType
m_type (reply t r s i) = t

abbrev pub m_rows : Reply → Rows
m_rows (reply t r s i) = r

abbrev pub m_strval : Reply → Bytes
m_strval (reply t r s i) = s

abbrev pub m_intval : Reply → Option ℤ
m_intval (reply t r s i) = i

-- `push_back`, `size` and `operator[]` of the vector of rows
abbrev pub push_back : Rows → Reply → Rows
push_back nil x = cons x nil
push_back (cons r rs) x = cons r (push_back rs x)

abbrev pub size : Rows → ℕ
size nil = 0
size (cons r rs) = suc (size rs)

abbrev pub row? : Rows → ℕ → Option Reply
row? nil i = none
row? (cons r rs) zero = some r
row? (cons r rs) (suc i) = row? rs i

-- `static_cast<type>(reply_type)`: the two enumerations share their values.
abbrev pub static_cast : StringType → ReplyType
static_cast StringType.error = ReplyType.error
static_cast StringType.bulk_string = ReplyType.bulk_string
static_cast StringType.simple_string = ReplyType.simple_string

-- The constructors.
abbrev pub reply_null : Reply
reply_null = reply null nil [] none

abbrev pub reply_string : Bytes → StringType → Reply
reply_string value t = reply (static_cast t) nil value none

abbrev pub reply_integer : ℤ → Reply
reply_integer value = reply integer nil [] (some value)

abbrev pub reply_array : Rows → Reply
reply_array rows = reply array rows [] none

-- The setters: each changes the type and its own member, and leaves the others.
abbrev pub set_null : Reply → Reply
set_null (reply t r s i) = reply null r s i

abbrev pub set_string : Reply → Bytes → StringType → Reply
set_string (reply t r s i) value st = reply (static_cast st) r value i

abbrev pub set_integer : Reply → ℤ → Reply
set_integer (reply t r s i) value = reply integer r s (some value)

abbrev pub set_rows : Reply → Rows → Reply
set_rows (reply t r s i) rows = reply array rows s i

-- `operator<<`
abbrev pub push_row : Reply → Reply → Reply
push_row (reply t r s i) row = reply array (push_back r row) s i

-- The tests on the type.
unfoldable pub is_array : Reply → Bool
is_array r = elim (m_type r) [ array ↦ true | _ ↦ false ]

unfoldable pub is_simple_string : Reply → Bool
is_simple_string r = elim (m_type r) [ simple_string ↦ true | _ ↦ false ]

unfoldable pub is_bulk_string : Reply → Bool
is_bulk_string r = elim (m_type r) [ bulk_string ↦ true | _ ↦ false ]

unfoldable pub is_error : Reply → Bool
is_error r = elim (m_type r) [ error ↦ true | _ ↦ false ]

unfoldable pub is_integer : Reply → Bool
is_integer r = elim (m_type r) [ integer ↦ true | _ ↦ false ]

unfoldable pub is_null : Reply → Bool
is_null r = elim (m_type r) [ null ↦ true | _ ↦ false ]

unfoldable pub is_string : Reply → Bool
unfolding is_simple_string is_bulk_string is_error
is_string r = is_simple_string r || (is_bulk_string r || is_error r)

-- `ok`, `ko` and the conversion to `bool`
unfoldable pub is_ok : Reply → Bool
unfolding is_error
is_ok r = not (is_error r)

unfoldable pub is_ko : Reply → Bool
unfolding is_ok
is_ko r = not (is_ok r)

unfoldable pub to_bool : Reply → Bool
unfolding is_error is_null
to_bool r = not (is_error r) && not (is_null r)

-- The value of `m_intval`: to read it before it was set is undefined.
abbrev read_intval : Option ℤ → Result ℤ
read_intval none = throw undefined
read_intval (some n) = ok n

-- The accessors.
unfoldable pub as_array : Reply → Result Rows
unfolding is_array
as_array r = if is_array r then ok (m_rows r) else throw (redis_error "Reply is not an array")

unfoldable pub as_string : Reply → Result Bytes
unfolding is_string
as_string r = if is_string r then ok (m_strval r) else throw (redis_error "Reply is not a string")

unfoldable pub as_integer : Reply → Result ℤ
unfolding is_integer
as_integer r =
    if is_integer r then read_intval (m_intval r) else throw (redis_error "Reply is not an integer")

unfoldable pub error_message : Reply → Result Bytes
unfolding is_error as_string
error_message r = if is_error r then as_string r else throw (redis_error "Reply is not an error")

-- `operator<<(std::ostream&, const reply&)`: the text that is written. An integer that was never set
-- writes nothing here; no reply is built so (`Access`).
unfoldable mutual
  unfolding int_to_string to_string

  pub print : Reply → Bytes
  print (reply error r s i) = s
  print (reply bulk_string r s i) = s
  print (reply simple_string r s i) = s
  print (reply null r s i) = codes "(nil)"
  print (reply integer r s none) = []
  print (reply integer r s (some n)) = int_to_string n
  print (reply array r s i) = print_rows r

  pub print_rows : Rows → Bytes
  print_rows nil = []
  print_rows (cons x xs) = print x ++ print_rows xs
