-- ===== src/Reply/Access.antt =====
-- What the accessors of `reply` return (sources/core/reply.cpp).
use cpp_redis.Prelude.{
  true, none, some, ◌++◌, append_assoc, append-nil, ◌≡◌, ◌≢◌, refl, arith, Bytes, ℤ, sym,
}
use cpp_redis.Error.{redis_error, undefined, ok, throw}
use cpp_redis.Reply.{
  Reply, Rows, StringType, reply, nil, cons, error, bulk_string, simple_string, null, integer,
  array, push_back, set_null, set_string, set_integer, set_rows, push_row, reply_null, reply_string,
  reply_integer, reply_array, is_array, as_array, as_string, as_integer, error_message, print,
  print_rows, m_rows, m_intval,
}

-- The replies that the public interface builds: by a constructor, then any calls of the setters.
pub data Built : Reply → Type 0 where
  by_null : Built reply_null
  by_string : (value : Bytes) (t : StringType) → Built (reply_string value t)
  by_integer : (value : ℤ) → Built (reply_integer value)
  by_array : (rows : Rows) → Built (reply_array rows)
  then_null : {r : Reply} → Built r → Built (set_null r)
  then_string :
      {r : Reply} → Built r → (value : Bytes) (t : StringType) → Built (set_string r value t)
  then_integer : {r : Reply} → Built r → (value : ℤ) → Built (set_integer r value)
  then_rows : {r : Reply} → Built r → (rows : Rows) → Built (set_rows r rows)
  then_row : {r : Reply} → Built r → (row : Reply) → Built (push_row r row)

abbrev IsDefined : Reply → Type 0
IsDefined (reply integer r s none) = ⊥
IsDefined _ = Unit

Built-IsDefined : {r : Reply} → Built r → IsDefined r
Built-IsDefined by_null = tt
Built-IsDefined (by_string value StringType.error) = tt
Built-IsDefined (by_string value StringType.bulk_string) = tt
Built-IsDefined (by_string value StringType.simple_string) = tt
Built-IsDefined (by_integer value) = tt
Built-IsDefined (by_array rows) = tt
Built-IsDefined (then_null {r = reply t rs s i} b) = tt
Built-IsDefined (then_string {r = reply t rs s i} b value StringType.error) = tt
Built-IsDefined (then_string {r = reply t rs s i} b value StringType.bulk_string) = tt
Built-IsDefined (then_string {r = reply t rs s i} b value StringType.simple_string) = tt
Built-IsDefined (then_integer {r = reply t rs s i} b value) = tt
Built-IsDefined (then_rows {r = reply t rs s i} b rows) = tt
Built-IsDefined (then_row {r = reply t rs s i} b row) = tt

IsDefined-as_integer : (r : Reply) → IsDefined r → as_integer r ≢ throw undefined
unfolding as_integer
IsDefined-as_integer (reply integer rs s none) h e = h
IsDefined-as_integer (reply integer rs s (some n)) h e = cc
IsDefined-as_integer (reply error rs s i) h e = ground arith
IsDefined-as_integer (reply _ rs s i) h e = ground arith

-- A reply that the public interface builds, by a constructor and any calls of the setters, never
-- reads its integer member before it was set.
pub Built-as_integer : (r : Reply) → Built r → as_integer r ≢ throw undefined
Built-as_integer r b = IsDefined-as_integer r (Built-IsDefined b)

-- Of a reply that has just been set to a string of any of the three kinds, the string is read back,
-- the two other accessors throw, `error` returns it exactly for the error kind, and the rows and the
-- integer of the reply are those it had.
pub as_string-set_string :
    (r : Reply) (value : Bytes) (t : StringType)
    → (as_string (set_string r value t) ≡ ok value)
      × (as_array (set_string r value t) ≡ throw (redis_error "Reply is not an array"))
      × (as_integer (set_string r value t) ≡ throw (redis_error "Reply is not an integer"))
      × (error_message (set_string r value t) ≡ elim t [
        | StringType.error ↦ ok value
        | _ ↦ throw (redis_error "Reply is not an error")
      ])
      × (m_rows (set_string r value t) ≡ m_rows r)
      × (m_intval (set_string r value t) ≡ m_intval r)
unfolding as_string as_array as_integer error_message
as_string-set_string (reply ty rs s i) value StringType.error = (refl, refl, refl, refl, refl, refl)
as_string-set_string (reply ty rs s i) value StringType.bulk_string =
    (refl, refl, refl, refl, refl, refl)
as_string-set_string (reply ty rs s i) value StringType.simple_string =
    (refl, refl, refl, refl, refl, refl)

-- The text of the rows grows at its end.
print_rows-push_back :
    (rs : Rows) (x : Reply) → print_rows (push_back rs x) ≡ print_rows rs ++ print x
unfolding print
print_rows-push_back nil x = append-nil (print x)
print_rows-push_back (cons r rs) x =
    rw (print_rows-push_back rs x) (sym (append_assoc (print r) (print_rows rs) (print x)))

-- Adding a row to a reply that is an array appends the row's text to the text that the reply writes,
-- and makes an array of any other reply.
pub print-push_row :
    (r row : Reply)
    → (is_array (push_row r row) ≡ true)
      × (is_array r ≡ true → print (push_row r row) ≡ print r ++ print row)
unfolding print is_array
print-push_row (reply array rs s i) row = (refl, λ h. print_rows-push_back rs row)
print-push_row (reply error rs s i) row = (refl, λ h. cc)
print-push_row (reply bulk_string rs s i) row = (refl, λ h. cc)
print-push_row (reply simple_string rs s i) row = (refl, λ h. cc)
print-push_row (reply null rs s i) row = (refl, λ h. cc)
print-push_row (reply integer rs s i) row = (refl, λ h. cc)
