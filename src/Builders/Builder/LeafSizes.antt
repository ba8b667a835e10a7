-- ===== src/Builders/Builder/LeafSizes.antt =====
-- No builder of a line or a string grows the buffer (sources/builders).
use cpp_redis.Builders.ErrorBuilder.{line_read, feed_error, ErrorBuilder}
use cpp_redis.Prelude.{
  ℕ, ◌+◌, ◌≤◌, Option, none, some, arith, Bytes, length, length-drop, ℤ, find_crlf, take,
}
use cpp_redis.Builders.Fed.{Fetched}
use cpp_redis.Builders.IntegerBuilder.{
  IntegerBuilder, Round, goes_on, throws, finish_integer, read_integer, read_digits, feed_integer,
}
use cpp_redis.Builders.SimpleStringBuilder.{SimpleStringBuilder, read_line, feed_simple_string}
use cpp_redis.Builders.BulkStringBuilder.{
  BulkStringBuilder, feed_bulk_string, fetch_size, size_known, fetch_str, take_str,
}
use cpp_redis.Builders.Builder.{ArrayBuilder, fetch_array_size, array_size_fed, feed_error}

finish_integer-shrinks :
    (e : ℕ) (buffer : Bytes) (r : Round) → length (finish_integer e buffer r).buffer ≤ length buffer
unfolding finish_integer
finish_integer-shrinks e buffer (goes_on b) = omega (arith, length-drop (e + 2) buffer)
finish_integer-shrinks e buffer (throws b x) = omega arith

read_integer-shrinks :
    (b : IntegerBuilder) (buffer : Bytes) (o : Option ℕ)
    → length (read_integer b buffer o).buffer ≤ length buffer
unfolding read_integer
read_integer-shrinks b buffer none = omega arith
read_integer-shrinks b buffer (some e) =
    finish_integer-shrinks e buffer (read_digits 0 (take e buffer) b)

pub feed_integer-shrinks :
    (b : IntegerBuilder) (buffer : Bytes) → length (feed_integer b buffer).buffer ≤ length buffer
unfolding feed_integer
feed_integer-shrinks b buffer = ground (arith, read_integer-shrinks b buffer (find_crlf buffer))

read_line-shrinks :
    (b : SimpleStringBuilder) (buffer : Bytes) (o : Option ℕ)
    → length (read_line b buffer o).buffer ≤ length buffer
unfolding read_line
read_line-shrinks b buffer none = omega arith
read_line-shrinks b buffer (some e) = omega (arith, length-drop (e + 2) buffer)

pub feed_simple_string-shrinks :
    (b : SimpleStringBuilder) (buffer : Bytes)
    → length (feed_simple_string b buffer).buffer ≤ length buffer
unfolding feed_simple_string
feed_simple_string-shrinks b buffer = ground (arith, read_line-shrinks b buffer (find_crlf buffer))

pub feed_error-shrinks :
    (b : ErrorBuilder) (buffer : Bytes) → length (feed_error b buffer).buffer ≤ length buffer
unfolding feed_error line_read
feed_error-shrinks b buffer = feed_simple_string-shrinks b.string_builder buffer

fetch_size-shrinks :
    (b : BulkStringBuilder) (buffer : Bytes)
    → length (fetch_size b buffer).fed.buffer ≤ length buffer
unfolding fetch_size
fetch_size-shrinks b buffer = ground (arith, feed_integer-shrinks b.int_builder buffer)

take_str-shrinks :
    (b : BulkStringBuilder) (buffer : Bytes) (n : ℤ)
    → length (take_str b buffer n).buffer ≤ length buffer
unfolding take_str
take_str-shrinks b buffer (ℤ.pos n) = ground (arith, length-drop (n + 2) buffer)
take_str-shrinks b buffer (ℤ.negsuc n) = omega arith

fetch_str-shrinks :
    (b : BulkStringBuilder) (buffer : Bytes) → length (fetch_str b buffer).buffer ≤ length buffer
unfolding fetch_str
fetch_str-shrinks b buffer = ground (arith, take_str-shrinks b buffer b.str_size)

size_known-shrinks :
    (r : Fetched BulkStringBuilder) → length (size_known r).buffer ≤ length r.fed.buffer
unfolding size_known
size_known-shrinks r = ground (arith, fetch_str-shrinks r.fed.builder r.fed.buffer)

pub feed_bulk_string-shrinks :
    (b : BulkStringBuilder) (buffer : Bytes)
    → length (feed_bulk_string b buffer).buffer ≤ length buffer
unfolding feed_bulk_string
feed_bulk_string-shrinks b buffer =
    ground (arith, size_known-shrinks (fetch_size b buffer), fetch_size-shrinks b buffer)

pub fetch_array_size-shrinks :
    (a : ArrayBuilder) (buffer : Bytes)
    → length (fetch_array_size a buffer).fed.buffer ≤ length buffer
unfolding fetch_array_size array_size_fed
fetch_array_size-shrinks a buffer = ground (arith, feed_integer-shrinks a.int_builder buffer)
