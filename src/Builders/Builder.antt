-- ===== src/Builders/Builder.antt =====
-- The classes behind `builder_iface`, `create_builder` and the class `array_builder`, which holds a
-- builder of any class (sources/builders/builders_factory.cpp, sources/builders/array_builder.cpp).
pub mod LeafSizes
pub mod Potential
pub mod Fuel
pub mod Ends
pub mod Ready
pub mod Leaves
pub mod Resume
pub mod Rows
pub mod ArrayChunks
pub mod Chunks
pub mod Lines
pub mod BulkStrings
pub mod Arrays
pub mod RoundTrip
use cpp_redis.Prelude.{
  ℕ, zero, suc, ◌+◌, Bool, true, false, not, ◌||◌, Option, none, some, [], ◌∷◌, Bytes, ltb, ◌==◌,
  is_negative, if◌then◌else◌, ℤ, length, nat_abs, pos, find_crlf,
}
use cpp_redis.Error.{Exception, redis_error, undefined, out_of_fuel, Result, ok, throw}
use cpp_redis.Reply.{Reply, nil, reply_array, set_null, push_row, size, m_rows}
use cpp_redis.Builders.Fed.{Fed, Fetched, returned, threw, is_some, map_builder}
use cpp_redis.Builders.IntegerBuilder.{
  IntegerBuilder, integer_builder, get_integer, feed_integer, read_digits, read_digit,
  finish_integer,
}
use cpp_redis.Builders.SimpleStringBuilder.{
  SimpleStringBuilder, simple_string_builder, feed_simple_string,
}
use cpp_redis.Builders.ErrorBuilder.{ErrorBuilder, error_builder, feed_error}
use cpp_redis.Builders.BulkStringBuilder.{
  BulkStringBuilder, bulk_string_builder, feed_bulk_string, to_size,
}

-- The members of `array_builder` but for `m_current_builder`. `m_array_size` has no initialiser; it
-- is read only behind `fetch_array_size`, which sets it.
pub record ArrayBuilder : Type 0 where
  pub int_builder : IntegerBuilder
  pub array_size : ℕ
  pub reply_ready : Bool
  pub reply : Reply

abbrev pub array_builder : ArrayBuilder
array_builder = record {
  int_builder = integer_builder;
  array_size = 0;
  reply_ready = false;
  reply = reply_array nil;
}

-- A `builder_iface`, by its class. An array builder with a current builder is `array_row`, with a
-- null pointer there it is `array`.
pub data Builder : Type 0 where
  simple_string : SimpleStringBuilder → Builder
  error : ErrorBuilder → Builder
  integer : IntegerBuilder → Builder
  bulk_string : BulkStringBuilder → Builder
  array : ArrayBuilder → Builder
  array_row : ArrayBuilder → Builder → Builder

-- `reply_ready()` and `get_reply()`, by dynamic dispatch
abbrev pub reply_ready : Builder → Bool
reply_ready (simple_string b) = b.reply_ready
reply_ready (error b) = b.string_builder.reply_ready
reply_ready (integer b) = b.reply_ready
reply_ready (bulk_string b) = b.reply_ready
reply_ready (array a) = a.reply_ready
reply_ready (array_row a c) = a.reply_ready

abbrev pub get_reply : Builder → Reply
get_reply (simple_string b) = b.reply
get_reply (error b) = b.reply
get_reply (integer b) = b.reply
get_reply (bulk_string b) = b.reply
get_reply (array a) = a.reply
get_reply (array_row a c) = a.reply

unfoldable pub create_builder : ℕ → Result Builder
create_builder id =
    if id == b'+'
    then ok (simple_string simple_string_builder)
    else if id == b'-'
    then ok (error error_builder)
    else if id == b':'
    then ok (integer integer_builder)
    else if id == b'$'
    then ok (bulk_string bulk_string_builder)
    else if id == b'*'
    then ok (array array_builder)
    else throw (redis_error "Invalid data")

-- Behind the size line: a negative size makes a null reply, and no row follows it or a size of 0.
unfoldable pub array_sized : ArrayBuilder → ℤ → ArrayBuilder
unfolding to_size
array_sized a n =
    if is_negative n
    then record a { array_size = to_size n; reply_ready = true; reply = set_null a.reply }
    else if nat_abs n == 0
    then record a { array_size = to_size n; reply_ready = true }
    else record a { array_size = to_size n }

unfoldable pub array_size_fed : ArrayBuilder → Fed IntegerBuilder → Fetched ArrayBuilder
array_size_fed a f =
    let a' = record a { int_builder = f.builder } in
    if is_some f.thrown || not f.builder.reply_ready
    then record {
      fed = record { builder = a'; buffer = f.buffer; thrown = f.thrown };
      done = false;
    }
    else record { fed = returned (array_sized a' (get_integer f.builder)) f.buffer; done = true }

unfoldable pub fetch_array_size : ArrayBuilder → Bytes → Fetched ArrayBuilder
fetch_array_size a buffer =
    if a.int_builder.reply_ready
    then record { fed = returned a buffer; done = true }
    else array_size_fed a (feed_integer a.int_builder buffer)

-- The array builder with its pointer.
abbrev pub with_current : ArrayBuilder → Option Builder → Builder
with_current a none = array a
with_current a (some c) = array_row a c

-- What `build_row` leaves: the members with the pointer, the buffer, and how it ended.
pub record Row : Type 0 where
  pub array : ArrayBuilder
  pub current : Option Builder
  pub buffer : Bytes
  pub thrown : Option Exception
  pub built : Bool

abbrev pub stopped : Row → Fed Builder
stopped r = record {
  builder = with_current r.array r.current;
  buffer = r.buffer;
  thrown = r.thrown;
}

-- A row is complete: it is added, and the last one completes the array.
unfoldable pub add_row : ArrayBuilder → Reply → ArrayBuilder
add_row a row =
    let rows = push_row a.reply row in
    record a {
      reply = rows;
      reply_ready = if size (m_rows rows) == a.array_size then true else a.reply_ready;
    }

-- `build_row` behind its call of the current builder's `operator<<`.
unfoldable pub row_fed : ArrayBuilder → Fed Builder → Row
unfolding add_row
row_fed a f =
    if is_some f.thrown || not (reply_ready f.builder)
    then record {
      array = a;
      current = some f.builder;
      buffer = f.buffer;
      thrown = f.thrown;
      built = false;
    }
    else record {
      array = add_row a (get_reply f.builder);
      current = none;
      buffer = f.buffer;
      thrown = none;
      built = true;
    }

-- After a round of the loop: `next` is the loop.
unfoldable pub after_row : (ArrayBuilder → Option Builder → Bytes → Fed Builder) → Row → Fed Builder
after_row next r = if r.built then next r.array r.current r.buffer else stopped r

-- `rec` is the `operator<<` of the builders of the rows.
module _ (rec : Builder → Bytes → Fed Builder) where
  -- `build_row` with no current builder, at the first byte of the buffer.
  unfoldable pub start_row : ArrayBuilder → ℕ → Bytes → Result Builder → Row
  unfolding row_fed
  start_row a id rest (throw e) = record {
    array = a;
    current = none;
    buffer = id ∷ rest;
    thrown = some e;
    built = false;
  }
  start_row a id rest (ok c) = row_fed a (rec c rest)

  unfoldable pub build_row : ArrayBuilder → Option Builder → Bytes → Row
  unfolding create_builder start_row row_fed
  build_row a (some c) buffer = row_fed a (rec c buffer)
  build_row a none [] = record {
    array = a;
    current = none;
    buffer = [];
    thrown = some undefined;
    built = false;
  }
  build_row a none (id ∷ rest) = start_row a id rest (create_builder id)

  -- `while (buffer.size() && !m_reply_ready)`
  unfoldable pub build_rows : ℕ → ArrayBuilder → Option Builder → Bytes → Fed Builder
  unfolding build_row after_row
  build_rows zero a c buffer = threw (with_current a c) buffer out_of_fuel
  build_rows (suc n) a c [] = returned (with_current a c) []
  build_rows (suc n) a c (x ∷ buffer) =
      if a.reply_ready
      then returned (with_current a c) (x ∷ buffer)
      else after_row (build_rows n) (build_row a c (x ∷ buffer))

  -- Each round but the first consumes a byte, so this many rounds are enough.
  unfoldable pub array_size_known : Option Builder → Fetched ArrayBuilder → Fed Builder
  unfolding build_rows
  array_size_known c r =
      if is_some r.fed.thrown || not r.done
      then map_builder (λ a. with_current a c) r.fed
      else build_rows (suc (suc (length r.fed.buffer))) r.fed.builder c r.fed.buffer

  -- `array_builder::operator<<`
  unfoldable pub feed_array : ArrayBuilder → Option Builder → Bytes → Fed Builder
  unfolding fetch_array_size array_size_known
  feed_array a c buffer =
      if a.reply_ready
      then returned (with_current a c) buffer
      else array_size_known c (fetch_array_size a buffer)

-- `builder_iface::operator<<`, by dynamic dispatch, on as many levels of nested arrays as the first
-- argument says.
unfoldable pub feed_builder : ℕ → Builder → Bytes → Fed Builder
unfolding feed_simple_string feed_error feed_integer feed_bulk_string feed_array array_size_fed
    array_sized find_crlf read_digits read_digit finish_integer get_integer
feed_builder zero b buffer = threw b buffer out_of_fuel
feed_builder (suc f) (simple_string b) buffer =
    map_builder simple_string (feed_simple_string b buffer)
feed_builder (suc f) (error b) buffer = map_builder error (feed_error b buffer)
feed_builder (suc f) (integer b) buffer = map_builder integer (feed_integer b buffer)
feed_builder (suc f) (bulk_string b) buffer = map_builder bulk_string (feed_bulk_string b buffer)
feed_builder (suc f) (array a) buffer = feed_array (feed_builder f) a none buffer
feed_builder (suc f) (array_row a c) buffer = feed_array (feed_builder f) a (some c) buffer

-- The levels of arrays that are open.
abbrev pub depth : Builder → ℕ
depth (array_row a c) = suc (depth c)
depth _ = 0

-- A new level costs its type byte, so this many levels are enough (`Fuel`).
unfoldable pub feed : Builder → Bytes → Fed Builder
unfolding feed_builder
feed b buffer = feed_builder (suc (depth b + length buffer)) b buffer
