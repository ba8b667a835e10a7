-- ===== src/Builders/BulkStringBuilder.antt =====
-- The class `bulk_string_builder` (sources/builders/bulk_string_builder.cpp).
use cpp_redis.Prelude.{
  ℕ, ◌+◌, ◌-◌, ◌%◌, ◌^◌, Bool, true, false, not, ◌||◌, none, some, [], Bytes, ltb, leb, ◌==◌, ◌==ℤ◌,
  if◌then◌else◌, ℤ, pos, negsuc, cr, lf, length, get_elem?, take, drop,
}
use cpp_redis.Error.{redis_error, undefined}
use cpp_redis.Reply.{Reply, StringType, reply_null, set_null, set_string}
use cpp_redis.Builders.Fed.{Fed, Fetched, returned, threw, is_some}
use cpp_redis.Builders.IntegerBuilder.{IntegerBuilder, integer_builder, get_integer, feed_integer}

pub record BulkStringBuilder : Type 0 where
  pub int_builder : IntegerBuilder
  pub str_size : ℤ
  pub str : Bytes
  pub is_null : Bool
  pub reply_ready : Bool
  pub reply : Reply

abbrev pub bulk_string_builder : BulkStringBuilder
bulk_string_builder = record {
  int_builder = integer_builder;
  str_size = pos 0;
  str = [];
  is_null = false;
  reply_ready = false;
  reply = reply_null;
}

abbrev pub max_int : ℕ
max_int = 2 ^ 31 - 1

-- The `int` with the 32 bits `r`.
abbrev pub int_of_bits : ℕ → ℤ
int_of_bits r = if ltb max_int r then negsuc (2 ^ 32 - 1 - r) else pos r

-- `(int)` of an `int64_t` keeps the low 32 bits.
unfoldable pub to_int : ℤ → ℤ
to_int (pos n) = int_of_bits (n % 2 ^ 32)
to_int (negsuc n) = int_of_bits (2 ^ 32 - 1 - n % 2 ^ 32)

-- `static_cast<std::size_t>`
unfoldable pub to_size : ℤ → ℕ
to_size (pos n) = n
to_size (negsuc n) = 2 ^ 64 - 1 - n

unfoldable pub build_reply : BulkStringBuilder → BulkStringBuilder
build_reply b = record b {
  reply_ready = true;
  reply = if b.is_null then set_null b.reply else set_string b.reply b.str StringType.bulk_string;
}

-- Behind the size line: `m_str_size == -1` is the null string.
unfoldable pub size_read : BulkStringBuilder → BulkStringBuilder
unfolding to_int build_reply get_integer
size_read b =
    let sized = record b { str_size = to_int (get_integer b.int_builder) } in
    if sized.str_size ==ℤ negsuc 0 then build_reply (record sized { is_null = true }) else sized

unfoldable pub size_fed : BulkStringBuilder → Fed IntegerBuilder → Fetched BulkStringBuilder
size_fed b f =
    let b' = record b { int_builder = f.builder } in
    if is_some f.thrown || not f.builder.reply_ready
    then record {
      fed = record { builder = b'; buffer = f.buffer; thrown = f.thrown };
      done = false;
    }
    else record { fed = returned (size_read b') f.buffer; done = true }

unfoldable pub fetch_size : BulkStringBuilder → Bytes → Fetched BulkStringBuilder
unfolding feed_integer size_fed size_read
fetch_size b buffer =
    if b.int_builder.reply_ready
    then record { fed = returned b buffer; done = true }
    else size_fed b (feed_integer b.int_builder buffer)

-- `buffer[i] == c`
abbrev pub byte_at : Bytes → ℕ → ℕ → Bool
byte_at buffer i c = elim (get_elem? buffer i) [ none ↦ false | some x ↦ x == c ]

-- The string and its end sequence are there. A negative size, turned into an index, is out of
-- bounds; `m_str_size + 1` and `m_str_size + 2` are computed in `int`.
unfoldable pub take_str : BulkStringBuilder → Bytes → ℤ → Fed BulkStringBuilder
unfolding build_reply
take_str b buffer (negsuc n) = threw b buffer undefined
take_str b buffer (pos n) =
    if not (byte_at buffer n cr)
    then threw b buffer (redis_error "Wrong ending sequence")
    else if leb max_int n
    then threw b buffer undefined
    else if not (byte_at buffer (n + 1) lf)
    then threw b buffer (redis_error "Wrong ending sequence")
    else if ltb max_int (n + 2)
    then threw (record b { str = take n buffer }) buffer undefined
    else returned (build_reply (record b { str = take n buffer })) (drop (n + 2) buffer)

unfoldable pub fetch_str : BulkStringBuilder → Bytes → Fed BulkStringBuilder
unfolding take_str to_size
fetch_str b buffer =
    if ltb (length buffer) ((to_size b.str_size + 2) % 2 ^ 64)
    then returned b buffer
    else take_str b buffer b.str_size

unfoldable pub size_known : Fetched BulkStringBuilder → Fed BulkStringBuilder
size_known r =
    if is_some r.fed.thrown || (not r.done || r.fed.builder.reply_ready)
    then r.fed
    else fetch_str r.fed.builder r.fed.buffer

-- `operator<<`
unfoldable pub feed_bulk_string : BulkStringBuilder → Bytes → Fed BulkStringBuilder
unfolding fetch_size size_known fetch_str
feed_bulk_string b buffer =
    if b.reply_ready then returned b buffer else size_known (fetch_size b buffer)
