-- ===== src/Builders/SimpleStringBuilder.antt =====
-- The class `simple_string_builder` (sources/builders/simple_string_builder.cpp).
use cpp_redis.Prelude.{
  ℕ, ◌+◌, Bool, true, false, Option, none, some, [], Bytes, if◌then◌else◌, find_crlf, take, drop,
}
use cpp_redis.Reply.{Reply, StringType, reply_null, set_string}
use cpp_redis.Builders.Fed.{Fed, returned}

pub record SimpleStringBuilder : Type 0 where
  pub str : Bytes
  pub reply_ready : Bool
  pub reply : Reply

abbrev pub simple_string_builder : SimpleStringBuilder
simple_string_builder = record { str = []; reply_ready = false; reply = reply_null }

unfoldable pub read_line : SimpleStringBuilder → Bytes → Option ℕ → Fed SimpleStringBuilder
read_line b buffer none = returned b buffer
read_line b buffer (some end_sequence) =
    returned
      (record {
        str = take end_sequence buffer;
        reply_ready = true;
        reply = set_string b.reply (take end_sequence buffer) StringType.simple_string;
      })
      (drop (end_sequence + 2) buffer)

-- `operator<<`
unfoldable pub feed_simple_string : SimpleStringBuilder → Bytes → Fed SimpleStringBuilder
unfolding read_line
feed_simple_string b buffer =
    if b.reply_ready then returned b buffer else read_line b buffer (find_crlf buffer)
