-- ===== src/Builders/ErrorBuilder.antt =====
-- The class `error_builder` (sources/builders/error_builder.cpp).
use cpp_redis.Prelude.{Bytes, if◌then◌else◌}
use cpp_redis.Reply.{Reply, StringType, reply_null, set_string}
use cpp_redis.Builders.Fed.{Fed}
use cpp_redis.Builders.SimpleStringBuilder.{
  SimpleStringBuilder, simple_string_builder, feed_simple_string,
}

pub record ErrorBuilder : Type 0 where
  pub string_builder : SimpleStringBuilder
  pub reply : Reply

abbrev pub error_builder : ErrorBuilder
error_builder = record { string_builder = simple_string_builder; reply = reply_null }

-- The reply is set again at each call behind the end of the line, to the same string.
unfoldable pub line_read : ErrorBuilder → Fed SimpleStringBuilder → Fed ErrorBuilder
line_read b f = record {
  builder = record {
    string_builder = f.builder;
    reply =
        if f.builder.reply_ready
        then set_string b.reply f.builder.str StringType.error
        else b.reply;
  };
  buffer = f.buffer;
  thrown = f.thrown;
}

-- `operator<<`
unfoldable pub feed_error : ErrorBuilder → Bytes → Fed ErrorBuilder
unfolding line_read
feed_error b buffer = line_read b (feed_simple_string b.string_builder buffer)
