-- ===== src/Builders/Builder/Ready.antt =====
-- Builders that are ready take no more bytes (sources/builders).
use cpp_redis.Reply.{Reply, StringType, set_string, reply}
use cpp_redis.Builders.ErrorBuilder.{feed_error, line_read, ErrorBuilder}
use cpp_redis.Prelude.{
  ℕ, ◌≤◌, true, ◌≡◌, refl, arith, Bytes, length, Bool-cases, inl, inr, suc, ◌∷◌, [], zero,
}
use cpp_redis.Builders.Fed.{returned, Fed}
use cpp_redis.Builders.IntegerBuilder.{IntegerBuilder, feed_integer}
use cpp_redis.Builders.SimpleStringBuilder.{SimpleStringBuilder, feed_simple_string}
use cpp_redis.Builders.BulkStringBuilder.{BulkStringBuilder, byte_at, feed_bulk_string}

pub byte_at_bound : (buffer : Bytes) (i c : ℕ) → byte_at buffer i c ≡ true → suc i ≤ length buffer
byte_at_bound [] i c h = cc
byte_at_bound (x ∷ buffer) zero c h = omega arith
byte_at_bound (x ∷ buffer) (suc i) c h = omega (arith, byte_at_bound buffer i c h)

set_string_twice :
    (r : Reply) (value : Bytes) (t : StringType)
    → set_string (set_string r value t) value t ≡ set_string r value t
set_string_twice (reply ty rows s i) value t = refl

pub feed_simple_string_ready :
    (b : SimpleStringBuilder) (buffer : Bytes)
    → b.reply_ready ≡ true
    → feed_simple_string b buffer ≡ returned b buffer
unfolding feed_simple_string
feed_simple_string_ready b buffer h = ground arith

pub line_read_again :
    (b : ErrorBuilder) (f : Fed SimpleStringBuilder) (g : Fed SimpleStringBuilder)
    → (f.builder.reply_ready ≡ true → g.builder ≡ f.builder)
    → line_read b g ≡ line_read (line_read b f).builder g
unfolding line_read
line_read_again b f g same = elim (Bool-cases f.builder.reply_ready) [
  | inl done ↦ ground (arith, same done, set_string_twice b.reply f.builder.str StringType.error)
  | inr waits ↦ ground arith
]

pub feed_error_ready :
    (b : ErrorBuilder) (buffer x : Bytes)
    → (feed_error b buffer).builder.string_builder.reply_ready ≡ true
    → feed_error (feed_error b buffer).builder x ≡ returned (feed_error b buffer).builder x
unfolding feed_error line_read
feed_error_ready b buffer x h =
    let f = feed_simple_string b.string_builder buffer in
    ground (
      arith,
      feed_simple_string_ready f.builder x h,
      set_string_twice b.reply f.builder.str StringType.error,
    )

pub feed_bulk_string_ready :
    (b : BulkStringBuilder) (buffer : Bytes)
    → b.reply_ready ≡ true
    → feed_bulk_string b buffer ≡ returned b buffer
unfolding feed_bulk_string
feed_bulk_string_ready b buffer h = ground arith

pub feed_integer_ready :
    (b : IntegerBuilder) (buffer : Bytes)
    → b.reply_ready ≡ true
    → feed_integer b buffer ≡ returned b buffer
unfolding feed_integer
feed_integer_ready b buffer h = ground arith
