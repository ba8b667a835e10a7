-- ===== src/Examples/Parsing.antt =====
-- The parser on concrete packets.
use cpp_redis.Builders.Builder.Chunks.{feed_builder-Split}
use cpp_redis.Builders.BulkStringBuilder.{bulk_string_builder}
use cpp_redis.Builders.Builder.Resume.{Split}
use cpp_redis.Builders.Builder.Potential.{Shrinks, feed_builder-Shrinks}
use cpp_redis.Prelude.{
  ◌≡◌, refl, codes, ◌++◌, crlf, map, [], ◌∷◌, List, Bytes, none, ◌≢◌, some, pos, arith,
}
use cpp_redis.Reply.{print}
use cpp_redis.Error.{out_of_fuel}
use cpp_redis.Protocol.{Value, Values, no_items, item, encode, replies_of}
use cpp_redis.Builders.Builder.{Builder, feed_builder}
use cpp_redis.Builders.ReplyBuilder.{reply_builder, receive}
use cpp_redis.Builders.ReplyBuilder.Chunks.{receive-append}
use cpp_redis.Builders.ReplyBuilder.RoundTrip.{receive-encode, between}
use cpp_redis.Builders.ReplyBuilder.Rounds.{receive-Ends}

nested :
    map print
      (receive reply_builder (
        codes "*2"
        ++ crlf
        ++ codes "*1"
        ++ crlf
        ++ codes ":-42"
        ++ crlf
        ++ codes "$3"
        ++ crlf
        ++ codes "abc"
        ++ crlf
        ++ codes "+OK"
        ++ crlf
        ++ codes "+O")).state.available_replies
    ≡ codes "-42abc" ∷ codes "OK" ∷ []
unfolding receive print
nested = refl

abbrev half : Bytes
half = codes "$5" ++ crlf ++ codes "he"

abbrev other_half : Bytes
other_half = codes "llo" ++ crlf

half_quiet : (receive reply_builder half).thrown ≡ none
unfolding receive
half_quiet = refl

receive-append_example :
    receive (receive reply_builder half).state other_half
    ≡ receive reply_builder (half ++ other_half)
receive-append_example = receive-append reply_builder half other_half half_quiet

abbrev pub answer : Values
answer =
    item
      (Value.array (item (Value.integer (pos 3)) (item (Value.bulk_string (codes "a")) no_items)))
      no_items

receive-encode_example :
    receive (between [] []) (encode answer)
    ≡ record { state = between (replies_of answer) []; thrown = none }
receive-encode_example =
    receive-encode answer [] ((omega arith, (omega arith, (omega arith, tt))), tt)

receive-Ends_example :
    (receive reply_builder (codes "*1" ++ crlf ++ codes "*1" ++ crlf)).thrown ≢ some out_of_fuel
receive-Ends_example = receive-Ends reply_builder (codes "*1" ++ crlf ++ codes "*1" ++ crlf)

feed_builder-Split_example :
    Split (feed_builder 20) (Builder.bulk_string bulk_string_builder) half other_half
feed_builder-Split_example =
    feed_builder-Split 20 (Builder.bulk_string bulk_string_builder) half other_half (omega arith)

feed_builder-Shrinks_example :
    Shrinks
      (Builder.bulk_string bulk_string_builder)
      half
      (feed_builder 20 (Builder.bulk_string bulk_string_builder) half)
feed_builder-Shrinks_example =
    feed_builder-Shrinks 20 (Builder.bulk_string bulk_string_builder) half

abbrev packets : List Bytes
packets = half ∷ (codes "llo" ++ crlf ++ codes ":7" ++ crlf) ∷ codes "?" ∷ []
