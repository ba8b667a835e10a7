-- ===== src/Builders/ReplyBuilder.antt =====
-- The class `reply_builder` (sources/builders/reply_builder.cpp).
pub mod Rounds
pub mod Chunks
pub mod RoundTrip
use cpp_redis.Prelude.{
  ℕ, zero, suc, Bool, true, false, not, ◌||◌, Option, none, some, List, [], ◌∷◌, ◌++◌, Bytes,
  if◌then◌else◌, length,
}
use cpp_redis.Error.{Exception, redis_error, out_of_fuel, Result, ok, throw}
use cpp_redis.Reply.{Reply}
use cpp_redis.Builders.Fed.{Fed, is_some}
use cpp_redis.Builders.Builder.{Builder, create_builder, reply_ready, get_reply, feed}

pub record ReplyBuilder : Type 0 where
  pub buffer : Bytes
  pub builder : Option Builder
  pub available_replies : List Reply

abbrev pub reply_builder : ReplyBuilder
reply_builder = record { buffer = []; builder = none; available_replies = [] }

-- What a call leaves: the object, whether it threw, and the answer of `build_reply`.
pub record Attempt : Type 0 where
  pub state : ReplyBuilder
  pub thrown : Option Exception
  pub again : Bool

unfoldable pub builder_fed : ReplyBuilder → Fed Builder → Attempt
builder_fed s f =
    let s' = record s { buffer = f.buffer; builder = some f.builder } in
    if is_some f.thrown || not (reply_ready f.builder)
    then record { state = s'; thrown = f.thrown; again = false }
    else record {
      state = record s' {
        builder = none;
        available_replies = s.available_replies ++ get_reply f.builder ∷ [];
      };
      thrown = none;
      again = true;
    }

unfoldable pub start_reply : ReplyBuilder → Bytes → Result Builder → Attempt
start_reply s rest (throw e) = record { state = s; thrown = some e; again = false }
start_reply s rest (ok b) = builder_fed s (feed b rest)

-- `build_reply` on the builder and a buffer that is not empty.
unfoldable pub build_from : ReplyBuilder → Option Builder → ℕ → Bytes → Attempt
build_from s (some b) x rest = builder_fed s (feed b (x ∷ rest))
build_from s none x rest = start_reply s rest (create_builder x)

unfoldable pub build_buffer : ReplyBuilder → Bytes → Attempt
build_buffer s [] = record { state = s; thrown = none; again = false }
build_buffer s (x ∷ rest) = build_from s s.builder x rest

unfoldable pub build_reply : ReplyBuilder → Attempt
build_reply s = build_buffer s s.buffer

-- `operator<<` returned, or threw.
pub record Received : Type 0 where
  pub state : ReplyBuilder
  pub thrown : Option Exception

unfoldable pub after_reply : (ReplyBuilder → Received) → Attempt → Received
after_reply next r = if r.again then next r.state else record { state = r.state; thrown = r.thrown }

-- `while (build_reply());`
unfoldable pub build_replies : ℕ → ReplyBuilder → Received
build_replies zero s = record { state = s; thrown = some out_of_fuel }
build_replies (suc n) s = after_reply (build_replies n) (build_reply s)

-- `m_buffer += data`
abbrev pub with_bytes : ReplyBuilder → Bytes → ReplyBuilder
with_bytes s bytes = record s { buffer = s.buffer ++ bytes }

-- The loop. Each reply but the first consumes a byte, so this many rounds are enough.
unfoldable pub drain : ReplyBuilder → Received
drain s = build_replies (suc (suc (length s.buffer))) s

-- `operator<<`
unfoldable pub receive : ReplyBuilder → Bytes → Received
unfolding drain build_replies after_reply build_reply build_buffer build_from create_builder
    start_reply builder_fed feed
receive s bytes = drain (with_bytes s bytes)

unfoldable pub reset : ReplyBuilder → ReplyBuilder
reset s = record s { builder = none; buffer = [] }

abbrev pub reply_available : ReplyBuilder → Bool
reply_available s = elim s.available_replies [ [] ↦ false | _ ∷ _ ↦ true ]

unfoldable pub get_front : ReplyBuilder → Result Reply
get_front s = elim s.available_replies [
  | [] ↦ throw (redis_error "No available reply")
  | r ∷ _ ↦ ok r
]

unfoldable pub pop_front : ReplyBuilder → Result ReplyBuilder
pop_front s = elim s.available_replies [
  | [] ↦ throw (redis_error "No available reply")
  | _ ∷ rest ↦ ok (record s { available_replies = rest })
]
