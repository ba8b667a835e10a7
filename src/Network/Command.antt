-- ===== src/Network/Command.antt =====
-- `redis_connection::build_command` (sources/network/redis_connection.cpp), and what it means in the
-- protocol.
use cpp_redis.Prelude.{
  suc, ◌+◌, ◌≤◌, [], ◌∷◌, List, ◌++◌, append_assoc, append-nil, ◌≡◌, refl, sym, ap, Bytes, codes,
  crlf, to_string, length, none,
}
use cpp_redis.Reply.{Reply}
use cpp_redis.Protocol.{
  Value, Values, array, bulk_string, no_items, item, count, body, bodies, encode, reply_of,
  AreValid, replies_of, IsValid,
}
use cpp_redis.Builders.IntegerBuilder.{max_int64}
use cpp_redis.Builders.BulkStringBuilder.{max_int}
use cpp_redis.Builders.ReplyBuilder.{receive}
use cpp_redis.Builders.ReplyBuilder.RoundTrip.{between, receive-encode}

-- The loop: `cmd` is the text so far.
unfoldable pub add_parts : Bytes → List Bytes → Bytes
add_parts cmd [] = cmd
add_parts cmd (cmd_part ∷ parts) =
    add_parts (cmd ++ (codes "$" ++ to_string (length cmd_part) ++ crlf ++ cmd_part ++ crlf)) parts

unfoldable pub build_command : List Bytes → Bytes
build_command redis_cmd = add_parts (codes "*" ++ to_string (length redis_cmd) ++ crlf) redis_cmd

abbrev pub strings : List Bytes → Values
strings [] = no_items
strings (s ∷ ss) = item (bulk_string s) (strings ss)

-- A command in the protocol: an array of its strings.
abbrev pub command_value : List Bytes → Value
command_value redis_cmd = array (strings redis_cmd)

-- The limits of the protocol's reader: each string with its end sequence has a size in `int`, and
-- there are not more strings than an `int64_t` counts.
abbrev pub AreStrings : List Bytes → Type 0
AreStrings [] = Unit
AreStrings (s ∷ ss) = (length s + 2 ≤ max_int) × AreStrings ss

abbrev pub IsCommand : List Bytes → Type 0
IsCommand redis_cmd = (length redis_cmd ≤ max_int64) × AreStrings redis_cmd

count-strings : (ss : List Bytes) → count (strings ss) ≡ length ss
count-strings [] = refl
count-strings (s ∷ ss) = ap suc (count-strings ss)

strings-AreValid : (ss : List Bytes) → AreStrings ss → AreValid (strings ss)
strings-AreValid [] h = tt
strings-AreValid (s ∷ ss) (h, hs) = (h, strings-AreValid ss hs)

pub command_value-IsValid :
    (redis_cmd : List Bytes) → IsCommand redis_cmd → IsValid (command_value redis_cmd)
command_value-IsValid redis_cmd h =
    (rw (count-strings redis_cmd) h.0, strings-AreValid redis_cmd h.1)

add_parts-bodies :
    (ss : List Bytes) (cmd : Bytes) → add_parts cmd ss ≡ cmd ++ bodies (strings ss) []
unfolding add_parts body
add_parts-bodies [] cmd = sym (append-nil cmd)
add_parts-bodies (s ∷ ss) cmd = simp (add_parts-bodies ss, append_assoc)

-- A built command is the protocol's form of the array of its strings as bulk strings, whatever bytes
-- they hold.
pub build_command-encode :
    (redis_cmd : List Bytes)
    → build_command redis_cmd ≡ encode (item (command_value redis_cmd) no_items)
unfolding build_command encode body
build_command-encode redis_cmd =
    simp (add_parts-bodies redis_cmd, append_assoc, count-strings redis_cmd)

-- The parser of this library, between two replies, reads a built command as one reply: the array of
-- its strings.
pub receive-build_command :
    (redis_cmd : List Bytes) (available : List Reply)
    → IsCommand redis_cmd
    → receive (between available []) (build_command redis_cmd) ≡ record {
      state = between (available ++ reply_of (command_value redis_cmd) ∷ []) [];
      thrown = none;
    }
unfolding replies_of
receive-build_command redis_cmd available h = rw (build_command-encode redis_cmd) (
    receive-encode (item (command_value redis_cmd) no_items) available
      (command_value-IsValid redis_cmd h, tt))
