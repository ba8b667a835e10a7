-- ===== src/Examples/Network.antt =====
-- The connection on concrete commands and packets.
use cpp_redis.Prelude.{◌≡◌, refl, codes, ◌++◌, crlf, [], ◌∷◌, List, Bytes, true, none, arith}
use cpp_redis.Protocol.{Values, no_items, item, encode, reply_of, replies_of}
use cpp_redis.Builders.ReplyBuilder.{reply_builder, receive}
use cpp_redis.Builders.ReplyBuilder.RoundTrip.{between}
use cpp_redis.Network.Command.{
  build_command, command_value, build_command-encode, receive-build_command,
}
use cpp_redis.Network.Connection.{
  Connection, redis_connection, commit, rethrown, tcp_client_receive_handler,
}
use cpp_redis.Network.Connection.Pipeline.{send_all, values_of, commit-send_all}
use cpp_redis.Network.Connection.Receiving.{
  receive_handler-append, receive_handler_malformed, refused,
}
use cpp_redis.Network.Connection.Listening
use cpp_redis.Examples.Socket.{Socket, loopback, opened}

abbrev set_a : List Bytes
set_a = codes "SET" ∷ codes "a" ∷ (codes "x" ++ crlf ++ codes "y") ∷ []

abbrev ping_only : List Bytes
ping_only = codes "PING" ∷ []

abbrev pub listening : Connection Socket
listening = record (redis_connection opened) {
  has_reply_callback = true;
  has_disconnection_handler = true;
}

build_command-encode_example : build_command set_a ≡ encode (item (command_value set_a) no_items)
build_command-encode_example = build_command-encode set_a

receive-build_command_example :
    receive (between [] []) (build_command set_a)
    ≡ record { state = between (reply_of (command_value set_a) ∷ []) []; thrown = none }
receive-build_command_example =
    receive-build_command set_a [] (omega arith, (omega arith, (omega arith, (omega arith, tt))))

commit-send_all_example :
    (written : Bytes) × ((commit loopback (send_all listening (set_a ∷ ping_only ∷ []))).connection
      ≡ record listening { client = (loopback.async_write written opened).socket; buffer = [] })
    × ((commit loopback (send_all listening (set_a ∷ ping_only ∷ []))).thrown
        ≡ rethrown (loopback.async_write written opened).failure)
    × (receive (between [] []) written ≡ record {
      state = between (replies_of (values_of (set_a ∷ ping_only ∷ []))) [];
      thrown = none;
    })
commit-send_all_example = commit-send_all loopback listening (set_a ∷ ping_only ∷ []) refl (
  (omega arith, (omega arith, (omega arith, (omega arith, tt)))),
  ((omega arith, (omega arith, tt)), tt),
)

abbrev first : Bytes
first = codes "+OK" ++ crlf ++ codes ":4"

abbrev second : Bytes
second = codes "2" ++ crlf

first_quiet : (receive reply_builder first).thrown ≡ none
unfolding receive
first_quiet = refl

both_quiet : (receive reply_builder (first ++ second)).thrown ≡ none
unfolding receive
both_quiet = refl

receive_handler-append_example :
    ((tcp_client_receive_handler loopback listening true first).events
        ++ (tcp_client_receive_handler loopback
            (tcp_client_receive_handler loopback listening true first).connection
            true
            second).events
      ≡ (tcp_client_receive_handler loopback listening true (first ++ second)).events)
    × ((tcp_client_receive_handler loopback
          (tcp_client_receive_handler loopback listening true first).connection
          true
          second).connection.builder
        ≡ (tcp_client_receive_handler loopback listening true (first ++ second)).connection.builder)
receive_handler-append_example =
    receive_handler-append loopback listening first second first_quiet both_quiet

abbrev one_value : Values
one_value = item (command_value ping_only) no_items

receive_handler_malformed_example :
    tcp_client_receive_handler loopback
      (Listening.listening listening)
      true
      (encode one_value ++ 63 ∷ codes "x")
    ≡ refused loopback listening (replies_of one_value) (63 ∷ codes "x")
receive_handler_malformed_example =
    receive_handler_malformed loopback listening one_value 63 (codes "x")
      ((omega arith, (omega arith, tt)), tt) refl
