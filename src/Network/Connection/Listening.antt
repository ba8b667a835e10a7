-- ===== src/Network/Connection/Listening.antt =====
-- A `redis_connection` between two replies (sources/network/redis_connection.cpp): what a packet of
-- whole replies makes of it.
use Prim.Native.String.{String}
use cpp_redis.Prelude.{ℕ, Bool, Bytes, Option, true, none, some, [], map, ◌≡◌, refl, ap}
use cpp_redis.Builders.ReplyBuilder.RoundTrip.{between, receive-encode}
use cpp_redis.Protocol.{Values, encode, replies_of, AreValid}
use cpp_redis.Network.TcpClient.{TcpClient}
use cpp_redis.Network.Connection.{
  Connection, connect, connected, read_size, reply_callback, packet_read, hand_over, reply_events,
  tcp_client_receive_handler,
}

-- The connection has its callback, and its parser is between two replies.
abbrev pub listening : {S : Type 0} → Connection S → Connection S
listening c = record c { has_reply_callback = true; builder = between [] [] }

module _ {S : Type 0} (T : TcpClient S) where
  -- The next read is asked for.
  abbrev pub read_on : Connection S → Connection S
  read_on c = record c { client = (T.async_read read_size c.client).socket }

  -- Each reply is handed over, in order.
  pub receive_handler-encode :
      (c : Connection S) (vs : Values)
      → AreValid vs
      → tcp_client_receive_handler T (listening c) true (encode vs) ≡ record {
        connection = read_on (listening c);
        events = map reply_callback (replies_of vs);
        thrown = none;
      }
  unfolding tcp_client_receive_handler packet_read hand_over reply_events
  receive_handler-encode c vs valid = ap (packet_read T (listening c)) (receive-encode vs [] valid)

  connected-buffer :
      (c : Connection S) (on_disconnection on_reply : Bool) (s : S) (failure : Option String)
      → (connected T c on_disconnection on_reply
          (record { socket = s; failure = failure })).connection.buffer
        ≡ c.buffer
  unfolding connected
  connected-buffer c on_disconnection on_reply s none = refl
  connected-buffer c on_disconnection on_reply s (some what) = refl

  -- To connect leaves the buffer.
  pub connect-buffer :
      (c : Connection S) (host : Bytes) (port timeout_msecs : ℕ)
      → (connect T c host port true true timeout_msecs).connection.buffer ≡ c.buffer
  unfolding connect
  connect-buffer c host port timeout_msecs = connected-buffer c true true _ _
