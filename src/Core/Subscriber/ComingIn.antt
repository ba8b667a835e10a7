-- ===== src/Core/Subscriber/ComingIn.antt =====
-- What comes in from the network to a `subscriber` (sources/core/subscriber.cpp): `connect` binds the
-- connection's callbacks to its two handlers.
use cpp_redis.Prelude.{ℕ, List, [], ◌∷◌}
use cpp_redis.Network.TcpClient.{TcpClient}
use cpp_redis.Network.Connection
use cpp_redis.Core.Call.{ran, and_then, where_thrown}
use cpp_redis.Core.Interrupted.{left, put_back}
use cpp_redis.Core.Retries.{Meanwhile}
use cpp_redis.Core.Sentinel.{Incoming, packet, dropped}
use cpp_redis.Core.Subscriber.{Subscriber, Ran}
use cpp_redis.Core.Subscriber.Receiving.{connection_receive_handler}
use cpp_redis.Core.Subscriber.Reconnecting.{connection_disconnection_handler}

-- The rounds of a reconnection and what happens meanwhile are given, in case the connection ends.
module _ {S : Type 0} (T : TcpClient S) (f : ℕ) (meanwhile : ℕ → Meanwhile) where
  unfoldable pub handle : Connection.Event → Subscriber S → Ran S
  unfolding connection_receive_handler connection_disconnection_handler
  handle (Connection.reply_callback r) s = connection_receive_handler r s
  handle Connection.disconnection_handler s = connection_disconnection_handler T f meanwhile s

  unfoldable pub handle_all : List Connection.Event → Subscriber S → Ran S
  unfolding handle
  handle_all [] s = ran s
  handle_all (e ∷ es) s = and_then (handle e s) (handle_all es)

  unfoldable pub come_in : Incoming → Subscriber S → Ran S
  unfolding handle_all left Connection.tcp_client_receive_handler
      Connection.tcp_client_disconnection_handler
  come_in (packet success bytes) s =
      let r = Connection.tcp_client_receive_handler T s.client success bytes in
      let s' = record s { client = r.connection } in
      where_thrown
        (λ t. record t {
          client = put_back s.client.client r.events (left handle r.events s') t.client;
        })
        (handle_all r.events s')
  come_in dropped s =
      let r = Connection.tcp_client_disconnection_handler s.client in
      handle_all r.events (record s { client = r.connection })
