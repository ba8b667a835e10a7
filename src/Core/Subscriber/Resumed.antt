-- ===== src/Core/Subscriber/Resumed.antt =====
-- An attempt of `subscriber::reconnect` that succeeds (sources/core/subscriber.cpp).
use cpp_redis.Prelude.{[], ◌∷◌, ◌++◌, true, Bytes, codes, if◌then◌else◌}
use cpp_redis.Network.TcpClient.{TcpClient, Called}
use cpp_redis.Network.Command.{build_command}
use cpp_redis.Network.Connection
use cpp_redis.Core.Client.{is_empty}
use cpp_redis.Core.Subscriber.{Subscriber, Callback, logs_ok}
use cpp_redis.Core.Subscriber.Reconnecting.{connect}
use cpp_redis.Core.Subscriber.Resubscribing.{subscriptions}

module _ {S : Type 0} where
  -- The `AUTH` of a subscriber that has a password.
  abbrev pub login : Subscriber S → Bytes
  login s = if is_empty s.password then [] else build_command (codes "AUTH" ∷ s.password ∷ [])

  -- The callback for the answer of `AUTH`.
  abbrev pub login_callback : Subscriber S → Callback
  login_callback s = if is_empty s.password then s.auth_reply_callback else logs_ok

  -- The commands that bring the password and all subscriptions to the server.
  abbrev pub session : Subscriber S → Bytes
  session s = login s ++ subscriptions s

module _ {S : Type 0} (T : TcpClient S) where
  -- The call of the connection's `connect` that `reconnect` makes.
  abbrev pub reopened : Subscriber S → Connection.Done S
  reopened s =
      Connection.connect T s.client s.redis_server s.redis_port true true s.connect_timeout_msecs

  -- The write of the password and of all subscriptions.
  abbrev pub rewritten : Subscriber S → Called S
  rewritten s = T.async_write (session s) (reopened s).connection.client

  -- The subscriber with all of it written and nothing in the buffer.
  abbrev all_written : Subscriber S → Subscriber S
  all_written s = record s {
    client = record s.client {
      client = (T.async_write (session s) s.client.client).socket;
      buffer = [];
    };
    auth_reply_callback = login_callback s;
  }
