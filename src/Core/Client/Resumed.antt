-- ===== src/Core/Client/Resumed.antt =====
-- An attempt of `client::reconnect` that succeeds (sources/core/client.cpp), for a client that has no
-- password and no database to select.
use cpp_redis.Prelude.{List, [], ◌++◌, true, none, ◌≡◌, refl, ap, append-nil, ◌∙◌, ◌+◌}
use cpp_redis.Network.TcpClient.{TcpClient, Called}
use cpp_redis.Network.Connection
use cpp_redis.Network.Connection.Listening.{connect-buffer}
use cpp_redis.Core.Call.{ran, and_then, caught, and_then-caught}
use cpp_redis.Core.Sentinel.{Incoming}
use cpp_redis.Core.Client.{
  Client, ConnectState, start, notified, is_empty, not_selected, re_auth, re_select,
}
use cpp_redis.Core.Client.Reconnecting.{
  connect, connect_done, reconnect, reconnect_to, looked_up, connect_tried, reconnected, try_commit,
  commit_done,
}
use cpp_redis.Core.Client.Resending.{wire, resend_failed_commands_lem}

module _ {S : Type 0} (T : TcpClient S) where
  -- The call of the connection's `connect` that `reconnect` makes.
  abbrev pub reopened : Client S → Connection.Done S
  reopened c =
      Connection.connect T c.client c.redis_server c.redis_port true true c.connect_timeout_msecs

  -- The write of the commands that wait.
  abbrev pub rewritten : Client S → Called S
  rewritten c = T.async_write (wire c.commands) (reopened c).connection.client

  -- The client with the commands that wait written and nothing in the buffer.
  abbrev all_written : Client S → Client S
  all_written c = record c {
    client = record c.client {
      client = (T.async_write (wire c.commands) c.client.client).socket;
      buffer = [];
    };
  }

  reconnected_lem :
      (c : Client S)
      → is_empty c.password ≡ true
      → not_selected c.database_index ≡ true
      → c.client.buffer ≡ []
      → (T.async_write (wire c.commands) c.client.client).failure ≡ none
      → reconnected T c ≡ ran (all_written c)
  unfolding reconnected re_auth re_select try_commit commit_done Connection.commit
  reconnected_lem c open_ unselected sent written =
      rw (open_, unselected, resend_failed_commands_lem c, sent, written) refl

  connect_tried_lem :
      (c : Client S)
      → T.is_connected c.client.client ≡ true
      → is_empty c.password ≡ true
      → not_selected c.database_index ≡ true
      → c.client.buffer ≡ []
      → (T.async_write (wire c.commands) c.client.client).failure ≡ none
      → connect_tried T c ≡ record {
        state = all_written c;
        events = (notified ConnectState.ok c).events;
        thrown = none;
      }
  unfolding connect_tried
  connect_tried_lem c is_open open_ unselected sent written =
      rw (is_open, reconnected_lem c open_ unselected sent written)
        (ap (λ events. record { state = all_written c; events = events; thrown = none })
          (append-nil (notified ConnectState.ok c).events))

  connect_lem :
      (c : Client S)
      → (reopened c).thrown ≡ none
      → connect T c.redis_server c.redis_port c.has_connect_callback c.connect_timeout_msecs
          c.max_reconnects c.reconnect_interval_msecs c
        ≡ record {
          state = record c { client = (reopened c).connection };
          events = (notified start c).events ++ (notified ConnectState.ok c).events;
          thrown = none;
        }
  unfolding connect connect_done
  connect_lem c returned = rw returned refl

  connecting_lem :
      (c : Client S)
      → reconnect_to T c
        ≡ and_then
            (caught (
              connect T c.redis_server c.redis_port c.has_connect_callback c.connect_timeout_msecs
                c.max_reconnects c.reconnect_interval_msecs c))
            (connect_tried T)
  unfolding reconnect_to
  connecting_lem c = refl

  reconnect_to_lem :
      (c : Client S)
      → is_empty c.password ≡ true
      → not_selected c.database_index ≡ true
      → c.client.buffer ≡ []
      → (reopened c).thrown ≡ none
      → T.is_connected (reopened c).connection.client ≡ true
      → (rewritten c).failure ≡ none
      → reconnect_to T c ≡ record {
        state = record c {
          client = record (reopened c).connection { client = (rewritten c).socket; buffer = [] };
        };
        events =
            (notified start c).events
            ++ (notified ConnectState.ok c).events
            ++ (notified ConnectState.ok c).events;
        thrown = none;
      }
  reconnect_to_lem c open_ unselected sent returned is_open written =
      connecting_lem c
      ∙ and_then-caught _ (record c { client = (reopened c).connection }) _ (connect_tried T) _
          (connect_lem c returned)
          (connect_tried_lem (record c { client = (reopened c).connection }) is_open open_
            unselected
            (connect-buffer T c.client c.redis_server c.redis_port c.connect_timeout_msecs ∙ sent)
            written)

  -- An attempt that connects, of a client that has no master name, no password and no database to
  -- select and whose buffer is empty, writes the commands that wait, and nothing else, at once and in
  -- their order. They wait as before, the attempt is counted, and the user is told of the start and
  -- then twice that it is connected.
  pub reconnect-wire :
      (incoming : List Incoming) (c : Client S)
      → is_empty c.master_name ≡ true
      → is_empty c.password ≡ true
      → not_selected c.database_index ≡ true
      → c.client.buffer ≡ []
      → (reopened c).thrown ≡ none
      → T.is_connected (reopened c).connection.client ≡ true
      → (rewritten c).failure ≡ none
      → reconnect T incoming c ≡ record {
        state = record c {
          current_reconnect_attempts = c.current_reconnect_attempts + 1;
          client = record (reopened c).connection { client = (rewritten c).socket; buffer = [] };
        };
        events =
            (notified start c).events
            ++ (notified ConnectState.ok c).events
            ++ (notified ConnectState.ok c).events;
        thrown = none;
      }
  unfolding reconnect looked_up
  reconnect-wire incoming c unnamed open_ unselected sent returned is_open written = rw unnamed (
      reconnect_to_lem (record c { current_reconnect_attempts = c.current_reconnect_attempts + 1 })
        open_ unselected sent returned is_open written)
