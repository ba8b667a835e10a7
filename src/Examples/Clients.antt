-- ===== src/Examples/Clients.antt =====
-- The client on a concrete socket.
use cpp_redis.Prelude.{
  ◌≡◌, refl, to_string, ◌+◌, codes, ◌++◌, [], ◌∷◌, List, Bytes, false, none, pos, map, ℕ, true,
  arith,
}
use cpp_redis.Reply.{Reply, reply_integer}
use cpp_redis.Network.Command.{build_command, add_parts}
use cpp_redis.Network.Connection
use cpp_redis.Network.Connection.Listening.{listening, read_on}
use cpp_redis.Protocol.{Value, Values, no_items, item, encode, replies_of}
use cpp_redis.Core.Client.Waiting.{packet, sync_commit}
use cpp_redis.Core.Client.Waiting.Answers.{asking, sync_commit-calls}
use cpp_redis.Core.Client.Commands.Strings.{get}
use cpp_redis.Core.Client.Futures.{exec_cmd}
use cpp_redis.Core.Client.Promises.{exec_cmd-receive_all}
use cpp_redis.Core.Client.StoreKeys.{georadius-store_key}
use cpp_redis.Core.Client.Commands.Geo.{km, georadius_full, georadiusbymember_full}
use cpp_redis.Core.Client.{
  ConnectState, start, notified, null, promise_set, cancel_reconnect, notify, dropped, stopped,
  Client, CommandRequest, client, logs_ok, resend_failed_commands, re_auth, re_select,
  clear_callbacks, fail_all,
}
use cpp_redis.Core.Client.Reconnecting.{connection_disconnection_handler, reconnect}
use cpp_redis.Core.Retries.{Meanwhile}
use cpp_redis.Core.Client.Order.{
  request, calls, failures, receive_all, receive_all-calls, fail_all-clear_callbacks,
}
use cpp_redis.Core.Client.Resending.{wire, resend_failed_commands_lem, resend-re_auth}
use cpp_redis.Core.Client.Resumed.{reopened, rewritten, reconnect-wire}
use cpp_redis.Core.Client.Attempts.{
  Settled, connection_disconnection_handler-Agree,
  connection_disconnection_handler-cancel_reconnect, connection_disconnection_handler-Settled,
}
use cpp_redis.Examples.Socket.{Socket, loopback, closed}

abbrev queries : List (List Bytes × ℕ)
queries = (codes "GET" ∷ codes "a" ∷ [], 3) ∷ (codes "PING" ∷ [], 4) ∷ []

abbrev waiting : Client Socket
waiting = record (client closed closed) {
  password = codes "pw";
  redis_port = 6379;
  max_reconnects = pos 2;
  commands = map request queries;
}

abbrev two_replies : List Reply
two_replies = reply_integer (pos 1) ∷ reply_integer (pos 2) ∷ []

receive_all-calls_example :
    receive_all two_replies (record waiting { commands = map request queries ++ [] }) ≡ record {
      state = record waiting { commands = [] };
      events = calls queries two_replies;
      thrown = none;
    }
receive_all-calls_example = receive_all-calls queries two_replies [] waiting refl

fail_all-clear_callbacks_example :
    let cleared =
      clear_callbacks (record waiting { commands = map request queries; failing = [] }) in
    fail_all cleared.failing cleared ≡ record {
      state = record waiting { commands = []; failing = [] };
      events = failures queries;
      thrown = none;
    }
fail_all-clear_callbacks_example = fail_all-clear_callbacks queries waiting

resend_failed_commands_lem_example : resend_failed_commands waiting ≡ record waiting {
  client = record waiting.client { buffer = [] ++ wire (map request queries) };
}
resend_failed_commands_lem_example = resend_failed_commands_lem waiting

abbrev auth_request : CommandRequest
auth_request = record { command = codes "AUTH" ∷ codes "pw" ∷ []; callback = logs_ok }

resend-re_auth_example : resend_failed_commands (re_select (re_auth waiting)) ≡ record waiting {
  client = record waiting.client {
    buffer =
        [] ++ build_command auth_request.command ++ wire (map request queries ++ auth_request ∷ []);
  };
  commands = map request queries ++ auth_request ∷ [];
}
resend-re_auth_example = resend-re_auth waiting refl refl

abbrev unprotected : Client Socket
unprotected = record waiting { password = [] }

opened_again : (reopened loopback unprotected).thrown ≡ none
unfolding Connection.connect
opened_again = refl

is_open_again : (reopened loopback unprotected).connection.client.connected ≡ true
unfolding Connection.connect
is_open_again = refl

rewritten_again :
    (rewritten loopback unprotected).socket.written
    ≡ build_command (codes "GET" ∷ codes "a" ∷ []) ++ build_command (codes "PING" ∷ [])
unfolding Connection.connect build_command add_parts to_string
rewritten_again = refl

reconnect-wire_example : reconnect loopback [] unprotected ≡ record {
  state = record unprotected {
    current_reconnect_attempts = 1;
    client = record (reopened loopback unprotected).connection {
      client = (rewritten loopback unprotected).socket;
      buffer = [];
    };
  };
  events =
      (notified start unprotected).events
      ++ (notified ConnectState.ok unprotected).events
      ++ (notified ConnectState.ok unprotected).events;
  thrown = none;
}
reconnect-wire_example =
    reconnect-wire loopback [] unprotected refl refl refl refl opened_again is_open_again refl

abbrev nothing : ℕ → Meanwhile
nothing n = record { cancelled = false; incoming = [] }

abbrev integers : Values
integers = item (Value.integer (pos 1)) (item (Value.integer (pos 2)) no_items)

connection_disconnection_handler-Agree_example :
    connection_disconnection_handler loopback (2 + 5) nothing waiting
    ≡ connection_disconnection_handler loopback 2 nothing waiting
connection_disconnection_handler-Agree_example =
    connection_disconnection_handler-Agree loopback 2 5 nothing waiting refl

returns : (connection_disconnection_handler loopback 2 nothing waiting).thrown ≡ none
unfolding connection_disconnection_handler Connection.connect Connection.commit Connection.send
returns = refl

connection_disconnection_handler-Settled_example :
    Settled loopback (connection_disconnection_handler loopback 2 nothing waiting).state
connection_disconnection_handler-Settled_example =
    connection_disconnection_handler-Settled loopback 2 nothing waiting refl returns

connection_disconnection_handler-cancel_reconnect_example :
    connection_disconnection_handler loopback 9 nothing (cancel_reconnect waiting) ≡ record {
      state = record (clear_callbacks (cancel_reconnect waiting)) {
        current_reconnect_attempts = 0;
        reconnecting = false;
      };
      events =
          notify waiting.redis_server waiting.redis_port dropped waiting
          ++ notify waiting.redis_server waiting.redis_port stopped waiting;
      thrown = none;
    }
connection_disconnection_handler-cancel_reconnect_example =
    connection_disconnection_handler-cancel_reconnect loopback 9 nothing waiting refl refl

abbrev two_integers : Values
two_integers = item (Value.integer (pos 1)) (item (Value.integer (pos 2)) no_items)

sync_commit-calls_example :
    sync_commit loopback 3 nothing
      (packet true (encode two_integers) ∷ [])
      (asking loopback 3 nothing queries waiting)
    ≡ record {
      state = record (asking loopback 3 nothing [] waiting) {
        client =
            read_on loopback (listening (Connection.commit loopback waiting.client).connection);
      };
      events = calls queries (replies_of two_integers);
      thrown = none;
    }
unfolding replies_of
sync_commit-calls_example =
    sync_commit-calls loopback 3 nothing (codes "GET" ∷ codes "a" ∷ [], 3)
      ((codes "PING" ∷ [], 4) ∷ []) two_integers [] waiting refl (omega arith, (omega arith, tt))
      refl

exec_cmd-receive_all_example :
    let c = record waiting { commands = [] } in
    let (t, future) = exec_cmd (get (codes "a")) 9 (record c { commands = map request queries }) in
    receive_all (two_replies ++ reply_integer (pos 3) ∷ []) t ≡ record {
      state = record c {
        client = Connection.send c.client (codes "GET" ∷ codes "a" ∷ []);
        commands = [];
      };
      events = calls queries two_replies ++ promise_set future (reply_integer (pos 3)) ∷ [];
      thrown = none;
    }
unfolding get
exec_cmd-receive_all_example =
    exec_cmd-receive_all (get (codes "a")) (codes "GET" ∷ codes "a" ∷ []) 9 queries two_replies
      (reply_integer (pos 3)) (record waiting { commands = [] }) (λ callback d. refl) refl

georadius-store_key_example :
    (georadius_full to_string
        (codes "k")
        1
        2
        3
        km
        false
        true
        false
        true
        0
        (codes "a")
        (codes "d")
        null
        waiting
      ≡ georadius_full to_string
          (codes "k")
          1
          2
          3
          km
          false
          true
          false
          true
          0
          (codes "b")
          (codes "d")
          null
          waiting)
    × (georadiusbymember_full to_string
          (codes "k")
          (codes "m")
          3
          km
          false
          true
          false
          true
          0
          (codes "a")
          (codes "d")
          null
          waiting
        ≡ georadiusbymember_full to_string
            (codes "k")
            (codes "m")
            3
            km
            false
            true
            false
            true
            0
            (codes "b")
            (codes "d")
            null
            waiting)
georadius-store_key_example =
    georadius-store_key to_string (codes "k") (codes "m") 1 2 3 km false true false true 0
      (codes "a") (codes "b") (codes "d") null waiting refl refl
