-- ===== src/Examples/Subscribers.antt =====
-- The subscriber on a concrete socket.
use cpp_redis.Prelude.{
  ◌≡◌, refl, ◌+◌, codes, ◌++◌, [], ◌∷◌, List, false, true, none, some, pos, ℕ, arith, find,
}
use cpp_redis.Reply.{is_array, reply_string, reply_integer, StringType}
use cpp_redis.Network.Command.{build_command}
use cpp_redis.Network.Connection
use cpp_redis.Network.Connection.Listening.{listening, read_on}
use cpp_redis.Protocol.{encode, AreValid}
use cpp_redis.Core.Retries.{Meanwhile}
use cpp_redis.Core.Sentinel.{packet}
use cpp_redis.Core.Subscriber.{
  Subscriber, subscriber, subscribe, psubscribe, user, null, logs_ok, auth, auth_reply,
}
use cpp_redis.Core.Subscriber.Reconnecting.{
  connect, commit, re_subscribe, re_auth, connection_disconnection_handler,
}
use cpp_redis.Core.Subscriber.Latest.{
  Request, subscribe_to, psubscribe_to, unsubscribe_from, run_all, latest, held, channel_change,
  pattern_change, run_all-latest,
}
use cpp_redis.Core.Subscriber.ComingIn.{handle_all, come_in}
use cpp_redis.Core.Subscriber.Delivery.{
  Push, sent_to, matched, subscribed, values_of, all_calls, come_in-calls,
}
use cpp_redis.Core.Subscriber.Auth.{handle_all-auth}
use cpp_redis.Core.Subscriber.Attempts.{
  IsSettled, subscriber_handler-Agree, subscriber_handler-IsSettled,
}
use cpp_redis.Core.Subscriber.Resubscribing.{
  written, subscriptions, re_subscribe_lem, re_subscribe-re_auth,
}
use cpp_redis.Core.Subscriber.Steps.{Reach, begin, later, subscribes, psubscribes, Reach-IsOrdered}
use cpp_redis.Examples.Socket.{Socket, loopback, closed}

abbrev fresh : Subscriber Socket
fresh = subscriber closed closed

abbrev requests : List Request
requests =
    subscribe_to (codes "news") (1, none)
    ∷ psubscribe_to (codes "n*") (2, some 3)
    ∷ subscribe_to (codes "a") (4, none)
    ∷ unsubscribe_from (codes "a")
    ∷ subscribe_to (codes "news") (5, some 6)
    ∷ []

run_all-latest_example :
    (find (codes "news") (run_all requests fresh).subscribed_channels
      ≡ held (latest channel_change (codes "news") requests none))
    × (find (codes "news") (run_all requests fresh).psubscribed_channels
        ≡ held (latest pattern_change (codes "news") requests none))
run_all-latest_example = run_all-latest requests (codes "news") fresh refl refl

abbrev pushes : List Push
pushes =
    subscribed (codes "news") (pos 1)
    ∷ sent_to (codes "news") (codes "hello")
    ∷ sent_to (codes "a") (codes "gone")
    ∷ matched (codes "n*") (codes "nb") (codes "hi")
    ∷ []

abbrev idle : ℕ → Meanwhile
idle n = record { cancelled = false; incoming = [] }

valid : AreValid (values_of pushes)
valid = (
  (omega arith, (omega arith, (omega arith, (omega arith, tt)))),
  (
    (omega arith, (omega arith, (omega arith, (omega arith, tt)))),
    (
      (omega arith, (omega arith, (omega arith, (omega arith, tt)))),
      ((omega arith, (omega arith, (omega arith, (omega arith, (omega arith, tt))))), tt),
    ),
  ),
)

come_in-calls_example :
    let t = run_all requests fresh in
    come_in loopback 3 idle
      (packet true (encode (values_of pushes)))
      (record t { client = listening t.client })
    ≡ record {
      state = record t { client = read_on loopback (listening t.client) };
      events =
          all_calls
            (λ name. latest channel_change name requests none)
            (λ name. latest pattern_change name requests none)
            pushes;
      thrown = none;
    }
come_in-calls_example = come_in-calls loopback 3 idle requests pushes fresh refl refl valid

-- A subscriber that was built up by calls.
abbrev busy : Subscriber Socket
busy =
    psubscribe (codes "n*") (some 2) (some 3)
      (subscribe (codes "a") (some 4) none (subscribe (codes "news") (some 1) none fresh))

busy-Reach : Reach loopback closed closed busy
busy-Reach =
    later
      (later (later begin (subscribes (codes "news") (some 1) none))
        (subscribes (codes "a") (some 4) none))
      (psubscribes (codes "n*") (some 2) (some 3))

-- The same behind a connection and a commit.
abbrev online : Subscriber Socket
online = (connect loopback (codes "localhost") 6379 true 0 (pos 2) 0 busy).state

abbrev served : Subscriber Socket
served = (commit loopback (auth (codes "pw") null online)).state

re_subscribe_lem_example : re_subscribe busy ≡ written (subscriptions busy) busy
re_subscribe_lem_example =
    re_subscribe_lem busy (Reach-IsOrdered loopback closed closed busy busy-Reach)

abbrev protected : Subscriber Socket
protected = record busy { password = codes "pw" }

re_subscribe-re_auth_example :
    re_subscribe (re_auth protected)
    ≡ written
        (build_command (codes "AUTH" ∷ codes "pw" ∷ []) ++ subscriptions protected)
        (record protected { auth_reply_callback = logs_ok })
re_subscribe-re_auth_example =
    re_subscribe-re_auth protected (Reach-IsOrdered loopback closed closed busy busy-Reach) refl

handle_all-auth_example :
    let t = auth (codes "pw") (user 7) fresh in
    handle_all loopback 3 idle
      (Connection.reply_callback (reply_string (codes "OK") StringType.simple_string)
        ∷ Connection.reply_callback (reply_integer (pos 1))
        ∷ [])
      t
    ≡ record {
      state = record t { auth_reply_callback = null };
      events = auth_reply 7 (reply_string (codes "OK") StringType.simple_string) ∷ [];
      thrown = none;
    }
unfolding is_array
handle_all-auth_example =
    handle_all-auth loopback 3 idle (codes "pw") 7
      (reply_string (codes "OK") StringType.simple_string) (reply_integer (pos 1) ∷ []) fresh
      (refl, (refl, tt))

abbrev limited : Subscriber Socket
limited = record fresh { max_reconnects = pos 2; redis_port = 6379 }

subscriber_handler-Agree_example :
    connection_disconnection_handler loopback (2 + 5) idle limited
    ≡ connection_disconnection_handler loopback 2 idle limited
subscriber_handler-Agree_example = subscriber_handler-Agree loopback 2 5 idle limited refl

handler_returns : (connection_disconnection_handler loopback 2 idle limited).thrown ≡ none
unfolding connection_disconnection_handler Connection.connect Connection.commit Connection.send
    Connection.is_connected
handler_returns = refl

subscriber_handler-IsSettled_example :
    IsSettled loopback (connection_disconnection_handler loopback 2 idle limited).state
subscriber_handler-IsSettled_example =
    subscriber_handler-IsSettled loopback 2 idle limited refl handler_returns
