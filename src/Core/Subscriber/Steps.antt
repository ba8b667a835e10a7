-- ===== src/Core/Subscriber/Steps.antt =====
-- The runs of a `subscriber` (sources/core/subscriber.cpp): what its user and the network do to it, in
-- any order, and what every state of a run has.
use cpp_redis.Core.Subscriber.Ordered.{
  connection_receive_handler-IsOrdered, unsubscribed-IsOrdered, punsubscribed-IsOrdered,
}
use cpp_redis.Prelude.{
  ℕ, Bool, true, false, Option, List, [], ◌∷◌, Bytes, refl, Bool-cases, inl, inr, ℤ, insert,
  insert-Sorted, Sorted, find, if◌then◌else◌,
}
use cpp_redis.Error.{out_of_fuel, redis_error}
use cpp_redis.Network.TcpClient.{TcpClient}
use cpp_redis.Network.Connection
use cpp_redis.Core.Call.{ran, failed, and_then, and_then-keeps, where_thrown-keeps}
use cpp_redis.Core.Interrupted.{left, put_back}
use cpp_redis.Core.Retries.{Meanwhile, retry-keeps}
use cpp_redis.Core.Sentinel.{Sentinel, Incoming, packet, dropped}
use cpp_redis.Core.Subscriber.{
  Subscriber, Ran, Channels, CallbackHolder, Callback, subscriber, subscribe, psubscribe,
  unsubscribe, punsubscribe, unprotected_subscribe, unprotected_psubscribe, sent, auth,
  cancel_reconnect, add_sentinel, clear_sentinels, clear_subscriptions,
}
use cpp_redis.Core.Subscriber.Receiving.{connection_receive_handler}
use cpp_redis.Core.Subscriber.Reconnecting.{
  connect, connect_master, look_up, disconnect, commit, is_connected, should_reconnect, round,
  attempts, sleep_before_next_reconnect_attempt, reconnect, give_up, reconnection_over,
  connection_disconnection_handler,
}
use cpp_redis.Core.Subscriber.Kept.{connect-Kept, sleep-Kept, reconnect-Kept}
use cpp_redis.Core.Subscriber.Resubscribing.{IsOrdered}
use cpp_redis.Core.Subscriber.ComingIn.{handle, handle_all, come_in}

-- The insertion that `Kept` asks for.
abbrev add : (k : Bytes) (h : CallbackHolder) (m : Channels) → Sorted m → Sorted (insert k h m)
add k h m s = insert-Sorted k h m s

module _ {S : Type 0} (T : TcpClient S) where
  -- A call of the user's, or what comes in: then the rounds of a reconnection and what happens
  -- meanwhile are any.
  pub data Step (s : Subscriber S) : Subscriber S → Type 0 where
    subscribes :
        (channel : Bytes) (callback acknowledgement : Option ℕ)
        → Step s (subscribe channel callback acknowledgement s)
    psubscribes :
        (name : Bytes) (callback acknowledgement : Option ℕ)
        → Step s (psubscribe name callback acknowledgement s)
    unsubscribes : (channel : Bytes) → Step s (unsubscribe channel s)
    punsubscribes : (name : Bytes) → Step s (punsubscribe name s)
    authenticates : (password : Bytes) (callback : Callback) → Step s (auth password callback s)
    connects :
        (host : Bytes) (port : ℕ) (on_connect : Bool) (timeout_msecs : ℕ) (max_reconnects : ℤ)
        (interval : ℕ)
        → Step s (connect T host port on_connect timeout_msecs max_reconnects interval s).state
    connects_master :
        (name : Bytes) (on_connect : Bool) (timeout_msecs : ℕ) (max_reconnects : ℤ) (interval : ℕ)
        (incoming : List Incoming)
        → Step s
            (connect_master T name on_connect timeout_msecs max_reconnects interval incoming
              s).state
    disconnects : (wait_for_removal : Bool) → Step s (disconnect T wait_for_removal s)
    commits : Step s (commit T s).state
    cancels : Step s (cancel_reconnect s)
    adds_sentinel :
        (host : Bytes) (port timeout_msecs : ℕ) → Step s (add_sentinel host port timeout_msecs s)
    clears_sentinels : Step s (clear_sentinels s)
    -- What the user does on what `get_sentinel` gives is any.
    uses_sentinel : (sen : Sentinel S) → Step s (record s { sentinel = sen })
    receives :
        (f : ℕ) (meanwhile : ℕ → Meanwhile) (i : Incoming)
        → Step s (come_in T f meanwhile i s).state

  -- The states of a run that begins with the constructor.
  pub data Reach (a b : S) : Subscriber S → Type 0 where
    begin : Reach a b (subscriber a b)
    later : {s t : Subscriber S} → Reach a b s → Step s t → Reach a b t

module _ {S : Type 0} (T : TcpClient S) where
  sleep-IsOrdered :
      (m : Meanwhile) (s : Subscriber S)
      → IsOrdered s
      → IsOrdered (sleep_before_next_reconnect_attempt T m s).state
  sleep-IsOrdered m s h =
      (sleep-Kept Sorted tt add s.max_reconnects T s.current_reconnect_attempts m s
        (refl, (refl, h))).1.1

  reconnect-IsOrdered :
      (incoming : List Incoming) (s : Subscriber S)
      → IsOrdered s
      → IsOrdered (reconnect T incoming s).state
  reconnect-IsOrdered incoming s h =
      (reconnect-Kept Sorted tt add s.max_reconnects T s.current_reconnect_attempts incoming s
        (refl, (refl, h))).1.1

  attempts-IsOrdered :
      (f : ℕ) (meanwhile : ℕ → Meanwhile) (s : Subscriber S)
      → IsOrdered s
      → IsOrdered (attempts T f meanwhile s).state
  unfolding attempts round
  attempts-IsOrdered f meanwhile s h =
      retry-keeps (should_reconnect T) (round T meanwhile) ran (λ t. failed t out_of_fuel) IsOrdered
        (λ (r : Ran S). IsOrdered r.state) (λ t k. k) (λ t k. k)
        (λ next later t k.
          let m = meanwhile t.current_reconnect_attempts in
          and_then-keeps IsOrdered (sleep_before_next_reconnect_attempt T m t)
            (λ u. and_then (reconnect T m.incoming u) next) (sleep-IsOrdered m t k)
            (λ u j.
              and_then-keeps IsOrdered (reconnect T m.incoming u) next
                (reconnect-IsOrdered m.incoming u j) later))
        f s h

  give_up-IsOrdered : (s : Subscriber S) → IsOrdered s → IsOrdered (give_up T s).state
  unfolding give_up clear_subscriptions
  give_up-IsOrdered s h = elim (Bool-cases (is_connected T s)) [
    | inl e ↦ rw e h
    | inr e ↦ rw e (tt, tt)
  ]

  over-IsOrdered :
      (s : Subscriber S)
      → IsOrdered s
      → IsOrdered (and_then (give_up T s) (λ t. ran (record t { reconnecting = false }))).state
  over-IsOrdered s h =
      and_then-keeps IsOrdered (give_up T s) (λ t. ran (record t { reconnecting = false }))
        (give_up-IsOrdered s h) (λ t k. k)

  handler-IsOrdered :
      (f : ℕ) (meanwhile : ℕ → Meanwhile) (s : Subscriber S)
      → IsOrdered s
      → IsOrdered (connection_disconnection_handler T f meanwhile s).state
  unfolding connection_disconnection_handler reconnection_over
  handler-IsOrdered f meanwhile s h =
      let s' = record s { reconnecting = true; current_reconnect_attempts = 0 } in
      elim (Bool-cases s.reconnecting) [
        | inl e ↦ rw e h
        | inr e ↦ rw e (
            and_then-keeps IsOrdered (attempts T f meanwhile s')
              (λ t. and_then (give_up T t) (λ t'. ran (record t' { reconnecting = false })))
              (attempts-IsOrdered f meanwhile s' h) over-IsOrdered)
      ]

  handle_all-IsOrdered :
      (f : ℕ) (meanwhile : ℕ → Meanwhile) (es : List Connection.Event) (s : Subscriber S)
      → IsOrdered s
      → IsOrdered (handle_all T f meanwhile es s).state
  unfolding handle_all handle
  handle_all-IsOrdered f meanwhile [] s h = h
  handle_all-IsOrdered f meanwhile (Connection.reply_callback r ∷ es) s h =
      and_then-keeps IsOrdered (connection_receive_handler r s) (handle_all T f meanwhile es)
        (connection_receive_handler-IsOrdered r s h) (handle_all-IsOrdered f meanwhile es)
  handle_all-IsOrdered f meanwhile (Connection.disconnection_handler ∷ es) s h =
      and_then-keeps IsOrdered (connection_disconnection_handler T f meanwhile s)
        (handle_all T f meanwhile es) (handler-IsOrdered f meanwhile s h)
        (handle_all-IsOrdered f meanwhile es)

  come_in-IsOrdered :
      (f : ℕ) (meanwhile : ℕ → Meanwhile) (i : Incoming) (s : Subscriber S)
      → IsOrdered s
      → IsOrdered (come_in T f meanwhile i s).state
  unfolding come_in
  come_in-IsOrdered f meanwhile (packet success bytes) s h =
      let r = Connection.tcp_client_receive_handler T s.client success bytes in
      let s' = record s { client = r.connection } in
      let k = handle_all-IsOrdered f meanwhile r.events s' h in
      where_thrown-keeps IsOrdered
        (λ t. record t {
          client =
              put_back s.client.client r.events (left (handle T f meanwhile) r.events s') t.client;
        })
        (handle_all T f meanwhile r.events s') k k
  come_in-IsOrdered f meanwhile dropped s h =
      let r = Connection.tcp_client_disconnection_handler s.client in
      handle_all-IsOrdered f meanwhile r.events (record s { client = r.connection }) h

  connect-IsOrdered :
      (host : Bytes) (port : ℕ) (on_connect : Bool) (timeout_msecs : ℕ) (limit : ℤ) (interval : ℕ)
      (s : Subscriber S)
      → IsOrdered s
      → IsOrdered (connect T host port on_connect timeout_msecs limit interval s).state
  connect-IsOrdered host port on_connect timeout_msecs limit interval s h =
      (connect-Kept Sorted tt add s.max_reconnects T host port on_connect timeout_msecs interval
        s.current_reconnect_attempts limit s (refl, (refl, h))).1.1

  connect_found :
      (found on_connect : Bool) (timeout_msecs : ℕ) (limit : ℤ) (interval : ℕ) (s : Subscriber S)
      → IsOrdered s
      → IsOrdered
          (if found
            then connect T s.redis_server s.redis_port on_connect timeout_msecs limit interval s
            else failed s (
                redis_error
                  "cpp_redis::subscriber::connect() could not find master for name ")).state
  connect_found true on_connect timeout_msecs limit interval s h =
      connect-IsOrdered s.redis_server s.redis_port on_connect timeout_msecs limit interval s h
  connect_found false on_connect timeout_msecs limit interval s h = h

  connect_master-IsOrdered :
      (name : Bytes) (on_connect : Bool) (timeout_msecs : ℕ) (limit : ℤ) (interval : ℕ)
      (incoming : List Incoming) (s : Subscriber S)
      → IsOrdered s
      → IsOrdered (connect_master T name on_connect timeout_msecs limit interval incoming s).state
  unfolding connect_master look_up
  connect_master-IsOrdered name on_connect timeout_msecs limit interval incoming s h =
      let s' = record s { master_name = name } in
      let found = (look_up T incoming s').1 in
      and_then-keeps IsOrdered (look_up T incoming s').0
        (λ t.
          if found
          then connect T t.redis_server t.redis_port on_connect timeout_msecs limit interval t
          else failed t
              (redis_error "cpp_redis::subscriber::connect() could not find master for name "))
        h (connect_found found on_connect timeout_msecs limit interval)

  Step-IsOrdered : (s t : Subscriber S) → IsOrdered s → Step T s t → IsOrdered t
  unfolding subscribe psubscribe unsubscribe punsubscribe unprotected_subscribe
      unprotected_psubscribe auth sent disconnect commit add_sentinel clear_sentinels connect_master
      look_up
  Step-IsOrdered s _ (hs, hp) (subscribes channel callback acknowledgement) =
      (insert-Sorted channel _ s.subscribed_channels hs, hp)
  Step-IsOrdered s _ (hs, hp) (psubscribes name callback acknowledgement) =
      (hs, insert-Sorted name _ s.psubscribed_channels hp)
  Step-IsOrdered s _ h (unsubscribes channel) =
      unsubscribed-IsOrdered channel (find channel s.subscribed_channels) s h
  Step-IsOrdered s _ h (punsubscribes name) =
      punsubscribed-IsOrdered name (find name s.psubscribed_channels) s h
  Step-IsOrdered s _ h (authenticates password callback) = h
  Step-IsOrdered s _ h (connects host port on_connect timeout_msecs limit interval) =
      connect-IsOrdered host port on_connect timeout_msecs limit interval s h
  Step-IsOrdered s _ h (connects_master name on_connect timeout_msecs limit interval incoming) =
      connect_master-IsOrdered name on_connect timeout_msecs limit interval incoming s h
  Step-IsOrdered s _ h (disconnects wait_for_removal) = h
  Step-IsOrdered s _ h commits = h
  Step-IsOrdered s _ h cancels = h
  Step-IsOrdered s _ h (adds_sentinel host port timeout_msecs) = h
  Step-IsOrdered s _ h clears_sentinels = h
  Step-IsOrdered s _ h (uses_sentinel sen) = h
  Step-IsOrdered s _ h (receives f meanwhile i) = come_in-IsOrdered f meanwhile i s h

  -- In every state of a run, whatever the user calls, the server sends and the connection does, both
  -- maps of the subscriber have their keys in order and each once.
  pub Reach-IsOrdered : (a b : S) (s : Subscriber S) → Reach T a b s → IsOrdered s
  Reach-IsOrdered a b _ begin = (tt, tt)
  Reach-IsOrdered a b t (later {s = s} run step) =
      Step-IsOrdered s t (Reach-IsOrdered a b s run) step
