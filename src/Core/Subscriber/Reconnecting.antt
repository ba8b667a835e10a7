-- ===== src/Core/Subscriber/Reconnecting.antt =====
-- Connecting, committing and the reconnection of `subscriber` (sources/core/subscriber.cpp).
use cpp_redis.Prelude.{
  ℕ, ◌+◌, Bool, true, false, not, ◌||◌, ◌&&◌, List, [], ◌∷◌, Bytes, ◌==◌, if◌then◌else◌, ℤ,
}
use cpp_redis.Error.{redis_error, out_of_fuel}
use cpp_redis.Network.TcpClient.{TcpClient}
use cpp_redis.Network.Connection
use cpp_redis.Core.Sentinel
use cpp_redis.Core.Sentinel.{Incoming}
use cpp_redis.Core.Sentinel.Connecting.{get_master_addr_by_name}
use cpp_redis.Core.Call.{ran, failed, and_then, caught}
use cpp_redis.Core.Retries.{Meanwhile, attempts_left, retry}
use cpp_redis.Core.Client.{is_empty}
use cpp_redis.Core.Subscriber.{
  Subscriber, Ran, Channels, ConnectState, dropped, start, sleeping, lookup_failed, stopped,
  logs_ok, auth, cancel_reconnect, unprotected_subscribe, unprotected_psubscribe, notified,
  clear_subscriptions,
}

module _ {S : Type 0} where
  unfoldable pub re_auth : Subscriber S → Subscriber S
  unfolding auth
  re_auth s = if is_empty s.password then s else auth s.password logs_ok s

  -- The loops of `re_subscribe`.
  unfoldable pub subscribe_all : Channels → Subscriber S → Subscriber S
  unfolding unprotected_subscribe
  subscribe_all [] s = s
  subscribe_all (chan ∷ rest) s = subscribe_all rest (unprotected_subscribe chan.0 chan.1 s)

  unfoldable pub psubscribe_all : Channels → Subscriber S → Subscriber S
  unfolding unprotected_psubscribe
  psubscribe_all [] s = s
  psubscribe_all (chan ∷ rest) s = psubscribe_all rest (unprotected_psubscribe chan.0 chan.1 s)

  -- Each map is moved out of the subscriber, which leaves it empty, and its channels are subscribed
  -- to again.
  unfoldable pub resubscribe_patterns : Subscriber S → Subscriber S
  unfolding psubscribe_all
  resubscribe_patterns s =
      psubscribe_all s.psubscribed_channels (record s { psubscribed_channels = [] })

  unfoldable pub re_subscribe : Subscriber S → Subscriber S
  unfolding subscribe_all resubscribe_patterns
  re_subscribe s =
      resubscribe_patterns
        (subscribe_all s.subscribed_channels (record s { subscribed_channels = [] }))

module _ {S : Type 0} (T : TcpClient S) where
  unfoldable pub is_connected : Subscriber S → Bool
  unfolding Connection.is_connected
  is_connected s = Connection.is_connected T s.client

  -- Behind the call of the connection's `connect`.
  abbrev pub connected : Connection.Done S → Subscriber S → Ran S
  connected r s = record {
    state = record s { client = r.connection };
    events = [];
    thrown = r.thrown;
  }

  -- `connect` to a host; the flag says whether the callback that is given is not null.
  unfoldable pub connect : Bytes → ℕ → Bool → ℕ → ℤ → ℕ → Subscriber S → Ran S
  connect host port on_connect timeout_msecs max_reconnects reconnect_interval_msecs s =
      let s' = record s {
        redis_server = host;
        redis_port = port;
        has_connect_callback = on_connect;
        max_reconnects = max_reconnects;
        reconnect_interval_msecs = reconnect_interval_msecs;
      } in
      let r = Connection.connect T s'.client host port true true timeout_msecs in
      and_then (notified start s') (λ s. and_then (connected r s) (notified ConnectState.ok))

  -- `m_sentinel.get_master_addr_by_name`, which writes into the saved server and port. Callbacks that
  -- a user has on the sentinel itself are not followed here.
  unfoldable pub look_up : List Incoming → Subscriber S → Ran S × Bool
  unfolding get_master_addr_by_name
  look_up incoming s =
      let (r, found) = get_master_addr_by_name T s.master_name true incoming s.sentinel in
      (
        record {
          state = record s {
            sentinel = r.state;
            redis_server = r.state.host;
            redis_port = r.state.port;
          };
          events = [];
          thrown = r.thrown;
        },
        found,
      )

  -- `connect` to the master that the sentinels name. The message of the exception ends with the name
  -- in the source.
  unfoldable pub connect_master : Bytes → Bool → ℕ → ℤ → ℕ → List Incoming → Subscriber S → Ran S
  unfolding look_up connect
  connect_master name on_connect timeout_msecs max_reconnects reconnect_interval_msecs incoming s =
      let (r, found) = look_up incoming (record s { master_name = name }) in
      and_then r (λ s.
        if found
        then connect s.redis_server s.redis_port on_connect timeout_msecs max_reconnects
            reconnect_interval_msecs s
        else failed s
            (redis_error "cpp_redis::subscriber::connect() could not find master for name "))

  unfoldable pub disconnect : Bool → Subscriber S → Subscriber S
  disconnect wait_for_removal s = record s {
    client = Connection.disconnect T wait_for_removal s.client;
  }

  -- The destructor.
  unfoldable pub destroy : Subscriber S → Subscriber S
  unfolding is_connected disconnect Sentinel.Connecting.disconnect
  destroy s =
      let cancelled = if not s.cancel then cancel_reconnect s else s in
      let left =
        if Sentinel.Connecting.is_connected T cancelled.sentinel
        then record cancelled {
          sentinel = Sentinel.Connecting.disconnect T true cancelled.sentinel;
        }
        else cancelled in
      if is_connected left then disconnect true left else left

  unfoldable pub commit : Subscriber S → Ran S
  commit s =
      let r = Connection.commit T s.client in
      record { state = record s { client = r.connection }; events = []; thrown = r.thrown }

  unfoldable pub should_reconnect : Subscriber S → Bool
  unfolding is_connected attempts_left
  should_reconnect s =
      not (is_connected s)
      && (not s.cancel && attempts_left s.current_reconnect_attempts s.max_reconnects)

  -- The flag of another thread is set meanwhile.
  unfoldable pub sleep_before_next_reconnect_attempt : Meanwhile → Subscriber S → Ran S
  sleep_before_next_reconnect_attempt m s =
      let s' = record s { cancel = s.cancel || m.cancelled } in
      if s.reconnect_interval_msecs == 0 then ran s' else notified sleeping s'

  -- Behind the reconnection: the password, the channels, and all is written.
  unfoldable pub reconnected : Subscriber S → Ran S
  unfolding re_auth re_subscribe commit
  reconnected s = commit (re_subscribe (re_auth s))

  -- Behind the attempt to connect.
  unfoldable pub connect_tried : Subscriber S → Ran S
  unfolding is_connected reconnected
  connect_tried s =
      if is_connected s
      then and_then (notified ConnectState.ok s) reconnected
      else notified ConnectState.failed s

  -- `reconnect` behind the lookup.
  unfoldable pub reconnect_to : Subscriber S → Ran S
  unfolding connect connect_tried
  reconnect_to s =
      and_then
        (caught (
          connect s.redis_server s.redis_port s.has_connect_callback s.connect_timeout_msecs
            s.max_reconnects s.reconnect_interval_msecs s))
        connect_tried

  unfoldable pub looked_up : Bool → Subscriber S → Ran S
  unfolding reconnect_to
  looked_up true s = reconnect_to s
  looked_up false s = notified lookup_failed s

  unfoldable pub reconnect : List Incoming → Subscriber S → Ran S
  unfolding look_up looked_up
  reconnect incoming s =
      let s' = record s { current_reconnect_attempts = s.current_reconnect_attempts + 1 } in
      let (r, found) = look_up incoming s' in
      if is_empty s.master_name then looked_up true s' else and_then r (looked_up found)

  -- A round of the loop of the disconnection handler.
  unfoldable pub round : (ℕ → Meanwhile) → (Subscriber S → Ran S) → Subscriber S → Ran S
  unfolding sleep_before_next_reconnect_attempt reconnect
  round meanwhile next s =
      let m = meanwhile s.current_reconnect_attempts in
      and_then (sleep_before_next_reconnect_attempt m s)
        (λ s. and_then (reconnect m.incoming s) next)

  -- The loop, for that many attempts at most.
  unfoldable pub attempts : ℕ → (ℕ → Meanwhile) → Subscriber S → Ran S
  unfolding retry should_reconnect round
  attempts f meanwhile s =
      retry should_reconnect (round meanwhile) ran (λ s. failed s out_of_fuel) f s

  -- Behind the loop.
  unfoldable pub give_up : Subscriber S → Ran S
  unfolding is_connected clear_subscriptions
  give_up s = if is_connected s then ran s else notified stopped (clear_subscriptions s)

  -- `m_reconnecting = false` in the end; where something was thrown, it stays set.
  unfoldable pub reconnection_over : Ran S → Ran S
  unfolding give_up
  reconnection_over r =
      and_then r (λ s. and_then (give_up s) (λ s'. ran (record s' { reconnecting = false })))

  -- The handler, on as many attempts as the first argument says.
  unfoldable pub connection_disconnection_handler : ℕ → (ℕ → Meanwhile) → Subscriber S → Ran S
  unfolding attempts reconnection_over
  connection_disconnection_handler f meanwhile s =
      let s' = record s { reconnecting = true; current_reconnect_attempts = 0 } in
      let r = and_then (notified dropped s') (λ s. reconnection_over (attempts f meanwhile s)) in
      if s.reconnecting then ran s else r
