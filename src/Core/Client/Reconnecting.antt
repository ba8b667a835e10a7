-- ===== src/Core/Client/Reconnecting.antt =====
-- Connecting, committing and the reconnection of `client` (sources/core/client.cpp).
use cpp_redis.Prelude.{
  ℕ, ◌+◌, Bool, true, false, not, ◌||◌, ◌&&◌, some, none, Option, List, [], Bytes, ◌==◌,
  if◌then◌else◌, ℤ,
}
use cpp_redis.Error.{Exception, redis_error, out_of_fuel}
use cpp_redis.Network.TcpClient.{TcpClient}
use cpp_redis.Network.Connection
use cpp_redis.Core.Sentinel
use cpp_redis.Core.Sentinel.{Incoming}
use cpp_redis.Core.Sentinel.Connecting.{get_master_addr_by_name}
use cpp_redis.Core.Call.{ran, failed, and_then, caught}
use cpp_redis.Core.Retries.{Meanwhile, attempts_left, retry}
use cpp_redis.Core.Client.{
  cancel_reconnect, Client, Ran, ConnectState, dropped, start, sleeping, lookup_failed, stopped,
  notified, clear_callbacks, re_auth, re_select, resend_failed_commands, is_empty,
}

module _ {S : Type 0} (T : TcpClient S) where
  abbrev pub is_connected : Client S → Bool
  is_connected c = T.is_connected c.client.client

  -- The second overload of `connect`, behind the call of the connection's.
  unfoldable pub connect_done : Client S → Option Exception → Ran S
  connect_done c none = notified ConnectState.ok c
  connect_done c (some e) = record { state = c; events = []; thrown = some e }

  -- `connect` to a host; the flag says whether the callback that is given is not null.
  unfoldable pub connect : Bytes → ℕ → Bool → ℕ → ℤ → ℕ → Client S → Ran S
  unfolding connect_done
  connect host port on_connect timeout_msecs max_reconnects reconnect_interval_msecs c =
      let c' = record c {
        redis_server = host;
        redis_port = port;
        has_connect_callback = on_connect;
        max_reconnects = max_reconnects;
        reconnect_interval_msecs = reconnect_interval_msecs;
      } in
      let r = Connection.connect T c'.client host port true true timeout_msecs in
      and_then (notified start c') (λ s. connect_done (record s { client = r.connection }) r.thrown)

  -- `m_sentinel.get_master_addr_by_name`, which writes into the saved server and port. Callbacks that
  -- a user has on the sentinel itself are not followed here.
  unfoldable pub look_up : List Incoming → Client S → Ran S × Bool
  unfolding get_master_addr_by_name
  look_up incoming c =
      let (r, found) = get_master_addr_by_name T c.master_name true incoming c.sentinel in
      (
        record {
          state = record c {
            sentinel = r.state;
            redis_server = r.state.host;
            redis_port = r.state.port;
          };
          events = [];
          thrown = r.thrown;
        },
        found,
      )

  -- `connect` to the master that the sentinels name. The message of the exception ends with the name
  -- in the source.
  unfoldable pub connect_master : Bytes → Bool → ℕ → ℤ → ℕ → List Incoming → Client S → Ran S
  unfolding look_up connect
  connect_master name on_connect timeout_msecs max_reconnects reconnect_interval_msecs incoming c =
      let (r, found) = look_up incoming (record c { master_name = name }) in
      and_then r (λ s.
        if found
        then connect s.redis_server s.redis_port on_connect timeout_msecs max_reconnects
            reconnect_interval_msecs s
        else record {
          state = s;
          events = [];
          thrown =
              some (redis_error "cpp_redis::client::connect() could not find master for name ");
        })

  unfoldable pub disconnect : Bool → Client S → Client S
  unfolding clear_callbacks
  disconnect wait_for_removal c =
      clear_callbacks (record c { client = Connection.disconnect T wait_for_removal c.client })

  -- The destructor.
  unfoldable pub destroy : Client S → Client S
  unfolding Sentinel.Connecting.disconnect
  destroy c =
      let cancelled = if not c.cancel then cancel_reconnect c else c in
      let left =
        if Sentinel.Connecting.is_connected T cancelled.sentinel
        then record cancelled {
          sentinel = Sentinel.Connecting.disconnect T true cancelled.sentinel;
        }
        else cancelled in
      if is_connected left
      then record left { client = Connection.disconnect T true left.client }
      else left

  -- The commands are failed if the commit has thrown.
  unfoldable pub commit_done : Client S → Option Exception → Ran S
  unfolding clear_callbacks
  commit_done c none = ran c
  commit_done c (some e) = record { state = clear_callbacks c; events = []; thrown = some e }

  unfoldable pub try_commit : Client S → Ran S
  unfolding commit_done
  try_commit c =
      let r = Connection.commit T c.client in
      commit_done (record c { client = r.connection }) r.thrown

  unfoldable pub commit : Client S → Ran S
  unfolding try_commit
  commit c = if c.reconnecting then ran c else try_commit c

  unfoldable pub should_reconnect : Client S → Bool
  unfolding attempts_left
  should_reconnect c =
      not (is_connected c)
      && (not c.cancel && attempts_left c.current_reconnect_attempts c.max_reconnects)

  -- The flag of another thread is set meanwhile.
  unfoldable pub sleep_before_next_reconnect_attempt : Meanwhile → Client S → Ran S
  sleep_before_next_reconnect_attempt m c =
      let c' = record c { cancel = c.cancel || m.cancelled } in
      if c.reconnect_interval_msecs == 0 then ran c' else notified sleeping c'

  -- Behind the reconnection: the password, the database, the commands that were not answered, and
  -- all is written.
  unfoldable pub reconnected : Client S → Ran S
  unfolding re_auth re_select resend_failed_commands try_commit
  reconnected c = try_commit (resend_failed_commands (re_select (re_auth c)))

  -- Behind the attempt to connect.
  unfoldable pub connect_tried : Client S → Ran S
  unfolding reconnected
  connect_tried c =
      if is_connected c
      then and_then (notified ConnectState.ok c) reconnected
      else notified ConnectState.failed c

  -- `reconnect` behind the lookup.
  unfoldable pub reconnect_to : Client S → Ran S
  unfolding connect connect_tried
  reconnect_to c =
      and_then
        (caught (
          connect c.redis_server c.redis_port c.has_connect_callback c.connect_timeout_msecs
            c.max_reconnects c.reconnect_interval_msecs c))
        connect_tried

  unfoldable pub looked_up : Bool → Client S → Ran S
  unfolding reconnect_to
  looked_up true c = reconnect_to c
  looked_up false c = notified lookup_failed c

  unfoldable pub reconnect : List Incoming → Client S → Ran S
  unfolding look_up looked_up
  reconnect incoming c =
      let c' = record c { current_reconnect_attempts = c.current_reconnect_attempts + 1 } in
      let (r, found) = look_up incoming c' in
      if is_empty c.master_name then looked_up true c' else and_then r (looked_up found)

  -- A round of the loop of the disconnection handler.
  unfoldable pub round : (ℕ → Meanwhile) → (Client S → Ran S) → Client S → Ran S
  unfolding sleep_before_next_reconnect_attempt reconnect
  round meanwhile next c =
      let m = meanwhile c.current_reconnect_attempts in
      and_then (sleep_before_next_reconnect_attempt m c)
        (λ s. and_then (reconnect m.incoming s) next)

  -- The loop, for that many attempts at most.
  unfoldable pub attempts : ℕ → (ℕ → Meanwhile) → Client S → Ran S
  unfolding retry should_reconnect round
  attempts f meanwhile c =
      retry should_reconnect (round meanwhile) ran (λ s. failed s out_of_fuel) f c

  -- Behind the loop.
  unfoldable pub give_up : Client S → Ran S
  unfolding clear_callbacks
  give_up c = if is_connected c then ran c else notified stopped (clear_callbacks c)

  -- `m_reconnecting = false` in the end; where something was thrown, it stays set.
  unfoldable pub reconnection_over : Ran S → Ran S
  unfolding give_up
  reconnection_over r =
      and_then r (λ s. and_then (give_up s) (λ s'. ran (record s' { reconnecting = false })))

  -- The handler, on as many attempts as the first argument says.
  unfoldable pub connection_disconnection_handler : ℕ → (ℕ → Meanwhile) → Client S → Ran S
  unfolding attempts reconnection_over
  connection_disconnection_handler f meanwhile c =
      let c' = record c { reconnecting = true; current_reconnect_attempts = 0 } in
      let r = and_then (notified dropped c') (λ s. reconnection_over (attempts f meanwhile s)) in
      if c.reconnecting then ran c else r
