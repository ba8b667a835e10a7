-- ===== src/Core/Sentinel/Connecting.antt =====
-- `sentinel::connect_sentinel`, `connect`, `disconnect`, `try_commit`, `sync_commit` and
-- `get_master_addr_by_name` (sources/core/sentinel.cpp).
use Prim.Native.String.{String}
use cpp_redis.Prelude.{
  ℕ, Bool, true, false, not, ◌&&◌, some, none, List, [], ◌∷◌, Bytes, codes, ◌==◌, if◌then◌else◌,
}
use cpp_redis.Error.{Exception, redis_error, never_returns}
use cpp_redis.Network.TcpClient.{TcpClient}
use cpp_redis.Network.Connection
use cpp_redis.Core.Call.{ran, and_then, on_its_thread, where_thrown}
use cpp_redis.Core.Interrupted.{left, put_back}
use cpp_redis.Core.Sentinel.{
  Sentinel, SentinelDef, Incoming, packet, dropped, Ran, is_idle, master_addr, clear_callbacks,
  handle, handle_all, send, Option,
}

module _ {S : Type 0} (T : TcpClient S) where
  -- What the waiting call sees of the network: it comes to the connection's handlers, and these call
  -- the sentinel's.
  unfoldable pub come_in : Incoming → Sentinel S → Ran S
  unfolding handle_all left Connection.tcp_client_receive_handler
      Connection.tcp_client_disconnection_handler
  come_in (packet success bytes) s =
      let r = Connection.tcp_client_receive_handler T s.client success bytes in
      let s' = record s { client = r.connection } in
      where_thrown
        (λ t. record t {
          client = put_back s.client.client r.events (left handle r.events s') t.client;
        })
        (handle_all r.events s')
  come_in dropped s =
      let r = Connection.tcp_client_disconnection_handler s.client in
      handle_all r.events (record s { client = r.connection })

  -- `m_sync_condvar.wait`: it ends when nothing is pending, and never does if too little comes in.
  -- What comes in is handled on another thread.
  unfoldable pub wait : List Incoming → Sentinel S → Ran S
  unfolding come_in
  wait [] s =
      if is_idle s then ran s else record { state = s; events = []; thrown = some never_returns }
  wait (i ∷ incoming) s =
      if is_idle s then ran s else and_then (on_its_thread (come_in i s)) (wait incoming)

  abbrev pub is_connected : Sentinel S → Bool
  is_connected s = T.is_connected s.client.client

  unfoldable pub disconnect : Bool → Sentinel S → Sentinel S
  disconnect wait_for_removal s = record s {
    client = Connection.disconnect T wait_for_removal s.client;
  }

  -- The destructor.
  unfoldable pub destroy : Sentinel S → Sentinel S
  unfolding disconnect
  destroy s =
      let s' = record s { sentinels = [] } in if is_connected s' then disconnect true s' else s'

  -- The callbacks are dropped if the commit has thrown.
  unfoldable pub commit_done : Sentinel S → Option Exception → Ran S
  unfolding clear_callbacks
  commit_done s none = ran s
  commit_done s (some e) = record { state = clear_callbacks s; events = []; thrown = some e }

  -- `try_commit`, which is `commit`
  unfoldable pub try_commit : Sentinel S → Ran S
  unfolding commit_done
  try_commit s =
      let r = Connection.commit T s.client in
      commit_done (record s { client = r.connection }) r.thrown

  unfoldable pub sync_commit : List Incoming → Sentinel S → Ran S
  unfolding try_commit wait
  sync_commit incoming s = and_then (try_commit s) (wait incoming)

  -- `wait_for`: what comes in before the timeout is given, and behind it the call goes on.
  unfoldable pub wait_for : List Incoming → Sentinel S → Ran S
  unfolding come_in
  wait_for [] s = ran s
  wait_for (i ∷ incoming) s =
      if is_idle s then ran s else and_then (on_its_thread (come_in i s)) (wait_for incoming)

  -- `sync_commit` with a timeout
  unfoldable pub sync_commit_for : List Incoming → Sentinel S → Ran S
  unfolding try_commit wait_for
  sync_commit_for incoming s = and_then (try_commit s) (wait_for incoming)

  -- `connect`; the flag says whether the handler that is given is not null.
  unfoldable pub connect : Bytes → ℕ → Bool → ℕ → Sentinel S → Ran S
  connect host port on_disconnect timeout_msecs s =
      let r = Connection.connect T s.client host port true true timeout_msecs in
      let s' = record s { client = r.connection } in
      elim r.thrown [
        | none ↦ ran (record s' { has_disconnect_handler = on_disconnect })
        | some e ↦ record { state = s'; events = []; thrown = some e }
      ]

  -- One sentinel is tried; a `redis_error` is caught.
  abbrev pub tried : SentinelDef → Sentinel S → Sentinel S
  tried d s = record s {
    client = (Connection.connect T s.client d.host d.port true true d.timeout_msecs).connection;
  }

  -- The loop over the sentinels; the flag is `not_connected`.
  unfoldable pub try_sentinels : List SentinelDef → Sentinel S → Sentinel S × Bool
  unfolding disconnect
  try_sentinels [] s = (s, true)
  try_sentinels (d ∷ ds) s =
      let rest = try_sentinels ds (disconnect true (tried d s)) in
      if is_connected (tried d s) then (tried d s, false) else rest

  -- Behind the loop.
  unfoldable pub tries_over : Bool → Sentinel S × Bool → Ran S
  tries_over on_disconnect (s, true) = record {
    state = s;
    events = [];
    thrown = some (redis_error "Unable to connect to any sentinels");
  }
  tries_over on_disconnect (s, false) = ran (record s { has_disconnect_handler = on_disconnect })

  unfoldable pub connect_any : Bool → Sentinel S → List SentinelDef → Ran S
  unfolding try_sentinels tries_over
  connect_any on_disconnect s [] = record {
    state = s;
    events = [];
    thrown =
        some (redis_error "No sentinels available. Call add_sentinel() before connect_sentinel()");
  }
  connect_any on_disconnect s (d ∷ ds) = tries_over on_disconnect (try_sentinels (d ∷ ds) s)

  unfoldable pub connect_sentinel : Bool → Sentinel S → Ran S
  unfolding connect_any
  connect_sentinel on_disconnect s = connect_any on_disconnect s s.sentinels

  -- What `get_master_addr_by_name` returns besides what it leaves; the Boolean counts only where
  -- nothing is thrown.
  abbrev not_found : Sentinel S → Ran S × Bool
  not_found s = (ran s, false)

  -- Behind the answer, the connection is closed in the mode that opened it.
  unfoldable pub answered : Bool → Ran S → Ran S × Bool
  unfolding disconnect
  answered autoconnect r = elim r.thrown [
    | none ↦
        let s = if autoconnect then disconnect true r.state else r.state in
        (record r { state = s }, not (s.port == 0))
    | some e ↦ (r, false)
  ]

  -- The question to the sentinel that is connected.
  unfoldable pub ask : Bytes → Bool → List Incoming → Sentinel S → Ran S × Bool
  unfolding send sync_commit answered
  ask name autoconnect incoming s = answered autoconnect (
      sync_commit incoming
        (send (codes "SENTINEL" ∷ codes "get-master-addr-by-name" ∷ name ∷ []) master_addr s))

  -- A `redis_error` of `connect_sentinel` is caught.
  unfoldable pub autoconnected : Bytes → List Incoming → Sentinel S → Ran S × Bool
  unfolding ask connect_sentinel
  autoconnected name incoming s =
      let s' = (connect_sentinel false s).state in
      if is_connected s' then ask name true incoming s' else not_found s'

  abbrev no_sentinels : List SentinelDef → Bool
  no_sentinels [] = true
  no_sentinels (d ∷ ds) = false

  abbrev refused : Sentinel S → String → Ran S × Bool
  refused s what = (record { state = s; events = []; thrown = some (redis_error what) }, false)

  unfoldable pub get_master_addr_by_name : Bytes → Bool → List Incoming → Sentinel S → Ran S × Bool
  unfolding ask autoconnected
  get_master_addr_by_name name autoconnect incoming s =
      let s' = record s { host = []; port = 0 } in
      if autoconnect && no_sentinels s'.sentinels
      then refused s' "No sentinels available. Call add_sentinel() before get_master_addr_by_name()"
      else if not autoconnect && not (is_connected s')
      then refused s' "No sentinel connected. Call connect() first or enable autoconnect."
      else if autoconnect
      then autoconnected name incoming s'
      else ask name false incoming s'
