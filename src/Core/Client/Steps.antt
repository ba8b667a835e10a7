-- ===== src/Core/Client/Steps.antt =====
-- The runs of a `client` (sources/core/client.cpp): what its user, the network and the threads that
-- fail commands do to it, in any order, and what every state of a run has.
use cpp_redis.Prelude.{
  ℕ, ◌≤◌, Bool, true, false, ◌&&◌, none, List, [], ◌∷◌, length, Bytes, ◌==◌, ◌≡◌, refl, arith, ℤ,
  if◌then◌else◌,
}
use cpp_redis.Error.{redis_error, never_returns}
use cpp_redis.Network.TcpClient.{TcpClient}
use cpp_redis.Network.Connection
use cpp_redis.Core.Call.{
  ran, failed, and_then, on_its_thread, on_its_thread-keeps, where_thrown-keeps, and_then-keeps,
  and_then-ends,
}
use cpp_redis.Core.Retries.{Meanwhile}
use cpp_redis.Core.Interrupted.{left, put_back}
use cpp_redis.Core.Sentinel
use cpp_redis.Core.Client.{
  Client, Ran, Callback, client, send, unprotected_send, auth, unprotected_auth, select,
  unprotected_select, cancel_reconnect, CommandRequest, add_sentinel, clear_sentinels,
}
use cpp_redis.Core.Client.Reconnecting.{connect, connect_master, look_up, disconnect, commit}
use cpp_redis.Core.Client.Waiting.{
  Incoming, packet, dropped, thread_round, handle, handle_all, come_in, wait, sync_commit, is_idle,
}
use cpp_redis.Core.Client.Counted.{
  IsCounted, fail_next-IsCounted, connection_receive_handler-IsCounted,
}
use cpp_redis.Core.Client.Counted.Reconnecting.{
  connect-IsCounted, disconnect-IsCounted, commit-IsCounted, disconnection_handler-IsCounted,
}

-- Nothing waits: no command in the queue, and none with a thread.
abbrev pub IsDone : {S : Type 0} → Client S → Type 0
IsDone c = (c.commands ≡ []) × (c.failing ≡ [])

idle_lem :
    (q failing : List CommandRequest) (n : ℕ)
    → length failing ≤ n
    → n == 0 && elim q [ [] ↦ true | _ ∷ _ ↦ false ] ≡ true
    → (q ≡ []) × (failing ≡ [])
idle_lem [] [] n h e = (refl, refl)
idle_lem [] (x ∷ rest) n h e = absurd (ground arith)
idle_lem (x ∷ q) failing n h e = absurd (ground arith)

module _ {S : Type 0} (T : TcpClient S) where
  -- A call of the user's, or what comes in: then the rounds of a reconnection and what happens
  -- meanwhile are any. A command is a `send`.
  pub data Step (c : Client S) : Client S → Type 0 where
    sends : (words : List Bytes) (callback : Callback) → Step c (send words callback c)
    authenticates : (password : Bytes) (callback : Callback) → Step c (auth password callback c)
    selects : (index : ℤ) (callback : Callback) → Step c (select index callback c)
    connects :
        (host : Bytes) (port : ℕ) (on_connect : Bool) (timeout_msecs : ℕ) (max_reconnects : ℤ)
        (interval : ℕ)
        → Step c (connect T host port on_connect timeout_msecs max_reconnects interval c).state
    connects_master :
        (name : Bytes) (on_connect : Bool) (timeout_msecs : ℕ) (max_reconnects : ℤ) (interval : ℕ)
        (incoming : List Sentinel.Incoming)
        → Step c
            (connect_master T name on_connect timeout_msecs max_reconnects interval incoming
              c).state
    disconnects : (wait_for_removal : Bool) → Step c (disconnect T wait_for_removal c)
    commits : Step c (commit T c).state
    cancels : Step c (cancel_reconnect c)
    adds_sentinel :
        (host : Bytes) (port timeout_msecs : ℕ) → Step c (add_sentinel host port timeout_msecs c)
    clears_sentinels : Step c (clear_sentinels c)
    -- What the user does on what `get_sentinel` gives is any.
    uses_sentinel : (s : Sentinel.Sentinel S) → Step c (record c { sentinel = s })
    receives :
        (f : ℕ) (meanwhile : ℕ → Meanwhile) (i : Incoming)
        → Step c (come_in T f meanwhile i c).state

  -- The states of a run that begins with the constructor.
  pub data Reach (a b : S) : Client S → Type 0 where
    begin : Reach a b (client a b)
    later : {c d : Client S} → Reach a b c → Step c d → Reach a b d

  handle_all-IsCounted :
      (f : ℕ) (meanwhile : ℕ → Meanwhile) (es : List Connection.Event) (c : Client S)
      → IsCounted c
      → IsCounted (handle_all T f meanwhile es c).state
  unfolding handle_all handle
  handle_all-IsCounted f meanwhile [] c h = h
  handle_all-IsCounted f meanwhile (Connection.reply_callback r ∷ es) c h =
      and_then-keeps IsCounted (handle T f meanwhile (Connection.reply_callback r) c)
        (handle_all T f meanwhile es) (connection_receive_handler-IsCounted r c h)
        (handle_all-IsCounted f meanwhile es)
  handle_all-IsCounted f meanwhile (Connection.disconnection_handler ∷ es) c h =
      and_then-keeps IsCounted (handle T f meanwhile Connection.disconnection_handler c)
        (handle_all T f meanwhile es) (disconnection_handler-IsCounted T f meanwhile c h)
        (handle_all-IsCounted f meanwhile es)

  come_in-IsCounted :
      (f : ℕ) (meanwhile : ℕ → Meanwhile) (i : Incoming) (c : Client S)
      → IsCounted c
      → IsCounted (come_in T f meanwhile i c).state
  unfolding come_in
  come_in-IsCounted f meanwhile (packet success bytes) c h =
      let r = Connection.tcp_client_receive_handler T c.client success bytes in
      let c' = record c { client = r.connection } in
      let k = handle_all-IsCounted f meanwhile r.events c' h in
      where_thrown-keeps IsCounted
        (λ d. record d {
          client =
              put_back c.client.client r.events (left (handle T f meanwhile) r.events c') d.client;
        })
        (handle_all T f meanwhile r.events c') k k
  come_in-IsCounted f meanwhile dropped c h =
      let r = Connection.tcp_client_disconnection_handler c.client in
      handle_all-IsCounted f meanwhile r.events (record c { client = r.connection }) h
  come_in-IsCounted f meanwhile thread_round c h = fail_next-IsCounted c c.failing refl h

  connect_found :
      (found on_connect : Bool) (timeout_msecs : ℕ) (limit : ℤ) (interval : ℕ) (c : Client S)
      → IsCounted c
      → IsCounted
          (if found
            then connect T c.redis_server c.redis_port on_connect timeout_msecs limit interval c
            else failed c
                (redis_error "cpp_redis::client::connect() could not find master for name ")).state
  connect_found true on_connect timeout_msecs limit interval c h =
      connect-IsCounted T c.redis_server c.redis_port on_connect timeout_msecs limit interval c h
  connect_found false on_connect timeout_msecs limit interval c h = h

  Step-IsCounted : (c d : Client S) → IsCounted c → Step c d → IsCounted d
  unfolding send unprotected_send auth unprotected_auth select unprotected_select connect_master
      look_up add_sentinel clear_sentinels
  Step-IsCounted c _ h (sends words callback) = h
  Step-IsCounted c _ h (authenticates password callback) = h
  Step-IsCounted c _ h (selects index callback) = h
  Step-IsCounted c _ h (connects host port on_connect timeout_msecs limit interval) =
      connect-IsCounted T host port on_connect timeout_msecs limit interval c h
  Step-IsCounted c _ h (connects_master name on_connect timeout_msecs limit interval incoming) =
      let c' = record c { master_name = name } in
      let found = (look_up T incoming c').1 in
      and_then-keeps IsCounted (look_up T incoming c').0
        (λ d.
          if found
          then connect T d.redis_server d.redis_port on_connect timeout_msecs limit interval d
          else failed d
              (redis_error "cpp_redis::client::connect() could not find master for name "))
        h (connect_found found on_connect timeout_msecs limit interval)
  Step-IsCounted c _ h (disconnects wait_for_removal) = disconnect-IsCounted T wait_for_removal c h
  Step-IsCounted c _ h commits = commit-IsCounted T c h
  Step-IsCounted c _ h cancels = h
  Step-IsCounted c _ h (adds_sentinel host port timeout_msecs) = h
  Step-IsCounted c _ h clears_sentinels = h
  Step-IsCounted c _ h (uses_sentinel s) = h
  Step-IsCounted c _ h (receives f meanwhile i) = come_in-IsCounted f meanwhile i c h

  -- In every state of a run, whatever the user calls, the server sends, the connection does and the
  -- threads get done, at least as many callbacks count as running as the threads still have to call.
  pub Reach-IsCounted : (a b : S) (c : Client S) → Reach a b c → IsCounted c
  Reach-IsCounted a b _ begin = omega arith
  Reach-IsCounted a b d (later {c = c} run step) =
      Step-IsCounted c d (Reach-IsCounted a b c run) step

  -- The test of the wait, and what follows where it fails.
  tested_lem :
      (c : Client S) (next : Ran S) (idle : Bool)
      → is_idle c ≡ idle
      → IsCounted c
      → (next.thrown ≡ none → IsDone next.state)
      → (if idle then ran c else next).thrown ≡ none
      → IsDone (if idle then ran c else next).state
  tested_lem c next true e h after over = idle_lem c.commands c.failing c.callbacks_running h e
  tested_lem c next false e h after over = after over

  wait-IsDone :
      (f : ℕ) (meanwhile : ℕ → Meanwhile) (incoming : List Incoming) (c : Client S)
      → IsCounted c
      → (wait T f meanwhile incoming c).thrown ≡ none
      → IsDone (wait T f meanwhile incoming c).state
  unfolding wait
  wait-IsDone f meanwhile [] c h =
      tested_lem c (failed c never_returns) (is_idle c) refl h (λ over. absurd (ground arith))
  wait-IsDone f meanwhile (i ∷ incoming) c h =
      tested_lem c
        (and_then (on_its_thread (come_in T f meanwhile i c)) (wait T f meanwhile incoming))
        (is_idle c) refl h
        (and_then-ends IsCounted IsDone (on_its_thread (come_in T f meanwhile i c))
          (wait T f meanwhile incoming)
          (on_its_thread-keeps IsCounted (come_in T f meanwhile i c)
            (come_in-IsCounted f meanwhile i c h))
          (wait-IsDone f meanwhile incoming))

  -- When `sync_commit` returns on a client of any run, whatever comes in meanwhile, no command waits
  -- for its answer, in the queue or with a thread that fails it.
  pub sync_commit-IsDone :
      (a b : S) (f : ℕ) (meanwhile : ℕ → Meanwhile) (incoming : List Incoming) (c : Client S)
      → Reach a b c
      → (sync_commit T f meanwhile incoming c).thrown ≡ none
      → IsDone (sync_commit T f meanwhile incoming c).state
  unfolding sync_commit
  sync_commit-IsDone a b f meanwhile incoming c run =
      and_then-ends IsCounted IsDone (commit T c) (wait T f meanwhile incoming)
        (commit-IsCounted T c (Reach-IsCounted a b c run)) (wait-IsDone f meanwhile incoming)
