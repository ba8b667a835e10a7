-- ===== src/Core/Sentinel/Lookup.antt =====
-- `sentinel::get_master_addr_by_name` (sources/core/sentinel.cpp) on a sentinel that answers.
use cpp_redis.Network.Command.{build_command}
use cpp_redis.Network.TcpClient.{Called}
use cpp_redis.Core.Sentinel.Connecting.{
  come_in, sync_commit, wait, get_master_addr_by_name, try_commit, ask, commit_done, answered,
}
use cpp_redis.Core.Stoi.{stoi-to_string}
use cpp_redis.Protocol.{
  Value, array, reply_of, item, bulk_string, no_items, IsValid, encode, replies_of,
}
use cpp_redis.Prelude.{
  ℕ, ◌≤◌, true, false, not, List, [], ◌∷◌, ◌++◌, ◌==◌, Bytes, none, to_string, codes, ◌≡◌, refl, ap,
  ◌∙◌,
}
use cpp_redis.Network.Connection
use cpp_redis.Network.Connection.Listening.{listening, read_on, receive_handler-encode}
use cpp_redis.Reply.{is_array, as_array, as_string}
use cpp_redis.Protocol.{reply_of}
use cpp_redis.Builders.BulkStringBuilder.{to_size, max_int}
use cpp_redis.Core.Call.{and_then, ran, on_its_thread, where_thrown}
use cpp_redis.Core.Interrupted.{left, put_back}
use cpp_redis.Core.Sentinel.{
  Event, handle_all, handle, connection_receive_handler, run_front, finished, Sentinel,
  run_callback, set_addr, set_host, set_port, master_addr, is_array, Bytes, as_array, as_string,
  to_size, handle_all, handle, connection_receive_handler, run_front, TcpClient, true, [], packet,
  Ran, codes, Incoming, send, is_idle, false, not,
}

-- What a sentinel answers with: the host and the port, as two strings.
abbrev pub address : Bytes → ℕ → Value
address host port = array (item (bulk_string host) (item (bulk_string (to_string port)) no_items))

module _ {S : Type 0} where
  address_lem :
      (host : Bytes) (port : ℕ) (s : Sentinel S)
      → port ≤ max_int
      → run_callback master_addr (reply_of (address host port)) s
        ≡ ran (record s { host = host; port = port })
  unfolding run_callback set_addr set_host set_port is_array as_array as_string reply_of to_size
  address_lem host port s h = ap (set_port (record s { host = host })) (stoi-to_string port h)

  -- The reply is read, and the lookup's callback runs on it.
  handled_lem :
      (host : Bytes) (port : ℕ) (s : Sentinel S)
      → port ≤ max_int
      → handle_all
          (Connection.reply_callback (reply_of (address host port)) ∷ [])
          (record s { callbacks = master_addr ∷ []; callbacks_running = 0 })
        ≡ ran (record s { callbacks = []; callbacks_running = 0; host = host; port = port })
  unfolding handle_all handle connection_receive_handler run_front
  handled_lem host port s h =
      ap (λ (r : Ran S). and_then (finished r) ran)
        (address_lem host port (record s { callbacks = []; callbacks_running = 1 }) h)

module _ {S : Type 0} (T : TcpClient S) where
  -- A packet on which no callback throws.
  packet_lem :
      (bytes : Bytes) (s d : Sentinel S) (r : Connection.Done S) (es : List Event)
      → Connection.tcp_client_receive_handler T s.client true bytes ≡ r
      → handle_all r.events (record s { client = r.connection })
        ≡ record { state = d; events = es; thrown = none }
      → come_in T (packet true bytes) s ≡ record { state = d; events = es; thrown = none }
  unfolding come_in
  packet_lem bytes s d r es received returned =
      ap
        (λ (q : Connection.Done S).
          let x = record s { client = q.connection } in
          where_thrown
            (λ t. record t {
              client = put_back s.client.client q.events (left (handle) q.events x) t.client;
            })
            (handle_all q.events x))
        received
      ∙ ap
          (where_thrown (λ t. record t {
            client =
                put_back s.client.client r.events
                  (left (handle) r.events (record s { client = r.connection })) t.client;
          }))
          returned

  answered_lem :
      (host : Bytes) (port : ℕ) (s : Sentinel S)
      → IsValid (address host port)
      → port ≤ max_int
      → come_in T (packet true (encode (item (address host port) no_items))) (record s {
        client = listening s.client;
        callbacks = master_addr ∷ [];
        callbacks_running = 0;
      })
        ≡ ran (record s {
          client = read_on T (listening s.client);
          callbacks = [];
          callbacks_running = 0;
          host = host;
          port = port;
        })
  unfolding replies_of
  answered_lem host port s valid h =
      packet_lem (encode (item (address host port) no_items))
        (record s {
          client = listening s.client;
          callbacks = master_addr ∷ [];
          callbacks_running = 0;
        })
        _ _ [] (receive_handler-encode T s.client (item (address host port) no_items) (valid, tt))
        (handled_lem host port (record s { client = read_on T (listening s.client) }) h)

  try_commit_lem :
      (s : Sentinel S)
      → (T.async_write s.client.buffer s.client.client).failure ≡ none
      → try_commit T s ≡ ran (record s { client = (Connection.commit T s.client).connection })
  unfolding try_commit commit_done Connection.commit
  try_commit_lem s h =
      ap
        (λ f.
          commit_done T (record s { client = (Connection.commit T s.client).connection })
            (Connection.rethrown f))
        h

  wait_idle :
      (incoming : List Incoming) (s : Sentinel S) → is_idle s ≡ true → wait T incoming s ≡ ran s
  unfolding wait
  wait_idle [] s h = rw h refl
  wait_idle (i ∷ incoming) s h = rw h refl

  -- A sentinel with nothing pending.
  abbrev pub ready : Sentinel S → Sentinel S
  ready s = record s { client = listening s.client; callbacks = []; callbacks_running = 0 }

  abbrev pub question : Bytes → List Bytes
  question name = codes "SENTINEL" ∷ codes "get-master-addr-by-name" ∷ name ∷ []

  -- What the socket says to the question, behind what is in the buffer.
  abbrev pub answer_to : Bytes → Connection.Connection S → Called S
  answer_to name c = T.async_write (c.buffer ++ build_command (question name)) c.client

  -- The connection once the question is written and the answer is read.
  abbrev pub asked : Bytes → Connection.Connection S → Connection.Connection S
  asked name c =
      read_on T (listening (Connection.commit T (Connection.send c (question name))).connection)

  sync_commit_lem :
      (host : Bytes) (port : ℕ) (incoming : List Incoming) (s : Sentinel S)
      → IsValid (address host port)
      → port ≤ max_int
      → (T.async_write s.client.buffer s.client.client).failure ≡ none
      → sync_commit T
          (packet true (encode (item (address host port) no_items)) ∷ incoming)
          (record s {
            client = listening s.client;
            callbacks = master_addr ∷ [];
            callbacks_running = 0;
          })
        ≡ ran (record s {
          client = read_on T (listening (Connection.commit T s.client).connection);
          callbacks = [];
          callbacks_running = 0;
          host = host;
          port = port;
        })
  unfolding sync_commit wait Connection.commit
  sync_commit_lem host port incoming s valid h written =
      let s1 = record s {
        client = listening s.client;
        callbacks = master_addr ∷ [];
        callbacks_running = 0;
      } in
      let answer = packet true (encode (item (address host port) no_items)) in
      let s2 = record s { client = (Connection.commit T s.client).connection } in
      let s3 = record s {
        client = read_on T (listening (Connection.commit T s.client).connection);
        callbacks = [];
        callbacks_running = 0;
        host = host;
        port = port;
      } in
      ap (λ (r : Ran S). and_then r (wait T (answer ∷ incoming))) (try_commit_lem s1 written)
      ∙ ap (λ (r : Ran S). and_then (on_its_thread r) (wait T incoming))
          (answered_lem host port s2 valid h)
      ∙ wait_idle incoming s3 refl

  -- A connected sentinel with nothing pending, whose socket takes the question and gets in one packet
  -- the host and the port as an array of two strings, finds that host and that port, throws nothing,
  -- calls no callback of the user, has nothing pending again, and says that the address was found
  -- unless the port is 0. The port is in the range of `int`, and the strings in the parser's limits.
  pub get_master_addr_by_name-address :
      (name host : Bytes) (port : ℕ) (incoming : List Incoming) (s : Sentinel S)
      → T.is_connected s.client.client ≡ true
      → (answer_to name s.client).failure ≡ none
      → IsValid (address host port)
      → port ≤ max_int
      → get_master_addr_by_name T name false
          (packet true (encode (item (address host port) no_items)) ∷ incoming)
          (ready s)
        ≡ (
          ran (record (ready s) { client = asked name s.client; host = host; port = port }),
          not (port == 0),
        )
  unfolding get_master_addr_by_name ask answered send Connection.send
  get_master_addr_by_name-address name host port incoming s connected written valid h =
      let s1 = record s {
        client = Connection.send s.client (question name);
        host = [];
        port = 0;
      } in
      rw connected (ap (answered T false) (sync_commit_lem host port incoming s1 valid h written))
