-- ===== src/Core/Client/Waiting/Answers.antt =====
-- `client::sync_commit` (sources/core/client.cpp) when every command is answered.
use cpp_redis.Prelude.{
  ℕ, true, false, none, List, [], ◌∷◌, ◌++◌, append-nil, map, length, ◌≡◌, refl, sym, ap, ◌∙◌,
}
use cpp_redis.Reply.{Reply}
use cpp_redis.Protocol.{Values, encode, replies_of, AreValid}
use cpp_redis.Network.TcpClient.{TcpClient}
use cpp_redis.Network.Connection
use cpp_redis.Network.Connection.Listening.{listening, read_on, receive_handler-encode}
use cpp_redis.Core.Call.{ran, and_then, and_then-same, on_its_thread, where_thrown}
use cpp_redis.Core.Interrupted.{left, put_back}
use cpp_redis.Core.Client.{CommandRequest, Event, Client, Ran, connection_receive_handler, Bytes}
use cpp_redis.Core.Client.Reconnecting.{commit, try_commit, commit_done}
use cpp_redis.Core.Retries.{Meanwhile}
use cpp_redis.Core.Client.Order.{request, calls, receive_all, receive_all-calls}
use cpp_redis.Core.Client.Waiting.{
  Incoming, packet, handle, handle_all, come_in, wait, sync_commit, is_idle,
}

module _ {S : Type 0} (T : TcpClient S) (f : ℕ) (meanwhile : ℕ → Meanwhile) where
  handle_all-receive_all :
      (rs : List Reply) (c : Client S)
      → handle_all T f meanwhile (map Connection.reply_callback rs) c ≡ receive_all rs c
  unfolding handle_all handle receive_all
  handle_all-receive_all [] c = refl
  handle_all-receive_all (r ∷ rs) c =
      and_then-same (λ s. Unit) (connection_receive_handler r c)
        (handle_all T f meanwhile (map Connection.reply_callback rs)) (receive_all rs) tt
        (λ s h. handle_all-receive_all rs s)

  wait_idle :
      (incoming : List Incoming) (c : Client S)
      → is_idle c ≡ true
      → wait T f meanwhile incoming c ≡ ran c
  unfolding wait
  wait_idle [] c h = rw h refl
  wait_idle (i ∷ incoming) c h = rw h refl

  -- A client that is not reconnecting, listens, runs no callback, and waits for these commands.
  abbrev pub asking : List (List Bytes × ℕ) → Client S → Client S
  asking qs c = record c {
    client = listening c.client;
    reconnecting = false;
    callbacks_running = 0;
    commands = map request qs;
  }

  -- A packet on which no callback throws.
  packet_lem :
      (bytes : Bytes) (c d : Client S) (r : Connection.Done S) (es : List Event)
      → Connection.tcp_client_receive_handler T c.client true bytes ≡ r
      → handle_all T f meanwhile r.events (record c { client = r.connection })
        ≡ record { state = d; events = es; thrown = none }
      → come_in T f meanwhile (packet true bytes) c
        ≡ record { state = d; events = es; thrown = none }
  unfolding come_in
  packet_lem bytes c d r es received returned =
      ap
        (λ (q : Connection.Done S).
          let x = record c { client = q.connection } in
          where_thrown
            (λ t. record t {
              client =
                  put_back c.client.client q.events (left (handle T f meanwhile) q.events x)
                    t.client;
            })
            (handle_all T f meanwhile q.events x))
        received
      ∙ ap
          (where_thrown (λ t. record t {
            client =
                put_back c.client.client r.events
                  (left (handle T f meanwhile) r.events (record c { client = r.connection }))
                  t.client;
          }))
          returned

  answered_lem :
      (qs : List (List Bytes × ℕ)) (vs : Values) (c : Client S)
      → AreValid vs
      → length qs ≡ length (replies_of vs)
      → come_in T f meanwhile (packet true (encode vs)) (asking qs c) ≡ record {
        state = record (asking [] c) { client = read_on T (listening c.client) };
        events = calls qs (replies_of vs);
        thrown = none;
      }
  answered_lem qs vs c valid same =
      let c1 = record (asking [] c) { client = read_on T (listening c.client) } in
      let rs = replies_of vs in
      packet_lem (encode vs) (asking qs c) c1 _ (calls qs rs)
        (receive_handler-encode T c.client vs valid)
        (handle_all-receive_all rs (record c1 { commands = map request qs })
          ∙ ap (λ (q : List CommandRequest). receive_all rs (record c1 { commands = q }))
              (sym (append-nil (map request qs)))
          ∙ receive_all-calls qs rs [] c1 same)

  wait_lem :
      (q : List Bytes × ℕ) (qs : List (List Bytes × ℕ)) (vs : Values) (incoming : List Incoming)
      (c : Client S)
      → AreValid vs
      → length (q ∷ qs) ≡ length (replies_of vs)
      → wait T f meanwhile (packet true (encode vs) ∷ incoming) (asking (q ∷ qs) c) ≡ record {
        state = record (asking [] c) { client = read_on T (listening c.client) };
        events = calls (q ∷ qs) (replies_of vs);
        thrown = none;
      }
  unfolding wait
  wait_lem q qs vs incoming c valid same =
      let es = calls (q ∷ qs) (replies_of vs) in
      let c1 = record (asking [] c) { client = read_on T (listening c.client) } in
      ap (λ (r : Ran S). and_then (on_its_thread r) (wait T f meanwhile incoming))
        (answered_lem (q ∷ qs) vs c valid same)
      ∙ ap (λ (n : Ran S). record n { events = es ++ n.events }) (wait_idle incoming c1 refl)
      ∙ ap (λ (l : List Event). record { state = c1; events = l; thrown = none }) (append-nil es)

  committed_lem :
      (qs : List (List Bytes × ℕ)) (c : Client S)
      → (T.async_write c.client.buffer c.client.client).failure ≡ none
      → commit T (asking qs c)
        ≡ ran (asking qs (record c { client = (Connection.commit T c.client).connection }))
  unfolding commit try_commit commit_done Connection.commit
  committed_lem qs c written =
      ap
        (λ e.
          commit_done T
            (asking qs (record c { client = (Connection.commit T c.client).connection }))
            (Connection.rethrown e))
        written

  -- A client that waits for the answers of some commands of the user, is not reconnecting and runs no
  -- callback, and whose socket takes the write, gets as many values of the protocol as it asked for in
  -- one packet: `sync_commit` returns, with each callback called once with its reply, in the order of
  -- the commands, nothing thrown, no command left and no callback running. The buffer is written, and
  -- the next read is asked for.
  pub sync_commit-calls :
      (q : List Bytes × ℕ) (qs : List (List Bytes × ℕ)) (vs : Values) (incoming : List Incoming)
      (c : Client S)
      → (T.async_write c.client.buffer c.client.client).failure ≡ none
      → AreValid vs
      → length (q ∷ qs) ≡ length (replies_of vs)
      → sync_commit T f meanwhile (packet true (encode vs) ∷ incoming) (asking (q ∷ qs) c)
        ≡ record {
          state = record (asking [] c) {
            client = read_on T (listening (Connection.commit T c.client).connection);
          };
          events = calls (q ∷ qs) (replies_of vs);
          thrown = none;
        }
  unfolding sync_commit
  sync_commit-calls q qs vs incoming c written valid same =
      ap (λ (r : Ran S). and_then r (wait T f meanwhile (packet true (encode vs) ∷ incoming)))
        (committed_lem (q ∷ qs) c written)
      ∙ wait_lem q qs vs incoming (record c { client = (Connection.commit T c.client).connection })
          valid same
