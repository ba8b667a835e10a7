-- ===== src/Network/Connection/Receiving.antt =====
-- Packets that the connection receives, and the callbacks that it calls for them.
use cpp_redis.Prelude.{
  ℕ, zero, suc, List, [], ◌∷◌, ◌++◌, append_assoc, append-nil, ◌≡◌, ◌∙◌, refl, sym, ap, Bytes, none,
  some, Bool, true, false, ◌||◌, ◌==◌, Option, arith, length, Bool-cases, inl, inr,
}
use mathlib.Core.List.{map-append}
use cpp_redis.Error.{redis_error, Result, ok, throw}
use cpp_redis.Reply.{Reply}
use cpp_redis.Builders.Fed.{Fed}
use cpp_redis.Builders.Builder.{Builder, create_builder, get_reply}
use cpp_redis.Builders.ReplyBuilder.{
  ReplyBuilder, Attempt, Received, with_bytes, builder_fed, start_reply, build_from, build_buffer,
  build_reply, after_reply, build_replies, drain, receive,
}
use cpp_redis.Builders.ReplyBuilder.Rounds.{after_reply_again, after_reply_stops}
use cpp_redis.Builders.ReplyBuilder.Chunks.{receive-append}
use cpp_redis.Builders.ReplyBuilder.RoundTrip.{between, receive-encode}
use cpp_redis.Protocol.{Values, encode, replies_of, AreValid}
use cpp_redis.Network.TcpClient.{TcpClient}
use cpp_redis.Network.Connection.Listening.{listening}
use cpp_redis.Network.Connection.{
  Connection, Done, reply_events, call_disconnection_handler, hand_over, packet_read,
  tcp_client_receive_handler, reply_callback,
}

-- Replies that were available before stay in front, and change nothing else.
abbrev behind : List Reply → ReplyBuilder → ReplyBuilder
behind xs s = record s { available_replies = xs ++ s.available_replies }

abbrev attempt_behind : List Reply → Attempt → Attempt
attempt_behind xs r = record r { state = behind xs r.state }

abbrev received_behind : List Reply → Received → Received
received_behind xs r = record r { state = behind xs r.state }

module _ (xs : List Reply) where
  builder_fed-behind :
      (s : ReplyBuilder) (f : Fed Builder)
      → builder_fed (behind xs s) f ≡ attempt_behind xs (builder_fed s f)
  unfolding builder_fed
  builder_fed-behind s f =
      ground (arith, append_assoc xs s.available_replies (get_reply f.builder ∷ []))

  build_reply-behind :
      (s : ReplyBuilder) → build_reply (behind xs s) ≡ attempt_behind xs (build_reply s)
  unfolding build_reply
  build_reply-behind s = go s.buffer
    where
      start :
          (rest : Bytes) (r : Result Builder)
          → start_reply (behind xs s) rest r ≡ attempt_behind xs (start_reply s rest r)
      start rest (throw e) = unfold start_reply in refl
      start rest (ok b) = unfold start_reply in builder_fed-behind s _

      from :
          (b : Option Builder) (x : ℕ) (rest : Bytes)
          → build_from (behind xs s) b x rest ≡ attempt_behind xs (build_from s b x rest)
      from none x rest = unfold build_from in start rest (create_builder x)
      from (some b) x rest = unfold build_from in builder_fed-behind s _

      go :
          (buffer : Bytes)
          → build_buffer (behind xs s) buffer ≡ attempt_behind xs (build_buffer s buffer)
      go [] = unfold build_buffer in refl
      go (x ∷ rest) = unfold build_buffer in from s.builder x rest

  build_replies-behind :
      (n : ℕ) (s : ReplyBuilder)
      → build_replies n (behind xs s) ≡ received_behind xs (build_replies n s)
  unfolding build_replies
  build_replies-behind zero s = refl
  build_replies-behind (suc n) s =
      let r = build_reply s in
      ap (after_reply (build_replies n)) (build_reply-behind s) ∙ elim (Bool-cases r.again) [
        | inl a ↦
            after_reply_again (build_replies n) (attempt_behind xs r) a
            ∙ build_replies-behind n r.state
            ∙ ap (received_behind xs) (sym (after_reply_again (build_replies n) r a))
        | inr a ↦
            after_reply_stops (build_replies n) (attempt_behind xs r) a
            ∙ ap (received_behind xs) (sym (after_reply_stops (build_replies n) r a))
      ]

  receive-behind :
      (s : ReplyBuilder) (bytes : Bytes)
      → receive (behind xs s) bytes ≡ received_behind xs (receive s bytes)
  unfolding receive drain
  receive-behind s bytes =
      build_replies-behind (suc (suc (length (s.buffer ++ bytes)))) (with_bytes s bytes)

reply_events-append :
    (set : Bool) (xs ys : List Reply)
    → reply_events set (xs ++ ys) ≡ reply_events set xs ++ reply_events set ys
unfolding reply_events
reply_events-append true xs ys = map-append reply_callback xs ys
reply_events-append false xs ys = refl

-- The parser once its replies were handed over.
abbrev emptied : ReplyBuilder → ReplyBuilder
emptied s = record s { available_replies = [] }

behind_emptied : (s : ReplyBuilder) → behind s.available_replies (emptied s) ≡ s
behind_emptied s =
    ap (λ (xs : List Reply). record s { available_replies = xs }) (append-nil s.available_replies)

receive_emptied :
    (s : ReplyBuilder) (first second : Bytes)
    → (receive s first).thrown ≡ none
    → receive s (first ++ second)
      ≡ received_behind
          (receive s first).state.available_replies
          (receive (emptied (receive s first).state) second)
receive_emptied s first second t =
    let s1 = (receive s first).state in
    sym (receive-append s first second t)
    ∙ ap (λ (q : ReplyBuilder). receive q second) (sym (behind_emptied s1))
    ∙ receive-behind s1.available_replies (emptied s1) second

-- The bytes that a value of the protocol may begin with.
abbrev pub is_tag : ℕ → Bool
is_tag x = x == b'+' || (x == b'-' || (x == b':' || (x == b'$' || x == b'*')))

invalid_lem : (x : ℕ) → is_tag x ≡ false → create_builder x ≡ throw (redis_error "Invalid data")
unfolding create_builder
invalid_lem x bad = ground arith

drain_invalid :
    (available : List Reply) (x : ℕ) (rest : Bytes)
    → is_tag x ≡ false
    → drain (between available (x ∷ rest))
      ≡ record { state = between available (x ∷ rest); thrown = some (redis_error "Invalid data") }
unfolding drain build_replies build_reply build_buffer build_from after_reply start_reply
drain_invalid available x rest bad =
    let e : create_builder x ≡ throw (redis_error "Invalid data") = invalid_lem x bad in
    ap
      (λ (r : Result Builder).
        after_reply (build_replies (suc (length (x ∷ rest))))
          (start_reply (between available (x ∷ rest)) rest r))
      e

receive-invalid :
    (vs : Values) (x : ℕ) (rest : Bytes)
    → AreValid vs
    → is_tag x ≡ false
    → receive (between [] []) (encode vs ++ x ∷ rest) ≡ record {
      state = between (replies_of vs) (x ∷ rest);
      thrown = some (redis_error "Invalid data");
    }
unfolding receive
receive-invalid vs x rest valid bad =
    let e = receive-encode vs [] valid in
    sym (receive-append (between [] []) (encode vs) (x ∷ rest) (ap (λ (r : Received). r.thrown) e))
    ∙ ap (λ (r : Received). receive r.state (x ∷ rest)) e
    ∙ drain_invalid (replies_of vs) x rest bad

module _ {S : Type 0} (T : TcpClient S) where
  handled :
      (c : Connection S) (bytes : Bytes)
      → (receive c.builder bytes).thrown ≡ none
      → tcp_client_receive_handler T c true bytes ≡ hand_over T c (receive c.builder bytes).state
  unfolding tcp_client_receive_handler packet_read
  handled c bytes t = ground arith

  -- Packets are no boundaries of replies: where the bytes of two packets are well formed, the events
  -- of the two calls in a row are the events of one call on all of the bytes, and the parser is in
  -- the same state behind them.
  pub receive_handler-append :
      (c : Connection S) (first second : Bytes)
      → (receive c.builder first).thrown ≡ none
      → (receive c.builder (first ++ second)).thrown ≡ none
      → ((tcp_client_receive_handler T c true first).events
            ++ (tcp_client_receive_handler T
                (tcp_client_receive_handler T c true first).connection
                true
                second).events
          ≡ (tcp_client_receive_handler T c true (first ++ second)).events)
        × ((tcp_client_receive_handler T
              (tcp_client_receive_handler T c true first).connection
              true
              second).connection.builder
            ≡ (tcp_client_receive_handler T c true (first ++ second)).connection.builder)
  unfolding hand_over
  receive_handler-append c first second t t' =
      let split = receive_emptied c.builder first second t in
      let c1 = (hand_over T c (receive c.builder first).state).connection in
      let t2 = ap (λ (r : Received). r.thrown) (sym split) ∙ t' in
      rw (handled c first t, handled c (first ++ second) t', handled c1 second t2, split)
        (
          sym (
              reply_events-append c.has_reply_callback
                (receive c.builder first).state.available_replies
                (receive (emptied (receive c.builder first).state) second).state.available_replies),
          refl,
        )

  -- What a connection that listens leaves of a packet that it refuses behind some replies.
  abbrev pub refused : Connection S → List Reply → Bytes → Done S
  refused c replies buffer = record {
    connection = record (listening c) { builder = between replies buffer };
    events = call_disconnection_handler c;
    thrown = none;
  }

  -- A packet that holds whole values and then a byte that begins none calls the disconnection handler,
  -- once if there is one, and no other callback: the replies of the values are not handed over. They
  -- stay in the parser, with the bytes from that one on; nothing is thrown, the socket is left as it
  -- is, connected if it was, and no read is asked for.
  pub receive_handler_malformed :
      (c : Connection S) (vs : Values) (x : ℕ) (rest : Bytes)
      → AreValid vs
      → is_tag x ≡ false
      → tcp_client_receive_handler T (listening c) true (encode vs ++ x ∷ rest)
        ≡ refused c (replies_of vs) (x ∷ rest)
  unfolding tcp_client_receive_handler packet_read call_disconnection_handler
  receive_handler_malformed c vs x rest valid bad =
      ap (packet_read T (listening c)) (receive-invalid vs x rest valid bad)
