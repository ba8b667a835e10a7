-- ===== src/Builders/ReplyBuilder/RoundTrip.antt =====
-- The bytes of whole values of the protocol give their replies, in order.
use cpp_redis.Prelude.{
  ℕ, suc, ◌+◌, ◌++◌, ◌∙◌, append_assoc, append-nil, true, none, [], ◌∷◌, ◌≡◌, refl, sym, arith,
  Bytes, length, ap, ◌≤◌,
}
use cpp_redis.Error.{ok}
use cpp_redis.Reply.{Reply}
use cpp_redis.Protocol.{
  no_items, item, Value, Values, tag, body, bodies, encode, reply_of, replies_of, IsValid, AreValid,
}
use cpp_redis.Builders.Fed.{Fed, returned}
use cpp_redis.Builders.Builder.{Builder, create_builder, reply_ready, get_reply, feed}
use cpp_redis.Builders.Builder.Potential.{pending, depth-create_builder}
use cpp_redis.Builders.Builder.Fuel.{feed_lem}
use cpp_redis.Builders.Builder.RoundTrip.{read_value}
use cpp_redis.Builders.ReplyBuilder.{
  ReplyBuilder, builder_fed, start_reply, build_from, build_buffer, build_reply, after_reply,
  build_replies, drain, receive, List,
}
use cpp_redis.Builders.ReplyBuilder.Rounds.{after_reply_again, drain_lem, feed-shrinks}

-- A parser between two replies, with bytes to read.
abbrev pub between : List Reply → Bytes → ReplyBuilder
between available buffer = record { buffer = buffer; builder = none; available_replies = available }

build_reply_value :
    (available : List Reply) (id : ℕ) (buffer rest : Bytes) (c b : Builder) (r : Reply)
    → create_builder id ≡ ok c
    → feed c buffer ≡ returned b rest
    → reply_ready b ≡ true
    → get_reply b ≡ r
    → build_reply (between available (id ∷ buffer))
      ≡ record { state = between (available ++ r ∷ []) rest; thrown = none; again = true }
unfolding build_reply build_buffer build_from
build_reply_value available id buffer rest c b r create fed ready rep =
    ap (start_reply (between available (id ∷ buffer)) buffer) create ∙ start
  where
    complete :
        builder_fed (between available (id ∷ buffer)) (returned b rest)
        ≡ record { state = between (available ++ r ∷ []) rest; thrown = none; again = true }
    complete = unfold builder_fed in ground arith

    start :
        start_reply (between available (id ∷ buffer)) buffer (ok c)
        ≡ record { state = between (available ++ r ∷ []) rest; thrown = none; again = true }
    start = unfold start_reply in ap (builder_fed (between available (id ∷ buffer))) fed ∙ complete

drain_step :
    (available : List Reply) (id : ℕ) (buffer : Bytes) (s : ReplyBuilder)
    → build_reply (between available (id ∷ buffer))
      ≡ record { state = s; thrown = none; again = true }
    → length s.buffer + pending s.builder ≤ length buffer
    → drain (between available (id ∷ buffer)) ≡ drain s
drain_step available id buffer s e h =
    first
    ∙ ap (after_reply (build_replies (suc (suc (length buffer))))) e
    ∙ after_reply_again (build_replies (suc (suc (length buffer))))
        (record { state = s; thrown = none; again = true }) refl
    ∙ drain_lem (suc (suc (length buffer))) s (omega arith)
  where
    first :
        drain (between available (id ∷ buffer))
        ≡ after_reply
            (build_replies (suc (suc (length buffer))))
            (build_reply (between available (id ∷ buffer)))
    first = unfold drain build_replies in refl

drain_value :
    (available : List Reply) (v : Value) (rest : Bytes)
    → IsValid v
    → drain (between available (tag v ∷ body v rest))
      ≡ drain (between (available ++ reply_of v ∷ []) rest)
drain_value available v rest h =
    let f = suc (length (body v rest)) in
    let (c, create, (b, fed, ready, r)) = read_value v f rest h (omega arith) in
    let fed' =
      feed_lem f c (body v rest) (omega (arith, depth-create_builder (tag v) c create)) ∙ fed in
    drain_step available (tag v) (body v rest) (between (available ++ reply_of v ∷ []) rest)
      (build_reply_value available (tag v) (body v rest) rest c b (reply_of v) create fed' ready r)
      (omega (arith, feed-shrinks c (body v rest), ap (λ (g : Fed Builder). length g.buffer) fed'))

-- Whole values at the front of the buffer become available replies, in order, and the rest is read
-- as if they had not been there.
drain_values :
    (vs : Values) (available : List Reply) (rest : Bytes)
    → AreValid vs
    → drain (between available (bodies vs rest)) ≡ drain (between (available ++ replies_of vs) rest)
unfolding body replies_of
drain_values no_items available rest h =
    ap (λ (xs : List Reply). drain (between xs rest)) (sym (append-nil available))
drain_values (item v vs) available rest h =
    drain_value available v (bodies vs rest) h.0
    ∙ drain_values vs (available ++ reply_of v ∷ []) rest h.1
    ∙ ap (λ (xs : List Reply). drain (between xs rest))
        (append_assoc available (reply_of v ∷ []) (replies_of vs))

drain_empty :
    (available : List Reply)
    → drain (between available []) ≡ record { state = between available []; thrown = none }
unfolding drain build_replies build_reply build_buffer after_reply
drain_empty available = refl

-- A parser that is between two replies and receives the bytes of whole values gets their replies,
-- in order behind those it had, throws nothing, and is between two replies again.
pub receive-encode :
    (vs : Values) (available : List Reply)
    → AreValid vs
    → receive (between available []) (encode vs)
      ≡ record { state = between (available ++ replies_of vs) []; thrown = none }
unfolding receive encode
receive-encode vs available h =
    drain_values vs available [] h ∙ drain_empty (available ++ replies_of vs)
