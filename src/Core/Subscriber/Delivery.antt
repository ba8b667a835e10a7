-- ===== src/Core/Subscriber/Delivery.antt =====
-- Which callbacks of `subscriber` run on what the server pushes (sources/core/subscriber.cpp), from the
-- bytes that come in to the calls.
use cpp_redis.Prelude.{
  ℕ, true, Option, none, some, List, [], ◌∷◌, ◌++◌, map, Bytes, codes, ℤ, ◌≡◌, refl, ap, ◌∙◌, find,
}
use cpp_redis.Protocol.{
  Value, Values, array, integer, bulk_string, no_items, item, AreValid, encode, reply_of,
  replies_of,
}
use cpp_redis.Reply.{is_array, is_string, is_integer, as_array, as_string, as_integer}
use cpp_redis.Network.TcpClient.{TcpClient}
use cpp_redis.Network.Connection
use cpp_redis.Network.Connection.Listening.{listening, read_on, receive_handler-encode}
use cpp_redis.Core.Call.{and_then, where_thrown}
use cpp_redis.Core.Interrupted.{left, put_back}
use cpp_redis.Core.Retries.{Meanwhile}
use cpp_redis.Core.Sentinel.{packet}
use cpp_redis.Core.Subscriber.{Subscriber, Ran, Event, message, acknowledgement}
use cpp_redis.Core.Subscriber.Receiving.{
  connection_receive_handler, array_received, handle_acknowledgement_reply, handle_subscribe_reply,
  handle_psubscribe_reply, acknowledge_title, call_acknowledgement_callback, acknowledged,
  acknowledge, found, deliver, call_subscribe_callback,
}
use cpp_redis.Core.Subscriber.Latest.{
  Subscription, Request, held, latest, channel_change, pattern_change, run_all, run_all-latest,
}
use cpp_redis.Core.Subscriber.ComingIn.{handle, handle_all, come_in}

-- What the server pushes: a message, with the pattern that it matched or without, and the
-- acknowledgements with the number of channels.
pub data Push : Type 0 where
  sent_to : Bytes → Bytes → Push
  matched : Bytes → Bytes → Bytes → Push
  subscribed psubscribed : Bytes → ℤ → Push

abbrev words : Bytes → Bytes → Value → Value
words title name last =
    array (item (bulk_string title) (item (bulk_string name) (item last no_items)))

abbrev pub value_of : Push → Value
value_of (sent_to channel text) = words (codes "message") channel (bulk_string text)
value_of (matched pattern_ channel text) = array (
    item (bulk_string (codes "pmessage"))
      (item (bulk_string pattern_) (item (bulk_string channel) (item (bulk_string text) no_items))))
value_of (subscribed channel n) = words (codes "subscribe") channel (integer n)
value_of (psubscribed pattern_ n) = words (codes "psubscribe") pattern_ (integer n)

abbrev pub values_of : List Push → Values
values_of [] = no_items
values_of (p ∷ ps) = item (value_of p) (values_of ps)

-- The calls of a subscription's callbacks.
abbrev heard : Bytes → Bytes → Option Subscription → List Event
heard channel text none = []
heard channel text (some p) = message p.0 channel text ∷ []

abbrev told : ℤ → Option ℕ → List Event
told n none = []
told n (some k) = acknowledgement k n ∷ []

abbrev noticed : ℤ → Option Subscription → List Event
noticed n none = []
noticed n (some p) = told n p.1

-- The calls on what is pushed, where the channels and the patterns have these subscriptions.
abbrev pub calls : (Bytes → Option Subscription) → (Bytes → Option Subscription) → Push → List Event
calls channels patterns (sent_to channel text) = heard channel text (channels channel)
calls channels patterns (matched pattern_ channel text) = heard channel text (patterns pattern_)
calls channels patterns (subscribed channel n) = noticed n (channels channel)
calls channels patterns (psubscribed pattern_ n) = noticed n (patterns pattern_)

abbrev pub all_calls :
    (Bytes → Option Subscription) → (Bytes → Option Subscription) → List Push → List Event
all_calls channels patterns [] = []
all_calls channels patterns (p ∷ ps) = calls channels patterns p ++ all_calls channels patterns ps

module _ {S : Type 0} where
  -- The subscriber stays as it is.
  abbrev called : Subscriber S → List Event → Ran S
  called s es = record { state = s; events = es; thrown = none }

  deliver_lem :
      (channel text : Bytes) (o : Option Subscription) (s : Subscriber S)
      → deliver channel text (held o) s ≡ called s (heard channel text o)
  unfolding deliver call_subscribe_callback
  deliver_lem channel text none s = refl
  deliver_lem channel text (some p) s = refl

  acknowledge_lem :
      (n : ℤ) (o : Option ℕ) (s : Subscriber S) → acknowledge n o s ≡ called s (told n o)
  unfolding acknowledge
  acknowledge_lem n none s = refl
  acknowledge_lem n (some k) s = refl

  acknowledged_lem :
      (n : ℤ) (o : Option Subscription) (s : Subscriber S)
      → acknowledged n (held o) s ≡ called s (noticed n o)
  unfolding acknowledged
  acknowledged_lem n none s = refl
  acknowledged_lem n (some p) s = acknowledge_lem n p.1 s

  -- The maps hold these subscriptions.
  abbrev Holds :
      (Bytes → Option Subscription) → (Bytes → Option Subscription) → Subscriber S → Type 0
  Holds channels patterns s =
      (name : Bytes)
      → (find name s.subscribed_channels ≡ held (channels name))
        × (find name s.psubscribed_channels ≡ held (patterns name))

  received_lem :
      (channels patterns : Bytes → Option Subscription) (p : Push) (s : Subscriber S)
      → Holds channels patterns s
      → connection_receive_handler (reply_of (value_of p)) s ≡ called s (calls channels patterns p)
  unfolding connection_receive_handler array_received handle_acknowledgement_reply
      handle_subscribe_reply handle_psubscribe_reply acknowledge_title call_acknowledgement_callback
      found reply_of is_array is_string is_integer as_array as_string as_integer
  received_lem channels patterns (sent_to channel text) s h =
      ap (λ o. deliver channel text o s) (h channel).0
      ∙ deliver_lem channel text (channels channel) s
  received_lem channels patterns (matched pattern_ channel text) s h =
      ap (λ o. deliver channel text o s) (h pattern_).1
      ∙ deliver_lem channel text (patterns pattern_) s
  received_lem channels patterns (subscribed channel n) s h =
      ap (λ o. acknowledged n o s) (h channel).0 ∙ acknowledged_lem n (channels channel) s
  received_lem channels patterns (psubscribed pattern_ n) s h =
      ap (λ o. acknowledged n o s) (h pattern_).1 ∙ acknowledged_lem n (patterns pattern_) s

module _ {S : Type 0} (T : TcpClient S) (f : ℕ) (meanwhile : ℕ → Meanwhile) where
  handle_all_lem :
      (channels patterns : Bytes → Option Subscription) (ps : List Push) (s : Subscriber S)
      → Holds channels patterns s
      → handle_all T f meanwhile (map Connection.reply_callback (replies_of (values_of ps))) s
        ≡ called s (all_calls channels patterns ps)
  unfolding handle_all handle replies_of
  handle_all_lem channels patterns [] s h = refl
  handle_all_lem channels patterns (p ∷ ps) s h =
      ap
        (λ (r : Ran S).
          and_then r
            (handle_all T f meanwhile (map Connection.reply_callback (replies_of (values_of ps)))))
        (received_lem channels patterns p s h)
      ∙ ap (λ (r : Ran S). record r { events = calls channels patterns p ++ r.events })
          (handle_all_lem channels patterns ps s h)

  -- A packet on which no callback throws.
  packet_lem :
      (bytes : Bytes) (s d : Subscriber S) (r : Connection.Done S) (es : List Event)
      → Connection.tcp_client_receive_handler T s.client true bytes ≡ r
      → handle_all T f meanwhile r.events (record s { client = r.connection })
        ≡ record { state = d; events = es; thrown = none }
      → come_in T f meanwhile (packet true bytes) s
        ≡ record { state = d; events = es; thrown = none }
  unfolding come_in
  packet_lem bytes s d r es received returned =
      ap
        (λ (q : Connection.Done S).
          let x = record s { client = q.connection } in
          where_thrown
            (λ t. record t {
              client =
                  put_back s.client.client q.events (left (handle T f meanwhile) q.events x)
                    t.client;
            })
            (handle_all T f meanwhile q.events x))
        received
      ∙ ap
          (where_thrown (λ t. record t {
            client =
                put_back s.client.client r.events
                  (left (handle T f meanwhile) r.events (record s { client = r.connection }))
                  t.client;
          }))
          returned

  -- A subscriber with no subscriptions makes any requests, and its connection is between two replies.
  -- A packet with whole messages and acknowledgements then calls, in their order, exactly the
  -- callback of the last request for the channel or the pattern of each, and none where that request
  -- was an unsubscription or there was none. Nothing is thrown, and of the subscriber only the
  -- connection changes, which asks for the next read. What is pushed is in the parser's limits.
  pub come_in-calls :
      (rs : List Request) (ps : List Push) (s : Subscriber S)
      → s.subscribed_channels ≡ []
      → s.psubscribed_channels ≡ []
      → AreValid (values_of ps)
      → let t = run_all rs s in
        come_in T f meanwhile
          (packet true (encode (values_of ps)))
          (record t { client = listening t.client })
        ≡ record {
          state = record t { client = read_on T (listening t.client) };
          events =
              all_calls
                (λ name. latest channel_change name rs none)
                (λ name. latest pattern_change name rs none)
                ps;
          thrown = none;
        }
  come_in-calls rs ps s c p valid =
      let t = run_all rs s in
      packet_lem (encode (values_of ps)) (record t { client = listening t.client })
        (record t { client = read_on T (listening t.client) }) _ _
        (receive_handler-encode T t.client (values_of ps) valid)
        (handle_all_lem (λ name. latest channel_change name rs none)
          (λ name. latest pattern_change name rs none) ps
          (record t { client = read_on T (listening t.client) })
          (λ name. run_all-latest rs name s c p))
