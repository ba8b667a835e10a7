-- ===== src/Core/Subscriber/Resubscribing.antt =====
-- The subscriptions that `subscriber` makes again after a reconnection (sources/core/subscriber.cpp).
use cpp_redis.Prelude.{
  false, [], ◌∷◌, ◌++◌, append_assoc, append-nil, Bytes, codes, ◌≡◌, sym, ap, ◌∙◌, insert_all,
  insert_all-Sorted, Sorted,
}
use cpp_redis.Network.Connection
use cpp_redis.Network.Command.{build_command}
use cpp_redis.Core.Client.{is_empty}
use cpp_redis.Core.Subscriber.{
  Subscriber, Channels, logs_ok, auth, sent, unprotected_subscribe, unprotected_psubscribe,
}
use cpp_redis.Core.Subscriber.Reconnecting.{
  re_auth, re_subscribe, resubscribe_patterns, subscribe_all, psubscribe_all,
}

-- One command for each name, in the order of the names.
abbrev pub wire : Bytes → Channels → Bytes
wire word [] = []
wire word (chan ∷ rest) = build_command (word ∷ chan.0 ∷ []) ++ wire word rest

-- The keys of both maps are in order, and none is there twice.
abbrev pub IsOrdered : {S : Type 0} → Subscriber S → Type 0
IsOrdered s = Sorted s.subscribed_channels × Sorted s.psubscribed_channels

module _ {S : Type 0} where
  abbrev pub written : Bytes → Subscriber S → Subscriber S
  written bytes s = record s { client = record s.client { buffer = s.client.buffer ++ bytes } }

  subscribe_all_lem :
      (chans : Channels) (s : Subscriber S)
      → subscribe_all chans s ≡ record (written (wire (codes "SUBSCRIBE") chans) s) {
        subscribed_channels = insert_all chans s.subscribed_channels;
      }
  unfolding subscribe_all unprotected_subscribe sent Connection.send
  subscribe_all_lem [] s =
      ap (λ b. record s { client = record s.client { buffer = b } })
        (sym (append-nil s.client.buffer))
  subscribe_all_lem (chan ∷ rest) s =
      let t = unprotected_subscribe chan.0 chan.1 s in
      subscribe_all_lem rest t
      ∙ ap
          (λ b. record t {
            client = record t.client { buffer = b };
            subscribed_channels = insert_all rest t.subscribed_channels;
          })
          (append_assoc s.client.buffer (build_command (codes "SUBSCRIBE" ∷ chan.0 ∷ []))
            (wire (codes "SUBSCRIBE") rest))

  psubscribe_all_lem :
      (chans : Channels) (s : Subscriber S)
      → psubscribe_all chans s ≡ record (written (wire (codes "PSUBSCRIBE") chans) s) {
        psubscribed_channels = insert_all chans s.psubscribed_channels;
      }
  unfolding psubscribe_all unprotected_psubscribe sent Connection.send
  psubscribe_all_lem [] s =
      ap (λ b. record s { client = record s.client { buffer = b } })
        (sym (append-nil s.client.buffer))
  psubscribe_all_lem (chan ∷ rest) s =
      let t = unprotected_psubscribe chan.0 chan.1 s in
      psubscribe_all_lem rest t
      ∙ ap
          (λ b. record t {
            client = record t.client { buffer = b };
            psubscribed_channels = insert_all rest t.psubscribed_channels;
          })
          (append_assoc s.client.buffer (build_command (codes "PSUBSCRIBE" ∷ chan.0 ∷ []))
            (wire (codes "PSUBSCRIBE") rest))

  patterns_lem :
      (s : Subscriber S)
      → Sorted s.psubscribed_channels
      → resubscribe_patterns s ≡ written (wire (codes "PSUBSCRIBE") s.psubscribed_channels) s
  unfolding resubscribe_patterns
  patterns_lem s h =
      psubscribe_all_lem s.psubscribed_channels (record s { psubscribed_channels = [] })
      ∙ ap
          (λ (m : Channels). record (written (wire (codes "PSUBSCRIBE") s.psubscribed_channels) s) {
            psubscribed_channels = m;
          })
          (insert_all-Sorted s.psubscribed_channels h)

  -- The commands that `re_subscribe` writes.
  abbrev pub subscriptions : Subscriber S → Bytes
  subscriptions s =
      wire (codes "SUBSCRIBE") s.subscribed_channels
      ++ wire (codes "PSUBSCRIBE") s.psubscribed_channels

  -- A subscriber whose maps are in order keeps both maps and all else when it subscribes again, and
  -- its buffer gets one command for each channel and then one for each pattern, in the order of the
  -- names.
  pub re_subscribe_lem :
      (s : Subscriber S) → IsOrdered s → re_subscribe s ≡ written (subscriptions s) s
  unfolding re_subscribe
  re_subscribe_lem s h =
      let subscribe_word = wire (codes "SUBSCRIBE") s.subscribed_channels in
      let t = written subscribe_word s in
      ap resubscribe_patterns (
        subscribe_all_lem s.subscribed_channels (record s { subscribed_channels = [] })
        ∙ ap (λ (m : Channels). record t { subscribed_channels = m })
            (insert_all-Sorted s.subscribed_channels h.0))
      ∙ patterns_lem t h.1
      ∙ ap (λ b. record s { client = record s.client { buffer = b } })
          (append_assoc s.client.buffer subscribe_word
            (wire (codes "PSUBSCRIBE") s.psubscribed_channels))

  -- With a password, the commands stand behind an `AUTH`, whose callback is the one that logs.
  pub re_subscribe-re_auth :
      (s : Subscriber S)
      → IsOrdered s
      → is_empty s.password ≡ false
      → re_subscribe (re_auth s)
        ≡ written
            (build_command (codes "AUTH" ∷ s.password ∷ []) ++ subscriptions s)
            (record s { auth_reply_callback = logs_ok })
  unfolding re_auth auth sent Connection.send
  re_subscribe-re_auth s h protected =
      let login = build_command (codes "AUTH" ∷ s.password ∷ []) in
      rw protected (
        re_subscribe_lem (auth s.password logs_ok s) h
        ∙ ap
            (λ b. record s {
              client = record s.client { buffer = b };
              auth_reply_callback = logs_ok;
            })
            (append_assoc s.client.buffer login (subscriptions s)))
