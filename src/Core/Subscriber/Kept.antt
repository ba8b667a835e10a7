-- ===== src/Core/Subscriber/Kept.antt =====
-- What a reconnection of `subscriber` keeps (sources/core/subscriber.cpp): the limit of the attempts,
-- their count up to its own, and what each insertion keeps of the two maps.
use cpp_redis.Prelude.{
  ℕ, ◌+◌, Bool, true, false, List, [], ◌∷◌, Bytes, ◌==◌, ◌≡◌, refl, ap, ◌∙◌, Bool-cases, inl, inr,
  ℤ, insert,
}
use cpp_redis.Network.TcpClient.{TcpClient}
use cpp_redis.Network.Connection
use cpp_redis.Core.Call.{caught, and_then-keeps}
use cpp_redis.Core.Retries.{Meanwhile}
use cpp_redis.Core.Sentinel.{Incoming}
use cpp_redis.Core.Client.{is_empty}
use cpp_redis.Core.Subscriber.{
  Subscriber, Channels, CallbackHolder, ConnectState, auth, sent, unprotected_subscribe,
  unprotected_psubscribe, notified,
}
use cpp_redis.Core.Subscriber.Reconnecting.{
  is_connected, connected, connect, look_up, commit, re_auth, re_subscribe, resubscribe_patterns,
  subscribe_all, psubscribe_all, reconnected, connect_tried, reconnect_to, looked_up, reconnect,
  sleep_before_next_reconnect_attempt,
}

module _ (Q : Channels → Type 0) (empty : Q [])
    (add : (k : Bytes) (h : CallbackHolder) (m : Channels) → Q m → Q (insert k h m)) where
  abbrev pub Kept : {S : Type 0} → ℤ → ℕ → Subscriber S → Type 0
  Kept m a s =
      (s.max_reconnects ≡ m)
      × ((s.current_reconnect_attempts ≡ a) × (Q s.subscribed_channels × Q s.psubscribed_channels))

  module _ {S : Type 0} (m : ℤ) where
    subscribe_all-Kept :
        (a : ℕ) (chans : Channels) (s : Subscriber S)
        → Kept m a s
        → Kept m a (subscribe_all chans s)
    unfolding subscribe_all unprotected_subscribe sent
    subscribe_all-Kept a [] s h = h
    subscribe_all-Kept a (chan ∷ rest) s (hm, (ha, (hs, hp))) =
        subscribe_all-Kept a rest (unprotected_subscribe chan.0 chan.1 s)
          (hm, (ha, (add chan.0 chan.1 s.subscribed_channels hs, hp)))

    psubscribe_all-Kept :
        (a : ℕ) (chans : Channels) (s : Subscriber S)
        → Kept m a s
        → Kept m a (psubscribe_all chans s)
    unfolding psubscribe_all unprotected_psubscribe sent
    psubscribe_all-Kept a [] s h = h
    psubscribe_all-Kept a (chan ∷ rest) s (hm, (ha, (hs, hp))) =
        psubscribe_all-Kept a rest (unprotected_psubscribe chan.0 chan.1 s)
          (hm, (ha, (hs, add chan.0 chan.1 s.psubscribed_channels hp)))

    pub re_subscribe-Kept : (a : ℕ) (s : Subscriber S) → Kept m a s → Kept m a (re_subscribe s)
    unfolding re_subscribe resubscribe_patterns
    re_subscribe-Kept a s (hm, (ha, (hs, hp))) =
        let t = subscribe_all s.subscribed_channels (record s { subscribed_channels = [] }) in
        let (tm, (ta, (ts, tp))) =
          subscribe_all-Kept a s.subscribed_channels (record s { subscribed_channels = [] })
            (hm, (ha, (empty, hp))) in
        psubscribe_all-Kept a t.psubscribed_channels (record t { psubscribed_channels = [] })
          (tm, (ta, (ts, empty)))

    re_auth-Kept : (a : ℕ) (s : Subscriber S) → Kept m a s → Kept m a (re_auth s)
    unfolding re_auth auth sent
    re_auth-Kept a s h = elim (Bool-cases (is_empty s.password)) [ inl e ↦ rw e h | inr e ↦ rw e h ]

    module _ (T : TcpClient S) where
      reconnected-Kept : (a : ℕ) (s : Subscriber S) → Kept m a s → Kept m a (reconnected T s).state
      unfolding reconnected commit
      reconnected-Kept a s h = re_subscribe-Kept a (re_auth s) (re_auth-Kept a s h)

      connect_tried-Kept :
          (a : ℕ) (s : Subscriber S) → Kept m a s → Kept m a (connect_tried T s).state
      unfolding connect_tried
      connect_tried-Kept a s h = elim (Bool-cases (is_connected T s)) [
        | inl e ↦ rw e (reconnected-Kept a s h)
        | inr e ↦ rw e h
      ]

      -- The limit is the one that is given.
      pub connect-Kept :
          (host : Bytes) (port : ℕ) (on_connect : Bool) (timeout_msecs interval a : ℕ) (n : ℤ)
          (s : Subscriber S)
          → Kept m a s
          → Kept n a (connect T host port on_connect timeout_msecs n interval s).state
      unfolding connect
      connect-Kept host port on_connect timeout_msecs interval a n s (hm, h) =
          let s' = record s {
            redis_server = host;
            redis_port = port;
            has_connect_callback = on_connect;
            max_reconnects = n;
            reconnect_interval_msecs = interval;
          } in
          let r = Connection.connect T s.client host port true true timeout_msecs in
          and_then-keeps (Kept n a) (connected T r s') (notified ConnectState.ok) (refl, h)
            (λ t k. k)

      reconnect_to-Kept :
          (a : ℕ) (s : Subscriber S) → Kept m a s → Kept m a (reconnect_to T s).state
      unfolding reconnect_to
      reconnect_to-Kept a s h =
          let r =
            connect T s.redis_server s.redis_port s.has_connect_callback s.connect_timeout_msecs
              s.max_reconnects s.reconnect_interval_msecs s in
          let (limit, rest) =
            connect-Kept s.redis_server s.redis_port s.has_connect_callback s.connect_timeout_msecs
              s.reconnect_interval_msecs a s.max_reconnects s h in
          and_then-keeps (Kept m a) (caught r) (connect_tried T) (limit ∙ h.0, rest)
            (connect_tried-Kept a)

      looked_up-Kept :
          (a : ℕ) (found : Bool) (s : Subscriber S)
          → Kept m a s
          → Kept m a (looked_up T found s).state
      unfolding looked_up
      looked_up-Kept a true s h = reconnect_to-Kept a s h
      looked_up-Kept a false s h = h

      pub look_up-Kept :
          (a : ℕ) (incoming : List Incoming) (s : Subscriber S)
          → Kept m a s
          → Kept m a (look_up T incoming s).0.state
      unfolding look_up
      look_up-Kept a incoming s h = h

      -- An attempt is counted.
      pub reconnect-Kept :
          (a : ℕ) (incoming : List Incoming) (s : Subscriber S)
          → Kept m a s
          → Kept m (a + 1) (reconnect T incoming s).state
      unfolding reconnect
      reconnect-Kept a incoming s (hm, (ha, hq)) =
          let s' = record s { current_reconnect_attempts = s.current_reconnect_attempts + 1 } in
          let ha' : s'.current_reconnect_attempts ≡ a + 1 = ap (λ n. n + 1) ha in
          let h' : Kept m (a + 1) s' = (hm, (ha', hq)) in
          let found = (look_up T incoming s').1 in
          elim (Bool-cases (is_empty s.master_name)) [
            | inl e ↦ rw e (looked_up-Kept (a + 1) true s' h')
            | inr e ↦ rw e (
                and_then-keeps (Kept m (a + 1)) (look_up T incoming s').0 (looked_up T found)
                  (look_up-Kept (a + 1) incoming s' h') (looked_up-Kept (a + 1) found))
          ]

      pub sleep-Kept :
          (a : ℕ) (w : Meanwhile) (s : Subscriber S)
          → Kept m a s
          → Kept m a (sleep_before_next_reconnect_attempt T w s).state
      unfolding sleep_before_next_reconnect_attempt
      sleep-Kept a w s h = elim (Bool-cases (s.reconnect_interval_msecs == 0)) [
        | inl e ↦ rw e h
        | inr e ↦ rw e h
      ]
