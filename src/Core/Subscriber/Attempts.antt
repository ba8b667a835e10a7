-- ===== src/Core/Subscriber/Attempts.antt =====
-- How many attempts the reconnection of `subscriber` makes, and how it ends
-- (sources/core/subscriber.cpp).
use cpp_redis.Prelude.{
  ℕ, ◌+◌, ◌≤◌, true, false, not, ◌&&◌, Option, none, some, List, [], ◌≡◌, ◌⊎◌, inl, inr, refl, ap,
  ◌∙◌, arith, if◌then◌else◌, Bool-cases, ℤ, pos,
}
use cpp_redis.Error.{Exception, out_of_fuel}
use cpp_redis.Network.TcpClient.{TcpClient}
use cpp_redis.Core.Call.{ran, failed, and_then, and_then-same}
use cpp_redis.Core.Retries.{Meanwhile, attempts_left, attempts_left-limit, retry-Agree}
use cpp_redis.Core.Client.Counts.{and_false}
use cpp_redis.Core.Subscriber.{
  Subscriber, Ran, Event, Channels, dropped, notified, clear_subscriptions,
}
use cpp_redis.Core.Subscriber.Reconnecting.{
  is_connected, should_reconnect, sleep_before_next_reconnect_attempt, reconnect, round, attempts,
  give_up, reconnection_over, connection_disconnection_handler,
}
use cpp_redis.Core.Subscriber.Kept.{Kept, sleep-Kept, reconnect-Kept}

-- Only the limit and the count.
abbrev Any : Channels → Type 0
Any m = Unit

module _ {S : Type 0} (T : TcpClient S) where
  -- When as many attempts as the limit allows are over, no other one is made.
  should_reconnect-limit :
      (n a : ℕ) (s : Subscriber S)
      → Kept Any tt (λ k h m q. tt) (pos n) a s
      → n ≤ a
      → should_reconnect T s ≡ false
  unfolding should_reconnect
  should_reconnect-limit n a s h over =
      ap
        (λ m.
          not (is_connected T s) && (not s.cancel && attempts_left s.current_reconnect_attempts m))
        h.0
      ∙ ap (λ k. not (is_connected T s) && (not s.cancel && attempts_left k (pos n))) h.1.0
      ∙ ap (λ b. not (is_connected T s) && (not s.cancel && b)) (attempts_left-limit n a over)
      ∙ and_false (not (is_connected T s)) (not s.cancel)

  round-same :
      (n : ℤ) (meanwhile : ℕ → Meanwhile) (a : ℕ) (k l : Subscriber S → Ran S) (s : Subscriber S)
      → Kept Any tt (λ k h m q. tt) n a s
      → ((t : Subscriber S) → Kept Any tt (λ k h m q. tt) n (a + 1) t → k t ≡ l t)
      → round T meanwhile k s ≡ round T meanwhile l s
  unfolding round
  round-same n meanwhile a k l s h same =
      let m = meanwhile s.current_reconnect_attempts in
      and_then-same (Kept Any tt (λ k h m q. tt) n a) (sleep_before_next_reconnect_attempt T m s)
        (λ t. and_then (reconnect T m.incoming t) k) (λ t. and_then (reconnect T m.incoming t) l)
        (sleep-Kept Any tt (λ k h m q. tt) n T a m s h)
        (λ t ht.
          and_then-same (Kept Any tt (λ k h m q. tt) n (a + 1)) (reconnect T m.incoming t) k l
            (reconnect-Kept Any tt (λ k h m q. tt) n T a m.incoming t ht) same)

  -- With a limit of `n` attempts, `n` rounds of its loop are enough for the disconnection handler of a
  -- subscriber: on any more rounds it leaves the same subscriber, calls the same callbacks and throws
  -- the same.
  pub subscriber_handler-Agree :
      (n k : ℕ) (meanwhile : ℕ → Meanwhile) (s : Subscriber S)
      → s.max_reconnects ≡ pos n
      → connection_disconnection_handler T (n + k) meanwhile s
        ≡ connection_disconnection_handler T n meanwhile s
  unfolding connection_disconnection_handler attempts
  subscriber_handler-Agree n k meanwhile s h =
      let s' = record s { reconnecting = true; current_reconnect_attempts = 0 } in
      ap
        (λ (r : Ran S).
          if s.reconnecting
          then ran s
          else and_then (notified dropped s') (λ t. reconnection_over T r))
        (retry-Agree (should_reconnect T) (round T meanwhile) ran (λ t. failed t out_of_fuel) n
          (Kept Any tt (λ k h m q. tt) (pos n)) (should_reconnect-limit n)
          (round-same (pos n) meanwhile) (n + k) n 0 s' (h, (refl, (tt, tt))) (omega arith)
          (omega arith))

  -- Not reconnecting, and connected or with no subscription.
  abbrev pub IsSettled : Subscriber S → Type 0
  IsSettled s =
      (s.reconnecting ≡ false)
      × ((is_connected T s ≡ true) ⊎ ((s.subscribed_channels ≡ []) × (s.psubscribed_channels ≡ [])))

  over-IsSettled :
      (s : Subscriber S) (es : List Event) (t : Option Exception)
      → (reconnection_over T (record { state = s; events = es; thrown = t })).thrown ≡ none
      → IsSettled (reconnection_over T (record { state = s; events = es; thrown = t })).state
  unfolding reconnection_over give_up clear_subscriptions is_connected
  over-IsSettled s es none h = elim (Bool-cases (is_connected T s)) [
    | inl e ↦ rw e (refl, inl e)
    | inr e ↦ rw e (refl, inr (refl, refl))
  ]
  over-IsSettled s es (some e) h = absurd (ground arith)

  -- When a subscriber that was not reconnecting is disconnected and the handler throws nothing, it is
  -- not reconnecting in the end, and it is connected or has no subscription.
  pub subscriber_handler-IsSettled :
      (f : ℕ) (meanwhile : ℕ → Meanwhile) (s : Subscriber S)
      → s.reconnecting ≡ false
      → (connection_disconnection_handler T f meanwhile s).thrown ≡ none
      → IsSettled (connection_disconnection_handler T f meanwhile s).state
  unfolding connection_disconnection_handler
  subscriber_handler-IsSettled f meanwhile s idle =
      let s' = record s { reconnecting = true; current_reconnect_attempts = 0 } in
      let r = attempts T f meanwhile s' in rw idle (over-IsSettled r.state r.events r.thrown)
