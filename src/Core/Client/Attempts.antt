-- ===== src/Core/Client/Attempts.antt =====
-- How many attempts the reconnection of `client` makes, and how it ends (sources/core/client.cpp).
use cpp_redis.Prelude.{
  ◌++◌, append-nil, if◌then◌else◌, ℕ, ◌+◌, ◌≤◌, true, false, not, Option, none, some, List, [],
  ◌&&◌, ◌≡◌, ◌⊎◌, inl, inr, refl, ap, ◌∙◌, arith, Bool-cases, ℤ, pos, ◌==◌,
}
use cpp_redis.Error.{Exception, out_of_fuel}
use cpp_redis.Network.TcpClient.{TcpClient}
use cpp_redis.Core.Call.{and_then, ran, failed}
use cpp_redis.Core.Call.{and_then-same}
use cpp_redis.Core.Retries.{retry-done, retry-Agree, attempts_left, attempts_left-limit, Meanwhile}
use cpp_redis.Core.Client.{
  stopped, notify, cancel_reconnect, dropped, notified, Client, Ran, Event, clear_callbacks,
}
use cpp_redis.Core.Client.Reconnecting.{
  should_reconnect, attempts, round, reconnect, sleep_before_next_reconnect_attempt,
  connection_disconnection_handler, is_connected, give_up, reconnection_over,
}
use cpp_redis.Core.Client.Counts.{and_false, Counts, reconnect-Counts}

module _ {S : Type 0} (T : TcpClient S) where
  sleep-Counts :
      (n : ℤ) (a : ℕ) (m : Meanwhile) (c : Client S)
      → Counts n a c
      → Counts n a (sleep_before_next_reconnect_attempt T m c).state
  unfolding sleep_before_next_reconnect_attempt
  sleep-Counts n a m c h = elim (Bool-cases (c.reconnect_interval_msecs == 0)) [
    | inl e ↦ rw e h
    | inr e ↦ rw e h
  ]

  -- When as many attempts as the limit allows are over, no other one is made.
  should_reconnect-limit :
      (n a : ℕ) (c : Client S) → Counts (pos n) a c → n ≤ a → should_reconnect T c ≡ false
  unfolding should_reconnect
  should_reconnect-limit n a c h over =
      ap
        (λ m.
          not (is_connected T c) && (not c.cancel && attempts_left c.current_reconnect_attempts m))
        h.0
      ∙ ap (λ k. not (is_connected T c) && (not c.cancel && attempts_left k (pos n))) h.1
      ∙ ap (λ b. not (is_connected T c) && (not c.cancel && b)) (attempts_left-limit n a over)
      ∙ and_false (not (is_connected T c)) (not c.cancel)

  round-same :
      (n : ℤ) (a : ℕ) (meanwhile : ℕ → Meanwhile) (k l : Client S → Ran S) (c : Client S)
      → Counts n a c
      → ((s : Client S) → Counts n (a + 1) s → k s ≡ l s)
      → round T meanwhile k c ≡ round T meanwhile l c
  unfolding round
  round-same n a meanwhile k l c h same =
      let m = meanwhile c.current_reconnect_attempts in
      and_then-same (Counts n a) (sleep_before_next_reconnect_attempt T m c)
        (λ s. and_then (reconnect T m.incoming s) k) (λ s. and_then (reconnect T m.incoming s) l)
        (sleep-Counts n a m c h)
        (λ s hs.
          and_then-same (Counts n (a + 1)) (reconnect T m.incoming s) k l
            (reconnect-Counts T n a m.incoming s hs) same)

  -- With a limit of `n` attempts, more rounds than that make no difference.
  attempts-Agree :
      (f g n : ℕ) (meanwhile : ℕ → Meanwhile) (c : Client S)
      → Counts (pos n) 0 c
      → n ≤ f
      → n ≤ g
      → attempts T f meanwhile c ≡ attempts T g meanwhile c
  unfolding attempts
  attempts-Agree f g n meanwhile c h hf hg =
      retry-Agree (should_reconnect T) (round T meanwhile) ran (λ s. failed s out_of_fuel) n
        (Counts (pos n)) (should_reconnect-limit n)
        (λ a k l x hx same. round-same (pos n) a meanwhile k l x hx same) f g 0 c h (omega arith)
        (omega arith)

  -- With a limit of `n` attempts, `n` rounds of its loop are enough for the disconnection handler: on
  -- any more rounds it leaves the same client, calls the same callbacks and throws the same.
  pub connection_disconnection_handler-Agree :
      (n k : ℕ) (meanwhile : ℕ → Meanwhile) (c : Client S)
      → c.max_reconnects ≡ pos n
      → connection_disconnection_handler T (n + k) meanwhile c
        ≡ connection_disconnection_handler T n meanwhile c
  unfolding connection_disconnection_handler
  connection_disconnection_handler-Agree n k meanwhile c h =
      let c' = record c { reconnecting = true; current_reconnect_attempts = 0 } in
      ap
        (λ (r : Ran S).
          if c.reconnecting
          then ran c
          else and_then (notified dropped c') (λ s. reconnection_over T r))
        (attempts-Agree (n + k) n n meanwhile c' (h, refl) (omega arith) (omega arith))

  -- Connected, or nothing waits for an answer.
  abbrev pub Settled : Client S → Type 0
  Settled c = (c.reconnecting ≡ false) × ((is_connected T c ≡ true) ⊎ (c.commands ≡ []))

  over-Settled :
      (c : Client S) (es : List Event) (t : Option Exception)
      → (reconnection_over T (record { state = c; events = es; thrown = t })).thrown ≡ none
      → Settled (reconnection_over T (record { state = c; events = es; thrown = t })).state
  unfolding reconnection_over give_up clear_callbacks
  over-Settled c es none h = elim (Bool-cases (is_connected T c)) [
    | inl e ↦ rw e (refl, inl e)
    | inr e ↦ rw e (refl, inr refl)
  ]
  over-Settled c es (some e) h = absurd (ground arith)

  -- When a client that was not reconnecting is disconnected and the handler throws nothing, it is not
  -- reconnecting in the end, and either it is connected or no command waits for an answer.
  pub connection_disconnection_handler-Settled :
      (f : ℕ) (meanwhile : ℕ → Meanwhile) (c : Client S)
      → c.reconnecting ≡ false
      → (connection_disconnection_handler T f meanwhile c).thrown ≡ none
      → Settled (connection_disconnection_handler T f meanwhile c).state
  unfolding connection_disconnection_handler
  connection_disconnection_handler-Settled f meanwhile c idle =
      let c' = record c { reconnecting = true; current_reconnect_attempts = 0 } in
      let r = attempts T f meanwhile c' in rw idle (over-Settled r.state r.events r.thrown)

  cancelled_lem :
      (c : Client S) → is_connected T c ≡ false → should_reconnect T (cancel_reconnect c) ≡ false
  unfolding should_reconnect
  cancelled_lem c offline = rw offline refl

  give_up_lem :
      (c : Client S) → is_connected T c ≡ false → give_up T c ≡ notified stopped (clear_callbacks c)
  unfolding give_up
  give_up_lem c offline = rw offline refl

  -- When a client that was cancelled and was not reconnecting is disconnected, no attempt is made: the
  -- user is told that the connection dropped and that the client stopped, the commands go to the
  -- thread that fails them, and the client is not reconnecting.
  pub connection_disconnection_handler-cancel_reconnect :
      (f : ℕ) (meanwhile : ℕ → Meanwhile) (c : Client S)
      → c.reconnecting ≡ false
      → is_connected T c ≡ false
      → connection_disconnection_handler T f meanwhile (cancel_reconnect c) ≡ record {
        state = record (clear_callbacks (cancel_reconnect c)) {
          current_reconnect_attempts = 0;
          reconnecting = false;
        };
        events =
            notify c.redis_server c.redis_port dropped c
            ++ notify c.redis_server c.redis_port stopped c;
        thrown = none;
      }
  unfolding connection_disconnection_handler attempts reconnection_over clear_callbacks
  connection_disconnection_handler-cancel_reconnect f meanwhile c idle offline =
      let c' = record c { cancel = true; reconnecting = true; current_reconnect_attempts = 0 } in
      let over = record (clear_callbacks (cancel_reconnect c)) {
        current_reconnect_attempts = 0;
        reconnecting = false;
      } in
      let lead = notify c.redis_server c.redis_port dropped c in
      rw idle (
        ap (λ (r : Ran S). let n = reconnection_over T r in record n { events = lead ++ n.events })
          (retry-done (should_reconnect T) (round T meanwhile) ran (λ s. failed s out_of_fuel) f c'
            (cancelled_lem c' offline))
        ∙ ap
            (λ (r : Ran S).
              let n = and_then r (λ s'. ran (record s' { reconnecting = false })) in
              record n { events = lead ++ n.events })
            (give_up_lem c' offline)
        ∙ ap (λ (l : List Event). record { state = over; events = lead ++ l; thrown = none })
            (append-nil (notify c.redis_server c.redis_port stopped c)))
