-- ===== src/Core/Client/Counted.antt =====
-- The count of the callbacks that run in `client` (sources/core/client.cpp): each operation keeps it
-- at least as large as what the detached threads still have to fail.
pub mod Reconnecting
use cpp_redis.Prelude.{
  ℕ, suc, ◌+◌, ◌≤◌, Bool, true, false, Option, none, some, List, [], ◌∷◌, length, length-append,
  Bytes, ◌==◌, ◌≡◌, refl, ap, arith, Bool-cases, inl, inr, ℤ, if◌then◌else◌,
}
use cpp_redis.Error.{Exception, out_of_fuel}
use cpp_redis.Reply.{Reply}
use cpp_redis.Network.TcpClient.{TcpClient}
use cpp_redis.Network.Connection
use cpp_redis.Core.Call.{ran, failed, caught, and_then, and_then-keeps}
use cpp_redis.Core.Retries.{Meanwhile, retry-keeps}
use cpp_redis.Core.Sentinel.{Incoming}
use cpp_redis.Core.Client.{
  Client, Ran, Event, Callback, CommandRequest, null, user, logs_ok, sets_promise, is_empty,
  not_selected, unprotected_send, unprotected_auth, unprotected_select, re_auth, re_select, resend,
  resend_failed_commands, clear_callbacks, run_callback, run_front, finished, fail_next,
  connection_receive_handler, network_failure,
}
use cpp_redis.Core.Client.Reconnecting.{
  connect, connect_done, look_up, try_commit, commit, commit_done, reconnected, connect_tried,
  reconnect_to, looked_up, reconnect, sleep_before_next_reconnect_attempt, should_reconnect, round,
  attempts, give_up, reconnection_over, connection_disconnection_handler, is_connected, disconnect,
}

-- What the detached threads have to fail is counted.
abbrev pub IsCounted : {S : Type 0} → Client S → Type 0
IsCounted c = length c.failing ≤ c.callbacks_running

module _ {S : Type 0} where
  pub clear_callbacks-IsCounted : (c : Client S) → IsCounted c → IsCounted (clear_callbacks c)
  unfolding clear_callbacks
  clear_callbacks-IsCounted c h = omega (arith, h, length-append c.failing c.commands)

  -- A callback leaves the count and the threads.
  run_callback-same : (k : Callback) (r : Reply) (c : Client S) → (run_callback k r c).state ≡ c
  unfolding run_callback
  run_callback-same null r c = refl
  run_callback-same (user k) r c = refl
  run_callback-same logs_ok r c = refl
  run_callback-same (sets_promise k) r c = refl

  -- A callback runs with one more than is needed.
  Runs : Client S → Type 0
  Runs c = suc (length c.failing) ≤ c.callbacks_running

  finished_lem :
      (c : Client S) (es : List Event) (t : Option Exception)
      → Runs c
      → IsCounted (finished (record { state = c; events = es; thrown = t })).state
  unfolding Runs
  finished_lem c es none h = omega (arith, h)
  finished_lem c es (some e) h = omega (arith, h)

  finished-IsCounted : (r : Ran S) → Runs r.state → IsCounted (finished r).state
  finished-IsCounted r h = finished_lem r.state r.events r.thrown h

  run_front-Runs :
      (r : Reply) (c : Client S) (requests : List CommandRequest)
      → Runs c
      → Runs (run_front r c requests).state
  unfolding run_front Runs
  run_front-Runs r c [] h = h
  run_front-Runs r c (request ∷ rest) h =
      rw (run_callback-same request.callback r (record c { commands = rest })) h

  pub connection_receive_handler-IsCounted :
      (r : Reply) (c : Client S) → IsCounted c → IsCounted (connection_receive_handler r c).state
  unfolding connection_receive_handler Runs
  connection_receive_handler-IsCounted r c h =
      let c' = record c { callbacks_running = c.callbacks_running + 1 } in
      finished-IsCounted (run_front r c' c.commands)
        (run_front-Runs r c' c.commands (omega (arith, h)))

  shorter :
      (c : Client S) (request : CommandRequest) (rest : List CommandRequest)
      → c.failing ≡ request ∷ rest
      → IsCounted c
      → suc (length rest) ≤ c.callbacks_running
  shorter c request rest e h = omega (arith, ap length e, h)

  pub fail_next-IsCounted :
      (c : Client S) (requests : List CommandRequest)
      → c.failing ≡ requests
      → IsCounted c
      → IsCounted (fail_next c requests).state
  unfolding fail_next Runs
  fail_next-IsCounted c [] e h = h
  fail_next-IsCounted c (request ∷ rest) e h =
      let c' = record c { failing = rest } in
      finished-IsCounted (run_callback request.callback network_failure c')
        (rw (run_callback-same request.callback network_failure c') (shorter c request rest e h))

  pub resend-IsCounted :
      (requests : List CommandRequest) (c : Client S) → IsCounted c → IsCounted (resend requests c)
  unfolding resend unprotected_send
  resend-IsCounted [] c h = h
  resend-IsCounted (request ∷ rest) c h =
      resend-IsCounted rest (unprotected_send request.command request.callback c) h

  pub re_auth-IsCounted : (c : Client S) → IsCounted c → IsCounted (re_auth c)
  unfolding re_auth unprotected_auth unprotected_send
  re_auth-IsCounted c h = elim (Bool-cases (is_empty c.password)) [
    | inl e ↦ rw e h
    | inr e ↦ rw e h
  ]

  pub re_select-IsCounted : (c : Client S) → IsCounted c → IsCounted (re_select c)
  unfolding re_select unprotected_select unprotected_send
  re_select-IsCounted c h = elim (Bool-cases (not_selected c.database_index)) [
    | inl e ↦ rw e h
    | inr e ↦ rw e h
  ]
