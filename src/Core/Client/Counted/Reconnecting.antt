-- ===== src/Core/Client/Counted/Reconnecting.antt =====
-- The count of the callbacks that run, through connecting, committing and reconnecting
-- (sources/core/client.cpp).
use cpp_redis.Prelude.{
  ℕ, ◌+◌, Bool, true, false, Option, none, some, List, [], Bytes, ◌==◌, Bool-cases, inl, inr, ℤ,
  if◌then◌else◌,
}
use cpp_redis.Error.{Exception, out_of_fuel}
use cpp_redis.Network.TcpClient.{TcpClient}
use cpp_redis.Network.Connection
use cpp_redis.Core.Call.{ran, failed, caught, and_then, and_then-keeps}
use cpp_redis.Core.Retries.{Meanwhile, retry-keeps}
use cpp_redis.Core.Sentinel.{Incoming}
use cpp_redis.Core.Client.{
  Client, Ran, is_empty, re_auth, re_select, resend, resend_failed_commands,
}
use cpp_redis.Core.Client.Reconnecting.{
  connect, connect_done, look_up, try_commit, commit, commit_done, reconnected, connect_tried,
  reconnect_to, looked_up, reconnect, sleep_before_next_reconnect_attempt, should_reconnect, round,
  attempts, give_up, reconnection_over, connection_disconnection_handler, is_connected, disconnect,
}
use cpp_redis.Core.Client.Counted.{
  IsCounted, clear_callbacks-IsCounted, resend-IsCounted, re_auth-IsCounted, re_select-IsCounted,
}

module _ {S : Type 0} (T : TcpClient S) where
  commit_done-IsCounted :
      (c : Client S) (t : Option Exception) → IsCounted c → IsCounted (commit_done T c t).state
  unfolding commit_done
  commit_done-IsCounted c none h = h
  commit_done-IsCounted c (some e) h = clear_callbacks-IsCounted c h

  try_commit-IsCounted : (c : Client S) → IsCounted c → IsCounted (try_commit T c).state
  unfolding try_commit
  try_commit-IsCounted c h =
      let r = Connection.commit T c.client in
      commit_done-IsCounted (record c { client = r.connection }) r.thrown h

  pub commit-IsCounted : (c : Client S) → IsCounted c → IsCounted (commit T c).state
  unfolding commit
  commit-IsCounted c h =
      elim c.reconnecting as (λ b. IsCounted (if b then ran c else try_commit T c).state) [
        | true ↦ h
        | false ↦ try_commit-IsCounted c h
      ]

  connect_done-IsCounted :
      (c : Client S) (t : Option Exception) → IsCounted c → IsCounted (connect_done T c t).state
  unfolding connect_done
  connect_done-IsCounted c none h = h
  connect_done-IsCounted c (some e) h = h

  pub connect-IsCounted :
      (host : Bytes) (port : ℕ) (on_connect : Bool) (timeout_msecs : ℕ) (limit : ℤ) (interval : ℕ)
      (c : Client S)
      → IsCounted c
      → IsCounted (connect T host port on_connect timeout_msecs limit interval c).state
  unfolding connect
  connect-IsCounted host port on_connect timeout_msecs limit interval c h =
      let r = Connection.connect T c.client host port true true timeout_msecs in
      connect_done-IsCounted
        (record c {
          redis_server = host;
          redis_port = port;
          has_connect_callback = on_connect;
          max_reconnects = limit;
          reconnect_interval_msecs = interval;
          client = r.connection;
        })
        r.thrown h

  pub disconnect-IsCounted :
      (wait_for_removal : Bool) (c : Client S)
      → IsCounted c
      → IsCounted (disconnect T wait_for_removal c)
  unfolding disconnect
  disconnect-IsCounted wait_for_removal c h =
      clear_callbacks-IsCounted
        (record c { client = Connection.disconnect T wait_for_removal c.client }) h

  reconnected-IsCounted : (c : Client S) → IsCounted c → IsCounted (reconnected T c).state
  unfolding reconnected resend_failed_commands
  reconnected-IsCounted c h =
      let d = re_select (re_auth c) in
      try_commit-IsCounted (resend d.commands (record d { commands = [] })) (
        resend-IsCounted d.commands (record d { commands = [] })
          (re_select-IsCounted (re_auth c) (re_auth-IsCounted c h)))

  connect_tried-IsCounted : (c : Client S) → IsCounted c → IsCounted (connect_tried T c).state
  unfolding connect_tried
  connect_tried-IsCounted c h = elim (Bool-cases (is_connected T c)) [
    | inl e ↦ rw e (reconnected-IsCounted c h)
    | inr e ↦ rw e h
  ]

  looked_up-IsCounted :
      (found : Bool) (c : Client S) → IsCounted c → IsCounted (looked_up T found c).state
  unfolding looked_up reconnect_to
  looked_up-IsCounted true c h =
      let r =
        connect T c.redis_server c.redis_port c.has_connect_callback c.connect_timeout_msecs
          c.max_reconnects c.reconnect_interval_msecs c in
      and_then-keeps IsCounted (caught r) (connect_tried T)
        (connect-IsCounted c.redis_server c.redis_port c.has_connect_callback
          c.connect_timeout_msecs c.max_reconnects c.reconnect_interval_msecs c h)
        connect_tried-IsCounted
  looked_up-IsCounted false c h = h

  reconnect-IsCounted :
      (incoming : List Incoming) (c : Client S)
      → IsCounted c
      → IsCounted (reconnect T incoming c).state
  unfolding reconnect look_up
  reconnect-IsCounted incoming c h =
      let c' = record c { current_reconnect_attempts = c.current_reconnect_attempts + 1 } in
      let found = (look_up T incoming c').1 in
      elim (Bool-cases (is_empty c.master_name)) [
        | inl e ↦ rw e (looked_up-IsCounted true c' h)
        | inr e ↦ rw e (
            and_then-keeps IsCounted (look_up T incoming c').0 (looked_up T found) h
              (looked_up-IsCounted found))
      ]

  sleep-IsCounted :
      (m : Meanwhile) (c : Client S)
      → IsCounted c
      → IsCounted (sleep_before_next_reconnect_attempt T m c).state
  unfolding sleep_before_next_reconnect_attempt
  sleep-IsCounted m c h = elim (Bool-cases (c.reconnect_interval_msecs == 0)) [
    | inl e ↦ rw e h
    | inr e ↦ rw e h
  ]

  attempts-IsCounted :
      (f : ℕ) (meanwhile : ℕ → Meanwhile) (c : Client S)
      → IsCounted c
      → IsCounted (attempts T f meanwhile c).state
  unfolding attempts round
  attempts-IsCounted f meanwhile c h =
      retry-keeps (should_reconnect T) (round T meanwhile) ran (λ d. failed d out_of_fuel) IsCounted
        (λ (r : Ran S). IsCounted r.state) (λ d k. k) (λ d k. k)
        (λ next later d k.
          let m = meanwhile d.current_reconnect_attempts in
          and_then-keeps IsCounted (sleep_before_next_reconnect_attempt T m d)
            (λ e. and_then (reconnect T m.incoming e) next) (sleep-IsCounted m d k)
            (λ e j.
              and_then-keeps IsCounted (reconnect T m.incoming e) next
                (reconnect-IsCounted m.incoming e j) later))
        f c h

  give_up-IsCounted : (c : Client S) → IsCounted c → IsCounted (give_up T c).state
  unfolding give_up
  give_up-IsCounted c h = elim (Bool-cases (is_connected T c)) [
    | inl e ↦ rw e h
    | inr e ↦ rw e (clear_callbacks-IsCounted c h)
  ]

  over-IsCounted :
      (c : Client S)
      → IsCounted c
      → IsCounted (and_then (give_up T c) (λ d. ran (record d { reconnecting = false }))).state
  over-IsCounted c h =
      and_then-keeps IsCounted (give_up T c) (λ d. ran (record d { reconnecting = false }))
        (give_up-IsCounted c h) (λ d k. k)

  pub disconnection_handler-IsCounted :
      (f : ℕ) (meanwhile : ℕ → Meanwhile) (c : Client S)
      → IsCounted c
      → IsCounted (connection_disconnection_handler T f meanwhile c).state
  unfolding connection_disconnection_handler reconnection_over
  disconnection_handler-IsCounted f meanwhile c h =
      let c' = record c { reconnecting = true; current_reconnect_attempts = 0 } in
      elim (Bool-cases c.reconnecting) [
        | inl e ↦ rw e h
        | inr e ↦ rw e (
            and_then-keeps IsCounted (attempts T f meanwhile c')
              (λ d. and_then (give_up T d) (λ e. ran (record e { reconnecting = false })))
              (attempts-IsCounted f meanwhile c' h) over-IsCounted)
      ]
