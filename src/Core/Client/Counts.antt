-- ===== src/Core/Client/Counts.antt =====
-- What an attempt to reconnect does to the count and the limit of the attempts
-- (sources/core/client.cpp).
use cpp_redis.Prelude.{
  ℕ, ◌+◌, Bool, true, false, Option, none, some, List, [], ◌∷◌, ◌&&◌, ◌≡◌, inl, inr, refl, ap,
  Bytes, ◌∙◌, arith, Bool-cases, ℤ,
}
use cpp_redis.Error.{Exception}
use cpp_redis.Network.TcpClient.{TcpClient}
use cpp_redis.Network.Connection
use cpp_redis.Core.Sentinel.{Incoming}
use cpp_redis.Core.Call.{caught, and_then-keeps}
use cpp_redis.Core.Client.{
  Client, CommandRequest, unprotected_send, unprotected_auth, unprotected_select, re_auth,
  re_select, resend, resend_failed_commands, is_empty, not_selected, clear_callbacks,
}
use cpp_redis.Core.Client.Reconnecting.{
  reconnect, reconnect_to, connect_tried, looked_up, reconnected, connect, connect_done, try_commit,
  commit_done, look_up, is_connected,
}

pub and_false : (a b : Bool) → a && (b && false) ≡ false
and_false a b = ground arith

module _ {S : Type 0} where
  -- The limit and the count of the attempts.
  abbrev pub Counts : ℤ → ℕ → Client S → Type 0
  Counts m a c = (c.max_reconnects ≡ m) × (c.current_reconnect_attempts ≡ a)

  resend-Counts :
      (m : ℤ) (a : ℕ) (requests : List CommandRequest) (c : Client S)
      → Counts m a c
      → Counts m a (resend requests c)
  unfolding resend unprotected_send
  resend-Counts m a [] c h = h
  resend-Counts m a (request ∷ rest) c h =
      resend-Counts m a rest (unprotected_send request.command request.callback c) h

  re_auth-Counts : (m : ℤ) (a : ℕ) (c : Client S) → Counts m a c → Counts m a (re_auth c)
  unfolding re_auth unprotected_auth unprotected_send
  re_auth-Counts m a c h = elim (Bool-cases (is_empty c.password)) [
    | inl e ↦ rw e h
    | inr e ↦ rw e h
  ]

  re_select-Counts : (m : ℤ) (a : ℕ) (c : Client S) → Counts m a c → Counts m a (re_select c)
  unfolding re_select unprotected_select unprotected_send
  re_select-Counts m a c h = elim (Bool-cases (not_selected c.database_index)) [
    | inl e ↦ rw e h
    | inr e ↦ rw e h
  ]

module _ {S : Type 0} (T : TcpClient S) where
  commit_done-Counts :
      (m : ℤ) (a : ℕ) (c : Client S) (t : Option Exception)
      → Counts m a c
      → Counts m a (commit_done T c t).state
  unfolding commit_done clear_callbacks
  commit_done-Counts m a c none h = h
  commit_done-Counts m a c (some e) h = h

  connect_done-Counts :
      (m : ℤ) (a : ℕ) (c : Client S) (t : Option Exception)
      → Counts m a c
      → Counts m a (connect_done T c t).state
  unfolding connect_done
  connect_done-Counts m a c none h = h
  connect_done-Counts m a c (some e) h = h

  reconnected-Counts :
      (m : ℤ) (a : ℕ) (c : Client S) → Counts m a c → Counts m a (reconnected T c).state
  unfolding reconnected try_commit resend_failed_commands
  reconnected-Counts m a c h =
      let s = re_select (re_auth c) in
      let h' = re_select-Counts m a (re_auth c) (re_auth-Counts m a c h) in
      commit_done-Counts m a _ _ (resend-Counts m a s.commands (record s { commands = [] }) h')

  connect_tried-Counts :
      (m : ℤ) (a : ℕ) (c : Client S) → Counts m a c → Counts m a (connect_tried T c).state
  unfolding connect_tried
  connect_tried-Counts m a c h = elim (Bool-cases (is_connected T c)) [
    | inl e ↦ rw e (reconnected-Counts m a c h)
    | inr e ↦ rw e h
  ]

  connect-Counts :
      (host : Bytes) (port : ℕ) (on_connect : Bool) (timeout_msecs : ℕ) (m : ℤ) (interval a : ℕ)
      (c : Client S)
      → c.current_reconnect_attempts ≡ a
      → Counts m a (connect T host port on_connect timeout_msecs m interval c).state
  unfolding connect
  connect-Counts host port on_connect timeout_msecs m interval a c h =
      let r = Connection.connect T c.client host port true true timeout_msecs in
      connect_done-Counts m a
        (record c {
          redis_server = host;
          redis_port = port;
          has_connect_callback = on_connect;
          max_reconnects = m;
          reconnect_interval_msecs = interval;
          client = r.connection;
        })
        r.thrown (refl, h)

  reconnect_to-Counts :
      (m : ℤ) (a : ℕ) (c : Client S) → Counts m a c → Counts m a (reconnect_to T c).state
  unfolding reconnect_to
  reconnect_to-Counts m a c h =
      let r =
        connect T c.redis_server c.redis_port c.has_connect_callback c.connect_timeout_msecs
          c.max_reconnects c.reconnect_interval_msecs c in
      let (limit, count) =
        connect-Counts c.redis_server c.redis_port c.has_connect_callback c.connect_timeout_msecs
          c.max_reconnects c.reconnect_interval_msecs a c h.1 in
      and_then-keeps (Counts m a) (caught r) (connect_tried T) (limit ∙ h.0, count)
        (connect_tried-Counts m a)

  looked_up-Counts :
      (m : ℤ) (a : ℕ) (found : Bool) (c : Client S)
      → Counts m a c
      → Counts m a (looked_up T found c).state
  unfolding looked_up
  looked_up-Counts m a true c h = reconnect_to-Counts m a c h
  looked_up-Counts m a false c h = h

  look_up-Counts :
      (m : ℤ) (a : ℕ) (incoming : List Incoming) (c : Client S)
      → Counts m a c
      → Counts m a (look_up T incoming c).0.state
  unfolding look_up
  look_up-Counts m a incoming c h = h

  -- An attempt is counted, and leaves the limit.
  pub reconnect-Counts :
      (m : ℤ) (a : ℕ) (incoming : List Incoming) (c : Client S)
      → Counts m a c
      → Counts m (a + 1) (reconnect T incoming c).state
  unfolding reconnect
  reconnect-Counts m a incoming c h =
      let c' = record c { current_reconnect_attempts = c.current_reconnect_attempts + 1 } in
      let h' = look_up-Counts m (a + 1) incoming c' (h.0, ap (λ n. n + 1) h.1) in
      let found = (look_up T incoming c').1 in
      elim (Bool-cases (is_empty c.master_name)) [
        | inl e ↦ rw e (looked_up-Counts m (a + 1) true c' (h.0, ap (λ n. n + 1) h.1))
        | inr e ↦ rw e (
            and_then-keeps (Counts m (a + 1)) (look_up T incoming c').0 (looked_up T found) h'
              (looked_up-Counts m (a + 1) found))
      ]
