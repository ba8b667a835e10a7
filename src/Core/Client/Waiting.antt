-- ===== src/Core/Client/Waiting.antt =====
-- `client::sync_commit` (sources/core/client.cpp): the wait goes through what comes in meanwhile.
pub mod Answers
pub mod Timed
use cpp_redis.Prelude.{
  ℕ, Bool, true, false, ◌&&◌, some, none, List, [], ◌∷◌, Bytes, ◌==◌, if◌then◌else◌,
}
use cpp_redis.Error.{never_returns}
use cpp_redis.Network.TcpClient.{TcpClient}
use cpp_redis.Network.Connection
use cpp_redis.Core.Call.{ran, and_then, on_its_thread, where_thrown}
use cpp_redis.Core.Interrupted.{left, put_back}
use cpp_redis.Core.Client.{Client, Ran, connection_receive_handler, fail_next}
use cpp_redis.Core.Client.Reconnecting.{connection_disconnection_handler, commit}
use cpp_redis.Core.Retries.{Meanwhile}

-- The result of a read, the end of the connection, or a round of the thread that fails commands.
pub data Incoming : Type 0 where
  packet : Bool → Bytes → Incoming
  dropped : Incoming
  thread_round : Incoming

-- `m_callbacks_running == 0 && m_commands.empty()`
abbrev pub is_idle : {S : Type 0} → Client S → Bool
is_idle c = c.callbacks_running == 0 && elim c.commands [ [] ↦ true | _ ∷ _ ↦ false ]

-- The rounds of a reconnection and what happens meanwhile are given, in case the connection ends.
module _ {S : Type 0} (T : TcpClient S) (f : ℕ) (meanwhile : ℕ → Meanwhile) where
  -- A call of the connection's callback, which `connect` binds to one of the two handlers.
  unfoldable pub handle : Connection.Event → Client S → Ran S
  unfolding connection_receive_handler connection_disconnection_handler
  handle (Connection.reply_callback r) c = connection_receive_handler r c
  handle Connection.disconnection_handler c = connection_disconnection_handler T f meanwhile c

  unfoldable pub handle_all : List Connection.Event → Client S → Ran S
  unfolding handle
  handle_all [] c = ran c
  handle_all (e ∷ es) c = and_then (handle e c) (handle_all es)

  unfoldable pub come_in : Incoming → Client S → Ran S
  unfolding handle_all left Connection.tcp_client_receive_handler
      Connection.tcp_client_disconnection_handler fail_next
  come_in (packet success bytes) c =
      let r = Connection.tcp_client_receive_handler T c.client success bytes in
      let c' = record c { client = r.connection } in
      where_thrown
        (λ d. record d {
          client = put_back c.client.client r.events (left handle r.events c') d.client;
        })
        (handle_all r.events c')
  come_in dropped c =
      let r = Connection.tcp_client_disconnection_handler c.client in
      handle_all r.events (record c { client = r.connection })
  come_in thread_round c = fail_next c c.failing

  -- `m_sync_condvar.wait`: it ends when nothing is pending, and never does if too little comes in.
  -- What comes in is handled on another thread.
  unfoldable pub wait : List Incoming → Client S → Ran S
  unfolding come_in
  wait [] c =
      if is_idle c then ran c else record { state = c; events = []; thrown = some never_returns }
  wait (i ∷ incoming) c =
      if is_idle c then ran c else and_then (on_its_thread (come_in i c)) (wait incoming)

  unfoldable pub sync_commit : List Incoming → Client S → Ran S
  unfolding commit wait
  sync_commit incoming c = and_then (commit T c) (wait incoming)

  -- `wait_for`: what comes in before the timeout is given, and behind it the call goes on.
  unfoldable pub wait_for : List Incoming → Client S → Ran S
  unfolding come_in
  wait_for [] c = ran c
  wait_for (i ∷ incoming) c =
      if is_idle c then ran c else and_then (on_its_thread (come_in i c)) (wait_for incoming)

  -- `sync_commit` with a timeout
  unfoldable pub sync_commit_for : List Incoming → Client S → Ran S
  unfolding commit wait_for
  sync_commit_for incoming c = and_then (commit T c) (wait_for incoming)
