-- ===== src/Core/Sentinel.antt =====
-- The class `sentinel` (includes/cpp_redis/core/sentinel.hpp, sources/core/sentinel.cpp). Mutexes and
-- the condition variable are not modelled: a call is one step, and a wait goes through what
-- comes in from the network meanwhile.
pub mod Connecting
pub mod Commands
pub mod Lookup
pub mod Attempts
pub mod Order
use cpp_redis.Prelude.{
  ℕ, zero, suc, ◌+◌, ◌-◌, Bool, true, false, not, ◌&&◌, Option, none, some, List, [], ◌∷◌, ◌++◌,
  Bytes, codes, ◌==◌, if◌then◌else◌, ℤ,
}
use cpp_redis.Error.{Exception, redis_error, undefined, never_returns, Result, ok, throw, ◌>>=◌}
use cpp_redis.Reply.{Reply, Rows, row?, is_array, as_array, as_string}
use cpp_redis.Builders.BulkStringBuilder.{to_size}
use cpp_redis.Network.TcpClient.{TcpClient}
use cpp_redis.Network.Connection
use cpp_redis.Network.Connection.{Connection, Done, redis_connection}
use cpp_redis.Core.Call.{Call, ran, failed, and_then}
use cpp_redis.Core.Stoi.{stoi}

-- `sentinel_def`
pub record SentinelDef : Type 0 where
  pub host : Bytes
  pub port : ℕ
  pub timeout_msecs : ℕ

-- A `reply_callback_t`: null, one of the user's, or the one that `get_master_addr_by_name` sends.
pub data Callback : Type 0 where
  null : Callback
  user : ℕ → Callback
  master_addr : Callback

-- The members, and the two variables `host` and `port` that a caller of `get_master_addr_by_name`
-- lends to it. `m_disconnect_handler` is kept as whether it is set.
pub record Sentinel (S : Type 0) : Type 0 where
  pub sentinels : List SentinelDef
  pub client : Connection S
  pub callbacks : List Callback
  pub has_disconnect_handler : Bool
  pub callbacks_running : ℕ
  pub host : Bytes
  pub port : ℕ

-- A call of a callback of the user.
pub data Event : Type 0 where
  reply_callback : ℕ → Reply → Event
  disconnect_handler : Event

abbrev pub Ran : Type 0 → Type 0
Ran S = Call (Sentinel S) Event

-- What comes in from the network while a call waits: the result of a read, or the end of the
-- connection.
pub data Incoming : Type 0 where
  packet : Bool → Bytes → Incoming
  dropped : Incoming

-- `arr[i]` of the vector of rows
abbrev row : Rows → ℕ → Result Reply
row rows i = elim (row? rows i) [ none ↦ throw undefined | some r ↦ ok r ]

module _ {S : Type 0} where
  -- The constructor.
  abbrev pub sentinel : S → Sentinel S
  sentinel tcp_client = record {
    sentinels = [];
    client = redis_connection tcp_client;
    callbacks = [];
    has_disconnect_handler = false;
    callbacks_running = 0;
    host = [];
    port = 0;
  }

  unfoldable pub add_sentinel : Bytes → ℕ → ℕ → Sentinel S → Sentinel S
  add_sentinel host port timeout_msecs s = record s {
    sentinels =
        s.sentinels ++ record { host = host; port = port; timeout_msecs = timeout_msecs } ∷ [];
  }

  unfoldable pub clear_sentinels : Sentinel S → Sentinel S
  clear_sentinels s = record s { sentinels = [] }

  unfoldable pub send : List Bytes → Callback → Sentinel S → Sentinel S
  send redis_cmd callback s = record s {
    client = Connection.send s.client redis_cmd;
    callbacks = s.callbacks ++ callback ∷ [];
  }

  unfoldable pub clear_callbacks : Sentinel S → Sentinel S
  clear_callbacks s = record s { callbacks = [] }

  unfoldable pub set_port : Sentinel S → Result ℤ → Ran S
  unfolding to_size
  set_port s (ok n) = ran (record s { port = to_size n })
  set_port s (throw e) = failed s e

  -- The host is written before the port is read.
  unfoldable pub set_host : Rows → Sentinel S → Result Bytes → Ran S
  unfolding set_port
  set_host arr s (ok host) =
      set_port (record s { host = host }) (row arr 1 >>= (λ r. as_string r >>= stoi))
  set_host arr s (throw e) = failed s e

  -- The body of the callback of `get_master_addr_by_name` on an array.
  unfoldable pub set_addr : Sentinel S → Result Rows → Ran S
  unfolding set_host
  set_addr s (ok arr) = set_host arr s (row arr 0 >>= as_string)
  set_addr s (throw e) = failed s e

  -- The callback runs; the one of `get_master_addr_by_name` passes over what is not an array.
  unfoldable pub run_callback : Callback → Reply → Sentinel S → Ran S
  unfolding set_addr
  run_callback null r s = ran s
  run_callback (user k) r s = record { state = s; events = reply_callback k r ∷ []; thrown = none }
  run_callback master_addr r s = if is_array r then set_addr s (as_array r) else ran s

  -- `m_callbacks_running -= 1` behind the callback; an exception leaves the handler before.
  abbrev pub finished : Ran S → Ran S
  finished r = elim r.thrown [
    | none ↦ record r {
      state = record r.state { callbacks_running = r.state.callbacks_running - 1 };
    }
    | some e ↦ r
  ]

  unfoldable pub run_front : Reply → Sentinel S → List Callback → Ran S
  unfolding run_callback
  run_front r s [] = ran s
  run_front r s (callback ∷ rest) = run_callback callback r (record s { callbacks = rest })

  unfoldable pub connection_receive_handler : Reply → Sentinel S → Ran S
  unfolding run_front
  connection_receive_handler r s =
      finished (run_front r (record s { callbacks_running = s.callbacks_running + 1 }) s.callbacks)

  -- `call_disconnect_handler`
  unfoldable pub call_disconnect_handler : Sentinel S → List Event
  call_disconnect_handler s = if s.has_disconnect_handler then disconnect_handler ∷ [] else []

  unfoldable pub connection_disconnect_handler : Sentinel S → Ran S
  unfolding clear_callbacks call_disconnect_handler
  connection_disconnect_handler s = record {
    state = clear_callbacks s;
    events = call_disconnect_handler s;
    thrown = none;
  }

  -- A call of the connection's callback, which `connect` binds to one of the two handlers.
  unfoldable pub handle : Connection.Event → Sentinel S → Ran S
  unfolding connection_receive_handler connection_disconnect_handler
  handle (Connection.reply_callback r) s = connection_receive_handler r s
  handle Connection.disconnection_handler s = connection_disconnect_handler s

  unfoldable pub handle_all : List Connection.Event → Sentinel S → Ran S
  unfolding handle
  handle_all [] s = ran s
  handle_all (e ∷ es) s = and_then (handle e s) (handle_all es)

  -- `m_callbacks_running == 0 && m_callbacks.empty()`
  abbrev pub is_idle : Sentinel S → Bool
  is_idle s = s.callbacks_running == 0 && elim s.callbacks [ [] ↦ true | _ ∷ _ ↦ false ]
