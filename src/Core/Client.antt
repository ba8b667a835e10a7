-- ===== src/Core/Client.antt =====
-- The class `client` (includes/cpp_redis/core/client.hpp, sources/core/client.cpp), as its default
-- constructor makes it: the connection and the sentinel have a socket each. Mutexes and the condition
-- variable are not modelled: a call is one step. The thread that `clear_callbacks` detaches has its
-- queue in the state, and each of its rounds is a step.
pub mod Commands
pub mod Futures
pub mod Reconnecting
pub mod Waiting
pub mod Order
pub mod Counted
pub mod Steps
pub mod Promises
pub mod StoreKeys
pub mod Stalled
pub mod Resending
pub mod Resumed
pub mod Counts
pub mod Attempts
use cpp_redis.Prelude.{
  ℕ, ◌+◌, ◌-◌, Bool, true, false, not, ◌||◌, Option, none, some, List, [], ◌∷◌, ◌++◌, Bytes, codes,
  bytes_eq, if◌then◌else◌, ℤ, pos, is_negative, ◌==ℤ◌, int_to_string, length, ◌||◌, ◌==ℤ◌,
}
use cpp_redis.Error.{Exception, thrown_of}
use cpp_redis.Reply.{Reply, StringType, is_string, as_string, reply_string}
use cpp_redis.Network.TcpClient.{TcpClient}
use cpp_redis.Network.Connection
use cpp_redis.Network.Connection.{Connection, redis_connection}
use cpp_redis.Core.Call.{Call, ran, and_then}
use cpp_redis.Core.Sentinel
use cpp_redis.Core.Sentinel.{Sentinel, sentinel}

-- A `reply_callback_t`: null, one of the user's, the one of `re_auth` and `re_select`, or the one of
-- `exec_cmd`, which sets a promise.
pub data Callback : Type 0 where
  null : Callback
  user : ℕ → Callback
  logs_ok : Callback
  sets_promise : ℕ → Callback

-- `command_request`
pub record CommandRequest : Type 0 where
  pub command : List Bytes
  pub callback : Callback

-- `connect_state`
pub data ConnectState : Type 0 where
  dropped start sleeping ok failed lookup_failed stopped : ConnectState

-- The members; `m_connect_callback` is kept as whether it is set, and `failing` are the queues of
-- the detached threads.
pub record Client (S : Type 0) : Type 0 where
  pub redis_server : Bytes
  pub redis_port : ℕ
  pub master_name : Bytes
  pub password : Bytes
  pub database_index : ℤ
  pub client : Connection S
  pub sentinel : Sentinel S
  pub connect_timeout_msecs : ℕ
  pub max_reconnects : ℤ
  pub current_reconnect_attempts : ℕ
  pub reconnect_interval_msecs : ℕ
  pub reconnecting : Bool
  pub cancel : Bool
  pub commands : List CommandRequest
  pub has_connect_callback : Bool
  pub callbacks_running : ℕ
  pub failing : List CommandRequest

-- A call of a callback of the user, or of `set_value` of a promise.
pub data Event : Type 0 where
  reply_called : ℕ → Reply → Event
  promise_set : ℕ → Reply → Event
  connect_called : Bytes → ℕ → ConnectState → Event

abbrev pub Ran : Type 0 → Type 0
Ran S = Call (Client S) Event

-- The callbacks of `re_auth` and `re_select` log the text of a reply that is not "OK".
unfoldable pub log_reply : Reply → Option Exception
unfolding as_string
log_reply r = thrown_of (as_string r)

abbrev pub network_failure : Reply
network_failure = reply_string (codes "network failure") StringType.error

abbrev pub is_empty : Bytes → Bool
is_empty [] = true
is_empty (x ∷ s) = false

-- `m_database_index <= 0`
abbrev pub not_selected : ℤ → Bool
not_selected n = is_negative n || n ==ℤ pos 0

module _ {S : Type 0} where
  -- The constructor, on the sockets of the connection and of the sentinel.
  abbrev pub client : S → S → Client S
  client tcp_client sentinel_tcp_client = record {
    redis_server = [];
    redis_port = 0;
    master_name = [];
    password = [];
    database_index = pos 0;
    client = redis_connection tcp_client;
    sentinel = sentinel sentinel_tcp_client;
    connect_timeout_msecs = 0;
    max_reconnects = pos 0;
    current_reconnect_attempts = 0;
    reconnect_interval_msecs = 0;
    reconnecting = false;
    cancel = false;
    commands = [];
    has_connect_callback = false;
    callbacks_running = 0;
    failing = [];
  }

  unfoldable pub add_sentinel : Bytes → ℕ → ℕ → Client S → Client S
  unfolding Sentinel.add_sentinel
  add_sentinel host port timeout_msecs c = record c {
    sentinel = Sentinel.add_sentinel host port timeout_msecs c.sentinel;
  }

  unfoldable pub clear_sentinels : Client S → Client S
  unfolding Sentinel.clear_sentinels
  clear_sentinels c = record c { sentinel = Sentinel.clear_sentinels c.sentinel }

  unfoldable pub unprotected_send : List Bytes → Callback → Client S → Client S
  unprotected_send redis_cmd callback c = record c {
    client = Connection.send c.client redis_cmd;
    commands = c.commands ++ record { command = redis_cmd; callback = callback } ∷ [];
  }

  unfoldable pub send : List Bytes → Callback → Client S → Client S
  unfolding unprotected_send
  send redis_cmd callback c = unprotected_send redis_cmd callback c

  unfoldable pub unprotected_auth : Bytes → Callback → Client S → Client S
  unfolding unprotected_send
  unprotected_auth password reply_callback c =
      unprotected_send (codes "AUTH" ∷ password ∷ []) reply_callback
        (record c { password = password })

  unfoldable pub auth : Bytes → Callback → Client S → Client S
  unfolding unprotected_auth
  auth password reply_callback c = unprotected_auth password reply_callback c

  unfoldable pub unprotected_select : ℤ → Callback → Client S → Client S
  unfolding unprotected_send int_to_string
  unprotected_select index reply_callback c =
      unprotected_send (codes "SELECT" ∷ int_to_string index ∷ []) reply_callback
        (record c { database_index = index })

  unfoldable pub select : ℤ → Callback → Client S → Client S
  unfolding unprotected_select
  select index reply_callback c = unprotected_select index reply_callback c

  abbrev pub cancel_reconnect : Client S → Client S
  cancel_reconnect c = record c { cancel = true }

  -- `m_connect_callback(host, port, state)`, where it is set
  abbrev pub notify : Bytes → ℕ → ConnectState → Client S → List Event
  notify host port state c =
      if c.has_connect_callback then connect_called host port state ∷ [] else []

  -- The same with the server and the port that are saved.
  abbrev pub notified : ConnectState → Client S → Ran S
  notified state c = record {
    state = c;
    events = notify c.redis_server c.redis_port state c;
    thrown = none;
  }

  -- The commands go to a thread of their own, which fails them.
  unfoldable pub clear_callbacks : Client S → Client S
  clear_callbacks c = record c {
    commands = [];
    callbacks_running = c.callbacks_running + length c.commands;
    failing = c.failing ++ c.commands;
  }

  -- A call of a callback.
  unfoldable pub run_callback : Callback → Reply → Client S → Ran S
  unfolding log_reply
  run_callback null r c = ran c
  run_callback (user k) r c = record { state = c; events = reply_called k r ∷ []; thrown = none }
  run_callback logs_ok r c = record { state = c; events = []; thrown = log_reply r }
  run_callback (sets_promise k) r c = record {
    state = c;
    events = promise_set k r ∷ [];
    thrown = none;
  }

  -- `m_callbacks_running -= 1`, which follows the increase of the same call or of `clear_callbacks`.
  -- The wrap-around at 2^32 callbacks is left out.
  abbrev pub finished : Ran S → Ran S
  finished r = and_then r (λ c. ran (record c { callbacks_running = c.callbacks_running - 1 }))

  unfoldable pub run_front : Reply → Client S → List CommandRequest → Ran S
  unfolding run_callback
  run_front r c [] = ran c
  run_front r c (request ∷ rest) = run_callback request.callback r (record c { commands = rest })

  unfoldable pub connection_receive_handler : Reply → Client S → Ran S
  unfolding run_front
  connection_receive_handler r c =
      finished (run_front r (record c { callbacks_running = c.callbacks_running + 1 }) c.commands)

  -- A round of the thread that was detached, on what is left of its queue.
  unfoldable pub fail_next : Client S → List CommandRequest → Ran S
  unfolding run_callback
  fail_next c [] = ran c
  fail_next c (request ∷ rest) =
      finished (run_callback request.callback network_failure (record c { failing = rest }))

  -- The rounds of the detached thread.
  unfoldable pub fail_all : List CommandRequest → Client S → Ran S
  unfolding fail_next
  fail_all [] c = ran c
  fail_all (request ∷ rest) c = and_then (fail_next c (request ∷ rest)) (fail_all rest)

  -- Every command is sent again, behind those that are in the queue.
  unfoldable pub resend : List CommandRequest → Client S → Client S
  unfolding unprotected_send
  resend [] c = c
  resend (request ∷ rest) c = resend rest (unprotected_send request.command request.callback c)

  unfoldable pub resend_failed_commands : Client S → Client S
  unfolding resend
  resend_failed_commands c = resend c.commands (record c { commands = [] })

  unfoldable pub re_auth : Client S → Client S
  unfolding unprotected_auth
  re_auth c = if is_empty c.password then c else unprotected_auth c.password logs_ok c

  unfoldable pub re_select : Client S → Client S
  unfolding unprotected_select
  re_select c =
      if not_selected c.database_index then c else unprotected_select c.database_index logs_ok c
