-- ===== src/Core/Client/Futures/Session.antt =====
-- The commands of `client` of a session that give a future (sources/core/client.cpp).
use cpp_redis.Prelude.{Bytes, List, ℤ}
use cpp_redis.Core.Client.{send, auth, select}
use cpp_redis.Core.Client.Commands.Session.{
  discard, echo, eval, evalsha, exec, multi, ping, ping_message, publish, pubsub, quit, readonly,
  readwrite, script_debug, script_exists, script_flush, script_kill, script_load, unwatch, watch,
}
use cpp_redis.Core.Client.Futures.{Promised, exec_cmd}

module _ {S : Type 0} where
  abbrev pub send_future : List Bytes → Promised S
  send_future redis_cmd = exec_cmd (send redis_cmd)

  abbrev pub auth_future : Bytes → Promised S
  auth_future password = exec_cmd (auth password)

  abbrev pub discard_future : Promised S
  discard_future = exec_cmd discard

  abbrev pub echo_future : Bytes → Promised S
  echo_future msg = exec_cmd (echo msg)

  abbrev pub eval_future : Bytes → ℤ → List Bytes → List Bytes → Promised S
  eval_future script numkeys keys args = exec_cmd (eval script numkeys keys args)

  abbrev pub evalsha_future : Bytes → ℤ → List Bytes → List Bytes → Promised S
  evalsha_future sha1 numkeys keys args = exec_cmd (evalsha sha1 numkeys keys args)

  abbrev pub exec_future : Promised S
  exec_future = exec_cmd exec

  abbrev pub multi_future : Promised S
  multi_future = exec_cmd multi

  abbrev pub ping_future : Promised S
  ping_future = exec_cmd ping

  abbrev pub ping_message_future : Bytes → Promised S
  ping_message_future message = exec_cmd (ping_message message)

  abbrev pub publish_future : Bytes → Bytes → Promised S
  publish_future channel message = exec_cmd (publish channel message)

  abbrev pub pubsub_future : Bytes → List Bytes → Promised S
  pubsub_future subcommand args = exec_cmd (pubsub subcommand args)

  abbrev pub quit_future : Promised S
  quit_future = exec_cmd quit

  abbrev pub readonly_future : Promised S
  readonly_future = exec_cmd readonly

  abbrev pub readwrite_future : Promised S
  readwrite_future = exec_cmd readwrite

  abbrev pub script_debug_future : Bytes → Promised S
  script_debug_future mode = exec_cmd (script_debug mode)

  abbrev pub script_exists_future : List Bytes → Promised S
  script_exists_future scripts = exec_cmd (script_exists scripts)

  abbrev pub script_flush_future : Promised S
  script_flush_future = exec_cmd script_flush

  abbrev pub script_kill_future : Promised S
  script_kill_future = exec_cmd script_kill

  abbrev pub script_load_future : Bytes → Promised S
  script_load_future script = exec_cmd (script_load script)

  abbrev pub select_future : ℤ → Promised S
  select_future index = exec_cmd (select index)

  abbrev pub unwatch_future : Promised S
  unwatch_future = exec_cmd unwatch

  abbrev pub watch_future : List Bytes → Promised S
  watch_future keys = exec_cmd (watch keys)
