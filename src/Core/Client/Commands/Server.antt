-- ===== src/Core/Client/Commands/Server.antt =====
-- The commands of `client` on the server, its clients and its configuration (sources/core/client.cpp).
use cpp_redis.Prelude.{Bytes, List, [], codes, int_to_string, ℤ, ◌∷◌}
use cpp_redis.Core.Client.{Client, Callback, send}

module _ {S : Type 0} where
  unfoldable pub bgrewriteaof : Callback → Client S → Client S
  unfolding send
  bgrewriteaof callback c = send (codes "BGREWRITEAOF" ∷ []) callback c

  unfoldable pub bgsave : Callback → Client S → Client S
  unfolding send
  bgsave callback c = send (codes "BGSAVE" ∷ []) callback c

  unfoldable pub client_list : Callback → Client S → Client S
  unfolding send
  client_list callback c = send (codes "CLIENT" ∷ codes "LIST" ∷ []) callback c

  unfoldable pub client_getname : Callback → Client S → Client S
  unfolding send
  client_getname callback c = send (codes "CLIENT" ∷ codes "GETNAME" ∷ []) callback c

  unfoldable pub client_pause : ℤ → Callback → Client S → Client S
  unfolding send
  client_pause timeout callback c =
      send (codes "CLIENT" ∷ codes "PAUSE" ∷ int_to_string timeout ∷ []) callback c

  unfoldable pub client_reply : Bytes → Callback → Client S → Client S
  unfolding send
  client_reply mode callback c = send (codes "CLIENT" ∷ codes "REPLY" ∷ mode ∷ []) callback c

  unfoldable pub client_setname : Bytes → Callback → Client S → Client S
  unfolding send
  client_setname name callback c = send (codes "CLIENT" ∷ codes "SETNAME" ∷ name ∷ []) callback c

  unfoldable pub command : Callback → Client S → Client S
  unfolding send
  command callback c = send (codes "COMMAND" ∷ []) callback c

  unfoldable pub command_count : Callback → Client S → Client S
  unfolding send
  command_count callback c = send (codes "COMMAND" ∷ codes "COUNT" ∷ []) callback c

  unfoldable pub command_getkeys : Callback → Client S → Client S
  unfolding send
  command_getkeys callback c = send (codes "COMMAND" ∷ codes "GETKEYS" ∷ []) callback c

  unfoldable pub command_info : List Bytes → Callback → Client S → Client S
  unfolding send
  command_info command_name callback c =
      send (codes "COMMAND" ∷ codes "COUNT" ∷ command_name) callback c

  unfoldable pub config_get : Bytes → Callback → Client S → Client S
  unfolding send
  config_get param callback c = send (codes "CONFIG" ∷ codes "GET" ∷ param ∷ []) callback c

  unfoldable pub config_rewrite : Callback → Client S → Client S
  unfolding send
  config_rewrite callback c = send (codes "CONFIG" ∷ codes "REWRITE" ∷ []) callback c

  unfoldable pub config_set : Bytes → Bytes → Callback → Client S → Client S
  unfolding send
  config_set param val callback c =
      send (codes "CONFIG" ∷ codes "SET" ∷ param ∷ val ∷ []) callback c

  unfoldable pub config_resetstat : Callback → Client S → Client S
  unfolding send
  config_resetstat callback c = send (codes "CONFIG" ∷ codes "RESETSTAT" ∷ []) callback c

  unfoldable pub dbsize : Callback → Client S → Client S
  unfolding send
  dbsize callback c = send (codes "DBSIZE" ∷ []) callback c

  unfoldable pub debug_object : Bytes → Callback → Client S → Client S
  unfolding send
  debug_object key callback c = send (codes "DEBUG" ∷ codes "OBJECT" ∷ key ∷ []) callback c

  unfoldable pub debug_segfault : Callback → Client S → Client S
  unfolding send
  debug_segfault callback c = send (codes "DEBUG" ∷ codes "SEGFAULT" ∷ []) callback c

  unfoldable pub flushall : Callback → Client S → Client S
  unfolding send
  flushall callback c = send (codes "FLUSHALL" ∷ []) callback c

  unfoldable pub flushdb : Callback → Client S → Client S
  unfolding send
  flushdb callback c = send (codes "FLUSHDB" ∷ []) callback c

  unfoldable pub info : Callback → Client S → Client S
  unfolding send
  info callback c = send (codes "INFO" ∷ []) callback c

  unfoldable pub info_section : Bytes → Callback → Client S → Client S
  unfolding send
  info_section section callback c = send (codes "INFO" ∷ section ∷ []) callback c

  unfoldable pub lastsave : Callback → Client S → Client S
  unfolding send
  lastsave callback c = send (codes "LASTSAVE" ∷ []) callback c

  unfoldable pub monitor : Callback → Client S → Client S
  unfolding send
  monitor callback c = send (codes "MONITOR" ∷ []) callback c

  unfoldable pub role : Callback → Client S → Client S
  unfolding send
  role callback c = send (codes "ROLE" ∷ []) callback c

  unfoldable pub save : Callback → Client S → Client S
  unfolding send
  save callback c = send (codes "SAVE" ∷ []) callback c

  unfoldable pub shutdown : Callback → Client S → Client S
  unfolding send
  shutdown callback c = send (codes "SHUTDOWN" ∷ []) callback c

  unfoldable pub shutdown_save : Bytes → Callback → Client S → Client S
  unfolding send
  shutdown_save save callback c = send (codes "SHUTDOWN" ∷ save ∷ []) callback c

  unfoldable pub slaveof : Bytes → ℤ → Callback → Client S → Client S
  unfolding send
  slaveof host port callback c = send (codes "SLAVEOF" ∷ host ∷ int_to_string port ∷ []) callback c

  unfoldable pub sync : Callback → Client S → Client S
  unfolding send
  sync callback c = send (codes "SYNC" ∷ []) callback c

  unfoldable pub time : Callback → Client S → Client S
  unfolding send
  time callback c = send (codes "TIME" ∷ []) callback c
