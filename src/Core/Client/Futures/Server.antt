-- ===== src/Core/Client/Futures/Server.antt =====
-- The commands of `client` on the server, its clients and its configuration that give a future (sources/core/client.cpp).
use cpp_redis.Prelude.{Bytes, List, ℤ}
use cpp_redis.Core.Client.Commands.Server.{
  bgrewriteaof, bgsave, client_list, client_getname, client_pause, client_reply, client_setname,
  command, command_count, command_getkeys, command_info, config_get, config_rewrite, config_set,
  config_resetstat, dbsize, debug_object, debug_segfault, flushall, flushdb, info_section, lastsave,
  monitor, role, save, shutdown, shutdown_save, slaveof, sync, time,
}
use cpp_redis.Core.Client.Futures.{Promised, exec_cmd}

module _ {S : Type 0} where
  abbrev pub bgrewriteaof_future : Promised S
  bgrewriteaof_future = exec_cmd bgrewriteaof

  abbrev pub bgsave_future : Promised S
  bgsave_future = exec_cmd bgsave

  abbrev pub client_list_future : Promised S
  client_list_future = exec_cmd client_list

  abbrev pub client_getname_future : Promised S
  client_getname_future = exec_cmd client_getname

  abbrev pub client_pause_future : ℤ → Promised S
  client_pause_future timeout = exec_cmd (client_pause timeout)

  abbrev pub client_reply_future : Bytes → Promised S
  client_reply_future mode = exec_cmd (client_reply mode)

  abbrev pub client_setname_future : Bytes → Promised S
  client_setname_future name = exec_cmd (client_setname name)

  abbrev pub command_future : Promised S
  command_future = exec_cmd command

  abbrev pub command_count_future : Promised S
  command_count_future = exec_cmd command_count

  abbrev pub command_getkeys_future : Promised S
  command_getkeys_future = exec_cmd command_getkeys

  abbrev pub command_info_future : List Bytes → Promised S
  command_info_future command_name = exec_cmd (command_info command_name)

  abbrev pub config_get_future : Bytes → Promised S
  config_get_future param = exec_cmd (config_get param)

  abbrev pub config_rewrite_future : Promised S
  config_rewrite_future = exec_cmd config_rewrite

  abbrev pub config_set_future : Bytes → Bytes → Promised S
  config_set_future param val = exec_cmd (config_set param val)

  abbrev pub config_resetstat_future : Promised S
  config_resetstat_future = exec_cmd config_resetstat

  abbrev pub dbsize_future : Promised S
  dbsize_future = exec_cmd dbsize

  abbrev pub debug_object_future : Bytes → Promised S
  debug_object_future key = exec_cmd (debug_object key)

  abbrev pub debug_segfault_future : Promised S
  debug_segfault_future = exec_cmd debug_segfault

  abbrev pub flushall_future : Promised S
  flushall_future = exec_cmd flushall

  abbrev pub flushdb_future : Promised S
  flushdb_future = exec_cmd flushdb

  abbrev pub info_section_future : Bytes → Promised S
  info_section_future section = exec_cmd (info_section section)

  abbrev pub lastsave_future : Promised S
  lastsave_future = exec_cmd lastsave

  abbrev pub monitor_future : Promised S
  monitor_future = exec_cmd monitor

  abbrev pub role_future : Promised S
  role_future = exec_cmd role

  abbrev pub save_future : Promised S
  save_future = exec_cmd save

  abbrev pub shutdown_future : Promised S
  shutdown_future = exec_cmd shutdown

  abbrev pub shutdown_save_future : Bytes → Promised S
  shutdown_save_future save = exec_cmd (shutdown_save save)

  abbrev pub slaveof_future : Bytes → ℤ → Promised S
  slaveof_future host port = exec_cmd (slaveof host port)

  abbrev pub sync_future : Promised S
  sync_future = exec_cmd sync

  abbrev pub time_future : Promised S
  time_future = exec_cmd time
