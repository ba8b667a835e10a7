-- ===== src/Core/Client/Futures/Keys.antt =====
-- The commands of `client` on keys that give a future (sources/core/client.cpp).
use cpp_redis.Prelude.{Bytes, List, ℤ}
use cpp_redis.Core.Client.Commands.Keys.{
  del, dump, exists, expire, expireat, keys, move, object, persist, pexpire, pexpireat, pttl,
  randomkey, rename, renamenx, restore, restore_replace, sort, ttl, type, wait,
}
use cpp_redis.Core.Client.Futures.{Promised, exec_cmd}

module _ {S : Type 0} where
  abbrev pub del_future : List Bytes → Promised S
  del_future key = exec_cmd (del key)

  abbrev pub dump_future : Bytes → Promised S
  dump_future key = exec_cmd (dump key)

  abbrev pub exists_future : List Bytes → Promised S
  exists_future keys = exec_cmd (exists keys)

  abbrev pub expire_future : Bytes → ℤ → Promised S
  expire_future key seconds = exec_cmd (expire key seconds)

  abbrev pub expireat_future : Bytes → ℤ → Promised S
  expireat_future key timestamp = exec_cmd (expireat key timestamp)

  abbrev pub keys_future : Bytes → Promised S
  keys_future pattern = exec_cmd (keys pattern)

  abbrev pub move_future : Bytes → Bytes → Promised S
  move_future key db = exec_cmd (move key db)

  abbrev pub object_future : Bytes → List Bytes → Promised S
  object_future subcommand args = exec_cmd (object subcommand args)

  abbrev pub persist_future : Bytes → Promised S
  persist_future key = exec_cmd (persist key)

  abbrev pub pexpire_future : Bytes → ℤ → Promised S
  pexpire_future key milliseconds = exec_cmd (pexpire key milliseconds)

  abbrev pub pexpireat_future : Bytes → ℤ → Promised S
  pexpireat_future key milliseconds_timestamp = exec_cmd (pexpireat key milliseconds_timestamp)

  abbrev pub pttl_future : Bytes → Promised S
  pttl_future key = exec_cmd (pttl key)

  abbrev pub randomkey_future : Promised S
  randomkey_future = exec_cmd randomkey

  abbrev pub rename_future : Bytes → Bytes → Promised S
  rename_future key newkey = exec_cmd (rename key newkey)

  abbrev pub renamenx_future : Bytes → Bytes → Promised S
  renamenx_future key newkey = exec_cmd (renamenx key newkey)

  abbrev pub restore_future : Bytes → ℤ → Bytes → Promised S
  restore_future key ttl serialized_value = exec_cmd (restore key ttl serialized_value)

  abbrev pub restore_replace_future : Bytes → ℤ → Bytes → Bytes → Promised S
  restore_replace_future key ttl serialized_value replace =
      exec_cmd (restore_replace key ttl serialized_value replace)

  abbrev pub sort_future : Bytes → Promised S
  sort_future key = exec_cmd (sort key)

  abbrev pub ttl_future : Bytes → Promised S
  ttl_future key = exec_cmd (ttl key)

  abbrev pub type_future : Bytes → Promised S
  type_future key = exec_cmd (type key)

  abbrev pub wait_future : ℤ → ℤ → Promised S
  wait_future numslaves timeout = exec_cmd (wait numslaves timeout)
