-- ===== src/Core/Client/Futures/Hashes.antt =====
-- The commands of `client` on hashes that give a future (sources/core/client.cpp).
use cpp_redis.Prelude.{Bytes, List, ℤ}
use cpp_redis.Core.Client.Commands.Hashes.{
  hdel, hexists, hget, hgetall, hincrby, hkeys, hlen, hmget, hset, hsetnx, hstrlen, hvals,
}
use cpp_redis.Core.Client.Futures.{Promised, exec_cmd}

module _ {S : Type 0} where
  abbrev pub hdel_future : Bytes → List Bytes → Promised S
  hdel_future key fields = exec_cmd (hdel key fields)

  abbrev pub hexists_future : Bytes → Bytes → Promised S
  hexists_future key field = exec_cmd (hexists key field)

  abbrev pub hget_future : Bytes → Bytes → Promised S
  hget_future key field = exec_cmd (hget key field)

  abbrev pub hgetall_future : Bytes → Promised S
  hgetall_future key = exec_cmd (hgetall key)

  abbrev pub hincrby_future : Bytes → Bytes → ℤ → Promised S
  hincrby_future key field incr = exec_cmd (hincrby key field incr)

  abbrev pub hkeys_future : Bytes → Promised S
  hkeys_future key = exec_cmd (hkeys key)

  abbrev pub hlen_future : Bytes → Promised S
  hlen_future key = exec_cmd (hlen key)

  abbrev pub hmget_future : Bytes → List Bytes → Promised S
  hmget_future key fields = exec_cmd (hmget key fields)

  abbrev pub hset_future : Bytes → Bytes → Bytes → Promised S
  hset_future key field value = exec_cmd (hset key field value)

  abbrev pub hsetnx_future : Bytes → Bytes → Bytes → Promised S
  hsetnx_future key field value = exec_cmd (hsetnx key field value)

  abbrev pub hstrlen_future : Bytes → Bytes → Promised S
  hstrlen_future key field = exec_cmd (hstrlen key field)

  abbrev pub hvals_future : Bytes → Promised S
  hvals_future key = exec_cmd (hvals key)
