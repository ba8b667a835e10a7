-- ===== src/Core/Client/Futures/Lists.antt =====
-- The commands of `client` on lists that give a future (sources/core/client.cpp).
use cpp_redis.Prelude.{Bytes, List, ℤ}
use cpp_redis.Core.Client.Commands.Lists.{
  blpop, brpop, brpoplpush, lindex, linsert, llen, lpop, lpush, lpushx, lrange, lrem, lset, ltrim,
  rpop, rpoplpush, rpush, rpushx,
}
use cpp_redis.Core.Client.Futures.{Promised, exec_cmd}

module _ {S : Type 0} where
  abbrev pub blpop_future : List Bytes → ℤ → Promised S
  blpop_future keys timeout = exec_cmd (blpop keys timeout)

  abbrev pub brpop_future : List Bytes → ℤ → Promised S
  brpop_future keys timeout = exec_cmd (brpop keys timeout)

  abbrev pub brpoplpush_future : Bytes → Bytes → ℤ → Promised S
  brpoplpush_future src dst timeout = exec_cmd (brpoplpush src dst timeout)

  abbrev pub lindex_future : Bytes → ℤ → Promised S
  lindex_future key index = exec_cmd (lindex key index)

  abbrev pub linsert_future : Bytes → Bytes → Bytes → Bytes → Promised S
  linsert_future key before_after pivot value = exec_cmd (linsert key before_after pivot value)

  abbrev pub llen_future : Bytes → Promised S
  llen_future key = exec_cmd (llen key)

  abbrev pub lpop_future : Bytes → Promised S
  lpop_future key = exec_cmd (lpop key)

  abbrev pub lpush_future : Bytes → List Bytes → Promised S
  lpush_future key values = exec_cmd (lpush key values)

  abbrev pub lpushx_future : Bytes → Bytes → Promised S
  lpushx_future key value = exec_cmd (lpushx key value)

  abbrev pub lrange_future : Bytes → ℤ → ℤ → Promised S
  lrange_future key start stop = exec_cmd (lrange key start stop)

  abbrev pub lrem_future : Bytes → ℤ → Bytes → Promised S
  lrem_future key count value = exec_cmd (lrem key count value)

  abbrev pub lset_future : Bytes → ℤ → Bytes → Promised S
  lset_future key index value = exec_cmd (lset key index value)

  abbrev pub ltrim_future : Bytes → ℤ → ℤ → Promised S
  ltrim_future key start stop = exec_cmd (ltrim key start stop)

  abbrev pub rpop_future : Bytes → Promised S
  rpop_future key = exec_cmd (rpop key)

  abbrev pub rpoplpush_future : Bytes → Bytes → Promised S
  rpoplpush_future src dst = exec_cmd (rpoplpush src dst)

  abbrev pub rpush_future : Bytes → List Bytes → Promised S
  rpush_future key values = exec_cmd (rpush key values)

  abbrev pub rpushx_future : Bytes → Bytes → Promised S
  rpushx_future key value = exec_cmd (rpushx key value)
