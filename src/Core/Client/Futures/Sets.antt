-- ===== src/Core/Client/Futures/Sets.antt =====
-- The commands of `client` on sets that give a future (sources/core/client.cpp).
use cpp_redis.Prelude.{Bytes, List, ℤ}
use cpp_redis.Core.Client.Commands.Sets.{
  sadd, scard, sdiff, sdiffstore, sinter, sinterstore, sismember, smembers, smove, spop, spop_count,
  srandmember, srandmember_count, srem, sunion, sunionstore,
}
use cpp_redis.Core.Client.Futures.{Promised, exec_cmd}

module _ {S : Type 0} where
  abbrev pub sadd_future : Bytes → List Bytes → Promised S
  sadd_future key members = exec_cmd (sadd key members)

  abbrev pub scard_future : Bytes → Promised S
  scard_future key = exec_cmd (scard key)

  abbrev pub sdiff_future : List Bytes → Promised S
  sdiff_future keys = exec_cmd (sdiff keys)

  abbrev pub sdiffstore_future : Bytes → List Bytes → Promised S
  sdiffstore_future dst keys = exec_cmd (sdiffstore dst keys)

  abbrev pub sinter_future : List Bytes → Promised S
  sinter_future keys = exec_cmd (sinter keys)

  abbrev pub sinterstore_future : Bytes → List Bytes → Promised S
  sinterstore_future dst keys = exec_cmd (sinterstore dst keys)

  abbrev pub sismember_future : Bytes → Bytes → Promised S
  sismember_future key member = exec_cmd (sismember key member)

  abbrev pub smembers_future : Bytes → Promised S
  smembers_future key = exec_cmd (smembers key)

  abbrev pub smove_future : Bytes → Bytes → Bytes → Promised S
  smove_future src dst member = exec_cmd (smove src dst member)

  abbrev pub spop_future : Bytes → Promised S
  spop_future key = exec_cmd (spop key)

  abbrev pub spop_count_future : Bytes → ℤ → Promised S
  spop_count_future key count = exec_cmd (spop_count key count)

  abbrev pub srandmember_future : Bytes → Promised S
  srandmember_future key = exec_cmd (srandmember key)

  abbrev pub srandmember_count_future : Bytes → ℤ → Promised S
  srandmember_count_future key count = exec_cmd (srandmember_count key count)

  abbrev pub srem_future : Bytes → List Bytes → Promised S
  srem_future key members = exec_cmd (srem key members)

  abbrev pub sunion_future : List Bytes → Promised S
  sunion_future keys = exec_cmd (sunion keys)

  abbrev pub sunionstore_future : Bytes → List Bytes → Promised S
  sunionstore_future dst keys = exec_cmd (sunionstore dst keys)
