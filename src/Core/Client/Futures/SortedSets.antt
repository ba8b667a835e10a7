-- ===== src/Core/Client/Futures/SortedSets.antt =====
-- The commands of `client` on sorted sets, geographical sets and counters that give a future (sources/core/client.cpp).
use cpp_redis.Prelude.{Bytes, List, ℤ}
use cpp_redis.Core.Client.Commands.SortedSets.{
  geohash, geopos, geodist_unit, pfadd, pfcount, pfmerge, zcard, zcount, zcount_strings, zincrby,
  zincrby_strings, zlexcount, zlexcount_strings, zrank, zrem, zremrangebylex,
  zremrangebylex_strings, zremrangebyrank, zremrangebyrank_strings, zremrangebyscore,
  zremrangebyscore_strings, zrevrank, zscore,
}
use cpp_redis.Core.Client.Futures.{Promised, exec_cmd}

module _ {S : Type 0} where
  abbrev pub geohash_future : Bytes → List Bytes → Promised S
  geohash_future key members = exec_cmd (geohash key members)

  abbrev pub geopos_future : Bytes → List Bytes → Promised S
  geopos_future key members = exec_cmd (geopos key members)

  abbrev pub geodist_unit_future : Bytes → Bytes → Bytes → Bytes → Promised S
  geodist_unit_future key member_1 member_2 unit =
      exec_cmd (geodist_unit key member_1 member_2 unit)

  abbrev pub pfadd_future : Bytes → List Bytes → Promised S
  pfadd_future key elements = exec_cmd (pfadd key elements)

  abbrev pub pfcount_future : List Bytes → Promised S
  pfcount_future keys = exec_cmd (pfcount keys)

  abbrev pub pfmerge_future : Bytes → List Bytes → Promised S
  pfmerge_future destkey sourcekeys = exec_cmd (pfmerge destkey sourcekeys)

  abbrev pub zcard_future : Bytes → Promised S
  zcard_future key = exec_cmd (zcard key)

  abbrev pub zcount_future : Bytes → ℤ → ℤ → Promised S
  zcount_future key min max = exec_cmd (zcount key min max)

  abbrev pub zcount_strings_future : Bytes → Bytes → Bytes → Promised S
  zcount_strings_future key min max = exec_cmd (zcount_strings key min max)

  abbrev pub zincrby_future : Bytes → ℤ → Bytes → Promised S
  zincrby_future key incr member = exec_cmd (zincrby key incr member)

  abbrev pub zincrby_strings_future : Bytes → Bytes → Bytes → Promised S
  zincrby_strings_future key incr member = exec_cmd (zincrby_strings key incr member)

  abbrev pub zlexcount_future : Bytes → ℤ → ℤ → Promised S
  zlexcount_future key min max = exec_cmd (zlexcount key min max)

  abbrev pub zlexcount_strings_future : Bytes → Bytes → Bytes → Promised S
  zlexcount_strings_future key min max = exec_cmd (zlexcount_strings key min max)

  abbrev pub zrank_future : Bytes → Bytes → Promised S
  zrank_future key member = exec_cmd (zrank key member)

  abbrev pub zrem_future : Bytes → List Bytes → Promised S
  zrem_future key members = exec_cmd (zrem key members)

  abbrev pub zremrangebylex_future : Bytes → ℤ → ℤ → Promised S
  zremrangebylex_future key min max = exec_cmd (zremrangebylex key min max)

  abbrev pub zremrangebylex_strings_future : Bytes → Bytes → Bytes → Promised S
  zremrangebylex_strings_future key min max = exec_cmd (zremrangebylex_strings key min max)

  abbrev pub zremrangebyrank_future : Bytes → ℤ → ℤ → Promised S
  zremrangebyrank_future key start stop = exec_cmd (zremrangebyrank key start stop)

  abbrev pub zremrangebyrank_strings_future : Bytes → Bytes → Bytes → Promised S
  zremrangebyrank_strings_future key start stop = exec_cmd (zremrangebyrank_strings key start stop)

  abbrev pub zremrangebyscore_future : Bytes → ℤ → ℤ → Promised S
  zremrangebyscore_future key min max = exec_cmd (zremrangebyscore key min max)

  abbrev pub zremrangebyscore_strings_future : Bytes → Bytes → Bytes → Promised S
  zremrangebyscore_strings_future key min max = exec_cmd (zremrangebyscore_strings key min max)

  abbrev pub zrevrank_future : Bytes → Bytes → Promised S
  zrevrank_future key member = exec_cmd (zrevrank key member)

  abbrev pub zscore_future : Bytes → Bytes → Promised S
  zscore_future key member = exec_cmd (zscore key member)
