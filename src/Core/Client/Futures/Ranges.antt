-- ===== src/Core/Client/Futures/Ranges.antt =====
-- The commands of `client` on ranges of sorted sets that give a future (sources/core/client.cpp).
use cpp_redis.Prelude.{Bool, Bytes, ℤ}
use cpp_redis.Core.Client.Commands.Ranges.{
  zrange_withscores, zrange_strings_withscores, zrevrange_withscores, zrevrange_strings_withscores,
}
use cpp_redis.Core.Client.Futures.{Promised, exec_cmd}

module _ {S : Type 0} where
  abbrev pub zrange_withscores_future : Bytes → ℤ → ℤ → Bool → Promised S
  zrange_withscores_future key start stop withscores =
      exec_cmd (zrange_withscores key start stop withscores)

  abbrev pub zrange_strings_withscores_future : Bytes → Bytes → Bytes → Bool → Promised S
  zrange_strings_withscores_future key start stop withscores =
      exec_cmd (zrange_strings_withscores key start stop withscores)

  abbrev pub zrevrange_withscores_future : Bytes → ℤ → ℤ → Bool → Promised S
  zrevrange_withscores_future key start stop withscores =
      exec_cmd (zrevrange_withscores key start stop withscores)

  abbrev pub zrevrange_strings_withscores_future : Bytes → Bytes → Bytes → Bool → Promised S
  zrevrange_strings_withscores_future key start stop withscores =
      exec_cmd (zrevrange_strings_withscores key start stop withscores)
