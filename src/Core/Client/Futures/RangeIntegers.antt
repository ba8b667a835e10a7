-- ===== src/Core/Client/Futures/RangeIntegers.antt =====
-- The commands of `client` on ranges, on `int` that give a future (sources/core/client.cpp).
use cpp_redis.Prelude.{Bool, Bytes, ℕ, ℤ}
use cpp_redis.Core.Client.Commands.RangeIntegers.{
  zrangebylex_withscores, zrangebylex_offset_count_withscores, zrangebyscore_withscores,
  zrangebyscore_offset_count_withscores, zrevrangebylex_withscores,
  zrevrangebylex_offset_count_withscores, zrevrangebyscore_withscores,
  zrevrangebyscore_offset_count_withscores,
}
use cpp_redis.Core.Client.Futures.{Promised, exec_cmd}

module _ {S : Type 0} where
  abbrev pub zrangebylex_withscores_future : Bytes → ℤ → ℤ → Bool → Promised S
  zrangebylex_withscores_future key min max withscores =
      exec_cmd (zrangebylex_withscores key min max withscores)

  abbrev pub zrangebylex_offset_count_withscores_future : Bytes → ℤ → ℤ → ℕ → ℕ → Bool → Promised S
  zrangebylex_offset_count_withscores_future key min max offset count withscores =
      exec_cmd (zrangebylex_offset_count_withscores key min max offset count withscores)

  abbrev pub zrangebyscore_withscores_future : Bytes → ℤ → ℤ → Bool → Promised S
  zrangebyscore_withscores_future key min max withscores =
      exec_cmd (zrangebyscore_withscores key min max withscores)

  abbrev pub zrangebyscore_offset_count_withscores_future :
      Bytes → ℤ → ℤ → ℕ → ℕ → Bool → Promised S
  zrangebyscore_offset_count_withscores_future key min max offset count withscores =
      exec_cmd (zrangebyscore_offset_count_withscores key min max offset count withscores)

  abbrev pub zrevrangebylex_withscores_future : Bytes → ℤ → ℤ → Bool → Promised S
  zrevrangebylex_withscores_future key max min withscores =
      exec_cmd (zrevrangebylex_withscores key max min withscores)

  abbrev pub zrevrangebylex_offset_count_withscores_future :
      Bytes → ℤ → ℤ → ℕ → ℕ → Bool → Promised S
  zrevrangebylex_offset_count_withscores_future key max min offset count withscores =
      exec_cmd (zrevrangebylex_offset_count_withscores key max min offset count withscores)

  abbrev pub zrevrangebyscore_withscores_future : Bytes → ℤ → ℤ → Bool → Promised S
  zrevrangebyscore_withscores_future key max min withscores =
      exec_cmd (zrevrangebyscore_withscores key max min withscores)

  abbrev pub zrevrangebyscore_offset_count_withscores_future :
      Bytes → ℤ → ℤ → ℕ → ℕ → Bool → Promised S
  zrevrangebyscore_offset_count_withscores_future key max min offset count withscores =
      exec_cmd (zrevrangebyscore_offset_count_withscores key max min offset count withscores)
