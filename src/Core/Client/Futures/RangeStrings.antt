-- ===== src/Core/Client/Futures/RangeStrings.antt =====
-- The commands of `client` on ranges, on strings that give a future (sources/core/client.cpp).
use cpp_redis.Prelude.{Bool, Bytes, ℕ}
use cpp_redis.Core.Client.Commands.RangeStrings.{
  zrangebylex_strings_withscores, zrangebylex_strings_offset_count_withscores,
  zrangebyscore_strings_withscores, zrangebyscore_strings_offset_count_withscores,
  zrevrangebylex_strings_withscores, zrevrangebylex_strings_offset_count_withscores,
  zrevrangebyscore_strings_withscores, zrevrangebyscore_strings_offset_count_withscores,
}
use cpp_redis.Core.Client.Futures.{Promised, exec_cmd}

module _ {S : Type 0} where
  abbrev pub zrangebylex_strings_withscores_future : Bytes → Bytes → Bytes → Bool → Promised S
  zrangebylex_strings_withscores_future key min max withscores =
      exec_cmd (zrangebylex_strings_withscores key min max withscores)

  abbrev pub zrangebylex_strings_offset_count_withscores_future :
      Bytes → Bytes → Bytes → ℕ → ℕ → Bool → Promised S
  zrangebylex_strings_offset_count_withscores_future key min max offset count withscores =
      exec_cmd (zrangebylex_strings_offset_count_withscores key min max offset count withscores)

  abbrev pub zrangebyscore_strings_withscores_future : Bytes → Bytes → Bytes → Bool → Promised S
  zrangebyscore_strings_withscores_future key min max withscores =
      exec_cmd (zrangebyscore_strings_withscores key min max withscores)

  abbrev pub zrangebyscore_strings_offset_count_withscores_future :
      Bytes → Bytes → Bytes → ℕ → ℕ → Bool → Promised S
  zrangebyscore_strings_offset_count_withscores_future key min max offset count withscores =
      exec_cmd (zrangebyscore_strings_offset_count_withscores key min max offset count withscores)

  abbrev pub zrevrangebylex_strings_withscores_future : Bytes → Bytes → Bytes → Bool → Promised S
  zrevrangebylex_strings_withscores_future key max min withscores =
      exec_cmd (zrevrangebylex_strings_withscores key max min withscores)

  abbrev pub zrevrangebylex_strings_offset_count_withscores_future :
      Bytes → Bytes → Bytes → ℕ → ℕ → Bool → Promised S
  zrevrangebylex_strings_offset_count_withscores_future key max min offset count withscores =
      exec_cmd (zrevrangebylex_strings_offset_count_withscores key max min offset count withscores)

  abbrev pub zrevrangebyscore_strings_withscores_future : Bytes → Bytes → Bytes → Bool → Promised S
  zrevrangebyscore_strings_withscores_future key max min withscores =
      exec_cmd (zrevrangebyscore_strings_withscores key max min withscores)

  abbrev pub zrevrangebyscore_strings_offset_count_withscores_future :
      Bytes → Bytes → Bytes → ℕ → ℕ → Bool → Promised S
  zrevrangebyscore_strings_offset_count_withscores_future key max min offset count withscores =
      exec_cmd
        (zrevrangebyscore_strings_offset_count_withscores key max min offset count withscores)
