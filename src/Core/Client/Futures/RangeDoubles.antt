-- ===== src/Core/Client/Futures/RangeDoubles.antt =====
-- The commands of `client` on ranges, on `double` that give a future (sources/core/client.cpp).
use cpp_redis.Prelude.{Bool, Bytes, ℕ}
use cpp_redis.Core.Client.Commands.RangeDoubles.{
  zrangebylex_double_withscores, zrangebylex_double_offset_count_withscores,
  zrangebyscore_double_withscores, zrangebyscore_double_offset_count_withscores,
  zrevrangebylex_double_withscores, zrevrangebylex_double_offset_count_withscores,
  zrevrangebyscore_double_withscores, zrevrangebyscore_double_offset_count_withscores,
}
use cpp_redis.Core.Client.Futures.{Promised, exec_cmd}

-- The text that `std::to_string` gives to a number of a floating point type.
module _ {D : Type 0} (number_to_string : D → Bytes) {S : Type 0} where
  abbrev pub zrangebylex_double_withscores_future : Bytes → D → D → Bool → Promised S
  zrangebylex_double_withscores_future key min max withscores =
      exec_cmd (zrangebylex_double_withscores number_to_string key min max withscores)

  abbrev pub zrangebylex_double_offset_count_withscores_future :
      Bytes → D → D → ℕ → ℕ → Bool → Promised S
  zrangebylex_double_offset_count_withscores_future key min max offset count withscores = exec_cmd (
      zrangebylex_double_offset_count_withscores number_to_string key min max offset count
        withscores)

  abbrev pub zrangebyscore_double_withscores_future : Bytes → D → D → Bool → Promised S
  zrangebyscore_double_withscores_future key min max withscores =
      exec_cmd (zrangebyscore_double_withscores number_to_string key min max withscores)

  abbrev pub zrangebyscore_double_offset_count_withscores_future :
      Bytes → D → D → ℕ → ℕ → Bool → Promised S
  zrangebyscore_double_offset_count_withscores_future key min max offset count withscores =
      exec_cmd (
        zrangebyscore_double_offset_count_withscores number_to_string key min max offset count
          withscores)

  abbrev pub zrevrangebylex_double_withscores_future : Bytes → D → D → Bool → Promised S
  zrevrangebylex_double_withscores_future key max min withscores =
      exec_cmd (zrevrangebylex_double_withscores number_to_string key max min withscores)

  abbrev pub zrevrangebylex_double_offset_count_withscores_future :
      Bytes → D → D → ℕ → ℕ → Bool → Promised S
  zrevrangebylex_double_offset_count_withscores_future key max min offset count withscores =
      exec_cmd (
        zrevrangebylex_double_offset_count_withscores number_to_string key max min offset count
          withscores)

  abbrev pub zrevrangebyscore_double_withscores_future : Bytes → D → D → Bool → Promised S
  zrevrangebyscore_double_withscores_future key max min withscores =
      exec_cmd (zrevrangebyscore_double_withscores number_to_string key max min withscores)

  abbrev pub zrevrangebyscore_double_offset_count_withscores_future :
      Bytes → D → D → ℕ → ℕ → Bool → Promised S
  zrevrangebyscore_double_offset_count_withscores_future key max min offset count withscores =
      exec_cmd (
        zrevrangebyscore_double_offset_count_withscores number_to_string key max min offset count
          withscores)
