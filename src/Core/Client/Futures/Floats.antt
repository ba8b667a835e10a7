-- ===== src/Core/Client/Futures/Floats.antt =====
-- The commands of `client` with floating point numbers that give a future (sources/core/client.cpp).
use cpp_redis.Prelude.{Bool, Bytes}
use cpp_redis.Core.Client.Commands.Floats.{
  hincrbyfloat, incrbyfloat, zcount_double, zincrby_double, zlexcount_double,
  zrange_double_withscores, zremrangebylex_double, zremrangebyrank_double, zremrangebyscore_double,
  zrevrange_double_withscores,
}
use cpp_redis.Core.Client.Futures.{Promised, exec_cmd}

-- The text that `std::to_string` gives to a number of a floating point type.
module _ {D : Type 0} (number_to_string : D → Bytes) {S : Type 0} where
  abbrev pub hincrbyfloat_future : Bytes → Bytes → D → Promised S
  hincrbyfloat_future key field incr = exec_cmd (hincrbyfloat number_to_string key field incr)

  abbrev pub incrbyfloat_future : Bytes → D → Promised S
  incrbyfloat_future key incr = exec_cmd (incrbyfloat number_to_string key incr)

  abbrev pub zcount_double_future : Bytes → D → D → Promised S
  zcount_double_future key min max = exec_cmd (zcount_double number_to_string key min max)

  abbrev pub zincrby_double_future : Bytes → D → Bytes → Promised S
  zincrby_double_future key incr member = exec_cmd (zincrby_double number_to_string key incr member)

  abbrev pub zlexcount_double_future : Bytes → D → D → Promised S
  zlexcount_double_future key min max = exec_cmd (zlexcount_double number_to_string key min max)

  abbrev pub zrange_double_withscores_future : Bytes → D → D → Bool → Promised S
  zrange_double_withscores_future key start stop withscores =
      exec_cmd (zrange_double_withscores number_to_string key start stop withscores)

  abbrev pub zremrangebylex_double_future : Bytes → D → D → Promised S
  zremrangebylex_double_future key min max =
      exec_cmd (zremrangebylex_double number_to_string key min max)

  abbrev pub zremrangebyrank_double_future : Bytes → D → D → Promised S
  zremrangebyrank_double_future key start stop =
      exec_cmd (zremrangebyrank_double number_to_string key start stop)

  abbrev pub zremrangebyscore_double_future : Bytes → D → D → Promised S
  zremrangebyscore_double_future key min max =
      exec_cmd (zremrangebyscore_double number_to_string key min max)

  abbrev pub zrevrange_double_withscores_future : Bytes → D → D → Bool → Promised S
  zrevrange_double_withscores_future key start stop withscores =
      exec_cmd (zrevrange_double_withscores number_to_string key start stop withscores)
