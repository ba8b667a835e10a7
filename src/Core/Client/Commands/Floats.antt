-- ===== src/Core/Client/Commands/Floats.antt =====
-- The commands of `client` with floating point numbers (sources/core/client.cpp).
use cpp_redis.Prelude.{Bool, [], ◌∷◌, Bytes, codes, if◌then◌else◌}
use cpp_redis.Core.Client.{Client, Callback, send}

-- The text that `std::to_string` gives to a number of a floating point type.
module _ {D : Type 0} (number_to_string : D → Bytes) {S : Type 0} where
  unfoldable pub hincrbyfloat : Bytes → Bytes → D → Callback → Client S → Client S
  unfolding send
  hincrbyfloat key field incr callback c =
      send (codes "HINCRBYFLOAT" ∷ key ∷ field ∷ number_to_string incr ∷ []) callback c

  unfoldable pub incrbyfloat : Bytes → D → Callback → Client S → Client S
  unfolding send
  incrbyfloat key incr callback c =
      send (codes "INCRBYFLOAT" ∷ key ∷ number_to_string incr ∷ []) callback c

  unfoldable pub zcount_double : Bytes → D → D → Callback → Client S → Client S
  unfolding send
  zcount_double key min max callback c =
      send (codes "ZCOUNT" ∷ key ∷ number_to_string min ∷ number_to_string max ∷ []) callback c

  unfoldable pub zincrby_double : Bytes → D → Bytes → Callback → Client S → Client S
  unfolding send
  zincrby_double key incr member callback c =
      send (codes "ZINCRBY" ∷ key ∷ number_to_string incr ∷ member ∷ []) callback c

  unfoldable pub zlexcount_double : Bytes → D → D → Callback → Client S → Client S
  unfolding send
  zlexcount_double key min max callback c =
      send (codes "ZLEXCOUNT" ∷ key ∷ number_to_string min ∷ number_to_string max ∷ []) callback c

  unfoldable pub zrange_double : Bytes → D → D → Callback → Client S → Client S
  unfolding send
  zrange_double key start stop callback c =
      send (codes "ZRANGE" ∷ key ∷ number_to_string start ∷ number_to_string stop ∷ []) callback c

  unfoldable pub zrange_double_withscores : Bytes → D → D → Bool → Callback → Client S → Client S
  unfolding send
  zrange_double_withscores key start stop withscores callback c =
      if withscores
      then send
          (codes "ZRANGE"
            ∷ key
            ∷ number_to_string start
            ∷ number_to_string stop
            ∷ codes "WITHSCORES"
            ∷ [])
          callback c
      else send (codes "ZRANGE" ∷ key ∷ number_to_string start ∷ number_to_string stop ∷ [])
          callback c

  unfoldable pub zremrangebylex_double : Bytes → D → D → Callback → Client S → Client S
  unfolding send
  zremrangebylex_double key min max callback c =
      send (codes "ZREMRANGEBYLEX" ∷ key ∷ number_to_string min ∷ number_to_string max ∷ [])
        callback c

  unfoldable pub zremrangebyrank_double : Bytes → D → D → Callback → Client S → Client S
  unfolding send
  zremrangebyrank_double key start stop callback c =
      send (codes "ZREMRANGEBYRANK" ∷ key ∷ number_to_string start ∷ number_to_string stop ∷ [])
        callback c

  unfoldable pub zremrangebyscore_double : Bytes → D → D → Callback → Client S → Client S
  unfolding send
  zremrangebyscore_double key min max callback c =
      send (codes "ZREMRANGEBYSCORE" ∷ key ∷ number_to_string min ∷ number_to_string max ∷ [])
        callback c

  unfoldable pub zrevrange_double : Bytes → D → D → Callback → Client S → Client S
  unfolding send
  zrevrange_double key start stop callback c =
      send (codes "ZREVRANGE" ∷ key ∷ number_to_string start ∷ number_to_string stop ∷ []) callback
        c

  unfoldable pub zrevrange_double_withscores : Bytes → D → D → Bool → Callback → Client S → Client S
  unfolding send
  zrevrange_double_withscores key start stop withscores callback c =
      if withscores
      then send
          (codes "ZREVRANGE"
            ∷ key
            ∷ number_to_string start
            ∷ number_to_string stop
            ∷ codes "WITHSCORES"
            ∷ [])
          callback c
      else send (codes "ZREVRANGE" ∷ key ∷ number_to_string start ∷ number_to_string stop ∷ [])
          callback c
