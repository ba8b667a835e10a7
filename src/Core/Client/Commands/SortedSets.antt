-- ===== src/Core/Client/Commands/SortedSets.antt =====
-- The commands of `client` on sorted sets, geographical sets and counters (sources/core/client.cpp).
use cpp_redis.Prelude.{Bytes, List, [], codes, int_to_string, ℤ, ◌∷◌}
use cpp_redis.Core.Client.{Client, Callback, send}

module _ {S : Type 0} where
  unfoldable pub geohash : Bytes → List Bytes → Callback → Client S → Client S
  unfolding send
  geohash key members callback c = send (codes "GEOHASH" ∷ key ∷ members) callback c

  unfoldable pub geopos : Bytes → List Bytes → Callback → Client S → Client S
  unfolding send
  geopos key members callback c = send (codes "GEOPOS" ∷ key ∷ members) callback c

  unfoldable pub geodist : Bytes → Bytes → Bytes → Callback → Client S → Client S
  unfolding send
  geodist key member_1 member_2 callback c =
      send (codes "GEODIST" ∷ key ∷ member_1 ∷ member_2 ∷ []) callback c

  unfoldable pub geodist_unit : Bytes → Bytes → Bytes → Bytes → Callback → Client S → Client S
  unfolding send
  geodist_unit key member_1 member_2 unit callback c =
      send (codes "GEODIST" ∷ key ∷ member_1 ∷ member_2 ∷ unit ∷ []) callback c

  unfoldable pub pfadd : Bytes → List Bytes → Callback → Client S → Client S
  unfolding send
  pfadd key elements callback c = send (codes "PFADD" ∷ key ∷ elements) callback c

  unfoldable pub pfcount : List Bytes → Callback → Client S → Client S
  unfolding send
  pfcount keys callback c = send (codes "PFCOUNT" ∷ keys) callback c

  unfoldable pub pfmerge : Bytes → List Bytes → Callback → Client S → Client S
  unfolding send
  pfmerge destkey sourcekeys callback c = send (codes "PFMERGE" ∷ destkey ∷ sourcekeys) callback c

  unfoldable pub zcard : Bytes → Callback → Client S → Client S
  unfolding send
  zcard key callback c = send (codes "ZCARD" ∷ key ∷ []) callback c

  unfoldable pub zcount : Bytes → ℤ → ℤ → Callback → Client S → Client S
  unfolding send
  zcount key min max callback c =
      send (codes "ZCOUNT" ∷ key ∷ int_to_string min ∷ int_to_string max ∷ []) callback c

  unfoldable pub zcount_strings : Bytes → Bytes → Bytes → Callback → Client S → Client S
  unfolding send
  zcount_strings key min max callback c = send (codes "ZCOUNT" ∷ key ∷ min ∷ max ∷ []) callback c

  unfoldable pub zincrby : Bytes → ℤ → Bytes → Callback → Client S → Client S
  unfolding send
  zincrby key incr member callback c =
      send (codes "ZINCRBY" ∷ key ∷ int_to_string incr ∷ member ∷ []) callback c

  unfoldable pub zincrby_strings : Bytes → Bytes → Bytes → Callback → Client S → Client S
  unfolding send
  zincrby_strings key incr member callback c =
      send (codes "ZINCRBY" ∷ key ∷ incr ∷ member ∷ []) callback c

  unfoldable pub zlexcount : Bytes → ℤ → ℤ → Callback → Client S → Client S
  unfolding send
  zlexcount key min max callback c =
      send (codes "ZLEXCOUNT" ∷ key ∷ int_to_string min ∷ int_to_string max ∷ []) callback c

  unfoldable pub zlexcount_strings : Bytes → Bytes → Bytes → Callback → Client S → Client S
  unfolding send
  zlexcount_strings key min max callback c =
      send (codes "ZLEXCOUNT" ∷ key ∷ min ∷ max ∷ []) callback c

  unfoldable pub zrange : Bytes → ℤ → ℤ → Callback → Client S → Client S
  unfolding send
  zrange key start stop callback c =
      send (codes "ZRANGE" ∷ key ∷ int_to_string start ∷ int_to_string stop ∷ []) callback c

  unfoldable pub zrange_strings : Bytes → Bytes → Bytes → Callback → Client S → Client S
  unfolding send
  zrange_strings key start stop callback c =
      send (codes "ZRANGE" ∷ key ∷ start ∷ stop ∷ []) callback c

  unfoldable pub zrank : Bytes → Bytes → Callback → Client S → Client S
  unfolding send
  zrank key member callback c = send (codes "ZRANK" ∷ key ∷ member ∷ []) callback c

  unfoldable pub zrem : Bytes → List Bytes → Callback → Client S → Client S
  unfolding send
  zrem key members callback c = send (codes "ZREM" ∷ key ∷ members) callback c

  unfoldable pub zremrangebylex : Bytes → ℤ → ℤ → Callback → Client S → Client S
  unfolding send
  zremrangebylex key min max callback c =
      send (codes "ZREMRANGEBYLEX" ∷ key ∷ int_to_string min ∷ int_to_string max ∷ []) callback c

  unfoldable pub zremrangebylex_strings : Bytes → Bytes → Bytes → Callback → Client S → Client S
  unfolding send
  zremrangebylex_strings key min max callback c =
      send (codes "ZREMRANGEBYLEX" ∷ key ∷ min ∷ max ∷ []) callback c

  unfoldable pub zremrangebyrank : Bytes → ℤ → ℤ → Callback → Client S → Client S
  unfolding send
  zremrangebyrank key start stop callback c =
      send (codes "ZREMRANGEBYRANK" ∷ key ∷ int_to_string start ∷ int_to_string stop ∷ []) callback
        c

  unfoldable pub zremrangebyrank_strings : Bytes → Bytes → Bytes → Callback → Client S → Client S
  unfolding send
  zremrangebyrank_strings key start stop callback c =
      send (codes "ZREMRANGEBYRANK" ∷ key ∷ start ∷ stop ∷ []) callback c

  unfoldable pub zremrangebyscore : Bytes → ℤ → ℤ → Callback → Client S → Client S
  unfolding send
  zremrangebyscore key min max callback c =
      send (codes "ZREMRANGEBYSCORE" ∷ key ∷ int_to_string min ∷ int_to_string max ∷ []) callback c

  unfoldable pub zremrangebyscore_strings : Bytes → Bytes → Bytes → Callback → Client S → Client S
  unfolding send
  zremrangebyscore_strings key min max callback c =
      send (codes "ZREMRANGEBYSCORE" ∷ key ∷ min ∷ max ∷ []) callback c

  unfoldable pub zrevrange : Bytes → ℤ → ℤ → Callback → Client S → Client S
  unfolding send
  zrevrange key start stop callback c =
      send (codes "ZREVRANGE" ∷ key ∷ int_to_string start ∷ int_to_string stop ∷ []) callback c

  unfoldable pub zrevrange_strings : Bytes → Bytes → Bytes → Callback → Client S → Client S
  unfolding send
  zrevrange_strings key start stop callback c =
      send (codes "ZREVRANGE" ∷ key ∷ start ∷ stop ∷ []) callback c

  unfoldable pub zrevrank : Bytes → Bytes → Callback → Client S → Client S
  unfolding send
  zrevrank key member callback c = send (codes "ZREVRANK" ∷ key ∷ member ∷ []) callback c

  unfoldable pub zscore : Bytes → Bytes → Callback → Client S → Client S
  unfolding send
  zscore key member callback c = send (codes "ZSCORE" ∷ key ∷ member ∷ []) callback c
