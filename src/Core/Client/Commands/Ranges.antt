-- ===== src/Core/Client/Commands/Ranges.antt =====
-- The commands of `client` on ranges of sorted sets (sources/core/client.cpp): what each of the
-- overloads calls in the end, and those with scores.
use cpp_redis.Prelude.{
  ℕ, Bool, List, [], ◌∷◌, ◌++◌, Bytes, codes, ℤ, to_string, int_to_string, if◌then◌else◌,
}
use cpp_redis.Core.Client.{Client, Callback, send}
use cpp_redis.Core.Client.Commands.Flags.{given}

-- What stands behind the two bounds.
abbrev pub range_words : Bool → ℕ → ℕ → Bool → List Bytes
range_words limit offset count withscores =
    given withscores (codes "WITHSCORES" ∷ [])
    ++ given limit (codes "LIMIT" ∷ to_string offset ∷ to_string count ∷ [])

module _ {S : Type 0} where
  unfoldable pub zrangebylex_full :
      Bytes → Bytes → Bytes → Bool → ℕ → ℕ → Bool → Callback → Client S → Client S
  unfolding send
  zrangebylex_full key min max limit offset count withscores callback c =
      send (codes "ZRANGEBYLEX" ∷ key ∷ min ∷ max ∷ range_words limit offset count withscores)
        callback c

  unfoldable pub zrangebyscore_full :
      Bytes → Bytes → Bytes → Bool → ℕ → ℕ → Bool → Callback → Client S → Client S
  unfolding send
  zrangebyscore_full key min max limit offset count withscores callback c =
      send (codes "ZRANGEBYSCORE" ∷ key ∷ min ∷ max ∷ range_words limit offset count withscores)
        callback c

  unfoldable pub zrevrangebylex_full :
      Bytes → Bytes → Bytes → Bool → ℕ → ℕ → Bool → Callback → Client S → Client S
  unfolding send
  zrevrangebylex_full key max min limit offset count withscores callback c =
      send (codes "ZREVRANGEBYLEX" ∷ key ∷ max ∷ min ∷ range_words limit offset count withscores)
        callback c

  unfoldable pub zrevrangebyscore_full :
      Bytes → Bytes → Bytes → Bool → ℕ → ℕ → Bool → Callback → Client S → Client S
  unfolding send
  zrevrangebyscore_full key max min limit offset count withscores callback c =
      send (codes "ZREVRANGEBYSCORE" ∷ key ∷ max ∷ min ∷ range_words limit offset count withscores)
        callback c

  unfoldable pub zrange_withscores : Bytes → ℤ → ℤ → Bool → Callback → Client S → Client S
  unfolding send
  zrange_withscores key start stop withscores callback c =
      if withscores
      then send
          (codes "ZRANGE"
            ∷ key
            ∷ int_to_string start
            ∷ int_to_string stop
            ∷ codes "WITHSCORES"
            ∷ [])
          callback c
      else send (codes "ZRANGE" ∷ key ∷ int_to_string start ∷ int_to_string stop ∷ []) callback c

  unfoldable pub zrange_strings_withscores :
      Bytes → Bytes → Bytes → Bool → Callback → Client S → Client S
  unfolding send
  zrange_strings_withscores key start stop withscores callback c =
      if withscores
      then send (codes "ZRANGE" ∷ key ∷ start ∷ stop ∷ codes "WITHSCORES" ∷ []) callback c
      else send (codes "ZRANGE" ∷ key ∷ start ∷ stop ∷ []) callback c

  unfoldable pub zrevrange_withscores : Bytes → ℤ → ℤ → Bool → Callback → Client S → Client S
  unfolding send
  zrevrange_withscores key start stop withscores callback c =
      if withscores
      then send
          (codes "ZREVRANGE"
            ∷ key
            ∷ int_to_string start
            ∷ int_to_string stop
            ∷ codes "WITHSCORES"
            ∷ [])
          callback c
      else send (codes "ZREVRANGE" ∷ key ∷ int_to_string start ∷ int_to_string stop ∷ []) callback c

  unfoldable pub zrevrange_strings_withscores :
      Bytes → Bytes → Bytes → Bool → Callback → Client S → Client S
  unfolding send
  zrevrange_strings_withscores key start stop withscores callback c =
      if withscores
      then send (codes "ZREVRANGE" ∷ key ∷ start ∷ stop ∷ codes "WITHSCORES" ∷ []) callback c
      else send (codes "ZREVRANGE" ∷ key ∷ start ∷ stop ∷ []) callback c
