-- ===== src/Core/Client/Commands/RangeIntegers.antt =====
-- The overloads on `int` of the commands of `client` on ranges (sources/core/client.cpp).
use cpp_redis.Prelude.{ℕ, Bool, true, false, Bytes, ℤ, int_to_string}
use cpp_redis.Core.Client.{Client, Callback}
use cpp_redis.Core.Client.Commands.Ranges.{
  zrangebylex_full, zrangebyscore_full, zrevrangebylex_full, zrevrangebyscore_full,
}

module _ {S : Type 0} where
  unfoldable pub zrangebylex : Bytes → ℤ → ℤ → Callback → Client S → Client S
  unfolding zrangebylex_full
  zrangebylex key min max callback c =
      zrangebylex_full key (int_to_string min) (int_to_string max) false 0 0 false callback c

  unfoldable pub zrangebylex_withscores : Bytes → ℤ → ℤ → Bool → Callback → Client S → Client S
  unfolding zrangebylex_full
  zrangebylex_withscores key min max withscores callback c =
      zrangebylex_full key (int_to_string min) (int_to_string max) false 0 0 withscores callback c

  unfoldable pub zrangebylex_offset_count : Bytes → ℤ → ℤ → ℕ → ℕ → Callback → Client S → Client S
  unfolding zrangebylex_full
  zrangebylex_offset_count key min max offset count callback c =
      zrangebylex_full key (int_to_string min) (int_to_string max) true offset count false callback
        c

  unfoldable pub zrangebylex_offset_count_withscores :
      Bytes → ℤ → ℤ → ℕ → ℕ → Bool → Callback → Client S → Client S
  unfolding zrangebylex_full
  zrangebylex_offset_count_withscores key min max offset count withscores callback c =
      zrangebylex_full key (int_to_string min) (int_to_string max) true offset count withscores
        callback c

  unfoldable pub zrangebyscore : Bytes → ℤ → ℤ → Callback → Client S → Client S
  unfolding zrangebyscore_full
  zrangebyscore key min max callback c =
      zrangebyscore_full key (int_to_string min) (int_to_string max) false 0 0 false callback c

  unfoldable pub zrangebyscore_withscores : Bytes → ℤ → ℤ → Bool → Callback → Client S → Client S
  unfolding zrangebyscore_full
  zrangebyscore_withscores key min max withscores callback c =
      zrangebyscore_full key (int_to_string min) (int_to_string max) false 0 0 withscores callback c

  unfoldable pub zrangebyscore_offset_count : Bytes → ℤ → ℤ → ℕ → ℕ → Callback → Client S → Client S
  unfolding zrangebyscore_full
  zrangebyscore_offset_count key min max offset count callback c =
      zrangebyscore_full key (int_to_string min) (int_to_string max) true offset count false
        callback c

  unfoldable pub zrangebyscore_offset_count_withscores :
      Bytes → ℤ → ℤ → ℕ → ℕ → Bool → Callback → Client S → Client S
  unfolding zrangebyscore_full
  zrangebyscore_offset_count_withscores key min max offset count withscores callback c =
      zrangebyscore_full key (int_to_string min) (int_to_string max) true offset count withscores
        callback c

  unfoldable pub zrevrangebylex : Bytes → ℤ → ℤ → Callback → Client S → Client S
  unfolding zrevrangebylex_full
  zrevrangebylex key max min callback c =
      zrevrangebylex_full key (int_to_string max) (int_to_string min) false 0 0 false callback c

  unfoldable pub zrevrangebylex_withscores : Bytes → ℤ → ℤ → Bool → Callback → Client S → Client S
  unfolding zrevrangebylex_full
  zrevrangebylex_withscores key max min withscores callback c =
      zrevrangebylex_full key (int_to_string max) (int_to_string min) false 0 0 withscores callback
        c

  unfoldable pub zrevrangebylex_offset_count :
      Bytes → ℤ → ℤ → ℕ → ℕ → Callback → Client S → Client S
  unfolding zrevrangebylex_full
  zrevrangebylex_offset_count key max min offset count callback c =
      zrevrangebylex_full key (int_to_string max) (int_to_string min) true offset count false
        callback c

  unfoldable pub zrevrangebylex_offset_count_withscores :
      Bytes → ℤ → ℤ → ℕ → ℕ → Bool → Callback → Client S → Client S
  unfolding zrevrangebylex_full
  zrevrangebylex_offset_count_withscores key max min offset count withscores callback c =
      zrevrangebylex_full key (int_to_string max) (int_to_string min) true offset count withscores
        callback c

  unfoldable pub zrevrangebyscore : Bytes → ℤ → ℤ → Callback → Client S → Client S
  unfolding zrevrangebyscore_full
  zrevrangebyscore key max min callback c =
      zrevrangebyscore_full key (int_to_string max) (int_to_string min) false 0 0 false callback c

  unfoldable pub zrevrangebyscore_withscores : Bytes → ℤ → ℤ → Bool → Callback → Client S → Client S
  unfolding zrevrangebyscore_full
  zrevrangebyscore_withscores key max min withscores callback c =
      zrevrangebyscore_full key (int_to_string max) (int_to_string min) false 0 0 withscores
        callback c

  unfoldable pub zrevrangebyscore_offset_count :
      Bytes → ℤ → ℤ → ℕ → ℕ → Callback → Client S → Client S
  unfolding zrevrangebyscore_full
  zrevrangebyscore_offset_count key max min offset count callback c =
      zrevrangebyscore_full key (int_to_string max) (int_to_string min) true offset count false
        callback c

  unfoldable pub zrevrangebyscore_offset_count_withscores :
      Bytes → ℤ → ℤ → ℕ → ℕ → Bool → Callback → Client S → Client S
  unfolding zrevrangebyscore_full
  zrevrangebyscore_offset_count_withscores key max min offset count withscores callback c =
      zrevrangebyscore_full key (int_to_string max) (int_to_string min) true offset count withscores
        callback c
