-- ===== src/Core/Client/Commands/RangeStrings.antt =====
-- The overloads on strings of the commands of `client` on ranges (sources/core/client.cpp).
use cpp_redis.Prelude.{ℕ, Bool, true, false, Bytes}
use cpp_redis.Core.Client.{Client, Callback}
use cpp_redis.Core.Client.Commands.Ranges.{
  zrangebylex_full, zrangebyscore_full, zrevrangebylex_full, zrevrangebyscore_full,
}

module _ {S : Type 0} where
  unfoldable pub zrangebylex_strings : Bytes → Bytes → Bytes → Callback → Client S → Client S
  unfolding zrangebylex_full
  zrangebylex_strings key min max callback c =
      zrangebylex_full key min max false 0 0 false callback c

  unfoldable pub zrangebylex_strings_withscores :
      Bytes → Bytes → Bytes → Bool → Callback → Client S → Client S
  unfolding zrangebylex_full
  zrangebylex_strings_withscores key min max withscores callback c =
      zrangebylex_full key min max false 0 0 withscores callback c

  unfoldable pub zrangebylex_strings_offset_count :
      Bytes → Bytes → Bytes → ℕ → ℕ → Callback → Client S → Client S
  unfolding zrangebylex_full
  zrangebylex_strings_offset_count key min max offset count callback c =
      zrangebylex_full key min max true offset count false callback c

  unfoldable pub zrangebylex_strings_offset_count_withscores :
      Bytes → Bytes → Bytes → ℕ → ℕ → Bool → Callback → Client S → Client S
  unfolding zrangebylex_full
  zrangebylex_strings_offset_count_withscores key min max offset count withscores callback c =
      zrangebylex_full key min max true offset count withscores callback c

  unfoldable pub zrangebyscore_strings : Bytes → Bytes → Bytes → Callback → Client S → Client S
  unfolding zrangebyscore_full
  zrangebyscore_strings key min max callback c =
      zrangebyscore_full key min max false 0 0 false callback c

  unfoldable pub zrangebyscore_strings_withscores :
      Bytes → Bytes → Bytes → Bool → Callback → Client S → Client S
  unfolding zrangebyscore_full
  zrangebyscore_strings_withscores key min max withscores callback c =
      zrangebyscore_full key min max false 0 0 withscores callback c

  unfoldable pub zrangebyscore_strings_offset_count :
      Bytes → Bytes → Bytes → ℕ → ℕ → Callback → Client S → Client S
  unfolding zrangebyscore_full
  zrangebyscore_strings_offset_count key min max offset count callback c =
      zrangebyscore_full key min max true offset count false callback c

  unfoldable pub zrangebyscore_strings_offset_count_withscores :
      Bytes → Bytes → Bytes → ℕ → ℕ → Bool → Callback → Client S → Client S
  unfolding zrangebyscore_full
  zrangebyscore_strings_offset_count_withscores key min max offset count withscores callback c =
      zrangebyscore_full key min max true offset count withscores callback c

  unfoldable pub zrevrangebylex_strings : Bytes → Bytes → Bytes → Callback → Client S → Client S
  unfolding zrevrangebylex_full
  zrevrangebylex_strings key max min callback c =
      zrevrangebylex_full key max min false 0 0 false callback c

  unfoldable pub zrevrangebylex_strings_withscores :
      Bytes → Bytes → Bytes → Bool → Callback → Client S → Client S
  unfolding zrevrangebylex_full
  zrevrangebylex_strings_withscores key max min withscores callback c =
      zrevrangebylex_full key max min false 0 0 withscores callback c

  unfoldable pub zrevrangebylex_strings_offset_count :
      Bytes → Bytes → Bytes → ℕ → ℕ → Callback → Client S → Client S
  unfolding zrevrangebylex_full
  zrevrangebylex_strings_offset_count key max min offset count callback c =
      zrevrangebylex_full key max min true offset count false callback c

  unfoldable pub zrevrangebylex_strings_offset_count_withscores :
      Bytes → Bytes → Bytes → ℕ → ℕ → Bool → Callback → Client S → Client S
  unfolding zrevrangebylex_full
  zrevrangebylex_strings_offset_count_withscores key max min offset count withscores callback c =
      zrevrangebylex_full key max min true offset count withscores callback c

  unfoldable pub zrevrangebyscore_strings : Bytes → Bytes → Bytes → Callback → Client S → Client S
  unfolding zrevrangebyscore_full
  zrevrangebyscore_strings key max min callback c =
      zrevrangebyscore_full key max min false 0 0 false callback c

  unfoldable pub zrevrangebyscore_strings_withscores :
      Bytes → Bytes → Bytes → Bool → Callback → Client S → Client S
  unfolding zrevrangebyscore_full
  zrevrangebyscore_strings_withscores key max min withscores callback c =
      zrevrangebyscore_full key max min false 0 0 withscores callback c

  unfoldable pub zrevrangebyscore_strings_offset_count :
      Bytes → Bytes → Bytes → ℕ → ℕ → Callback → Client S → Client S
  unfolding zrevrangebyscore_full
  zrevrangebyscore_strings_offset_count key max min offset count callback c =
      zrevrangebyscore_full key max min true offset count false callback c

  unfoldable pub zrevrangebyscore_strings_offset_count_withscores :
      Bytes → Bytes → Bytes → ℕ → ℕ → Bool → Callback → Client S → Client S
  unfolding zrevrangebyscore_full
  zrevrangebyscore_strings_offset_count_withscores key max min offset count withscores callback c =
      zrevrangebyscore_full key max min true offset count withscores callback c
