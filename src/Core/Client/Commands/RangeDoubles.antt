-- ===== src/Core/Client/Commands/RangeDoubles.antt =====
-- The overloads on `double` of the commands of `client` on ranges (sources/core/client.cpp).
use cpp_redis.Prelude.{ℕ, Bool, true, false, Bytes}
use cpp_redis.Core.Client.{Client, Callback}
use cpp_redis.Core.Client.Commands.Ranges.{
  zrangebylex_full, zrangebyscore_full, zrevrangebylex_full, zrevrangebyscore_full,
}

-- The text that `std::to_string` gives to a number of a floating point type.
module _ {D : Type 0} (number_to_string : D → Bytes) {S : Type 0} where
  unfoldable pub zrangebylex_double : Bytes → D → D → Callback → Client S → Client S
  unfolding zrangebylex_full
  zrangebylex_double key min max callback c =
      zrangebylex_full key (number_to_string min) (number_to_string max) false 0 0 false callback c

  unfoldable pub zrangebylex_double_withscores :
      Bytes → D → D → Bool → Callback → Client S → Client S
  unfolding zrangebylex_full
  zrangebylex_double_withscores key min max withscores callback c =
      zrangebylex_full key (number_to_string min) (number_to_string max) false 0 0 withscores
        callback c

  unfoldable pub zrangebylex_double_offset_count :
      Bytes → D → D → ℕ → ℕ → Callback → Client S → Client S
  unfolding zrangebylex_full
  zrangebylex_double_offset_count key min max offset count callback c =
      zrangebylex_full key (number_to_string min) (number_to_string max) true offset count false
        callback c

  unfoldable pub zrangebylex_double_offset_count_withscores :
      Bytes → D → D → ℕ → ℕ → Bool → Callback → Client S → Client S
  unfolding zrangebylex_full
  zrangebylex_double_offset_count_withscores key min max offset count withscores callback c =
      zrangebylex_full key (number_to_string min) (number_to_string max) true offset count
        withscores callback c

  unfoldable pub zrangebyscore_double : Bytes → D → D → Callback → Client S → Client S
  unfolding zrangebyscore_full
  zrangebyscore_double key min max callback c =
      zrangebyscore_full key (number_to_string min) (number_to_string max) false 0 0 false callback
        c

  unfoldable pub zrangebyscore_double_withscores :
      Bytes → D → D → Bool → Callback → Client S → Client S
  unfolding zrangebyscore_full
  zrangebyscore_double_withscores key min max withscores callback c =
      zrangebyscore_full key (number_to_string min) (number_to_string max) false 0 0 withscores
        callback c

  unfoldable pub zrangebyscore_double_offset_count :
      Bytes → D → D → ℕ → ℕ → Callback → Client S → Client S
  unfolding zrangebyscore_full
  zrangebyscore_double_offset_count key min max offset count callback c =
      zrangebyscore_full key (number_to_string min) (number_to_string max) true offset count false
        callback c

  unfoldable pub zrangebyscore_double_offset_count_withscores :
      Bytes → D → D → ℕ → ℕ → Bool → Callback → Client S → Client S
  unfolding zrangebyscore_full
  zrangebyscore_double_offset_count_withscores key min max offset count withscores callback c =
      zrangebyscore_full key (number_to_string min) (number_to_string max) true offset count
        withscores callback c

  unfoldable pub zrevrangebylex_double : Bytes → D → D → Callback → Client S → Client S
  unfolding zrevrangebylex_full
  zrevrangebylex_double key max min callback c =
      zrevrangebylex_full key (number_to_string max) (number_to_string min) false 0 0 false callback
        c

  unfoldable pub zrevrangebylex_double_withscores :
      Bytes → D → D → Bool → Callback → Client S → Client S
  unfolding zrevrangebylex_full
  zrevrangebylex_double_withscores key max min withscores callback c =
      zrevrangebylex_full key (number_to_string max) (number_to_string min) false 0 0 withscores
        callback c

  unfoldable pub zrevrangebylex_double_offset_count :
      Bytes → D → D → ℕ → ℕ → Callback → Client S → Client S
  unfolding zrevrangebylex_full
  zrevrangebylex_double_offset_count key max min offset count callback c =
      zrevrangebylex_full key (number_to_string max) (number_to_string min) true offset count false
        callback c

  unfoldable pub zrevrangebylex_double_offset_count_withscores :
      Bytes → D → D → ℕ → ℕ → Bool → Callback → Client S → Client S
  unfolding zrevrangebylex_full
  zrevrangebylex_double_offset_count_withscores key max min offset count withscores callback c =
      zrevrangebylex_full key (number_to_string max) (number_to_string min) true offset count
        withscores callback c

  unfoldable pub zrevrangebyscore_double : Bytes → D → D → Callback → Client S → Client S
  unfolding zrevrangebyscore_full
  zrevrangebyscore_double key max min callback c =
      zrevrangebyscore_full key (number_to_string max) (number_to_string min) false 0 0 false
        callback c

  unfoldable pub zrevrangebyscore_double_withscores :
      Bytes → D → D → Bool → Callback → Client S → Client S
  unfolding zrevrangebyscore_full
  zrevrangebyscore_double_withscores key max min withscores callback c =
      zrevrangebyscore_full key (number_to_string max) (number_to_string min) false 0 0 withscores
        callback c

  unfoldable pub zrevrangebyscore_double_offset_count :
      Bytes → D → D → ℕ → ℕ → Callback → Client S → Client S
  unfolding zrevrangebyscore_full
  zrevrangebyscore_double_offset_count key max min offset count callback c =
      zrevrangebyscore_full key (number_to_string max) (number_to_string min) true offset count
        false callback c

  unfoldable pub zrevrangebyscore_double_offset_count_withscores :
      Bytes → D → D → ℕ → ℕ → Bool → Callback → Client S → Client S
  unfolding zrevrangebyscore_full
  zrevrangebyscore_double_offset_count_withscores key max min offset count withscores callback c =
      zrevrangebyscore_full key (number_to_string max) (number_to_string min) true offset count
        withscores callback c
