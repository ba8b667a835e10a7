-- ===== src/Core/Client/Commands/Scans.antt =====
-- The overloads of the scans of `client` (sources/core/client.cpp).
use cpp_redis.Prelude.{ℕ, [], Bytes}
use cpp_redis.Core.Client.{Client, Callback}
use cpp_redis.Core.Client.Commands.Options.{scan, hscan, sscan, zscan}

module _ {S : Type 0} where
  unfoldable pub hscan_from : Bytes → ℕ → Callback → Client S → Client S
  unfolding hscan
  hscan_from key cursor callback c = hscan key cursor [] 0 callback c

  unfoldable pub hscan_from_pattern : Bytes → ℕ → Bytes → Callback → Client S → Client S
  unfolding hscan
  hscan_from_pattern key cursor pattern callback c = hscan key cursor pattern 0 callback c

  unfoldable pub hscan_from_count : Bytes → ℕ → ℕ → Callback → Client S → Client S
  unfolding hscan
  hscan_from_count key cursor count callback c = hscan key cursor [] count callback c

  unfoldable pub scan_from : ℕ → Callback → Client S → Client S
  unfolding scan
  scan_from cursor callback c = scan cursor [] 0 callback c

  unfoldable pub scan_from_pattern : ℕ → Bytes → Callback → Client S → Client S
  unfolding scan
  scan_from_pattern cursor pattern callback c = scan cursor pattern 0 callback c

  unfoldable pub scan_from_count : ℕ → ℕ → Callback → Client S → Client S
  unfolding scan
  scan_from_count cursor count callback c = scan cursor [] count callback c

  unfoldable pub sscan_from : Bytes → ℕ → Callback → Client S → Client S
  unfolding sscan
  sscan_from key cursor callback c = sscan key cursor [] 0 callback c

  unfoldable pub sscan_from_pattern : Bytes → ℕ → Bytes → Callback → Client S → Client S
  unfolding sscan
  sscan_from_pattern key cursor pattern callback c = sscan key cursor pattern 0 callback c

  unfoldable pub sscan_from_count : Bytes → ℕ → ℕ → Callback → Client S → Client S
  unfolding sscan
  sscan_from_count key cursor count callback c = sscan key cursor [] count callback c

  unfoldable pub zscan_from : Bytes → ℕ → Callback → Client S → Client S
  unfolding zscan
  zscan_from key cursor callback c = zscan key cursor [] 0 callback c

  unfoldable pub zscan_from_pattern : Bytes → ℕ → Bytes → Callback → Client S → Client S
  unfolding zscan
  zscan_from_pattern key cursor pattern callback c = zscan key cursor pattern 0 callback c

  unfoldable pub zscan_from_count : Bytes → ℕ → ℕ → Callback → Client S → Client S
  unfolding zscan
  zscan_from_count key cursor count callback c = zscan key cursor [] count callback c
