-- ===== src/Core/Client/Futures/Scans.antt =====
-- The commands of `client` that scan that give a future (sources/core/client.cpp).
use cpp_redis.Prelude.{Bytes, ℕ}
use cpp_redis.Core.Client.Commands.Scans.{
  hscan_from, hscan_from_pattern, hscan_from_count, scan_from, scan_from_pattern, scan_from_count,
  sscan_from, sscan_from_pattern, sscan_from_count, zscan_from, zscan_from_pattern,
  zscan_from_count,
}
use cpp_redis.Core.Client.Futures.{Promised, exec_cmd}

module _ {S : Type 0} where
  abbrev pub hscan_from_future : Bytes → ℕ → Promised S
  hscan_from_future key cursor = exec_cmd (hscan_from key cursor)

  abbrev pub hscan_from_pattern_future : Bytes → ℕ → Bytes → Promised S
  hscan_from_pattern_future key cursor pattern = exec_cmd (hscan_from_pattern key cursor pattern)

  abbrev pub hscan_from_count_future : Bytes → ℕ → ℕ → Promised S
  hscan_from_count_future key cursor count = exec_cmd (hscan_from_count key cursor count)

  abbrev pub scan_from_future : ℕ → Promised S
  scan_from_future cursor = exec_cmd (scan_from cursor)

  abbrev pub scan_from_pattern_future : ℕ → Bytes → Promised S
  scan_from_pattern_future cursor pattern = exec_cmd (scan_from_pattern cursor pattern)

  abbrev pub scan_from_count_future : ℕ → ℕ → Promised S
  scan_from_count_future cursor count = exec_cmd (scan_from_count cursor count)

  abbrev pub sscan_from_future : Bytes → ℕ → Promised S
  sscan_from_future key cursor = exec_cmd (sscan_from key cursor)

  abbrev pub sscan_from_pattern_future : Bytes → ℕ → Bytes → Promised S
  sscan_from_pattern_future key cursor pattern = exec_cmd (sscan_from_pattern key cursor pattern)

  abbrev pub sscan_from_count_future : Bytes → ℕ → ℕ → Promised S
  sscan_from_count_future key cursor count = exec_cmd (sscan_from_count key cursor count)

  abbrev pub zscan_from_future : Bytes → ℕ → Promised S
  zscan_from_future key cursor = exec_cmd (zscan_from key cursor)

  abbrev pub zscan_from_pattern_future : Bytes → ℕ → Bytes → Promised S
  zscan_from_pattern_future key cursor pattern = exec_cmd (zscan_from_pattern key cursor pattern)

  abbrev pub zscan_from_count_future : Bytes → ℕ → ℕ → Promised S
  zscan_from_count_future key cursor count = exec_cmd (zscan_from_count key cursor count)
