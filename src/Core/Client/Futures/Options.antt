-- ===== src/Core/Client/Futures/Options.antt =====
-- The commands of `client` with pairs, operations or options that give a future (sources/core/client.cpp).
use cpp_redis.Prelude.{Bytes, List, ℕ}
use cpp_redis.Core.Client.Commands.Options.{
  bitfield, hmset, hscan, mset, msetnx, scan, sscan, zscan,
}
use cpp_redis.Core.Client.Commands.Options.{BitfieldOperation}
use cpp_redis.Core.Client.Futures.{Promised, exec_cmd}

module _ {S : Type 0} where
  abbrev pub bitfield_future : Bytes → List BitfieldOperation → Promised S
  bitfield_future key operations = exec_cmd (bitfield key operations)

  abbrev pub hmset_future : Bytes → List (Bytes × Bytes) → Promised S
  hmset_future key field_val = exec_cmd (hmset key field_val)

  abbrev pub hscan_future : Bytes → ℕ → Bytes → ℕ → Promised S
  hscan_future key cursor pattern count = exec_cmd (hscan key cursor pattern count)

  abbrev pub mset_future : List (Bytes × Bytes) → Promised S
  mset_future key_vals = exec_cmd (mset key_vals)

  abbrev pub msetnx_future : List (Bytes × Bytes) → Promised S
  msetnx_future key_vals = exec_cmd (msetnx key_vals)

  abbrev pub scan_future : ℕ → Bytes → ℕ → Promised S
  scan_future cursor pattern count = exec_cmd (scan cursor pattern count)

  abbrev pub sscan_future : Bytes → ℕ → Bytes → ℕ → Promised S
  sscan_future key cursor pattern count = exec_cmd (sscan key cursor pattern count)

  abbrev pub zscan_future : Bytes → ℕ → Bytes → ℕ → Promised S
  zscan_future key cursor pattern count = exec_cmd (zscan key cursor pattern count)
