-- ===== src/Core/Client/Futures/Flags.antt =====
-- The commands of `client` with flags that give a future (sources/core/client.cpp).
use cpp_redis.Prelude.{Bool, Bytes, List, ℕ, ℤ}
use cpp_redis.Core.Client.Commands.Flags.{
  migrate, set_advanced, slowlog, slowlog_argument, zadd, zinterstore, zunionstore,
}
use cpp_redis.Core.Client.Commands.Flags.{AggregateMethod}
use cpp_redis.Core.Client.Futures.{Promised, exec_cmd}

module _ {S : Type 0} where
  abbrev pub migrate_future : Bytes → ℤ → Bytes → Bytes → ℤ → Bool → Bool → List Bytes → Promised S
  migrate_future host port key dest_db timeout copy replace keys =
      exec_cmd (migrate host port key dest_db timeout copy replace keys)

  abbrev pub set_advanced_future : Bytes → Bytes → Bool → ℤ → Bool → ℤ → Bool → Bool → Promised S
  set_advanced_future key value ex ex_sec px px_milli nx xx =
      exec_cmd (set_advanced key value ex ex_sec px px_milli nx xx)

  abbrev pub slowlog_future : Bytes → Promised S
  slowlog_future subcommand = exec_cmd (slowlog subcommand)

  abbrev pub slowlog_argument_future : Bytes → Bytes → Promised S
  slowlog_argument_future subcommand argument = exec_cmd (slowlog_argument subcommand argument)

  abbrev pub zadd_future : Bytes → List Bytes → List (Bytes × Bytes) → Promised S
  zadd_future key options score_members = exec_cmd (zadd key options score_members)

  abbrev pub zinterstore_future : Bytes → ℕ → List Bytes → List ℕ → AggregateMethod → Promised S
  zinterstore_future destination numkeys keys weights method =
      exec_cmd (zinterstore destination numkeys keys weights method)

  abbrev pub zunionstore_future : Bytes → ℕ → List Bytes → List ℕ → AggregateMethod → Promised S
  zunionstore_future destination numkeys keys weights method =
      exec_cmd (zunionstore destination numkeys keys weights method)
