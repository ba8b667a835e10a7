-- ===== src/Core/Client/Futures/Killing.antt =====
-- `client::client_kill_future` (includes/cpp_redis/impl/client.ipp).
use cpp_redis.Prelude.{Bytes, List, ℤ}
use cpp_redis.Core.Client.Commands.Killing.{KillFilter, client_kill, client_kill_address}
use cpp_redis.Core.Client.Futures.{Promised, exec_cmd}

module _ {S : Type 0} where
  abbrev pub client_kill_future : KillFilter → List KillFilter → Promised S
  client_kill_future arg args = exec_cmd (client_kill arg args)

  abbrev pub client_kill_address_future : Bytes → ℤ → List KillFilter → Promised S
  client_kill_address_future host port args = exec_cmd (client_kill_address host port args)
