-- ===== src/Core/Client/Stalled.antt =====
-- The callback of `client::re_auth` and `client::re_select` (sources/core/client.cpp) on a reply that
-- is no string.
use cpp_redis.Prelude.{ℕ, ◌+◌, List, ◌∷◌, Bytes}
use cpp_redis.Error.{Exception, redis_error}
use cpp_redis.Reply.{Reply}
use cpp_redis.Network.TcpClient.{TcpClient}
use cpp_redis.Network.Connection
use cpp_redis.Network.Connection.Listening.{listening}
use cpp_redis.Core.Retries.{Meanwhile}
use cpp_redis.Core.Client.{Client, CommandRequest, logs_ok}

module _ {S : Type 0} (T : TcpClient S) (f : ℕ) (meanwhile : ℕ → Meanwhile) where
  -- A listening client whose oldest command is one of a reconnection.
  abbrev pub logging : List Bytes → List CommandRequest → Client S → Client S
  logging words rest c = record c {
    client = listening c.client;
    commands = record { command = words; callback = logs_ok } ∷ rest;
  }

  -- The client once the callback has thrown.
  abbrev thrown_in : List CommandRequest → Client S → Client S
  thrown_in rest c = record c { commands = rest; callbacks_running = c.callbacks_running + 1 }

  abbrev no_string : Exception
  no_string = redis_error "Reply is not a string"
