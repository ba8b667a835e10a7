-- ===== src/Examples/Socket.antt =====
-- A socket for the examples: it connects to any port but 0, keeps what is written and counts the
-- reads.
use cpp_redis.Prelude.{ℕ, ◌+◌, Bool, true, false, none, some, [], ◌++◌, Bytes, ◌==◌, if◌then◌else◌}
use cpp_redis.Network.TcpClient.{TcpClient}

pub record Socket : Type 0 where
  pub connected : Bool
  pub written : Bytes
  pub reads : ℕ

abbrev pub closed : Socket
closed = record { connected = false; written = []; reads = 0 }

abbrev pub opened : Socket
opened = record closed { connected = true }

abbrev pub loopback : TcpClient Socket
loopback = record {
  connect = λ host port timeout_msecs s.
      if port == 0
      then record { socket = s; failure = some "refused" }
      else record { socket = record s { connected = true }; failure = none };
  disconnect = λ wait_for_removal s. record s { connected = false };
  is_connected = λ s. s.connected;
  async_read = λ n s. record { socket = record s { reads = s.reads + 1 }; failure = none };
  async_write =
      λ bytes s. record { socket = record s { written = s.written ++ bytes }; failure = none };
  set_on_disconnection_handler = λ s. s;
}
