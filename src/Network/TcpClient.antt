-- ===== src/Network/TcpClient.antt =====
-- The interface `tcp_client_iface` (includes/cpp_redis/network/tcp_client_iface.hpp). Its
-- implementation is a socket library, or one that the user gives, so it is a parameter: functions on
-- a state `S` of its own. A call that throws a `std::exception` says so, with the text of `what()`.
use Prim.Native.String.{String}
use cpp_redis.Prelude.{ℕ, Bool, Option, Bytes}

pub record Called (S : Type 0) : Type 0 where
  pub socket : S
  pub failure : Option String

pub record TcpClient (S : Type 0) : Type 0 where
  -- host, port, timeout in milliseconds
  pub connect : Bytes → ℕ → ℕ → S → Called S
  -- whether to wait for the removal of the callbacks
  pub disconnect : Bool → S → S
  pub is_connected : S → Bool
  -- the number of bytes to read; the callback is `tcp_client_receive_handler`
  pub async_read : ℕ → S → Called S
  pub async_write : Bytes → S → Called S
  -- the handler is `tcp_client_disconnection_handler`
  pub set_on_disconnection_handler : S → S
