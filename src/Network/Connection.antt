-- ===== src/Network/Connection.antt =====
-- The class `redis_connection` (includes/cpp_redis/network/redis_connection.hpp,
-- sources/network/redis_connection.cpp). The mutex of the send buffer is not modelled: a call is one
-- step. A call of a callback of the owner is an event, in the order of the calls.
pub mod Pipeline
pub mod Receiving
pub mod Listening
use Prim.Native.String.{String}
use cpp_redis.Prelude.{
  ℕ, zero, suc, ◌^◌, ◌%◌, Bool, true, false, Option, none, some, List, [], ◌∷◌, ◌++◌, map, Bytes,
  if◌then◌else◌,
}
use cpp_redis.Error.{Exception, redis_error}
use cpp_redis.Reply.{Reply}
use cpp_redis.Builders.ReplyBuilder.{ReplyBuilder, Received, reply_builder, receive, reset}
use cpp_redis.Network.TcpClient.{TcpClient, Called}
use cpp_redis.Network.Command.{build_command}

-- `__CPP_REDIS_READ_SIZE`
abbrev pub read_size : ℕ
read_size = 4096

-- The members. Of the two callbacks only whether they are set is kept.
pub record Connection (S : Type 0) : Type 0 where
  pub client : S
  pub has_reply_callback : Bool
  pub has_disconnection_handler : Bool
  pub builder : ReplyBuilder
  pub buffer : Bytes

-- A call of the owner's callbacks.
pub data Event : Type 0 where
  reply_callback : Reply → Event
  disconnection_handler : Event

-- What a call leaves.
pub record Done (S : Type 0) : Type 0 where
  pub connection : Connection S
  pub events : List Event
  pub thrown : Option Exception

-- The reply is taken from the parser, and handed to the callback if there is one.
unfoldable pub reply_events : Bool → List Reply → List Event
reply_events true replies = map reply_callback replies
reply_events false replies = []

module _ {S : Type 0} where
  abbrev pub done : Connection S → Done S
  done c = record { connection = c; events = []; thrown = none }

  -- The constructor.
  abbrev pub redis_connection : S → Connection S
  redis_connection client = record {
    client = client;
    has_reply_callback = false;
    has_disconnection_handler = false;
    builder = reply_builder;
    buffer = [];
  }

  unfoldable pub send : Connection S → List Bytes → Connection S
  send c redis_cmd = record c { buffer = c.buffer ++ build_command redis_cmd }

  -- `call_disconnection_handler`
  unfoldable pub call_disconnection_handler : Connection S → List Event
  call_disconnection_handler c =
      if c.has_disconnection_handler then disconnection_handler ∷ [] else []

  -- `tcp_client_disconnection_handler`
  unfoldable pub tcp_client_disconnection_handler : Connection S → Done S
  unfolding call_disconnection_handler
  tcp_client_disconnection_handler c =
      let c' = record c { buffer = []; builder = reset c.builder } in
      record { connection = c'; events = call_disconnection_handler c'; thrown = none }

-- `catch (const std::exception& e) { throw redis_error(e.what()); }`
abbrev pub rethrown : Option String → Option Exception
rethrown none = none
rethrown (some what) = some (redis_error what)

module _ {S : Type 0} (T : TcpClient S) where
  open T use {
    connect as tcp_connect, disconnect as tcp_disconnect, is_connected as tcp_is_connected,
    async_read, async_write, set_on_disconnection_handler,
  }

  -- The read that is asked for once the socket is connected.
  first_read : Called S → Called S
  first_read r = elim r.failure [
    | none ↦ async_read read_size (set_on_disconnection_handler r.socket)
    | some what ↦ r
  ]

  -- The callbacks are kept only if nothing was thrown.
  unfoldable pub connected : Connection S → Bool → Bool → Called S → Done S
  connected c on_disconnection on_reply r = elim r.failure [
    | none ↦ done (record c {
      client = r.socket;
      has_reply_callback = on_reply;
      has_disconnection_handler = on_disconnection;
    })
    | some what ↦ record {
      connection = record c { client = r.socket };
      events = [];
      thrown = some (redis_error what);
    }
  ]

  -- `connect`; the two flags say whether the callbacks that are given are not null.
  unfoldable pub connect : Connection S → Bytes → ℕ → Bool → Bool → ℕ → Done S
  unfolding connected first_read
  connect c host port on_disconnection on_reply timeout_msecs =
      connected c on_disconnection on_reply
        (first_read (tcp_connect host (port % 2 ^ 32) timeout_msecs c.client))

  unfoldable pub disconnect : Bool → Connection S → Connection S
  disconnect wait_for_removal c = record c {
    client = tcp_disconnect wait_for_removal c.client;
    buffer = [];
    builder = reset c.builder;
  }

  unfoldable pub is_connected : Connection S → Bool
  is_connected c = tcp_is_connected c.client

  -- The buffer is moved out of the connection before the write is tried.
  unfoldable pub commit : Connection S → Done S
  commit c =
      let r = async_write c.buffer c.client in
      record {
        connection = record c { client = r.socket; buffer = [] };
        events = [];
        thrown = rethrown r.failure;
      }

  -- The replies are all there: each is taken out and handed over, and the next read is asked for,
  -- where the callbacks return: `Core.Interrupted` is what is left where one throws. If the read throws, the client has been disconnected meanwhile, and the exception ends here.
  unfoldable pub hand_over : Connection S → ReplyBuilder → Done S
  unfolding reply_events
  hand_over c b = record {
    connection = record c {
      client = (async_read read_size c.client).socket;
      builder = record b { available_replies = [] };
    };
    events = reply_events c.has_reply_callback b.available_replies;
    thrown = none;
  }

  -- Only a `redis_error` is caught: it calls the disconnection handler, and no further read is asked
  -- for.
  unfoldable pub packet_read : Connection S → Received → Done S
  packet_read c r = elim r.thrown [
    | none ↦ hand_over c r.state
    | some (redis_error what) ↦ record {
      connection = record c { builder = r.state };
      events = call_disconnection_handler c;
      thrown = none;
    }
    | some e ↦ record { connection = record c { builder = r.state }; events = []; thrown = some e }
  ]

  -- `tcp_client_receive_handler`, on the success and the bytes of a `read_result`
  unfoldable pub tcp_client_receive_handler : Connection S → Bool → Bytes → Done S
  unfolding packet_read
  tcp_client_receive_handler c success bytes =
      if success then packet_read c (receive c.builder bytes) else done c
