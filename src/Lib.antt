-- ===== src/Lib.antt =====
-- cpp_redis, a C++ client of the Redis server: models of its parser, its connection, its sentinel,
-- its client and its subscriber, and the theorems that make them correct.
--
-- The program. A `client` (sources/core/client.cpp), a `subscriber` (sources/core/subscriber.cpp)
-- and a `sentinel` (sources/core/sentinel.cpp) each hold a `redis_connection`
-- (sources/network/redis_connection.cpp), which keeps a send buffer of commands and a
-- `reply_builder` (sources/builders/reply_builder.cpp). The connection is on a `tcp_client_iface`.
-- What is read goes to the reply builder, which makes a builder by the first byte of each reply
-- (sources/builders/builders_factory.cpp); the builders of sources/builders consume the buffer and
-- keep what is missing for the next packet. Replies that are complete go to the owner's callback,
-- which takes the callback of the oldest command from its queue. A client that is disconnected
-- reconnects, asking the sentinels for the master where it was given a name. A subscriber has maps
-- of channels and patterns instead of the queue, takes messages to their callbacks, and subscribes
-- again when it has reconnected.
--
-- The files. `Prelude` has the numbers, lists and text that the others share, and `Error` the
-- exceptions. `Reply` is includes/cpp_redis/core/reply.hpp and sources/core/reply.cpp, with one
-- function for each member (`set_null`, `set_string`, `set_integer` and `set_rows` are the
-- overloads of `set`). `Builders` has a module for each class of sources/builders: `operator<<` is
-- `feed_integer`, `feed_simple_string`, `feed_error`, `feed_bulk_string`, `feed_array`, and `feed`
-- by dynamic dispatch; the one of `reply_builder` is `receive`. `Protocol` is a description of the
-- protocol that does not come from the code: values, their bytes and their replies.
-- `Network.TcpClient` is the interface of includes/cpp_redis/network/tcp_client_iface.hpp as a
-- parameter, `Network.Command` is `build_command`, and `Network.Connection` the class.
-- `Core.Sentinel`, with `Core.Sentinel.Connecting` and `Core.Sentinel.Commands`, is the sentinel;
-- `Core.Client`, with `Core.Client.Reconnecting`, `Core.Client.Waiting` (both forms of
-- `sync_commit`) and `Core.Client.Commands`, the client, and `Core.Client.Futures` its overloads
-- that give a future (a command that has several overloads has one definition for each, named for
-- what it adds); `Core.Subscriber`, with `Core.Subscriber.Receiving`,
-- `Core.Subscriber.Reconnecting` and `Core.Subscriber.ComingIn` (its handlers on the connection),
-- the subscriber, whose `std::map`s are the sorted lists of `Prelude.StringMap`; `Core.Call` is
-- what a call leaves, `Core.Interrupted` what the connection keeps where a callback throws,
-- `Core.Retries` the loop of the reconnections that both have, and `Core.Stoi` is `std::stoi`.
-- `Misc.Logger` is sources/misc/logger.cpp. The other modules hold proofs and are named for what
-- they prove. `Examples` has runs and the theorems at concrete inputs.
--
-- State is passed explicitly: an operation takes the members of its object and returns them, with
-- the calls of the user's callbacks as a list of events and the exception it throws, if any.
-- Members are returned also where something is thrown. Undefined behaviour of the source (signed
-- overflow, a read out of bounds, an integer that was never set) is the exception `undefined`, and
-- a wait that does not end is `never_returns`. A call that waits does not throw what the handlers
-- throw meanwhile, which run on the thread of the network (`on_its_thread`).
--
-- Bounds. Numbers are natural numbers or integers with the ranges of `int`, `int64_t` and `size_t`
-- written out where the source converts or may overflow. The loops of the builders run on fuel: two
-- more rounds than there are bytes, and one more level of nested arrays than there are levels open
-- and bytes left, because each further round and each further level consumes a byte. The
-- reconnection loop runs on as many rounds as its argument says; with a limit on the attempts, that
-- limit is enough. Without one (`max_reconnects` of -1) it need not end. Two counters have no bound
-- in the model: `m_current_reconnect_attempts`, an `int32_t`, which a limit keeps in its range, so
-- that it can overflow only after 2^31 attempts without a limit; and `m_callbacks_running`, an
-- `unsigned int`, which would wrap with 2^32 callbacks at a time. It is decreased only behind what
-- increased it before.
--
-- Not modelled: the constructor that shares one socket between the client or the subscriber and the
-- sentinel; the TCP client, which is I/O; the calls of the logger in the other parts. A call is one
-- step: the mutexes are not modelled, and no other thread runs in the middle of a call except where
-- a wait says so. A callback of the user is only recorded.
mod Prelude
pub mod Error
pub mod Reply
pub mod Builders
pub mod Protocol
pub mod Network
pub mod Core
pub mod Misc
mod Examples
