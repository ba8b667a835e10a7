-- ===== src/Examples/Sentinels.antt =====
-- The sentinel on a concrete socket.
use cpp_redis.Builders.BulkStringBuilder.{max_int}
use cpp_redis.Prelude.{
  ◌≡◌, ◌≢◌, refl, codes, ◌++◌, [], ◌∷◌, List, true, false, not, none, ◌==◌, pos, map, arith,
  to_string, length, ◌+◌, ◌≤◌,
}
use cpp_redis.Reply.{Reply, reply_integer}
use cpp_redis.Protocol.{no_items, item, encode}
use cpp_redis.Network.Connection
use cpp_redis.Core.Call.{ran}
use cpp_redis.Core.Sentinel.{Sentinel, sentinel, user, master_addr, packet, handle_all}
use cpp_redis.Core.Sentinel.Connecting.{get_master_addr_by_name, connect_sentinel}
use cpp_redis.Core.Sentinel.Lookup.{address, ready, asked, get_master_addr_by_name-address}
use cpp_redis.Core.Sentinel.Attempts.{Outcome, connect_sentinel-Outcome}
use cpp_redis.Core.Sentinel.Order.{calls, handle_all-calls}
use cpp_redis.Examples.Socket.{Socket, loopback, opened, closed}

abbrev online : Sentinel Socket
online = sentinel opened

port_size : length (to_string 6379) + 2 ≤ max_int
unfolding to_string
port_size = omega arith

get_master_addr_by_name-address_example :
    get_master_addr_by_name loopback
      (codes "mymaster")
      false
      (packet true (encode (item (address (codes "10.0.0.7") 6379) no_items)) ∷ [])
      (ready loopback online)
    ≡ (
      ran (record (ready loopback online) {
        client = asked loopback (codes "mymaster") online.client;
        host = codes "10.0.0.7";
        port = 6379;
      }),
      not (6379 == 0),
    )
get_master_addr_by_name-address_example =
    get_master_addr_by_name-address loopback (codes "mymaster") (codes "10.0.0.7") 6379 [] online
      refl refl (omega arith, (omega arith, (port_size, tt))) (omega arith)

abbrev two_known : Sentinel Socket
two_known = record (sentinel closed) {
  sentinels =
      record { host = codes "a"; port = 0; timeout_msecs = 100 }
      ∷ record { host = codes "b"; port = 26379; timeout_msecs = 100 }
      ∷ [];
}

two_known-nonempty : two_known.sentinels ≢ []
two_known-nonempty h = ground arith

connect_sentinel-Outcome_example : Outcome loopback true (connect_sentinel loopback true two_known)
connect_sentinel-Outcome_example =
    connect_sentinel-Outcome loopback (λ w c. refl) true two_known refl two_known-nonempty

abbrev two_replies : List Reply
two_replies = reply_integer (pos 1) ∷ reply_integer (pos 2) ∷ []

handle_all-calls_example :
    handle_all
      (map Connection.reply_callback two_replies)
      (record online { callbacks = map user (7 ∷ 8 ∷ []) ++ master_addr ∷ [] })
    ≡ record {
      state = record online { callbacks = master_addr ∷ [] };
      events = calls (7 ∷ 8 ∷ []) two_replies;
      thrown = none;
    }
handle_all-calls_example = handle_all-calls (7 ∷ 8 ∷ []) two_replies (master_addr ∷ []) online refl
