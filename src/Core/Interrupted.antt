-- ===== src/Core/Interrupted.antt =====
-- What the loop of `redis_connection::tcp_client_receive_handler`
-- (sources/network/redis_connection.cpp) leaves when a callback of its owner throws: the replies
-- behind the one that the callback got stay in the parser, and the next read is not asked for.
use cpp_redis.Prelude.{none, some, List, [], ◌∷◌, map, ◌≡◌, refl, ap}
use cpp_redis.Error.{Exception}
use cpp_redis.Reply.{Reply}
use cpp_redis.Network.Connection.{Connection, Event, reply_callback, disconnection_handler}
use cpp_redis.Core.Call.{Call}

-- The calls behind the one that throws, if one does.
unfoldable pub left : {X E : Type 0} → (Event → X → Call X E) → List Event → X → List Event
left handle [] x = []
left handle (e ∷ es) x =
    let r = handle e x in elim r.thrown [ none ↦ left handle es r.state | some t ↦ es ]

abbrev pub replies_in : List Event → List Reply
replies_in [] = []
replies_in (reply_callback r ∷ es) = r ∷ replies_in es
replies_in (disconnection_handler ∷ es) = replies_in es

-- The connection after the calls of the first list, the last of which threw, with the socket as it
-- was before and the calls that are left. Callbacks of replies do not touch the socket; behind the
-- disconnection handler there is nothing to put back.
abbrev pub put_back : {S : Type 0} → S → List Event → List Event → Connection S → Connection S
put_back socket [] rest c = c
put_back socket (disconnection_handler ∷ es) rest c = c
put_back socket (reply_callback r ∷ es) rest c = record c {
  client = socket;
  builder = record c.builder { available_replies = replies_in rest };
}

pub left-throws :
    {X E : Type 0} (handle : Event → X → Call X E) (e : Event) (es : List Event) (x : X)
    (t : Exception)
    → (handle e x).thrown ≡ some t
    → left handle (e ∷ es) x ≡ es
unfolding left
left-throws handle e es x t h = rw (left, h) refl

pub replies_in-map : (rs : List Reply) → replies_in (map reply_callback rs) ≡ rs
replies_in-map [] = refl
replies_in-map (r ∷ rs) = ap (λ (xs : List Reply). r ∷ xs) (replies_in-map rs)
