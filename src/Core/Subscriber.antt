-- ===== src/Core/Subscriber.antt =====
-- The class `subscriber` (includes/cpp_redis/core/subscriber.hpp, sources/core/subscriber.cpp), as its
-- default constructor makes it: the connection and the sentinel have a socket each. Mutexes are not
-- modelled: a call is one step. A callback of the user is its number.
pub mod Receiving
pub mod Reconnecting
pub mod Latest
pub mod ComingIn
pub mod Delivery
pub mod Kept
pub mod Attempts
pub mod Resubscribing
pub mod Auth
pub mod Ordered
pub mod Steps
pub mod Resumed
use cpp_redis.Prelude.{
  ℕ, Bool, true, false, Option, none, some, List, [], ◌∷◌, Bytes, codes, ℤ, pos, if◌then◌else◌,
  find, insert, erase,
}
use cpp_redis.Reply.{Reply}
use cpp_redis.Network.TcpClient.{TcpClient}
use cpp_redis.Network.Connection
use cpp_redis.Network.Connection.{Connection, redis_connection}
use cpp_redis.Core.Call.{Call}
use cpp_redis.Core.Sentinel
use cpp_redis.Core.Sentinel.{Sentinel, sentinel}

-- `callback_holder`: each callback may be null.
pub record CallbackHolder : Type 0 where
  pub subscribe_callback : Option ℕ
  pub acknowledgement_callback : Option ℕ

-- `std::map<std::string, callback_holder>`
abbrev pub Channels : Type 0
Channels = List (Bytes × CallbackHolder)

-- A `reply_callback_t`: null, one of the user's, or the one of `re_auth`.
pub data Callback : Type 0 where
  null : Callback
  user : ℕ → Callback
  logs_ok : Callback

-- `connect_state`
pub data ConnectState : Type 0 where
  dropped start sleeping ok failed lookup_failed stopped : ConnectState

-- The members; `m_connect_callback` is kept as whether it is set.
pub record Subscriber (S : Type 0) : Type 0 where
  pub redis_server : Bytes
  pub redis_port : ℕ
  pub master_name : Bytes
  pub password : Bytes
  pub client : Connection S
  pub sentinel : Sentinel S
  pub connect_timeout_msecs : ℕ
  pub max_reconnects : ℤ
  pub current_reconnect_attempts : ℕ
  pub reconnect_interval_msecs : ℕ
  pub reconnecting : Bool
  pub cancel : Bool
  pub subscribed_channels : Channels
  pub psubscribed_channels : Channels
  pub has_connect_callback : Bool
  pub auth_reply_callback : Callback

-- A call of a callback of the user.
pub data Event : Type 0 where
  auth_reply : ℕ → Reply → Event
  -- the channel and the message
  message : ℕ → Bytes → Bytes → Event
  -- the number of channels
  acknowledgement : ℕ → ℤ → Event
  connect_event : Bytes → ℕ → ConnectState → Event

abbrev pub Ran : Type 0 → Type 0
Ran S = Call (Subscriber S) Event

module _ {S : Type 0} where
  -- The constructor, on the sockets of the connection and of the sentinel.
  abbrev pub subscriber : S → S → Subscriber S
  subscriber tcp_client sentinel_tcp_client = record {
    redis_server = [];
    redis_port = 0;
    master_name = [];
    password = [];
    client = redis_connection tcp_client;
    sentinel = sentinel sentinel_tcp_client;
    connect_timeout_msecs = 0;
    max_reconnects = pos 0;
    current_reconnect_attempts = 0;
    reconnect_interval_msecs = 0;
    reconnecting = false;
    cancel = false;
    subscribed_channels = [];
    psubscribed_channels = [];
    has_connect_callback = false;
    auth_reply_callback = null;
  }

  unfoldable pub add_sentinel : Bytes → ℕ → ℕ → Subscriber S → Subscriber S
  add_sentinel host port timeout_msecs s = record s {
    sentinel = Sentinel.add_sentinel host port timeout_msecs s.sentinel;
  }

  unfoldable pub clear_sentinels : Subscriber S → Subscriber S
  clear_sentinels s = record s { sentinel = Sentinel.clear_sentinels s.sentinel }

  abbrev pub cancel_reconnect : Subscriber S → Subscriber S
  cancel_reconnect s = record s { cancel = true }

  -- `m_client.send`
  unfoldable pub sent : List Bytes → Subscriber S → Subscriber S
  sent redis_cmd s = record s { client = Connection.send s.client redis_cmd }

  unfoldable pub auth : Bytes → Callback → Subscriber S → Subscriber S
  unfolding sent
  auth password reply_callback s =
      sent (codes "AUTH" ∷ password ∷ [])
        (record s { password = password; auth_reply_callback = reply_callback })

  unfoldable pub unprotected_subscribe : Bytes → CallbackHolder → Subscriber S → Subscriber S
  unfolding sent insert
  unprotected_subscribe channel holder s =
      sent (codes "SUBSCRIBE" ∷ channel ∷ [])
        (record s { subscribed_channels = insert channel holder s.subscribed_channels })

  unfoldable pub unprotected_psubscribe : Bytes → CallbackHolder → Subscriber S → Subscriber S
  unfolding sent insert
  unprotected_psubscribe pattern_ holder s =
      sent (codes "PSUBSCRIBE" ∷ pattern_ ∷ [])
        (record s { psubscribed_channels = insert pattern_ holder s.psubscribed_channels })

  unfoldable pub subscribe : Bytes → Option ℕ → Option ℕ → Subscriber S → Subscriber S
  unfolding unprotected_subscribe
  subscribe channel callback acknowledgement_callback s =
      unprotected_subscribe channel
        (record {
          subscribe_callback = callback;
          acknowledgement_callback = acknowledgement_callback;
        })
        s

  unfoldable pub psubscribe : Bytes → Option ℕ → Option ℕ → Subscriber S → Subscriber S
  unfolding unprotected_psubscribe
  psubscribe pattern_ callback acknowledgement_callback s =
      unprotected_psubscribe pattern_
        (record {
          subscribe_callback = callback;
          acknowledgement_callback = acknowledgement_callback;
        })
        s

  -- Behind the search: a channel that is not there is passed over.
  unfoldable pub unsubscribed : Bytes → Option CallbackHolder → Subscriber S → Subscriber S
  unfolding sent erase
  unsubscribed channel none s = s
  unsubscribed channel (some holder) s =
      let s' = sent (codes "UNSUBSCRIBE" ∷ channel ∷ []) s in
      record s' { subscribed_channels = erase channel s'.subscribed_channels }

  unfoldable pub punsubscribed : Bytes → Option CallbackHolder → Subscriber S → Subscriber S
  unfolding sent erase
  punsubscribed pattern_ none s = s
  punsubscribed pattern_ (some holder) s =
      let s' = sent (codes "PUNSUBSCRIBE" ∷ pattern_ ∷ []) s in
      record s' { psubscribed_channels = erase pattern_ s'.psubscribed_channels }

  unfoldable pub unsubscribe : Bytes → Subscriber S → Subscriber S
  unfolding unsubscribed find
  unsubscribe channel s = unsubscribed channel (find channel s.subscribed_channels) s

  unfoldable pub punsubscribe : Bytes → Subscriber S → Subscriber S
  unfolding punsubscribed find
  punsubscribe pattern_ s = punsubscribed pattern_ (find pattern_ s.psubscribed_channels) s

  unfoldable pub clear_subscriptions : Subscriber S → Subscriber S
  clear_subscriptions s = record s { subscribed_channels = []; psubscribed_channels = [] }

  -- `m_connect_callback(m_redis_server, m_redis_port, state)`, where it is set
  abbrev pub notify : Bytes → ℕ → ConnectState → Subscriber S → List Event
  notify host port state s =
      if s.has_connect_callback then connect_event host port state ∷ [] else []

  abbrev pub notified : ConnectState → Subscriber S → Ran S
  notified state s = record {
    state = s;
    events = notify s.redis_server s.redis_port state s;
    thrown = none;
  }
