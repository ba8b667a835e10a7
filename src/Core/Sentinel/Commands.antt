-- ===== src/Core/Sentinel/Commands.antt =====
-- The commands of `sentinel` (sources/core/sentinel.cpp), each stored in the send buffer.
use cpp_redis.Prelude.{ℕ, [], ◌∷◌, Bytes, codes, to_string}
use cpp_redis.Core.Sentinel.{Sentinel, Callback, send}

abbrev word : Bytes
word = codes "SENTINEL"

module _ {S : Type 0} where
  unfoldable pub ping : Callback → Sentinel S → Sentinel S
  unfolding send
  ping reply_callback = send (codes "PING" ∷ []) reply_callback

  unfoldable pub masters : Callback → Sentinel S → Sentinel S
  unfolding send
  masters reply_callback = send (word ∷ codes "MASTERS" ∷ []) reply_callback

  unfoldable pub master : Bytes → Callback → Sentinel S → Sentinel S
  unfolding send
  master name reply_callback = send (word ∷ codes "MASTER" ∷ name ∷ []) reply_callback

  unfoldable pub slaves : Bytes → Callback → Sentinel S → Sentinel S
  unfolding send
  slaves name reply_callback = send (word ∷ codes "SLAVES" ∷ name ∷ []) reply_callback

  unfoldable pub sentinels : Bytes → Callback → Sentinel S → Sentinel S
  unfolding send
  sentinels name reply_callback = send (word ∷ codes "SENTINELS" ∷ name ∷ []) reply_callback

  unfoldable pub ckquorum : Bytes → Callback → Sentinel S → Sentinel S
  unfolding send
  ckquorum name reply_callback = send (word ∷ codes "CKQUORUM" ∷ name ∷ []) reply_callback

  unfoldable pub failover : Bytes → Callback → Sentinel S → Sentinel S
  unfolding send
  failover name reply_callback = send (word ∷ codes "FAILOVER" ∷ name ∷ []) reply_callback

  unfoldable pub reset : Bytes → Callback → Sentinel S → Sentinel S
  unfolding send
  reset pattern reply_callback = send (word ∷ codes "RESET" ∷ pattern ∷ []) reply_callback

  unfoldable pub flushconfig : Callback → Sentinel S → Sentinel S
  unfolding send
  flushconfig reply_callback = send (word ∷ codes "FLUSHCONFIG" ∷ []) reply_callback

  unfoldable pub monitor : Bytes → Bytes → ℕ → ℕ → Callback → Sentinel S → Sentinel S
  unfolding send
  monitor name ip port quorum reply_callback =
      send (word ∷ codes "MONITOR" ∷ name ∷ ip ∷ to_string port ∷ to_string quorum ∷ [])
        reply_callback

  unfoldable pub remove : Bytes → Callback → Sentinel S → Sentinel S
  unfolding send
  remove name reply_callback = send (word ∷ codes "REMOVE" ∷ name ∷ []) reply_callback

  unfoldable pub set : Bytes → Bytes → Bytes → Callback → Sentinel S → Sentinel S
  unfolding send
  set name option value reply_callback =
      send (word ∷ codes "SET" ∷ name ∷ option ∷ value ∷ []) reply_callback
