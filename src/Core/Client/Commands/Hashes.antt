-- ===== src/Core/Client/Commands/Hashes.antt =====
-- The commands of `client` on hashes (sources/core/client.cpp).
use cpp_redis.Prelude.{Bytes, List, [], codes, int_to_string, ℤ, ◌∷◌}
use cpp_redis.Core.Client.{Client, Callback, send}

module _ {S : Type 0} where
  unfoldable pub hdel : Bytes → List Bytes → Callback → Client S → Client S
  unfolding send
  hdel key fields callback c = send (codes "HDEL" ∷ key ∷ fields) callback c

  unfoldable pub hexists : Bytes → Bytes → Callback → Client S → Client S
  unfolding send
  hexists key field callback c = send (codes "HEXISTS" ∷ key ∷ field ∷ []) callback c

  unfoldable pub hget : Bytes → Bytes → Callback → Client S → Client S
  unfolding send
  hget key field callback c = send (codes "HGET" ∷ key ∷ field ∷ []) callback c

  unfoldable pub hgetall : Bytes → Callback → Client S → Client S
  unfolding send
  hgetall key callback c = send (codes "HGETALL" ∷ key ∷ []) callback c

  unfoldable pub hincrby : Bytes → Bytes → ℤ → Callback → Client S → Client S
  unfolding send
  hincrby key field incr callback c =
      send (codes "HINCRBY" ∷ key ∷ field ∷ int_to_string incr ∷ []) callback c

  unfoldable pub hkeys : Bytes → Callback → Client S → Client S
  unfolding send
  hkeys key callback c = send (codes "HKEYS" ∷ key ∷ []) callback c

  unfoldable pub hlen : Bytes → Callback → Client S → Client S
  unfolding send
  hlen key callback c = send (codes "HLEN" ∷ key ∷ []) callback c

  unfoldable pub hmget : Bytes → List Bytes → Callback → Client S → Client S
  unfolding send
  hmget key fields callback c = send (codes "HMGET" ∷ key ∷ fields) callback c

  unfoldable pub hset : Bytes → Bytes → Bytes → Callback → Client S → Client S
  unfolding send
  hset key field value callback c = send (codes "HSET" ∷ key ∷ field ∷ value ∷ []) callback c

  unfoldable pub hsetnx : Bytes → Bytes → Bytes → Callback → Client S → Client S
  unfolding send
  hsetnx key field value callback c = send (codes "HSETNX" ∷ key ∷ field ∷ value ∷ []) callback c

  unfoldable pub hstrlen : Bytes → Bytes → Callback → Client S → Client S
  unfolding send
  hstrlen key field callback c = send (codes "HSTRLEN" ∷ key ∷ field ∷ []) callback c

  unfoldable pub hvals : Bytes → Callback → Client S → Client S
  unfolding send
  hvals key callback c = send (codes "HVALS" ∷ key ∷ []) callback c
