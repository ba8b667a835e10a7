-- ===== src/Core/Client/Commands/Lists.antt =====
-- The commands of `client` on lists (sources/core/client.cpp).
use cpp_redis.Prelude.{Bytes, List, [], codes, int_to_string, ℤ, ◌++◌, ◌∷◌}
use cpp_redis.Core.Client.{Client, Callback, send}

module _ {S : Type 0} where
  unfoldable pub blpop : List Bytes → ℤ → Callback → Client S → Client S
  unfolding send
  blpop keys timeout callback c =
      send (codes "BLPOP" ∷ (keys ++ int_to_string timeout ∷ [])) callback c

  unfoldable pub brpop : List Bytes → ℤ → Callback → Client S → Client S
  unfolding send
  brpop keys timeout callback c =
      send (codes "BRPOP" ∷ (keys ++ int_to_string timeout ∷ [])) callback c

  unfoldable pub brpoplpush : Bytes → Bytes → ℤ → Callback → Client S → Client S
  unfolding send
  brpoplpush src dst timeout callback c =
      send (codes "BRPOPLPUSH" ∷ src ∷ dst ∷ int_to_string timeout ∷ []) callback c

  unfoldable pub lindex : Bytes → ℤ → Callback → Client S → Client S
  unfolding send
  lindex key index callback c = send (codes "LINDEX" ∷ key ∷ int_to_string index ∷ []) callback c

  unfoldable pub linsert : Bytes → Bytes → Bytes → Bytes → Callback → Client S → Client S
  unfolding send
  linsert key before_after pivot value callback c =
      send (codes "LINSERT" ∷ key ∷ before_after ∷ pivot ∷ value ∷ []) callback c

  unfoldable pub llen : Bytes → Callback → Client S → Client S
  unfolding send
  llen key callback c = send (codes "LLEN" ∷ key ∷ []) callback c

  unfoldable pub lpop : Bytes → Callback → Client S → Client S
  unfolding send
  lpop key callback c = send (codes "LPOP" ∷ key ∷ []) callback c

  unfoldable pub lpush : Bytes → List Bytes → Callback → Client S → Client S
  unfolding send
  lpush key values callback c = send (codes "LPUSH" ∷ key ∷ values) callback c

  unfoldable pub lpushx : Bytes → Bytes → Callback → Client S → Client S
  unfolding send
  lpushx key value callback c = send (codes "LPUSHX" ∷ key ∷ value ∷ []) callback c

  unfoldable pub lrange : Bytes → ℤ → ℤ → Callback → Client S → Client S
  unfolding send
  lrange key start stop callback c =
      send (codes "LRANGE" ∷ key ∷ int_to_string start ∷ int_to_string stop ∷ []) callback c

  unfoldable pub lrem : Bytes → ℤ → Bytes → Callback → Client S → Client S
  unfolding send
  lrem key count value callback c =
      send (codes "LREM" ∷ key ∷ int_to_string count ∷ value ∷ []) callback c

  unfoldable pub lset : Bytes → ℤ → Bytes → Callback → Client S → Client S
  unfolding send
  lset key index value callback c =
      send (codes "LSET" ∷ key ∷ int_to_string index ∷ value ∷ []) callback c

  unfoldable pub ltrim : Bytes → ℤ → ℤ → Callback → Client S → Client S
  unfolding send
  ltrim key start stop callback c =
      send (codes "LTRIM" ∷ key ∷ int_to_string start ∷ int_to_string stop ∷ []) callback c

  unfoldable pub rpop : Bytes → Callback → Client S → Client S
  unfolding send
  rpop key callback c = send (codes "RPOP" ∷ key ∷ []) callback c

  unfoldable pub rpoplpush : Bytes → Bytes → Callback → Client S → Client S
  unfolding send
  rpoplpush source destination callback c =
      send (codes "RPOPLPUSH" ∷ source ∷ destination ∷ []) callback c

  unfoldable pub rpush : Bytes → List Bytes → Callback → Client S → Client S
  unfolding send
  rpush key values callback c = send (codes "RPUSH" ∷ key ∷ values) callback c

  unfoldable pub rpushx : Bytes → Bytes → Callback → Client S → Client S
  unfolding send
  rpushx key value callback c = send (codes "RPUSHX" ∷ key ∷ value ∷ []) callback c
