-- ===== src/Core/Client/Commands/Sets.antt =====
-- The commands of `client` on sets (sources/core/client.cpp).
use cpp_redis.Prelude.{Bytes, List, [], codes, int_to_string, ℤ, ◌∷◌}
use cpp_redis.Core.Client.{Client, Callback, send}

module _ {S : Type 0} where
  unfoldable pub sadd : Bytes → List Bytes → Callback → Client S → Client S
  unfolding send
  sadd key members callback c = send (codes "SADD" ∷ key ∷ members) callback c

  unfoldable pub scard : Bytes → Callback → Client S → Client S
  unfolding send
  scard key callback c = send (codes "SCARD" ∷ key ∷ []) callback c

  unfoldable pub sdiff : List Bytes → Callback → Client S → Client S
  unfolding send
  sdiff keys callback c = send (codes "SDIFF" ∷ keys) callback c

  unfoldable pub sdiffstore : Bytes → List Bytes → Callback → Client S → Client S
  unfolding send
  sdiffstore destination keys callback c = send (codes "SDIFFSTORE" ∷ destination ∷ keys) callback c

  unfoldable pub sinter : List Bytes → Callback → Client S → Client S
  unfolding send
  sinter keys callback c = send (codes "SINTER" ∷ keys) callback c

  unfoldable pub sinterstore : Bytes → List Bytes → Callback → Client S → Client S
  unfolding send
  sinterstore destination keys callback c =
      send (codes "SINTERSTORE" ∷ destination ∷ keys) callback c

  unfoldable pub sismember : Bytes → Bytes → Callback → Client S → Client S
  unfolding send
  sismember key member callback c = send (codes "SISMEMBER" ∷ key ∷ member ∷ []) callback c

  unfoldable pub smembers : Bytes → Callback → Client S → Client S
  unfolding send
  smembers key callback c = send (codes "SMEMBERS" ∷ key ∷ []) callback c

  unfoldable pub smove : Bytes → Bytes → Bytes → Callback → Client S → Client S
  unfolding send
  smove source destination member callback c =
      send (codes "SMOVE" ∷ source ∷ destination ∷ member ∷ []) callback c

  unfoldable pub spop : Bytes → Callback → Client S → Client S
  unfolding send
  spop key callback c = send (codes "SPOP" ∷ key ∷ []) callback c

  unfoldable pub spop_count : Bytes → ℤ → Callback → Client S → Client S
  unfolding send
  spop_count key count callback c = send (codes "SPOP" ∷ key ∷ int_to_string count ∷ []) callback c

  unfoldable pub srandmember : Bytes → Callback → Client S → Client S
  unfolding send
  srandmember key callback c = send (codes "SRANDMEMBER" ∷ key ∷ []) callback c

  unfoldable pub srandmember_count : Bytes → ℤ → Callback → Client S → Client S
  unfolding send
  srandmember_count key count callback c =
      send (codes "SRANDMEMBER" ∷ key ∷ int_to_string count ∷ []) callback c

  unfoldable pub srem : Bytes → List Bytes → Callback → Client S → Client S
  unfolding send
  srem key members callback c = send (codes "SREM" ∷ key ∷ members) callback c

  unfoldable pub sunion : List Bytes → Callback → Client S → Client S
  unfolding send
  sunion keys callback c = send (codes "SUNION" ∷ keys) callback c

  unfoldable pub sunionstore : Bytes → List Bytes → Callback → Client S → Client S
  unfolding send
  sunionstore destination keys callback c =
      send (codes "SUNIONSTORE" ∷ destination ∷ keys) callback c
