-- ===== src/Core/Client/Commands/Strings.antt =====
-- The commands of `client` on strings (sources/core/client.cpp).
use cpp_redis.Prelude.{Bytes, List, [], codes, int_to_string, ℤ, ◌∷◌}
use cpp_redis.Core.Client.{Client, Callback, send}

module _ {S : Type 0} where
  unfoldable pub append : Bytes → Bytes → Callback → Client S → Client S
  unfolding send
  append key value callback c = send (codes "APPEND" ∷ key ∷ value ∷ []) callback c

  unfoldable pub bitcount : Bytes → Callback → Client S → Client S
  unfolding send
  bitcount key callback c = send (codes "BITCOUNT" ∷ key ∷ []) callback c

  unfoldable pub bitcount_start_end : Bytes → ℤ → ℤ → Callback → Client S → Client S
  unfolding send
  bitcount_start_end key start end callback c =
      send (codes "BITCOUNT" ∷ key ∷ int_to_string start ∷ int_to_string end ∷ []) callback c

  unfoldable pub bitop : Bytes → Bytes → List Bytes → Callback → Client S → Client S
  unfolding send
  bitop operation destkey keys callback c =
      send (codes "BITOP" ∷ operation ∷ destkey ∷ keys) callback c

  unfoldable pub bitpos : Bytes → ℤ → Callback → Client S → Client S
  unfolding send
  bitpos key bit callback c = send (codes "BITPOS" ∷ key ∷ int_to_string bit ∷ []) callback c

  unfoldable pub bitpos_start : Bytes → ℤ → ℤ → Callback → Client S → Client S
  unfolding send
  bitpos_start key bit start callback c =
      send (codes "BITPOS" ∷ key ∷ int_to_string bit ∷ int_to_string start ∷ []) callback c

  unfoldable pub bitpos_start_end : Bytes → ℤ → ℤ → ℤ → Callback → Client S → Client S
  unfolding send
  bitpos_start_end key bit start end callback c =
      send (codes "BITPOS" ∷ key ∷ int_to_string bit ∷ int_to_string start ∷ int_to_string end ∷ [])
        callback c

  unfoldable pub decr : Bytes → Callback → Client S → Client S
  unfolding send
  decr key callback c = send (codes "DECR" ∷ key ∷ []) callback c

  unfoldable pub decrby : Bytes → ℤ → Callback → Client S → Client S
  unfolding send
  decrby key val callback c = send (codes "DECRBY" ∷ key ∷ int_to_string val ∷ []) callback c

  unfoldable pub get : Bytes → Callback → Client S → Client S
  unfolding send
  get key callback c = send (codes "GET" ∷ key ∷ []) callback c

  unfoldable pub getbit : Bytes → ℤ → Callback → Client S → Client S
  unfolding send
  getbit key offset callback c = send (codes "GETBIT" ∷ key ∷ int_to_string offset ∷ []) callback c

  unfoldable pub getrange : Bytes → ℤ → ℤ → Callback → Client S → Client S
  unfolding send
  getrange key start end callback c =
      send (codes "GETRANGE" ∷ key ∷ int_to_string start ∷ int_to_string end ∷ []) callback c

  unfoldable pub getset : Bytes → Bytes → Callback → Client S → Client S
  unfolding send
  getset key val callback c = send (codes "GETSET" ∷ key ∷ val ∷ []) callback c

  unfoldable pub incr : Bytes → Callback → Client S → Client S
  unfolding send
  incr key callback c = send (codes "INCR" ∷ key ∷ []) callback c

  unfoldable pub incrby : Bytes → ℤ → Callback → Client S → Client S
  unfolding send
  incrby key incr callback c = send (codes "INCRBY" ∷ key ∷ int_to_string incr ∷ []) callback c

  unfoldable pub mget : List Bytes → Callback → Client S → Client S
  unfolding send
  mget keys callback c = send (codes "MGET" ∷ keys) callback c

  unfoldable pub psetex : Bytes → ℤ → Bytes → Callback → Client S → Client S
  unfolding send
  psetex key milliseconds val callback c =
      send (codes "PSETEX" ∷ key ∷ int_to_string milliseconds ∷ val ∷ []) callback c

  unfoldable pub set : Bytes → Bytes → Callback → Client S → Client S
  unfolding send
  set key value callback c = send (codes "SET" ∷ key ∷ value ∷ []) callback c

  unfoldable pub set_advanced : Bytes → Bytes → Callback → Client S → Client S
  unfolding send
  set_advanced key value callback c = send (codes "SET" ∷ key ∷ value ∷ []) callback c

  unfoldable pub setbit_ : Bytes → ℤ → Bytes → Callback → Client S → Client S
  unfolding send
  setbit_ key offset value callback c =
      send (codes "SETBIT" ∷ key ∷ int_to_string offset ∷ value ∷ []) callback c

  unfoldable pub setex : Bytes → ℤ → Bytes → Callback → Client S → Client S
  unfolding send
  setex key seconds value callback c =
      send (codes "SETEX" ∷ key ∷ int_to_string seconds ∷ value ∷ []) callback c

  unfoldable pub setnx : Bytes → Bytes → Callback → Client S → Client S
  unfolding send
  setnx key value callback c = send (codes "SETNX" ∷ key ∷ value ∷ []) callback c

  unfoldable pub setrange : Bytes → ℤ → Bytes → Callback → Client S → Client S
  unfolding send
  setrange key offset value callback c =
      send (codes "SETRANGE" ∷ key ∷ int_to_string offset ∷ value ∷ []) callback c

  unfoldable pub strlen : Bytes → Callback → Client S → Client S
  unfolding send
  strlen key callback c = send (codes "STRLEN" ∷ key ∷ []) callback c
