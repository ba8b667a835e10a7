-- ===== src/Core/Client/Commands/Keys.antt =====
-- The commands of `client` on keys (sources/core/client.cpp).
use cpp_redis.Prelude.{Bytes, List, [], codes, int_to_string, ℤ, ◌∷◌}
use cpp_redis.Core.Client.{Client, Callback, send}

module _ {S : Type 0} where
  unfoldable pub del : List Bytes → Callback → Client S → Client S
  unfolding send
  del key callback c = send (codes "DEL" ∷ key) callback c

  unfoldable pub dump : Bytes → Callback → Client S → Client S
  unfolding send
  dump key callback c = send (codes "DUMP" ∷ key ∷ []) callback c

  unfoldable pub exists : List Bytes → Callback → Client S → Client S
  unfolding send
  exists keys callback c = send (codes "EXISTS" ∷ keys) callback c

  unfoldable pub expire : Bytes → ℤ → Callback → Client S → Client S
  unfolding send
  expire key seconds callback c =
      send (codes "EXPIRE" ∷ key ∷ int_to_string seconds ∷ []) callback c

  unfoldable pub expireat : Bytes → ℤ → Callback → Client S → Client S
  unfolding send
  expireat key timestamp callback c =
      send (codes "EXPIREAT" ∷ key ∷ int_to_string timestamp ∷ []) callback c

  unfoldable pub keys : Bytes → Callback → Client S → Client S
  unfolding send
  keys pattern callback c = send (codes "KEYS" ∷ pattern ∷ []) callback c

  unfoldable pub migrate : Bytes → ℤ → Bytes → Bytes → ℤ → Callback → Client S → Client S
  unfolding send
  migrate host port key dest_db timeout callback c =
      send
        (codes "MIGRATE" ∷ host ∷ int_to_string port ∷ key ∷ dest_db ∷ int_to_string timeout ∷ [])
        callback c

  unfoldable pub move : Bytes → Bytes → Callback → Client S → Client S
  unfolding send
  move key db callback c = send (codes "MOVE" ∷ key ∷ db ∷ []) callback c

  unfoldable pub object : Bytes → List Bytes → Callback → Client S → Client S
  unfolding send
  object subcommand args callback c = send (codes "OBJECT" ∷ subcommand ∷ args) callback c

  unfoldable pub persist : Bytes → Callback → Client S → Client S
  unfolding send
  persist key callback c = send (codes "PERSIST" ∷ key ∷ []) callback c

  unfoldable pub pexpire : Bytes → ℤ → Callback → Client S → Client S
  unfolding send
  pexpire key milliseconds callback c =
      send (codes "PEXPIRE" ∷ key ∷ int_to_string milliseconds ∷ []) callback c

  unfoldable pub pexpireat : Bytes → ℤ → Callback → Client S → Client S
  unfolding send
  pexpireat key milliseconds_timestamp callback c =
      send (codes "PEXPIREAT" ∷ key ∷ int_to_string milliseconds_timestamp ∷ []) callback c

  unfoldable pub pttl : Bytes → Callback → Client S → Client S
  unfolding send
  pttl key callback c = send (codes "PTTL" ∷ key ∷ []) callback c

  unfoldable pub randomkey : Callback → Client S → Client S
  unfolding send
  randomkey callback c = send (codes "RANDOMKEY" ∷ []) callback c

  unfoldable pub rename : Bytes → Bytes → Callback → Client S → Client S
  unfolding send
  rename key newkey callback c = send (codes "RENAME" ∷ key ∷ newkey ∷ []) callback c

  unfoldable pub renamenx : Bytes → Bytes → Callback → Client S → Client S
  unfolding send
  renamenx key newkey callback c = send (codes "RENAMENX" ∷ key ∷ newkey ∷ []) callback c

  unfoldable pub restore : Bytes → ℤ → Bytes → Callback → Client S → Client S
  unfolding send
  restore key ttl serialized_value callback c =
      send (codes "RESTORE" ∷ key ∷ int_to_string ttl ∷ serialized_value ∷ []) callback c

  unfoldable pub restore_replace : Bytes → ℤ → Bytes → Bytes → Callback → Client S → Client S
  unfolding send
  restore_replace key ttl serialized_value replace callback c =
      send (codes "RESTORE" ∷ key ∷ int_to_string ttl ∷ serialized_value ∷ replace ∷ []) callback c

  unfoldable pub sort : Bytes → Callback → Client S → Client S
  unfolding send
  sort key callback c = send (codes "SORT" ∷ key ∷ []) callback c

  unfoldable pub ttl : Bytes → Callback → Client S → Client S
  unfolding send
  ttl key callback c = send (codes "TTL" ∷ key ∷ []) callback c

  unfoldable pub type : Bytes → Callback → Client S → Client S
  unfolding send
  type key callback c = send (codes "TYPE" ∷ key ∷ []) callback c

  unfoldable pub wait : ℤ → ℤ → Callback → Client S → Client S
  unfolding send
  wait numslaves timeout callback c =
      send (codes "WAIT" ∷ int_to_string numslaves ∷ int_to_string timeout ∷ []) callback c
