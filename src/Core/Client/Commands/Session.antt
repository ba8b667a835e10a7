-- ===== src/Core/Client/Commands/Session.antt =====
-- The commands of `client` of a session: scripts, transactions and messages (sources/core/client.cpp).
use cpp_redis.Prelude.{Bytes, List, [], codes, int_to_string, ℤ, ◌++◌, ◌∷◌}
use cpp_redis.Core.Client.{Client, Callback, send}

module _ {S : Type 0} where
  unfoldable pub discard : Callback → Client S → Client S
  unfolding send
  discard callback c = send (codes "DISCARD" ∷ []) callback c

  unfoldable pub echo : Bytes → Callback → Client S → Client S
  unfolding send
  echo msg callback c = send (codes "ECHO" ∷ msg ∷ []) callback c

  unfoldable pub eval : Bytes → ℤ → List Bytes → List Bytes → Callback → Client S → Client S
  unfolding send
  eval script numkeys keys args callback c =
      send (codes "EVAL" ∷ script ∷ int_to_string numkeys ∷ (keys ++ args)) callback c

  unfoldable pub evalsha : Bytes → ℤ → List Bytes → List Bytes → Callback → Client S → Client S
  unfolding send
  evalsha sha1 numkeys keys args callback c =
      send (codes "EVALSHA" ∷ sha1 ∷ int_to_string numkeys ∷ (keys ++ args)) callback c

  unfoldable pub exec : Callback → Client S → Client S
  unfolding send
  exec callback c = send (codes "EXEC" ∷ []) callback c

  unfoldable pub multi : Callback → Client S → Client S
  unfolding send
  multi callback c = send (codes "MULTI" ∷ []) callback c

  unfoldable pub ping : Callback → Client S → Client S
  unfolding send
  ping callback c = send (codes "PING" ∷ []) callback c

  unfoldable pub ping_message : Bytes → Callback → Client S → Client S
  unfolding send
  ping_message message callback c = send (codes "PING" ∷ message ∷ []) callback c

  unfoldable pub publish : Bytes → Bytes → Callback → Client S → Client S
  unfolding send
  publish channel message callback c = send (codes "PUBLISH" ∷ channel ∷ message ∷ []) callback c

  unfoldable pub pubsub : Bytes → List Bytes → Callback → Client S → Client S
  unfolding send
  pubsub subcommand args callback c = send (codes "PUBSUB" ∷ subcommand ∷ args) callback c

  unfoldable pub quit : Callback → Client S → Client S
  unfolding send
  quit callback c = send (codes "QUIT" ∷ []) callback c

  unfoldable pub readonly : Callback → Client S → Client S
  unfolding send
  readonly callback c = send (codes "READONLY" ∷ []) callback c

  unfoldable pub readwrite : Callback → Client S → Client S
  unfolding send
  readwrite callback c = send (codes "READWRITE" ∷ []) callback c

  unfoldable pub script_debug : Bytes → Callback → Client S → Client S
  unfolding send
  script_debug mode callback c = send (codes "SCRIPT" ∷ codes "DEBUG" ∷ mode ∷ []) callback c

  unfoldable pub script_exists : List Bytes → Callback → Client S → Client S
  unfolding send
  script_exists scripts callback c = send (codes "SCRIPT" ∷ codes "EXISTS" ∷ scripts) callback c

  unfoldable pub script_flush : Callback → Client S → Client S
  unfolding send
  script_flush callback c = send (codes "SCRIPT" ∷ codes "FLUSH" ∷ []) callback c

  unfoldable pub script_kill : Callback → Client S → Client S
  unfolding send
  script_kill callback c = send (codes "SCRIPT" ∷ codes "KILL" ∷ []) callback c

  unfoldable pub script_load : Bytes → Callback → Client S → Client S
  unfolding send
  script_load script callback c = send (codes "SCRIPT" ∷ codes "LOAD" ∷ script ∷ []) callback c

  unfoldable pub unwatch : Callback → Client S → Client S
  unfolding send
  unwatch callback c = send (codes "UNWATCH" ∷ []) callback c

  unfoldable pub watch : List Bytes → Callback → Client S → Client S
  unfolding send
  watch keys callback c = send (codes "WATCH" ∷ keys) callback c
