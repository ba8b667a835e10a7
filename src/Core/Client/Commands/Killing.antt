-- ===== src/Core/Client/Commands/Killing.antt =====
-- `client::client_kill` (includes/cpp_redis/impl/client.ipp), a template on the filters that it is
-- given; the callback, if there is one, is the last argument.
use cpp_redis.Prelude.{
  ℕ, Bool, List, [], ◌∷◌, ◌++◌, Bytes, codes, ℤ, to_string, int_to_string, if◌then◌else◌,
}
use cpp_redis.Core.Client.{Client, Callback, null, send}

-- `client_type`
pub data ClientType : Type 0 where
  normal master pubsub slave : ClientType

-- An argument that is not a callback: its type says which filter it is.
pub data KillFilter : Type 0 where
  type_filter : ClientType → KillFilter
  skip_filter : Bool → KillFilter
  id_filter : ℕ → KillFilter

abbrev type_string : ClientType → Bytes
type_string normal = codes "normal"
type_string master = codes "master"
type_string pubsub = codes "pubsub"
type_string slave = codes "slave"

-- `client_kill_unpack_arg`
abbrev client_kill_unpack_arg : KillFilter → List Bytes
client_kill_unpack_arg (type_filter t) = codes "TYPE" ∷ type_string t ∷ []
client_kill_unpack_arg (skip_filter skip) =
    codes "SKIPME" ∷ (if skip then codes "yes" else codes "no") ∷ []
client_kill_unpack_arg (id_filter id) = codes "ID" ∷ to_string id ∷ []

abbrev client_kill_impl : List KillFilter → List Bytes
client_kill_impl [] = []
client_kill_impl (arg ∷ args) = client_kill_unpack_arg arg ++ client_kill_impl args

-- `ADDR`, where the first argument is a filter
abbrev address_words : Bytes → List KillFilter → List Bytes
address_words address [] = address ∷ []
address_words address (arg ∷ args) = codes "ADDR" ∷ address ∷ client_kill_impl (arg ∷ args)

module _ {S : Type 0} where
  unfoldable pub client_kill : KillFilter → List KillFilter → Callback → Client S → Client S
  unfolding send
  client_kill arg args callback c =
      send (codes "CLIENT" ∷ codes "KILL" ∷ client_kill_impl (arg ∷ args)) callback c

  -- The overload on the address of a client, with the filters and the callback behind it.
  unfoldable pub client_kill_address : Bytes → ℤ → List KillFilter → Callback → Client S → Client S
  unfolding send
  client_kill_address host port args callback c =
      send
        (codes "CLIENT"
          ∷ codes "KILL"
          ∷ address_words (host ++ codes ":" ++ int_to_string port) args)
        callback c

  -- The overload on the address alone.
  unfoldable pub client_kill_only : Bytes → ℤ → Client S → Client S
  unfolding client_kill_address
  client_kill_only host port c = client_kill_address host port [] null c
