-- ===== src/Core/Client/Commands/Flags.antt =====
-- The commands of `client` with flags (sources/core/client.cpp): each flag adds words to the command.
use cpp_redis.Prelude.{
  ℕ, Bool, List, [], ◌∷◌, ◌++◌, Bytes, codes, ℤ, to_string, int_to_string, map, if◌then◌else◌,
}
use cpp_redis.Core.Client.{Client, Callback, send}
use cpp_redis.Core.Client.Commands.Options.{pair_words}

-- `aggregate_method`
pub data AggregateMethod : Type 0 where
  sum min max server_default : AggregateMethod

-- `if (b) { cmd.push_back(…); … }`
abbrev pub given : Bool → List Bytes → List Bytes
given b words = if b then words else []

abbrev pub aggregate_method_to_string : AggregateMethod → Bytes
aggregate_method_to_string sum = codes "SUM"
aggregate_method_to_string min = codes "MIN"
aggregate_method_to_string max = codes "MAX"
aggregate_method_to_string server_default = []

abbrev pub aggregate_words : AggregateMethod → List Bytes
aggregate_words server_default = []
aggregate_words sum = codes "AGGREGATE" ∷ aggregate_method_to_string sum ∷ []
aggregate_words min = codes "AGGREGATE" ∷ aggregate_method_to_string min ∷ []
aggregate_words max = codes "AGGREGATE" ∷ aggregate_method_to_string max ∷ []

abbrev pub weight_words : List ℕ → List Bytes
weight_words [] = []
weight_words (w ∷ ws) = codes "WEIGHTS" ∷ map to_string (w ∷ ws)

abbrev pub key_words : List Bytes → List Bytes
key_words [] = []
key_words (k ∷ ks) = codes "KEYS" ∷ k ∷ ks

module _ {S : Type 0} where
  unfoldable pub migrate :
      Bytes → ℤ → Bytes → Bytes → ℤ → Bool → Bool → List Bytes → Callback → Client S → Client S
  unfolding send
  migrate host port key dest_db timeout copy replace keys callback c =
      send
        (codes "MIGRATE"
          ∷ host
          ∷ int_to_string port
          ∷ key
          ∷ dest_db
          ∷ int_to_string timeout
          ∷ (given copy (codes "COPY" ∷ [])
              ++ given replace (codes "REPLACE" ∷ [])
              ++ key_words keys))
        callback c

  unfoldable pub set_advanced :
      Bytes → Bytes → Bool → ℤ → Bool → ℤ → Bool → Bool → Callback → Client S → Client S
  unfolding send
  set_advanced key value ex ex_sec px px_milli nx xx callback c =
      send
        (codes "SET"
          ∷ key
          ∷ value
          ∷ (given ex (codes "EX" ∷ int_to_string ex_sec ∷ [])
              ++ given px (codes "PX" ∷ int_to_string px_milli ∷ [])
              ++ given nx (codes "NX" ∷ [])
              ++ given xx (codes "XX" ∷ [])))
        callback c

  -- The pairs of the multimap, in its order.
  unfoldable pub zadd : Bytes → List Bytes → List (Bytes × Bytes) → Callback → Client S → Client S
  unfolding send pair_words
  zadd key options score_members callback c =
      send (codes "ZADD" ∷ key ∷ (options ++ pair_words score_members)) callback c

  unfoldable pub zinterstore :
      Bytes → ℕ → List Bytes → List ℕ → AggregateMethod → Callback → Client S → Client S
  unfolding send
  zinterstore destination numkeys keys weights method callback c =
      send
        (codes "ZINTERSTORE"
          ∷ destination
          ∷ to_string numkeys
          ∷ (keys ++ weight_words weights ++ aggregate_words method))
        callback c

  unfoldable pub zunionstore :
      Bytes → ℕ → List Bytes → List ℕ → AggregateMethod → Callback → Client S → Client S
  unfolding send
  zunionstore destination numkeys keys weights method callback c =
      send
        (codes "ZUNIONSTORE"
          ∷ destination
          ∷ to_string numkeys
          ∷ (keys ++ weight_words weights ++ aggregate_words method))
        callback c

  unfoldable pub slowlog : Bytes → Callback → Client S → Client S
  unfolding send
  slowlog subcommand callback c = send (codes "SLOWLOG" ∷ subcommand ∷ []) callback c

  unfoldable pub slowlog_argument : Bytes → Bytes → Callback → Client S → Client S
  unfolding send
  slowlog_argument subcommand argument callback c =
      send (codes "SLOWLOG" ∷ subcommand ∷ argument ∷ []) callback c
