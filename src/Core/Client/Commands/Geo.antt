-- ===== src/Core/Client/Commands/Geo.antt =====
-- The commands of `client` on geographical sets (sources/core/client.cpp).
use cpp_redis.Prelude.{
  ℕ, Bool, List, [], ◌∷◌, ◌++◌, Bytes, codes, to_string, not, ltb, if◌then◌else◌,
}
use cpp_redis.Core.Client.{Client, Callback, send, is_empty}
use cpp_redis.Core.Client.Commands.Flags.{given}

-- `geo_unit`
pub data GeoUnit : Type 0 where
  m km ft mi : GeoUnit

abbrev pub geo_unit_to_string : GeoUnit → Bytes
geo_unit_to_string m = codes "m"
geo_unit_to_string km = codes "km"
geo_unit_to_string ft = codes "ft"
geo_unit_to_string mi = codes "mi"

-- The loop over the longitudes, latitudes and members.
unfoldable pub triple_words : List (Bytes × (Bytes × Bytes)) → List Bytes
triple_words [] = []
triple_words ((long, (lat, memb)) ∷ rest) = long ∷ lat ∷ memb ∷ triple_words rest

-- What stands behind the unit. Where a key for the store is given, the source writes "STOREDIST" and
-- the other key.
abbrev pub radius_words : Bool → Bool → Bool → Bool → ℕ → Bytes → Bytes → List Bytes
radius_words with_coord with_dist with_hash asc_order count store_key storedist_key =
    given with_coord (codes "WITHCOORD" ∷ [])
    ++ given with_dist (codes "WITHDIST" ∷ [])
    ++ given with_hash (codes "WITHHASH" ∷ [])
    ++ (if asc_order then codes "ASC" else codes "DESC")
      ∷ (given (ltb 0 count) (codes "COUNT" ∷ to_string count ∷ [])
          ++ given (not (is_empty store_key)) (codes "STOREDIST" ∷ storedist_key ∷ [])
          ++ given (not (is_empty storedist_key)) (codes "STOREDIST" ∷ storedist_key ∷ []))

module _ {S : Type 0} where
  unfoldable pub geoadd : Bytes → List (Bytes × (Bytes × Bytes)) → Callback → Client S → Client S
  unfolding send triple_words
  geoadd key long_lat_memb callback c =
      send (codes "GEOADD" ∷ key ∷ triple_words long_lat_memb) callback c

-- The text that `std::to_string` gives to a `double`.
module _ {D : Type 0} (number_to_string : D → Bytes) {S : Type 0} where
  unfoldable pub georadius_full :
      Bytes
      → D
      → D
      → D
      → GeoUnit
      → Bool
      → Bool
      → Bool
      → Bool
      → ℕ
      → Bytes
      → Bytes
      → Callback
      → Client S
      → Client S
  unfolding send
  georadius_full key longitude latitude radius unit with_coord with_dist with_hash asc_order count
        store_key storedist_key callback c =
      send
        (codes "GEORADIUS"
          ∷ key
          ∷ number_to_string longitude
          ∷ number_to_string latitude
          ∷ number_to_string radius
          ∷ geo_unit_to_string unit
          ∷ radius_words with_coord with_dist with_hash asc_order count store_key storedist_key)
        callback c

  unfoldable pub georadiusbymember_full :
      Bytes
      → Bytes
      → D
      → GeoUnit
      → Bool
      → Bool
      → Bool
      → Bool
      → ℕ
      → Bytes
      → Bytes
      → Callback
      → Client S
      → Client S
  unfolding send
  georadiusbymember_full key member radius unit with_coord with_dist with_hash asc_order count
        store_key storedist_key callback c =
      send
        (codes "GEORADIUSBYMEMBER"
          ∷ key
          ∷ member
          ∷ number_to_string radius
          ∷ geo_unit_to_string unit
          ∷ radius_words with_coord with_dist with_hash asc_order count store_key storedist_key)
        callback c

  unfoldable pub georadius :
      Bytes → D → D → D → GeoUnit → Bool → Bool → Bool → Bool → Callback → Client S → Client S
  unfolding georadius_full
  georadius key longitude latitude radius unit with_coord with_dist with_hash asc_order callback c =
      georadius_full key longitude latitude radius unit with_coord with_dist with_hash asc_order 0
        [] [] callback c

  unfoldable pub georadius_count :
      Bytes → D → D → D → GeoUnit → Bool → Bool → Bool → Bool → ℕ → Callback → Client S → Client S
  unfolding georadius_full
  georadius_count key longitude latitude radius unit with_coord with_dist with_hash asc_order count
        callback c =
      georadius_full key longitude latitude radius unit with_coord with_dist with_hash asc_order
        count [] [] callback c

  unfoldable pub georadius_store_key :
      Bytes
      → D
      → D
      → D
      → GeoUnit
      → Bool
      → Bool
      → Bool
      → Bool
      → Bytes
      → Callback
      → Client S
      → Client S
  unfolding georadius_full
  georadius_store_key key longitude latitude radius unit with_coord with_dist with_hash asc_order
        store_key callback c =
      georadius_full key longitude latitude radius unit with_coord with_dist with_hash asc_order 0
        store_key [] callback c

  unfoldable pub georadius_store_key_storedist_key :
      Bytes
      → D
      → D
      → D
      → GeoUnit
      → Bool
      → Bool
      → Bool
      → Bool
      → Bytes
      → Bytes
      → Callback
      → Client S
      → Client S
  unfolding georadius_full
  georadius_store_key_storedist_key key longitude latitude radius unit with_coord with_dist
        with_hash asc_order store_key storedist_key callback c =
      georadius_full key longitude latitude radius unit with_coord with_dist with_hash asc_order 0
        store_key storedist_key callback c

  unfoldable pub georadius_count_store_key :
      Bytes
      → D
      → D
      → D
      → GeoUnit
      → Bool
      → Bool
      → Bool
      → Bool
      → ℕ
      → Bytes
      → Callback
      → Client S
      → Client S
  unfolding georadius_full
  georadius_count_store_key key longitude latitude radius unit with_coord with_dist with_hash
        asc_order count store_key callback c =
      georadius_full key longitude latitude radius unit with_coord with_dist with_hash asc_order
        count store_key [] callback c

  unfoldable pub georadiusbymember :
      Bytes → Bytes → D → GeoUnit → Bool → Bool → Bool → Bool → Callback → Client S → Client S
  unfolding georadiusbymember_full
  georadiusbymember key member radius unit with_coord with_dist with_hash asc_order callback c =
      georadiusbymember_full key member radius unit with_coord with_dist with_hash asc_order 0 [] []
        callback c

  unfoldable pub georadiusbymember_count :
      Bytes → Bytes → D → GeoUnit → Bool → Bool → Bool → Bool → ℕ → Callback → Client S → Client S
  unfolding georadiusbymember_full
  georadiusbymember_count key member radius unit with_coord with_dist with_hash asc_order count
        callback c =
      georadiusbymember_full key member radius unit with_coord with_dist with_hash asc_order count
        [] [] callback c

  unfoldable pub georadiusbymember_store_key :
      Bytes
      → Bytes
      → D
      → GeoUnit
      → Bool
      → Bool
      → Bool
      → Bool
      → Bytes
      → Callback
      → Client S
      → Client S
  unfolding georadiusbymember_full
  georadiusbymember_store_key key member radius unit with_coord with_dist with_hash asc_order
        store_key callback c =
      georadiusbymember_full key member radius unit with_coord with_dist with_hash asc_order 0
        store_key [] callback c

  unfoldable pub georadiusbymember_store_key_storedist_key :
      Bytes
      → Bytes
      → D
      → GeoUnit
      → Bool
      → Bool
      → Bool
      → Bool
      → Bytes
      → Bytes
      → Callback
      → Client S
      → Client S
  unfolding georadiusbymember_full
  georadiusbymember_store_key_storedist_key key member radius unit with_coord with_dist with_hash
        asc_order store_key storedist_key callback c =
      georadiusbymember_full key member radius unit with_coord with_dist with_hash asc_order 0
        store_key storedist_key callback c

  unfoldable pub georadiusbymember_count_store_key :
      Bytes
      → Bytes
      → D
      → GeoUnit
      → Bool
      → Bool
      → Bool
      → Bool
      → ℕ
      → Bytes
      → Callback
      → Client S
      → Client S
  unfolding georadiusbymember_full
  georadiusbymember_count_store_key key member radius unit with_coord with_dist with_hash asc_order
        count store_key callback c =
      georadiusbymember_full key member radius unit with_coord with_dist with_hash asc_order count
        store_key [] callback c
