-- ===== src/Core/Client/StoreKeys.antt =====
-- The keys that `georadius` and `georadiusbymember` of `client` may store their results under
-- (sources/core/client.cpp).
use cpp_redis.Prelude.{Bool, false, Bytes, ◌≡◌, refl, ℕ}
use cpp_redis.Core.Client.{Client, Callback, is_empty}
use cpp_redis.Core.Client.Commands.Geo.{GeoUnit, georadius_full, georadiusbymember_full}

module _ {D : Type 0} (number_to_string : D → Bytes) {S : Type 0} where
  -- Whether or not a key for the distances is given, the two commands send the same for any two keys
  -- for the results that are not empty: the key itself is not sent.
  pub georadius-store_key :
      (key member : Bytes) (longitude latitude radius : D) (unit : GeoUnit)
      (with_coord with_dist with_hash asc_order : Bool) (count : ℕ) (a b storedist_key : Bytes)
      (callback : Callback) (c : Client S)
      → is_empty a ≡ false
      → is_empty b ≡ false
      → (georadius_full number_to_string key longitude latitude radius unit with_coord with_dist
            with_hash asc_order count a storedist_key callback c
          ≡ georadius_full number_to_string key longitude latitude radius unit with_coord with_dist
              with_hash asc_order count b storedist_key callback c)
        × (georadiusbymember_full number_to_string key member radius unit with_coord with_dist
              with_hash asc_order count a storedist_key callback c
            ≡ georadiusbymember_full number_to_string key member radius unit with_coord with_dist
                with_hash asc_order count b storedist_key callback c)
  unfolding georadius_full georadiusbymember_full
  georadius-store_key key member longitude latitude radius unit with_coord with_dist with_hash
        asc_order count a b storedist_key callback c ha hb =
      rw (ha, hb) (refl, refl)
