-- ===== src/Core/Client/Futures/Geo.antt =====
-- The commands of `client` on geographical sets that give a future (sources/core/client.cpp).
use cpp_redis.Prelude.{Bool, Bytes, List, ℕ}
use cpp_redis.Core.Client.Commands.Geo.{geoadd, georadius_full, georadiusbymember_full}
use cpp_redis.Core.Client.Commands.Geo.{GeoUnit}
use cpp_redis.Core.Client.Futures.{Promised, exec_cmd}

module _ {S : Type 0} where
  abbrev pub geoadd_future : Bytes → List (Bytes × (Bytes × Bytes)) → Promised S
  geoadd_future key long_lat_memb = exec_cmd (geoadd key long_lat_memb)

-- The text that `std::to_string` gives to a number of a floating point type.
module _ {D : Type 0} (number_to_string : D → Bytes) {S : Type 0} where
  abbrev pub georadius_full_future :
      Bytes → D → D → D → GeoUnit → Bool → Bool → Bool → Bool → ℕ → Bytes → Bytes → Promised S
  georadius_full_future key longitude latitude radius unit with_coord with_dist with_hash asc_order
        count store_key storedist_key =
      exec_cmd (
        georadius_full number_to_string key longitude latitude radius unit with_coord with_dist
          with_hash asc_order count store_key storedist_key)

  abbrev pub georadiusbymember_full_future :
      Bytes → Bytes → D → GeoUnit → Bool → Bool → Bool → Bool → ℕ → Bytes → Bytes → Promised S
  georadiusbymember_full_future key member radius unit with_coord with_dist with_hash asc_order
        count store_key storedist_key =
      exec_cmd (
        georadiusbymember_full number_to_string key member radius unit with_coord with_dist
          with_hash asc_order count store_key storedist_key)
