-- ===== src/Core/Client/Futures/Sorting.antt =====
-- The commands of `client` that sort that give a future (sources/core/client.cpp).
use cpp_redis.Prelude.{Bool, Bytes, List, ℕ}
use cpp_redis.Core.Client.Commands.Sorting.{
  sort, sort_offset_count, sort_by_pattern, sort_store_dest, sort_offset_count_store_dest,
  sort_by_pattern_store_dest, sort_by_pattern_offset_count, sort_by_pattern_offset_count_store_dest,
}
use cpp_redis.Core.Client.Futures.{Promised, exec_cmd}

module _ {S : Type 0} where
  abbrev pub sort_future : Bytes → List Bytes → Bool → Bool → Promised S
  sort_future key get_patterns asc_order alpha = exec_cmd (sort key get_patterns asc_order alpha)

  abbrev pub sort_offset_count_future : Bytes → ℕ → ℕ → List Bytes → Bool → Bool → Promised S
  sort_offset_count_future key offset count get_patterns asc_order alpha =
      exec_cmd (sort_offset_count key offset count get_patterns asc_order alpha)

  abbrev pub sort_by_pattern_future : Bytes → Bytes → List Bytes → Bool → Bool → Promised S
  sort_by_pattern_future key by_pattern get_patterns asc_order alpha =
      exec_cmd (sort_by_pattern key by_pattern get_patterns asc_order alpha)

  abbrev pub sort_store_dest_future : Bytes → List Bytes → Bool → Bool → Bytes → Promised S
  sort_store_dest_future key get_patterns asc_order alpha store_dest =
      exec_cmd (sort_store_dest key get_patterns asc_order alpha store_dest)

  abbrev pub sort_offset_count_store_dest_future :
      Bytes → ℕ → ℕ → List Bytes → Bool → Bool → Bytes → Promised S
  sort_offset_count_store_dest_future key offset count get_patterns asc_order alpha store_dest =
      exec_cmd
        (sort_offset_count_store_dest key offset count get_patterns asc_order alpha store_dest)

  abbrev pub sort_by_pattern_store_dest_future :
      Bytes → Bytes → List Bytes → Bool → Bool → Bytes → Promised S
  sort_by_pattern_store_dest_future key by_pattern get_patterns asc_order alpha store_dest =
      exec_cmd (sort_by_pattern_store_dest key by_pattern get_patterns asc_order alpha store_dest)

  abbrev pub sort_by_pattern_offset_count_future :
      Bytes → Bytes → ℕ → ℕ → List Bytes → Bool → Bool → Promised S
  sort_by_pattern_offset_count_future key by_pattern offset count get_patterns asc_order alpha =
      exec_cmd
        (sort_by_pattern_offset_count key by_pattern offset count get_patterns asc_order alpha)

  abbrev pub sort_by_pattern_offset_count_store_dest_future :
      Bytes → Bytes → ℕ → ℕ → List Bytes → Bool → Bool → Bytes → Promised S
  sort_by_pattern_offset_count_store_dest_future key by_pattern offset count get_patterns asc_order
        alpha store_dest =
      exec_cmd (
        sort_by_pattern_offset_count_store_dest key by_pattern offset count get_patterns asc_order
          alpha store_dest)
