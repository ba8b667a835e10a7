-- ===== src/Core/Client/Commands/Sorting.antt =====
-- The command `sort` of `client` (sources/core/client.cpp) with its overloads.
use cpp_redis.Prelude.{
  ℕ, Bool, true, false, List, [], ◌∷◌, ◌++◌, Bytes, codes, to_string, not, if◌then◌else◌,
}
use cpp_redis.Core.Client.{Client, Callback, send, is_empty}
use cpp_redis.Core.Client.Commands.Flags.{given}

-- The loop over the patterns; an empty one is passed over.
unfoldable pub get_words : List Bytes → List Bytes
get_words [] = []
get_words (get_pattern ∷ rest) =
    given (not (is_empty get_pattern)) (codes "GET" ∷ get_pattern ∷ []) ++ get_words rest

module _ {S : Type 0} where
  unfoldable pub sort_full :
      Bytes
      → Bytes
      → Bool
      → ℕ
      → ℕ
      → List Bytes
      → Bool
      → Bool
      → Bytes
      → Callback
      → Client S
      → Client S
  unfolding send get_words
  sort_full key by_pattern limit offset count get_patterns asc_order alpha store_dest callback c =
      send
        (codes "SORT"
          ∷ key
          ∷ (given (not (is_empty by_pattern)) (codes "BY" ∷ by_pattern ∷ [])
              ++ given limit (codes "LIMIT" ∷ to_string offset ∷ to_string count ∷ [])
              ++ get_words get_patterns
              ++ (if asc_order then codes "ASC" else codes "DESC")
                ∷ (given alpha (codes "ALPHA" ∷ [])
                    ++ given (not (is_empty store_dest)) (codes "STORE" ∷ store_dest ∷ []))))
        callback c

  unfoldable pub sort : Bytes → List Bytes → Bool → Bool → Callback → Client S → Client S
  unfolding sort_full
  sort key get_patterns asc_order alpha callback c =
      sort_full key [] false 0 0 get_patterns asc_order alpha [] callback c

  unfoldable pub sort_offset_count :
      Bytes → ℕ → ℕ → List Bytes → Bool → Bool → Callback → Client S → Client S
  unfolding sort_full
  sort_offset_count key offset count get_patterns asc_order alpha callback c =
      sort_full key [] true offset count get_patterns asc_order alpha [] callback c

  unfoldable pub sort_by_pattern :
      Bytes → Bytes → List Bytes → Bool → Bool → Callback → Client S → Client S
  unfolding sort_full
  sort_by_pattern key by_pattern get_patterns asc_order alpha callback c =
      sort_full key by_pattern false 0 0 get_patterns asc_order alpha [] callback c

  unfoldable pub sort_store_dest :
      Bytes → List Bytes → Bool → Bool → Bytes → Callback → Client S → Client S
  unfolding sort_full
  sort_store_dest key get_patterns asc_order alpha store_dest callback c =
      sort_full key [] false 0 0 get_patterns asc_order alpha store_dest callback c

  unfoldable pub sort_offset_count_store_dest :
      Bytes → ℕ → ℕ → List Bytes → Bool → Bool → Bytes → Callback → Client S → Client S
  unfolding sort_full
  sort_offset_count_store_dest key offset count get_patterns asc_order alpha store_dest callback c =
      sort_full key [] true offset count get_patterns asc_order alpha store_dest callback c

  unfoldable pub sort_by_pattern_store_dest :
      Bytes → Bytes → List Bytes → Bool → Bool → Bytes → Callback → Client S → Client S
  unfolding sort_full
  sort_by_pattern_store_dest key by_pattern get_patterns asc_order alpha store_dest callback c =
      sort_full key by_pattern false 0 0 get_patterns asc_order alpha store_dest callback c

  unfoldable pub sort_by_pattern_offset_count :
      Bytes → Bytes → ℕ → ℕ → List Bytes → Bool → Bool → Callback → Client S → Client S
  unfolding sort_full
  sort_by_pattern_offset_count key by_pattern offset count get_patterns asc_order alpha callback c =
      sort_full key by_pattern true offset count get_patterns asc_order alpha [] callback c

  unfoldable pub sort_by_pattern_offset_count_store_dest :
      Bytes → Bytes → ℕ → ℕ → List Bytes → Bool → Bool → Bytes → Callback → Client S → Client S
  unfolding sort_full
  sort_by_pattern_offset_count_store_dest key by_pattern offset count get_patterns asc_order alpha
        store_dest callback c =
      sort_full key by_pattern true offset count get_patterns asc_order alpha store_dest callback c
