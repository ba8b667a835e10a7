-- ===== src/Core/Client/Commands/Options.antt =====
-- The commands of `client` with pairs, operations or options (sources/core/client.cpp).
use cpp_redis.Prelude.{
  ℕ, List, [], ◌∷◌, ◌++◌, Bytes, codes, ℤ, pos, to_string, int_to_string, ltb, if◌then◌else◌,
}
use cpp_redis.Core.Client.{Client, Callback, send, is_empty}

-- `overflow_type`
pub data OverflowType : Type 0 where
  wrap sat fail server_default : OverflowType

-- `bitfield_operation_type`
pub data BitfieldOperationType : Type 0 where
  get set incrby : BitfieldOperationType

-- `bitfield_operation`
pub record BitfieldOperation : Type 0 where
  pub operation_type : BitfieldOperationType
  pub type : Bytes
  pub offset : ℤ
  pub value : ℤ
  pub overflow : OverflowType

-- `bitfield_operation::get`, `set` and `incrby`
abbrev pub get_operation : Bytes → ℤ → OverflowType → BitfieldOperation
get_operation type offset overflow = record {
  operation_type = get;
  type = type;
  offset = offset;
  value = pos 0;
  overflow = overflow;
}

abbrev pub set_operation : Bytes → ℤ → ℤ → OverflowType → BitfieldOperation
set_operation type offset value overflow = record {
  operation_type = set;
  type = type;
  offset = offset;
  value = value;
  overflow = overflow;
}

abbrev pub incrby_operation : Bytes → ℤ → ℤ → OverflowType → BitfieldOperation
incrby_operation type offset increment overflow = record {
  operation_type = incrby;
  type = type;
  offset = offset;
  value = increment;
  overflow = overflow;
}

abbrev pub bitfield_operation_type_to_string : BitfieldOperationType → Bytes
bitfield_operation_type_to_string get = codes "GET"
bitfield_operation_type_to_string set = codes "SET"
bitfield_operation_type_to_string incrby = codes "INCRBY"

abbrev pub overflow_type_to_string : OverflowType → Bytes
overflow_type_to_string wrap = codes "WRAP"
overflow_type_to_string sat = codes "SAT"
overflow_type_to_string fail = codes "FAIL"
overflow_type_to_string server_default = []

-- The value of an operation that has one.
abbrev value_words : BitfieldOperationType → ℤ → List Bytes
value_words get value = []
value_words set value = int_to_string value ∷ []
value_words incrby value = int_to_string value ∷ []

abbrev overflow_words : OverflowType → List Bytes
overflow_words server_default = []
overflow_words wrap = codes "OVERFLOW" ∷ overflow_type_to_string wrap ∷ []
overflow_words sat = codes "OVERFLOW" ∷ overflow_type_to_string sat ∷ []
overflow_words fail = codes "OVERFLOW" ∷ overflow_type_to_string fail ∷ []

-- The loop over the operations.
unfoldable pub operation_words : List BitfieldOperation → List Bytes
operation_words [] = []
operation_words (o ∷ os) =
    bitfield_operation_type_to_string o.operation_type
    ∷ o.type
    ∷ int_to_string o.offset
    ∷ (value_words o.operation_type o.value ++ (overflow_words o.overflow ++ operation_words os))

-- The loop over pairs of strings.
unfoldable pub pair_words : List (Bytes × Bytes) → List Bytes
pair_words [] = []
pair_words ((first, second) ∷ pairs) = first ∷ second ∷ pair_words pairs

-- What the scans write behind the cursor.
unfoldable pub scan_words : Bytes → ℕ → List Bytes
scan_words pattern count =
    (if is_empty pattern then [] else codes "MATCH" ∷ pattern ∷ [])
    ++ (if ltb 0 count then codes "COUNT" ∷ to_string count ∷ [] else [])

module _ {S : Type 0} where
  unfoldable pub bitfield : Bytes → List BitfieldOperation → Callback → Client S → Client S
  unfolding send operation_words
  bitfield key operations callback c =
      send (codes "BITFIELD" ∷ key ∷ operation_words operations) callback c

  unfoldable pub hmset : Bytes → List (Bytes × Bytes) → Callback → Client S → Client S
  unfolding send pair_words
  hmset key field_val callback c = send (codes "HMSET" ∷ key ∷ pair_words field_val) callback c

  unfoldable pub mset : List (Bytes × Bytes) → Callback → Client S → Client S
  unfolding send pair_words
  mset key_vals callback c = send (codes "MSET" ∷ pair_words key_vals) callback c

  unfoldable pub msetnx : List (Bytes × Bytes) → Callback → Client S → Client S
  unfolding send pair_words
  msetnx key_vals callback c = send (codes "MSETNX" ∷ pair_words key_vals) callback c

  -- The overloads of the scans without a pattern or a count give "" and 0.
  unfoldable pub scan : ℕ → Bytes → ℕ → Callback → Client S → Client S
  unfolding send scan_words
  scan cursor pattern count callback c =
      send (codes "SCAN" ∷ to_string cursor ∷ scan_words pattern count) callback c

  unfoldable pub hscan : Bytes → ℕ → Bytes → ℕ → Callback → Client S → Client S
  unfolding send scan_words
  hscan key cursor pattern count callback c =
      send (codes "HSCAN" ∷ key ∷ to_string cursor ∷ scan_words pattern count) callback c

  unfoldable pub sscan : Bytes → ℕ → Bytes → ℕ → Callback → Client S → Client S
  unfolding send scan_words
  sscan key cursor pattern count callback c =
      send (codes "SSCAN" ∷ key ∷ to_string cursor ∷ scan_words pattern count) callback c

  unfoldable pub zscan : Bytes → ℕ → Bytes → ℕ → Callback → Client S → Client S
  unfolding send scan_words
  zscan key cursor pattern count callback c =
      send (codes "ZSCAN" ∷ key ∷ to_string cursor ∷ scan_words pattern count) callback c
