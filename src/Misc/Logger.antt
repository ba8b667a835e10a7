-- ===== src/Misc/Logger.antt =====
-- The logger (includes/cpp_redis/misc/logger.hpp, sources/misc/logger.cpp).
pub mod Active
pub mod Levels
use Prim.Native.String.{String}
use cpp_redis.Prelude.{ℕ, List, [], ◌∷◌, ◌++◌, Bytes, codes, to_string, leb, if◌then◌else◌}

-- `logger::log_level`
pub data LogLevel : Type 0 where
  error_level warn_level info_level debug_level : LogLevel

abbrev pub level_value : LogLevel → ℕ
level_value error_level = 0
level_value warn_level = 1
level_value info_level = 2
level_value debug_level = 3

pub record Logger : Type 0 where
  pub level : LogLevel

-- The lines on `std::cout` and on `std::cerr`.
pub record Streams : Type 0 where
  pub out : List Bytes
  pub err : List Bytes

-- The escape sequences `black`, `red`, `yellow`, `blue` and `normal`: 1b in hexadecimal, and a text.
abbrev colour : String → Bytes
colour s = 27 ∷ codes s

abbrev black : Bytes
black = colour "[1;30m"

abbrev red : Bytes
red = colour "[1;31m"

abbrev pub yellow : Bytes
yellow = colour "[1;33m"

abbrev blue : Bytes
blue = colour "[1;34m"

abbrev normal : Bytes
normal = colour "[0;39m"

abbrev pub line_of : Bytes → Bytes → Bytes → Bytes → ℕ → Bytes
line_of col name msg file line =
    codes "["
    ++ col
    ++ name
    ++ normal
    ++ codes "][cpp_redis]["
    ++ file
    ++ codes ":"
    ++ to_string line
    ++ codes "] "
    ++ msg

-- The members of `logger`. `std::cout` and `std::cerr` are passed and returned.
unfoldable pub debug : Logger → Bytes → Bytes → ℕ → Streams → Streams
debug l msg file line s =
    if leb 3 (level_value l.level)
    then record s { out = s.out ++ line_of black (codes "DEBUG") msg file line ∷ [] }
    else s

unfoldable pub info : Logger → Bytes → Bytes → ℕ → Streams → Streams
info l msg file line s =
    if leb 2 (level_value l.level)
    then record s { out = s.out ++ line_of blue (codes "INFO ") msg file line ∷ [] }
    else s

unfoldable pub warn : Logger → Bytes → Bytes → ℕ → Streams → Streams
warn l msg file line s =
    if leb 1 (level_value l.level)
    then record s { out = s.out ++ line_of yellow (codes "WARN ") msg file line ∷ [] }
    else s

unfoldable pub error : Logger → Bytes → Bytes → ℕ → Streams → Streams
error l msg file line s =
    if leb 0 (level_value l.level)
    then record s { err = s.err ++ line_of red (codes "ERROR") msg file line ∷ [] }
    else s
