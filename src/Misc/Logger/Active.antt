-- ===== src/Misc/Logger/Active.antt =====
-- The functions of sources/misc/logger.cpp that call `active_logger`, if there is one.
use cpp_redis.Prelude.{ℕ, Option, none, some, List, [], ◌∷◌, Bytes}
use cpp_redis.Misc.Logger
use cpp_redis.Misc.Logger.{Streams}

unfoldable pub debug : Option Logger.Logger → Bytes → Bytes → ℕ → Streams → Streams
unfolding Logger.debug
debug none msg file line s = s
debug (some l) msg file line s = Logger.debug l msg file line s

unfoldable pub info : Option Logger.Logger → Bytes → Bytes → ℕ → Streams → Streams
unfolding Logger.info
info none msg file line s = s
info (some l) msg file line s = Logger.info l msg file line s

unfoldable pub warn : Option Logger.Logger → Bytes → Bytes → ℕ → Streams → Streams
unfolding Logger.warn
warn none msg file line s = s
warn (some l) msg file line s = Logger.warn l msg file line s

unfoldable pub error : Option Logger.Logger → Bytes → Bytes → ℕ → Streams → Streams
unfolding Logger.error
error none msg file line s = s
error (some l) msg file line s = Logger.error l msg file line s

-- A use of the macro `__CPP_REDIS_LOG`, with the place it stands at.
pub record Message : Type 0 where
  pub level : Logger.LogLevel
  pub msg : Bytes
  pub file : Bytes
  pub line : ℕ

unfoldable pub log : Option Logger.Logger → Message → Streams → Streams
unfolding debug info warn error
log active m s = elim m.level [
  | Logger.error_level ↦ error active m.msg m.file m.line s
  | Logger.warn_level ↦ warn active m.msg m.file m.line s
  | Logger.info_level ↦ info active m.msg m.file m.line s
  | Logger.debug_level ↦ debug active m.msg m.file m.line s
]

unfoldable pub log_all : Option Logger.Logger → List Message → Streams → Streams
unfolding log
log_all active [] s = s
log_all active (m ∷ ms) s = log_all active ms (log active m s)
